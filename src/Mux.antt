-- ===== src/Mux.antt =====
-- internal/mux/header.go: `WriteProxyMessage`, `ReadProxyMessage` and `UpgradeToBindingConnection`.
-- A byte is a number below 256. The connection and the protobuf encoding are parameters; decoding
-- says whether it succeeded, and gives the message as far as it was filled.
pub mod Laws
use ngrok_operator.Common.{
  ℕ, ◌+◌, ◌*◌, ◌/◌, ◌%◌, ◌^◌, String, Bool, true, false, not, ◌&&◌, ◌||◌, Option, none, some, List,
  [], ◌∷◌, ◌==◌, string_eq, length, if◌then◌else◌, ◌≡◌, refl,
}

-- A write sends all bytes or fails; a read gives exactly as many bytes as it is asked for or fails.
pub record Conn (W : Type 0) : Type 0 where
  pub write : W → List ℕ → Option String × W
  pub read_full : W → ℕ → Option (List ℕ) × W

pub record Proto (M : Type 0) : Type 0 where
  pub marshal : M → Option (List ℕ)
  pub unmarshal : List ℕ → Bool × M
  pub empty : M

pub data HeaderError : Type 0 where
  marshal_failed : HeaderError
  write_length_failed : HeaderError
  write_failed : HeaderError
  read_length_failed : HeaderError
  read_failed : HeaderError
  unmarshal_failed : HeaderError

-- `uint16(len(buf))`
abbrev pub header_length : List ℕ → ℕ
header_length buf = length buf % 2 ^ 16

-- `binary.LittleEndian`
abbrev pub little_endian : ℕ → List ℕ
little_endian n = n % 256 ∷ (n / 256 % 256 ∷ [])

abbrev pub from_little_endian : List ℕ → ℕ
from_little_endian (lo ∷ hi ∷ []) = lo + 256 * hi
from_little_endian _ = 0

abbrev pub write_outcome : Option String → Option HeaderError
write_outcome none = none
write_outcome (some e) = some write_failed

module _ {W M : Type 0} (conn : Conn W) (proto : Proto M) where
  abbrev pub after_length : List ℕ → Option String × W → Option HeaderError × W
  after_length buf (some e, w) = (some write_length_failed, w)
  after_length buf (none, w) = let (failed, w') = conn.write w buf in (write_outcome failed, w')

  abbrev pub write_marshalled : Option (List ℕ) → W → Option HeaderError × W
  write_marshalled none w = (some marshal_failed, w)
  write_marshalled (some buf) w =
      after_length buf (conn.write w (little_endian (header_length buf)))

  unfoldable pub write_proxy_message : M → W → Option HeaderError × W
  write_proxy_message msg w = write_marshalled (proto.marshal msg) w

  -- The error, if any, and the message as it was filled.
  abbrev pub unmarshalled : Bool × M → Option HeaderError × M
  unmarshalled (true, msg) = (none, msg)
  unmarshalled (false, msg) = (some unmarshal_failed, msg)

  abbrev pub after_header : Option (List ℕ) × W → (Option HeaderError × M) × W
  after_header (none, w) = ((some read_failed, proto.empty), w)
  after_header (some buf, w) = (unmarshalled (proto.unmarshal buf), w)

  abbrev pub after_header_length : Option (List ℕ) × W → (Option HeaderError × M) × W
  after_header_length (none, w) = ((some read_length_failed, proto.empty), w)
  after_header_length (some two, w) = after_header (conn.read_full w (from_little_endian two))

  unfoldable pub read_proxy_message : W → (Option HeaderError × M) × W
  read_proxy_message w = after_header_length (conn.read_full w 2)

-- What is read of a response.
pub record ConnResponse : Type 0 where
  pub error_code : String
  pub error_message : String

pub data UpgradeError : Type 0 where
  header_error : HeaderError → UpgradeError
  binding_upgrade_failure : ConnResponse → UpgradeError

abbrev to_upgrade_error : Option HeaderError → Option UpgradeError
to_upgrade_error none = none
to_upgrade_error (some e) = some (header_error e)

-- An error of the response replaces one of the exchange.
abbrev upgrade_answer : Option HeaderError × ConnResponse → ConnResponse × Option UpgradeError
upgrade_answer (e, resp) = (
  resp,
  if not (resp.error_code == "") || not (resp.error_message == "")
      then some (binding_upgrade_failure resp)
      else to_upgrade_error e,
)

module _ {W R : Type 0} (conn : Conn W) (requests : Proto R) (responses : Proto ConnResponse) where
  unfoldable pub upgrade_to_binding_connection : R → W → (ConnResponse × Option UpgradeError) × W
  upgrade_to_binding_connection request w =
      let (failed, w') = write_proxy_message conn requests request w in
      elim failed [
        | some e ↦ ((responses.empty, some (header_error e)), w')
        | none ↦
            let (answer, w'') = read_proxy_message conn responses w' in (upgrade_answer answer, w'')
      ]
