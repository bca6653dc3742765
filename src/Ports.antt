-- ===== src/Ports.antt =====
-- internal/controller/bindings/port_allocator.go: the ports of bound endpoints, a bitmap of
-- github.com/docker/docker/libnetwork that is shifted by the first port. The bitmap is a parameter,
-- with its documented behaviour as laws. An error is `none`; the lock of each method makes it one
-- step. A port is a uint16 and wraps around.
pub mod Laws
pub mod Traces
pub mod Capacity
use ngrok_operator.Common.{
  ℕ, ◌+◌, ◌-◌, ◌%◌, ◌<◌, Bool, true, false, Option, none, some, List, [], ◌∷◌, ltb, ◌==◌, nat_eq,
  if◌then◌else◌, ◌≡◌, ◌≢◌,
}

-- What the code calls of the bitmap. An operation that fails leaves it as it is.
pub record Bitmap (B : Type 0) : Type 0 where
  pub new : ℕ → B
  pub set : B → ℕ → Option B
  pub set_any : B → Option (ℕ × B)
  pub is_set : B → ℕ → Bool
  pub unset : B → ℕ → Option B
  pub unselected : B → ℕ

-- The documented behaviour, with `bits b` the number of bits: a new bitmap is clear; `Set` fails on
-- a bit out of range or already set, and sets no other bit; `SetAny` sets a clear bit, and fails
-- when there is none; `Unset` clears one bit, and does not fail on a bit in range.
pub record BitmapLaws {B : Type 0} (ops : Bitmap B) : Type 0 where
  pub bits : B → ℕ
  pub bits_new : (n : ℕ) → bits (ops.new n) ≡ n
  pub is_set_new : (n i : ℕ) → ops.is_set (ops.new n) i ≡ false
  pub set_range : (b : B) (i : ℕ) (b' : B) → ops.set b i ≡ some b' → i < bits b
  pub set_clear : (b : B) (i : ℕ) (b' : B) → ops.set b i ≡ some b' → ops.is_set b i ≡ false
  pub set_bits : (b : B) (i : ℕ) (b' : B) → ops.set b i ≡ some b' → bits b' ≡ bits b
  pub set_after :
      (b : B) (i : ℕ) (b' : B)
      → ops.set b i ≡ some b'
      → (j : ℕ) → ops.is_set b' j ≡ (if i == j then true else ops.is_set b j)
  pub set_free : (b : B) (i : ℕ) → i < bits b → ops.is_set b i ≡ false → ops.set b i ≢ none
  pub set_any_set : (b : B) (i : ℕ) (b' : B) → ops.set_any b ≡ some (i, b') → ops.set b i ≡ some b'
  pub set_any_free : (b : B) (i : ℕ) → i < bits b → ops.is_set b i ≡ false → ops.set_any b ≢ none
  pub unset_in_range : (b : B) (i : ℕ) → i < bits b → ops.unset b i ≢ none
  pub unset_bits : (b : B) (i : ℕ) (b' : B) → ops.unset b i ≡ some b' → bits b' ≡ bits b
  pub unset_after :
      (b : B) (i : ℕ) (b' : B)
      → ops.unset b i ≡ some b'
      → (j : ℕ) → ops.is_set b' j ≡ (if i == j then false else ops.is_set b j)

pub record PortBitmap (B : Type 0) : Type 0 where
  pub start : ℕ
  pub ports : B

-- The values of a uint16.
abbrev pub uint16 : ℕ
uint16 = 65536

module _ {B : Type 0} (ops : Bitmap B) where
  -- The range is from `start` up to, and without, `end`; the difference wraps around.
  unfoldable pub new_port_bitmap : ℕ → ℕ → PortBitmap B
  new_port_bitmap start end = record {
    start = start;
    ports = ops.new ((end + (uint16 - start)) % uint16);
  }

  -- A bitmap in place of the one inside.
  abbrev pub with_ports : PortBitmap B → Option B → Option (PortBitmap B)
  with_ports pb none = none
  with_ports pb (some b) = some (record pb { ports = b })

  unfoldable pub set : PortBitmap B → ℕ → Option (PortBitmap B)
  set pb port =
      if ltb port pb.start then none else with_ports pb (ops.set pb.ports (port - pb.start))

  -- The port of the bit that was set.
  abbrev pub taken : PortBitmap B → Option (ℕ × B) → Option (ℕ × PortBitmap B)
  taken pb none = none
  taken pb (some (i, b)) = some ((i % uint16 + pb.start) % uint16, record pb { ports = b })

  unfoldable pub set_any : PortBitmap B → Option (ℕ × PortBitmap B)
  set_any pb = taken pb (ops.set_any pb.ports)

  unfoldable pub is_set : PortBitmap B → ℕ → Option Bool
  is_set pb port = if ltb port pb.start then none else some (ops.is_set pb.ports (port - pb.start))

  unfoldable pub unset : PortBitmap B → ℕ → Option (PortBitmap B)
  unset pb port =
      if ltb port pb.start then none else with_ports pb (ops.unset pb.ports (port - pb.start))

  unfoldable pub num_free : PortBitmap B → ℕ
  num_free pb = ops.unselected pb.ports

  unfoldable pub replace : PortBitmap B → PortBitmap B → PortBitmap B
  replace pb other = record pb { ports = other.ports }
