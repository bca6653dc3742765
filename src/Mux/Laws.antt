-- ===== src/Mux/Laws.antt =====
-- A header of internal/mux/header.go that is written and read again.
use ngrok_operator.Common.{
  take, drop, length-append, sym, ◌≤◌, ℕ, ◌^◌, ◌<◌, ◌≤◌, String, true, Option, none, some, List, [],
  ◌∷◌, ◌++◌, length, take, drop, length-append, ◌≡◌, refl, arith, ap, sym, ◌∙◌, subst,
}
use ngrok_operator.Mux.{
  write_outcome, unmarshalled, after_header, header_length, from_little_endian, little_endian, Conn,
  Proto, header_length, little_endian, from_little_endian, after_length, write_proxy_message,
  unmarshalled, after_header, after_header_length, read_proxy_message,
}

-- A connection whose reader gets what its writer sent, in order; `sent` is what was not read yet.
pub record PipeLaws {W : Type 0} (conn : Conn W) : Type 0 where
  pub sent : W → List ℕ
  pub sent-write :
      (w : W) (bs : List ℕ) → (conn.write w bs).0 ≡ none → sent (conn.write w bs).1 ≡ sent w ++ bs
  pub read_enough :
      (w : W) (n : ℕ) → n ≤ length (sent w) → (conn.read_full w n).0 ≡ some (take n (sent w))
  pub sent-read_full :
      (w : W) (n : ℕ) → n ≤ length (sent w) → sent (conn.read_full w n).1 ≡ drop n (sent w)

from_little_endian_lem : (n : ℕ) → n < 2 ^ 16 → from_little_endian (little_endian n) ≡ n
from_little_endian_lem n h = ground arith

take-append : (xs ys : List ℕ) → take (length xs) (xs ++ ys) ≡ xs
take-append [] ys = refl
take-append (x ∷ xs) ys = ap (λ l. x ∷ l) (take-append xs ys)

drop-append : (xs ys : List ℕ) → drop (length xs) (xs ++ ys) ≡ ys
drop-append [] ys = refl
drop-append (x ∷ xs) ys = drop-append xs ys

append_nil : (xs : List ℕ) → xs ++ [] ≡ xs
append_nil [] = refl
append_nil (x ∷ xs) = ap (λ l. x ∷ l) (append_nil xs)

write_outcome-none : (o : Option String) → write_outcome o ≡ none → o ≡ none
write_outcome-none none h = refl
write_outcome-none (some e) h = cc

module _ {W M : Type 0} (conn : Conn W) (proto : Proto M) (laws : PipeLaws conn) where
  -- What a write that returned no error has sent.
  sent-write_proxy_message :
      (w : W) (msg : M) (buf : List ℕ)
      → proto.marshal msg ≡ some buf
      → (write_proxy_message conn proto msg w).0 ≡ none
      → laws.sent (write_proxy_message conn proto msg w).1
        ≡ (laws.sent w ++ little_endian (header_length buf)) ++ buf
  unfolding write_proxy_message
  sent-write_proxy_message w msg buf m ok = rw m (sent_length (conn.write w two) refl (rw m at ok))
    where
      two : List ℕ
      two = little_endian (header_length buf)

      sent_length :
          (r : Option String × W)
          → conn.write w two ≡ r
          → (after_length conn proto buf r).0 ≡ none
          → laws.sent (after_length conn proto buf r).1 ≡ (laws.sent w ++ two) ++ buf
      sent_length (some err, x) e g = cc
      sent_length (none, x) e g =
          laws.sent-write x buf (write_outcome-none (conn.write x buf).0 g)
          ∙ ap (λ l. l ++ buf)
              (ap (λ r. laws.sent r.1) (sym e) ∙ laws.sent-write w two (ap (λ r. r.0) e))

  -- What a read gives of a header in front of the bytes that were not read yet.
  read_one :
      (w : W) (msg : M) (buf rest : List ℕ)
      → proto.unmarshal buf ≡ (true, msg)
      → length buf < 2 ^ 16
      → laws.sent w ≡ little_endian (header_length buf) ++ (buf ++ rest)
      → ((read_proxy_message conn proto w).0 ≡ (none, msg))
        × (laws.sent (read_proxy_message conn proto w).1 ≡ rest)
  unfolding read_proxy_message
  read_one w msg buf rest u small at =
      let n = header_length buf in
      let two = laws.read_enough w 2 (subst (λ l. 2 ≤ length l) (sym at) (omega arith)) in
      let (_, w1) = conn.read_full w 2 in
      let behind : laws.sent w1 ≡ buf ++ rest =
        laws.sent-read_full w 2 (subst (λ l. 2 ≤ length l) (sym at) (omega arith))
        ∙ ap (drop 2) at in
      let size : from_little_endian (little_endian n) ≡ length buf =
        ground (arith, from_little_endian_lem n) in
      let enough : length buf ≤ length (laws.sent w1) =
        subst (λ l. length buf ≤ length l) (sym behind) (omega (arith, length-append buf rest)) in
      let body =
        laws.read_enough w1 (length buf) enough
        ∙ ap some (ap (take (length buf)) behind ∙ take-append buf rest) in
      let (_, w2) = conn.read_full w1 (length buf) in
      let whole : read_proxy_message conn proto w ≡ ((none, msg), w2) =
        ap (λ o. after_header_length conn proto (o, w1)) (two ∙ ap some (ap (take 2) at))
        ∙ ap (λ k. after_header conn proto (conn.read_full w1 k)) size
        ∙ ap (λ o. after_header conn proto (o, w2)) body
        ∙ ap (λ r. (unmarshalled conn proto r, w2)) u in
      (
        ap (λ r. r.0) whole,
        ap (λ r. laws.sent r.1) whole
            ∙ laws.sent-read_full w1 (length buf) enough
            ∙ ap (drop (length buf)) behind
            ∙ drop-append buf rest,
      )

  -- On a connection whose reader gets what its writer sent, with nothing on its way: a message whose
  -- encoding is shorter than 65536 bytes and decodes to the message is read as it was written, if the
  -- write returned no error, and no byte is left.
  pub header_roundtrip :
      (w : W) (msg : M) (buf : List ℕ)
      → proto.marshal msg ≡ some buf
      → proto.unmarshal buf ≡ (true, msg)
      → length buf < 2 ^ 16
      → laws.sent w ≡ []
      → (write_proxy_message conn proto msg w).0 ≡ none
      → let w' = (write_proxy_message conn proto msg w).1 in
        ((read_proxy_message conn proto w').0 ≡ (none, msg))
        × (laws.sent (read_proxy_message conn proto w').1 ≡ [])
  header_roundtrip w msg buf m u small clear ok =
      read_one (write_proxy_message conn proto msg w).1 msg buf [] u small (
        sent-write_proxy_message w msg buf m ok
        ∙ ap (λ l. (l ++ little_endian (header_length buf)) ++ buf) clear
        ∙ ap (λ l. little_endian (header_length buf) ++ l) (sym (append_nil buf)))
