-- ===== src/Drain/Reports.antt =====
-- What a drain reports: the errors in the status, and the draining flag.
use Prim.Native.Char.{Char}
use ngrok_operator.Common.{
  ℕ, zero, suc, ◌-◌, ◌≤◌, String, Bool, true, false, Option, none, some, List, [], ◌∷◌, map, ltb,
  length, take, drop, All, if◌then◌else◌, ◌≡◌, refl, arith, Bool-cases, inl, inr,
}
use ngrok_operator.Names.{chars, text}
use ngrok_operator.Names.Laws.{chars-text}
use ngrok_operator.Drain.{
  bounded_drain_errors, max_drain_errors, max_drain_error_length, is_draining, set_draining,
}

length-drop {ℓ} : {A : Type ℓ} (n : ℕ) (xs : List A) → length (drop n xs) ≡ length xs - n
length-drop zero xs = omega arith
length-drop (suc n) [] = omega arith
length-drop (suc n) (x ∷ xs) = omega (arith, length-drop n xs)

length-map {ℓ} : {A B : Type ℓ} (f : A → B) (xs : List A) → length (map f xs) ≡ length xs
length-map f [] = refl
length-map f (x ∷ xs) = omega (arith, length-map f xs)

All-map :
    (f : String → String) (P : String → Type 0)
    → ((s : String) → P (f s))
    → (xs : List String) → All P (map f xs)
All-map f P h [] = tt
All-map f P h (x ∷ xs) = (h x, All-map f P h xs)

take-short : (n : ℕ) (cs : List Char) → length (take n cs) ≤ n
take-short zero cs = omega arith
take-short (suc n) [] = omega arith
take-short (suc n) (c ∷ cs) = omega (arith, take-short n cs)

-- What the status takes of an error: its first characters.
abbrev shortened : String → String
shortened message =
    if ltb max_drain_error_length (length (chars message))
    then text (take max_drain_error_length (chars message))
    else message

shortened-length : (s : String) → length (chars (shortened s)) ≤ max_drain_error_length
shortened-length s = elim (Bool-cases (ltb max_drain_error_length (length (chars s)))) [
  | inl long ↦
      rw (long, chars-text (take max_drain_error_length (chars s)))
        (take-short max_drain_error_length (chars s))
  | inr short ↦ rw short (ground arith)
]

-- What the errors of a drain and those of its status have to do with each other.
record IsBounded (errors reported : List String) : Type 0 where
  few : length reported ≤ max_drain_errors
  short : All (λ (s : String). length (chars s) ≤ max_drain_error_length) reported
  all_of_them : length errors ≤ max_drain_errors → length reported ≡ length errors
  verbatim :
      All (λ (s : String). length (chars s) ≤ max_drain_error_length) errors
      → reported ≡ drop (length errors - max_drain_errors) errors

map-shortened :
    (xs : List String)
    → All (λ (s : String). length (chars s) ≤ max_drain_error_length) xs
    → map shortened xs ≡ xs
map-shortened [] h = refl
map-shortened (x ∷ xs) (p, h) = ground (arith, map-shortened xs h)

All-drop : (P : String → Type 0) (n : ℕ) (xs : List String) → All P xs → All P (drop n xs)
All-drop P zero xs h = h
All-drop P (suc n) [] h = tt
All-drop P (suc n) (x ∷ xs) (p, h) = All-drop P n xs h

drop-last :
    (errors : List String)
    → (if ltb max_drain_errors (length errors)
        then drop (length errors - max_drain_errors) errors
        else errors)
      ≡ drop (length errors - max_drain_errors) errors
drop-last errors = elim (Bool-cases (ltb max_drain_errors (length errors))) [
  | inl more ↦ rw more refl
  | inr few ↦
      let zero_gap : length errors - max_drain_errors ≡ 0 = ground arith in rw (few, zero_gap) refl
]

-- Whatever the errors: at most 20 are reported, each of at most 1024 characters; as many as there
-- were, if these were at most 20; and if none of them was too long, the last ones, unchanged.
bounded_drain_errors-IsBounded :
    (errors : List String) → IsBounded errors (bounded_drain_errors errors)
unfolding bounded_drain_errors
bounded_drain_errors-IsBounded errors =
    let n = length errors - max_drain_errors in
    rw drop-last (record {
      few = omega (arith, length-map shortened (drop n errors), length-drop n errors);
      short =
          All-map shortened (λ s. length (chars s) ≤ max_drain_error_length) shortened-length
            (drop n errors);
      all_of_them = λ h. omega (arith, length-map shortened (drop n errors), length-drop n errors);
      verbatim = λ h.
          map-shortened (drop n errors)
            (All-drop (λ s. length (chars s) ≤ max_drain_error_length) n errors h);
    })

-- The flag and the answers of a checker that is asked again and again, while the resource answers
-- as it likes.
abbrev ask : Bool → List (Option Bool) → List Bool
ask flag [] = []
ask flag (reply ∷ replies) = (is_draining flag reply).1 ∷ ask (is_draining flag reply).0 replies

-- Once an answer is yes, so are all later ones.
abbrev NeverResets : List Bool → Type 0
NeverResets [] = Unit
NeverResets (b ∷ bs) = (b ≡ true → All (λ (x : Bool). x ≡ true) bs) × NeverResets bs

ask-true : (replies : List (Option Bool)) → All (λ (x : Bool). x ≡ true) (ask true replies)
unfolding is_draining
ask-true [] = tt
ask-true (reply ∷ replies) = (refl, ask-true replies)

ask-NeverResets-true : (replies : List (Option Bool)) → NeverResets (ask true replies)
unfolding is_draining
ask-NeverResets-true [] = tt
ask-NeverResets-true (reply ∷ replies) = (λ e. ask-true replies, ask-NeverResets-true replies)

-- However the resource answers, even when it cannot be read: draining never ends once it was
-- observed; and after `SetDraining` every answer is yes.
ask-NeverResets :
    (flag : Bool) (replies : List (Option Bool))
    → NeverResets (ask flag replies)
      × All (λ (x : Bool). x ≡ true) (ask (set_draining flag) replies)
unfolding set_draining is_draining
ask-NeverResets flag replies = (go flag replies, ask-true replies)
  where
    go : (b : Bool) (rs : List (Option Bool)) → NeverResets (ask b rs)
    go true rs = ask-NeverResets-true rs
    go false [] = tt
    go false (none ∷ rs) = (λ e. cc, go false rs)
    go false (some true ∷ rs) = (λ e. ask-true rs, ask-NeverResets-true rs)
    go false (some false ∷ rs) = (λ e. cc, go false rs)
