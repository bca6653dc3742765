-- ===== src/Names/Laws.antt =====
-- `sanitizeStringForK8sName` of pkg/managerdriver/utils.go, against the form of a Kubernetes name.
use Prim.Native.Char.{Char}
use ngrok_operator.Common.{
  ℕ, zero, suc, ◌≤◌, String, Bool, true, false, List, [], ◌∷◌, ◌++◌, ltb, length, take,
  length-append, if◌then◌else◌, ◌≡◌, ◌≢◌, refl, arith, All, All-append, Bool-cases, inl, inr, ap,
}
use ngrok_operator.Names.{
  chars, text, dash, is_alnum_lower, is_name_char, squeeze, trim_leading, trim_trailing, or_default,
  bounded, lower_all, replace_wildcards, sanitize_chars_for_k8s_name, sanitize_string_for_k8s_name,
  keep_unless_last,
}

abbrev pub AreNameChars : List Char → Type 0
AreNameChars = All (λ c. is_name_char c ≡ true)

abbrev pub StartsAlnum : List Char → Type 0
StartsAlnum [] = ⊥
StartsAlnum (c ∷ cs) = is_alnum_lower c ≡ true

abbrev pub EndsAlnum : List Char → Type 0
EndsAlnum [] = ⊥
EndsAlnum (c ∷ []) = is_alnum_lower c ≡ true
EndsAlnum (c ∷ d ∷ cs) = EndsAlnum (d ∷ cs)

-- A DNS label of at most 63 characters that may have dots inside.
pub record IsName (cs : List Char) : Type 0 where
  pub valid : AreNameChars cs
  pub starts : StartsAlnum cs
  pub ends : EndsAlnum cs
  pub short : length cs ≤ 63

-- The hash has at least 8 digits in hexadecimal.
pub record IsHex (cs : List Char) : Type 0 where
  pub digits : All (λ c. is_alnum_lower c ≡ true) cs
  pub long : 8 ≤ length cs

squeeze-valid : (in_run : Bool) (cs : List Char) → AreNameChars (squeeze in_run cs)
unfolding squeeze
squeeze-valid in_run [] = tt
squeeze-valid in_run (c ∷ cs) = ground (arith, squeeze-valid true cs, squeeze-valid false cs)

trim_leading-valid : (cs : List Char) → AreNameChars cs → AreNameChars (trim_leading cs)
unfolding trim_leading
trim_leading-valid [] h = tt
trim_leading-valid (c ∷ cs) (p, h) = ground (arith, trim_leading-valid cs h)

abbrev EmptyOr : (List Char → Type 0) → List Char → Type 0
EmptyOr P [] = Unit
EmptyOr P (c ∷ cs) = P (c ∷ cs)

trim_leading-starts : (cs : List Char) → EmptyOr StartsAlnum (trim_leading cs)
unfolding trim_leading
trim_leading-starts [] = tt
trim_leading-starts (c ∷ cs) = elim (Bool-cases (is_alnum_lower c)) [
  | inl e ↦ rw e e
  | inr e ↦ rw e (trim_leading-starts cs)
]

trim_trailing-valid : (cs : List Char) → AreNameChars cs → AreNameChars (trim_trailing cs)
unfolding trim_trailing
trim_trailing-valid [] h = tt
trim_trailing-valid (c ∷ cs) (p, h) = keep (trim_trailing cs) (trim_trailing-valid cs h)
  where
    keep : (r : List Char) → AreNameChars r → AreNameChars (keep_unless_last c r)
    keep [] k = ground arith
    keep (d ∷ ds) k = (p, k)

trim_trailing-ends : (cs : List Char) → EmptyOr EndsAlnum (trim_trailing cs)
unfolding trim_trailing
trim_trailing-ends [] = tt
trim_trailing-ends (c ∷ cs) = keep (trim_trailing cs) (trim_trailing-ends cs)
  where
    last : (b : Bool) → is_alnum_lower c ≡ b → EmptyOr EndsAlnum (if b then c ∷ [] else [])
    last true e = e
    last false e = tt

    keep : (r : List Char) → EmptyOr EndsAlnum r → EmptyOr EndsAlnum (keep_unless_last c r)
    keep [] k = last (is_alnum_lower c) refl
    keep (d ∷ ds) k = k

trim_trailing-starts :
    (cs : List Char) → EmptyOr StartsAlnum cs → EmptyOr StartsAlnum (trim_trailing cs)
unfolding trim_trailing
trim_trailing-starts [] h = tt
trim_trailing-starts (c ∷ cs) h = keep (trim_trailing cs)
  where
    keep : (r : List Char) → EmptyOr StartsAlnum (keep_unless_last c r)
    keep [] = rw h h
    keep (d ∷ ds) = h

-- A name but for its length.
record IsLongName (cs : List Char) : Type 0 where
  valid : AreNameChars cs
  starts : StartsAlnum cs
  ends : EndsAlnum cs

or_default-IsLongName :
    (cs : List Char)
    → AreNameChars cs
    → EmptyOr StartsAlnum cs
    → EmptyOr EndsAlnum cs
    → IsLongName (or_default cs)
unfolding or_default
or_default-IsLongName [] v s e = record {
  valid = (refl, (refl, (refl, (refl, (refl, (refl, (refl, tt)))))));
  starts = refl;
  ends = refl;
}
or_default-IsLongName (c ∷ cs) v s e = record { valid = v; starts = s; ends = e }

All-take {ℓ κ} : {A : Type ℓ} (P : A → Type κ) (n : ℕ) (xs : List A) → All P xs → All P (take n xs)
All-take P zero [] h = tt
All-take P zero (x ∷ xs) h = tt
All-take P (suc n) [] h = tt
All-take P (suc n) (x ∷ xs) (p, h) = (p, All-take P n xs h)

length-take_le {ℓ} : {A : Type ℓ} (n : ℕ) (xs : List A) → n ≤ length xs → length (take n xs) ≡ n
length-take_le zero [] h = refl
length-take_le zero (x ∷ xs) h = refl
length-take_le (suc n) [] h = absurd (omega arith)
length-take_le (suc n) (x ∷ xs) h = omega (arith, length-take_le n xs (omega arith))

alnum-valid : (cs : List Char) → All (λ c. is_alnum_lower c ≡ true) cs → AreNameChars cs
alnum-valid [] h = tt
alnum-valid (c ∷ cs) (p, h) = (ground arith, alnum-valid cs h)

alnum-ends : (ds : List Char) → All (λ c. is_alnum_lower c ≡ true) ds → ds ≢ [] → EndsAlnum ds
alnum-ends [] h n = absurd (n refl)
alnum-ends (d ∷ []) (p, h) n = p
alnum-ends (d ∷ e ∷ ds) (p, h) n = alnum-ends (e ∷ ds) h (λ q. cc)

EndsAlnum-append : (cs ds : List Char) → EndsAlnum ds → EndsAlnum (cs ++ ds)
EndsAlnum-append [] ds h = h
EndsAlnum-append (c ∷ []) [] h = absurd h
EndsAlnum-append (c ∷ []) (d ∷ ds) h = h
EndsAlnum-append (c ∷ b ∷ cs) ds h = EndsAlnum-append (b ∷ cs) ds h

nonempty : (cs : List Char) → length cs ≡ 8 → cs ≢ []
nonempty [] h = absurd (omega arith)
nonempty (c ∷ cs) h = λ e. cc

StartsAlnum-take :
    (n : ℕ) (cs ds : List Char) → StartsAlnum cs → StartsAlnum (take (suc n) cs ++ ds)
StartsAlnum-take n [] ds h = absurd h
StartsAlnum-take n (c ∷ cs) ds h = h

pub chars-text : (cs : List Char) → chars (text cs) ≡ cs
unfolding text
chars-text [] = refl
chars-text (c ∷ cs) = ap (◌∷◌ c) (chars-text cs)

module _ (sha256_hex : String → List Char) (hex : (s : String) → IsHex (sha256_hex s)) where
  bounded-IsName : (cs : List Char) → IsLongName cs → IsName (bounded sha256_hex cs)
  unfolding bounded
  bounded-IsName cs n = elim (Bool-cases (ltb 63 (length cs))) [
    | inl long ↦
        let digits = sha256_hex (text cs) in
        let eight : length (take 8 digits) ≡ 8 = length-take_le 8 digits (hex (text cs)).long in
        let alnum = All-take (λ c. is_alnum_lower c ≡ true) 8 digits (hex (text cs)).digits in
        rw (long, eight)
          (record {
            valid =
                All-append (λ c. is_name_char c ≡ true) (take 54 cs) (dash ∷ take 8 digits)
                  (All-take (λ c. is_name_char c ≡ true) 54 cs n.valid)
                  (refl, alnum-valid (take 8 digits) alnum);
            starts = StartsAlnum-take 53 cs (dash ∷ take 8 digits) n.starts;
            ends = EndsAlnum-append (take 54 cs) (dash ∷ take 8 digits) (
                EndsAlnum-append (dash ∷ []) (take 8 digits)
                  (alnum-ends (take 8 digits) alnum (nonempty (take 8 digits) eight)));
            short = omega (
              arith,
              eight,
              length-append {0} (take 54 cs) (dash ∷ take 8 digits),
              length-take_le 54 cs (ground arith),
            );
          })
    | inr short ↦
        rw short
          (record { valid = n.valid; starts = n.starts; ends = n.ends; short = ground arith })
  ]

  -- Whatever the text, its name has at least one and at most 63 characters, each of them a lower
  -- case letter, a digit, a dot or a dash, and begins and ends with a letter or a digit. The hash is
  -- assumed to have 8 digits or more, all in lower case.
  pub sanitize_string_for_k8s_name-IsName :
      (s : String) → IsName (chars (sanitize_string_for_k8s_name sha256_hex s))
  unfolding sanitize_string_for_k8s_name sanitize_chars_for_k8s_name
  sanitize_string_for_k8s_name-IsName s =
      let cs = trim_leading (squeeze false (lower_all (replace_wildcards (chars s)))) in
      let valid =
        trim_leading-valid _ (squeeze-valid false (lower_all (replace_wildcards (chars s)))) in
      let starts = trim_leading-starts (squeeze false (lower_all (replace_wildcards (chars s)))) in
      rw chars-text (
        bounded-IsName (or_default (trim_trailing cs)) (
          or_default-IsLongName (trim_trailing cs) (trim_trailing-valid cs valid)
            (trim_trailing-starts cs starts) (trim_trailing-ends cs)))
