-- ===== src/Examples/Bits.antt =====
-- A bitmap as a list of bits: the laws of the port allocator's bitmap can hold.
use ngrok_operator.Common.{
  ℕ, zero, suc, ◌<◌, Bool, true, false, Option, none, some, List, [], ◌∷◌, length, ◌==◌, nat_eq,
  if◌then◌else◌, ◌≡◌, ◌≢◌, refl, arith, ap, sym, subst,
}
use ngrok_operator.Ports.{Bitmap, BitmapLaws}

abbrev pub Bits : Type 0
Bits = List Bool

abbrev pub clear : ℕ → Bits
clear zero = []
clear (suc n) = false ∷ clear n

-- A bit in front of what an operation made of the rest.
abbrev pub behind : Bool → Option Bits → Option Bits
behind x none = none
behind x (some b) = some (x ∷ b)

abbrev pub set_bit : Bits → ℕ → Option Bits
set_bit [] i = none
set_bit (x ∷ b) zero = if x then none else some (true ∷ b)
set_bit (x ∷ b) (suc i) = behind x (set_bit b i)

abbrev pub unset_bit : Bits → ℕ → Option Bits
unset_bit [] i = none
unset_bit (x ∷ b) zero = some (false ∷ b)
unset_bit (x ∷ b) (suc i) = behind x (unset_bit b i)

abbrev pub bit : Bits → ℕ → Bool
bit [] i = false
bit (x ∷ b) zero = x
bit (x ∷ b) (suc i) = bit b i

abbrev pub next : Option (ℕ × Bits) → Option (ℕ × Bits)
next none = none
next (some (i, b)) = some (suc i, true ∷ b)

abbrev pub set_first : Bits → Option (ℕ × Bits)
set_first [] = none
set_first (true ∷ b) = next (set_first b)
set_first (false ∷ b) = some (0, true ∷ b)

abbrev pub free_bits : Bits → ℕ
free_bits [] = 0
free_bits (x ∷ b) = if x then free_bits b else suc (free_bits b)

abbrev pub bits_ops : Bitmap Bits
bits_ops = record {
  new = clear;
  set = set_bit;
  set_any = set_first;
  is_set = bit;
  unset = unset_bit;
  unselected = free_bits;
}

pub length-clear : (n : ℕ) → length (clear n) ≡ n
length-clear zero = refl
length-clear (suc n) = ap suc (length-clear n)

pub bit-clear : (n i : ℕ) → bit (clear n) i ≡ false
bit-clear zero i = refl
bit-clear (suc n) zero = refl
bit-clear (suc n) (suc i) = bit-clear n i

-- What was behind the first bit.
behind_inv :
    (x : Bool) (o : Option Bits) (b' : Bits)
    → behind x o ≡ some b'
    → (r : Bits) × (o ≡ some r) × (b' ≡ x ∷ r)
behind_inv x none b' e = cc
behind_inv x (some r) b' e = (r, refl, ground arith)

pub record Done (b : Bits) (i : ℕ) (v : Bool) (b' : Bits) : Type 0 where
  pub inside : i < length b
  pub same : length b' ≡ length b
  pub after : (j : ℕ) → bit b' j ≡ (if i == j then v else bit b j)

Done-zero : (x v : Bool) (b : Bits) → Done (x ∷ b) 0 v (v ∷ b)
Done-zero x v b = record { inside = omega arith; same = refl; after = at }
  where
    at : (j : ℕ) → bit (v ∷ b) j ≡ (if 0 == j then v else bit (x ∷ b) j)
    at zero = refl
    at (suc j) = ground arith

Done-suc : (x v : Bool) (b r : Bits) (i : ℕ) → Done b i v r → Done (x ∷ b) (suc i) v (x ∷ r)
Done-suc x v b r i d = record { inside = omega (arith, d.inside); same = ap suc d.same; after = at }
  where
    at : (j : ℕ) → bit (x ∷ r) j ≡ (if suc i == j then v else bit (x ∷ b) j)
    at zero = ground arith
    at (suc j) = ground (arith, d.after j)

pub set_bit-Done : (b : Bits) (i : ℕ) (b' : Bits) → set_bit b i ≡ some b' → Done b i true b'
set_bit-Done [] i b' e = cc
set_bit-Done (true ∷ b) zero b' e = cc
set_bit-Done (false ∷ b) zero b' e =
    subst (Done (false ∷ b) 0 true) (ground arith) (Done-zero false true b)
set_bit-Done (x ∷ b) (suc i) b' e =
    let (r, at, is) = behind_inv x (set_bit b i) b' e in
    subst (Done (x ∷ b) (suc i) true) (sym is) (Done-suc x true b r i (set_bit-Done b i r at))

pub unset_bit-Done : (b : Bits) (i : ℕ) (b' : Bits) → unset_bit b i ≡ some b' → Done b i false b'
unset_bit-Done [] i b' e = cc
unset_bit-Done (x ∷ b) zero b' e = subst (Done (x ∷ b) 0 false) (ground arith) (Done-zero x false b)
unset_bit-Done (x ∷ b) (suc i) b' e =
    let (r, at, is) = behind_inv x (unset_bit b i) b' e in
    subst (Done (x ∷ b) (suc i) false) (sym is) (Done-suc x false b r i (unset_bit-Done b i r at))

pub set_bit-clear : (b : Bits) (i : ℕ) (b' : Bits) → set_bit b i ≡ some b' → bit b i ≡ false
set_bit-clear [] i b' e = cc
set_bit-clear (true ∷ b) zero b' e = cc
set_bit-clear (false ∷ b) zero b' e = refl
set_bit-clear (x ∷ b) (suc i) b' e =
    let (r, at, is) = behind_inv x (set_bit b i) b' e in set_bit-clear b i r at

pub set_bit-free : (b : Bits) (i : ℕ) → i < length b → bit b i ≡ false → set_bit b i ≢ none
set_bit-free [] i h f = absurd (omega arith)
set_bit-free (true ∷ b) zero h f = cc
set_bit-free (false ∷ b) zero h f = λ e. cc
set_bit-free (x ∷ b) (suc i) h f = ground (arith, set_bit-free b i)

pub unset_bit-inside : (b : Bits) (i : ℕ) → i < length b → unset_bit b i ≢ none
unset_bit-inside [] i h = absurd (omega arith)
unset_bit-inside (x ∷ b) zero h = λ e. cc
unset_bit-inside (x ∷ b) (suc i) h = ground (arith, unset_bit-inside b i)

next_inv :
    (o : Option (ℕ × Bits)) (i : ℕ) (b' : Bits)
    → next o ≡ some (i, b')
    → (j : ℕ) × (r : Bits) × (o ≡ some (j, r)) × (i ≡ suc j) × (b' ≡ true ∷ r)
next_inv none i b' e = cc
next_inv (some (j, r)) i b' e = (j, r, refl, ground arith, ground arith)

pub set_first-set :
    (b : Bits) (i : ℕ) (b' : Bits) → set_first b ≡ some (i, b') → set_bit b i ≡ some b'
set_first-set [] i b' e = cc
set_first-set (false ∷ b) i b' e = ground arith
set_first-set (true ∷ b) i b' e =
    let (j, r, at, is, rs) = next_inv (set_first b) i b' e in
    rw (is, rs) (ap (behind true) (set_first-set b j r at))

pub set_first-free : (b : Bits) (i : ℕ) → i < length b → bit b i ≡ false → set_first b ≢ none
set_first-free [] i h f = absurd (omega arith)
set_first-free (true ∷ b) zero h f = cc
set_first-free (true ∷ b) (suc i) h f = ground (arith, set_first-free b i)
set_first-free (false ∷ b) i h f = λ e. cc

abbrev pub bits_laws : BitmapLaws bits_ops
bits_laws = record {
  bits = length;
  bits_new = length-clear;
  is_set_new = bit-clear;
  set_range = λ b i b' e. (set_bit-Done b i b' e).inside;
  set_clear = set_bit-clear;
  set_bits = λ b i b' e. (set_bit-Done b i b' e).same;
  set_after = λ b i b' e. (set_bit-Done b i b' e).after;
  set_free = set_bit-free;
  set_any_set = set_first-set;
  set_any_free = set_first-free;
  unset_in_range = unset_bit-inside;
  unset_bits = λ b i b' e. (unset_bit-Done b i b' e).same;
  unset_after = λ b i b' e. (unset_bit-Done b i b' e).after;
}
