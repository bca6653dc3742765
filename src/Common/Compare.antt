-- ===== src/Common/Compare.antt =====
-- Three-way comparisons. A comparison here is a total preorder: what a comparator must be for a
-- stable sort to be determined by it.
use Prim.Native.Nat.{Ordering, compare}
use Prim.Native.Char.{Char, code}
use Prim.Native.String.compare as text_compare
use Prim.Native.String.{String, compare as text_compare}
use mathlib.Core.Path.{◌≡◌, refl, ap}
use mathlib.Core.Option.{Option, none, some}
use native.Mathlib.Omega.{arith}
use text.Mathlib.TextEquality.{path_by_compare}

abbrev pub flip : Ordering → Ordering
flip Ordering.lt = Ordering.gt
flip Ordering.eq = Ordering.eq
flip Ordering.gt = Ordering.lt

-- The first answer that is not a tie.
abbrev pub and_then : Ordering → Ordering → Ordering
and_then Ordering.lt _ = Ordering.lt
and_then Ordering.eq o = o
and_then Ordering.gt _ = Ordering.gt

pub record IsComparison {ℓ} {A : Type ℓ} (cmp : A → A → Ordering) : Type ℓ where
  pub swap : (a b : A) → cmp b a ≡ flip (cmp a b)
  pub trans : (a b c : A) → cmp a b ≡ Ordering.lt → cmp b c ≡ Ordering.lt → cmp a c ≡ Ordering.lt
  pub tie : (a b c : A) → cmp a b ≡ Ordering.eq → cmp a c ≡ cmp b c

pub compare-IsComparison : IsComparison compare
compare-IsComparison = record {
  swap = λ a b. ground arith;
  trans = λ a b c h k. ground arith;
  tie = λ a b c h. ground arith;
}

pub IsComparison-on {ℓ κ} :
    {A : Type ℓ} {B : Type κ} {cmp : B → B → Ordering} (f : A → B)
    → IsComparison cmp
    → IsComparison (λ a b. cmp (f a) (f b))
IsComparison-on f h = record {
  swap = λ a b. h.swap (f a) (f b);
  trans = λ a b c. h.trans (f a) (f b) (f c);
  tie = λ a b c. h.tie (f a) (f b) (f c);
}

pub IsComparison-flip {ℓ} :
    {A : Type ℓ} {cmp : A → A → Ordering} → IsComparison cmp → IsComparison (λ a b. cmp b a)
IsComparison-flip {cmp} h = record {
  swap = λ a b. h.swap b a;
  trans = λ a b c p q. h.trans c b a q p;
  tie = λ a b c p. ground (arith, h.swap b c, h.swap a c, h.swap b a, h.tie a b c);
}

module _ {ℓ} {A : Type ℓ} {f g : A → A → Ordering} (hf : IsComparison f) (hg : IsComparison g) where
  -- One comparison, and another where it ties.
  pub IsComparison-then : IsComparison (λ a b. and_then (f a b) (g a b))
  IsComparison-then = record {
    swap = λ a b. ground (arith, hf.swap a b, hg.swap a b);
    trans = λ a b c p q. ground (
      arith,
      hf.trans a b c,
      hg.trans a b c,
      hf.tie a b c,
      hf.tie b c a,
      hf.swap a b,
      hf.swap b c,
      hf.swap a c,
    );
    tie = λ a b c p. ground (arith, hf.tie a b c, hg.tie a b c);
  }

-- A value that is present goes first.
abbrev pub present_first {ℓ} : {A : Type ℓ} → (A → A → Ordering) → Option A → Option A → Ordering
present_first cmp none none = Ordering.eq
present_first cmp (some a) none = Ordering.lt
present_first cmp none (some b) = Ordering.gt
present_first cmp (some a) (some b) = cmp a b

module _ {ℓ} {A : Type ℓ} {cmp : A → A → Ordering} (h : IsComparison cmp) where
  swap_present : (a b : Option A) → present_first cmp b a ≡ flip (present_first cmp a b)
  swap_present none none = refl
  swap_present none (some b) = refl
  swap_present (some a) none = refl
  swap_present (some a) (some b) = h.swap a b

  trans_present :
      (a b c : Option A)
      → present_first cmp a b ≡ Ordering.lt
      → present_first cmp b c ≡ Ordering.lt
      → present_first cmp a c ≡ Ordering.lt
  trans_present none none c p q = cc
  trans_present none (some b) c p q = cc
  trans_present (some a) none none p q = refl
  trans_present (some a) none (some c) p q = cc
  trans_present (some a) (some b) none p q = refl
  trans_present (some a) (some b) (some c) p q = h.trans a b c p q

  tie_present :
      (a b c : Option A)
      → present_first cmp a b ≡ Ordering.eq
      → present_first cmp a c ≡ present_first cmp b c
  tie_present none none c p = refl
  tie_present none (some b) c p = cc
  tie_present (some a) none c p = cc
  tie_present (some a) (some b) none p = refl
  tie_present (some a) (some b) (some c) p = h.tie a b c p

  pub IsComparison-present_first : IsComparison (present_first cmp)
  IsComparison-present_first = record {
    swap = swap_present;
    trans = trans_present;
    tie = tie_present;
  }

-- The clauses of the comparison of texts.
nil_nil : text_compare String.[] String.[] ≡ Ordering.eq
nil_nil = text_compare.nil-nil

nil_cons : (d : Char) (t : String) → text_compare String.[] (String.◌∷◌ d t) ≡ Ordering.lt
nil_cons d t = text_compare.nil-cons d t

cons_nil : (c : Char) (s : String) → text_compare (String.◌∷◌ c s) String.[] ≡ Ordering.gt
cons_nil c s = text_compare.cons-nil c s

cons_cons :
    (c d : Char) (s t : String)
    → text_compare (String.◌∷◌ c s) (String.◌∷◌ d t)
      ≡ and_then (compare (code c) (code d)) (text_compare s t)
cons_cons c d s t = text_compare.cons-cons c d s t

swap_text : (s t : String) → text_compare t s ≡ flip (text_compare s t)
swap_text String.[] String.[] = cc nil_nil
swap_text String.[] (String.◌∷◌ d t) = ground (arith, nil_cons d t, cons_nil d t)
swap_text (String.◌∷◌ c s) String.[] = ground (arith, nil_cons c s, cons_nil c s)
swap_text (String.◌∷◌ c s) (String.◌∷◌ d t) =
    ground (arith, cons_cons c d s t, cons_cons d c t s, swap_text s t)

trans_text :
    (s t u : String)
    → text_compare s t ≡ Ordering.lt
    → text_compare t u ≡ Ordering.lt
    → text_compare s u ≡ Ordering.lt
trans_text String.[] String.[] u p q = q
trans_text String.[] (String.◌∷◌ d t) String.[] p q = cc (cons_nil d t)
trans_text String.[] (String.◌∷◌ d t) (String.◌∷◌ e u) p q = nil_cons e u
trans_text (String.◌∷◌ c s) String.[] u p q = cc (cons_nil c s)
trans_text (String.◌∷◌ c s) (String.◌∷◌ d t) String.[] p q = cc (cons_nil d t)
trans_text (String.◌∷◌ c s) (String.◌∷◌ d t) (String.◌∷◌ e u) p q = ground (
  arith,
  cons_cons c d s t,
  cons_cons d e t u,
  cons_cons c e s u,
  path_by_compare s t,
  path_by_compare t u,
  trans_text s t u,
)

pub text-IsComparison : IsComparison text_compare
text-IsComparison = record {
  swap = swap_text;
  trans = trans_text;
  tie = λ a b c p. ap (λ s. text_compare s c) (path_by_compare a b p);
}
