-- ===== src/Common/Sorting/Laws.antt =====
-- The stable sort, against permutations, ascending lists and ties; and a comparator that may panic.
use Prim.Native.Nat.{Ordering}
use mathlib.Core.Path.{◌≡◌, refl, ap, ◌∙◌}
use mathlib.Core.Logic.{◌≢◌, inl, inr}
use mathlib.Core.Bool.{Bool, true, false}
use mathlib.Core.Option.{Option, some}
use mathlib.Core.List.{List, [], ◌∷◌, Perm}
use mathlib.Core.List.Perm
use native.Mathlib.Omega.{arith}
use ngrok_operator.Common.Tests.{if◌then◌else◌, Bool-cases}
use ngrok_operator.Common.Lists.{All, keep}
use ngrok_operator.Common.Compare.{IsComparison}
use ngrok_operator.Common.Sorting.{insert_sorted, sort_by, try_insert_sorted, try_sort_by}

abbrev pub is_lt : Ordering → Bool
is_lt Ordering.lt = true
is_lt _ = false

abbrev pub is_tie : Ordering → Bool
is_tie Ordering.eq = true
is_tie _ = false

module _ {ℓ} {A : Type ℓ} (less : A → A → Bool) where
  insert_sorted-perm : (x : A) (l : List A) → Perm (insert_sorted less x l) (x ∷ l)
  unfolding insert_sorted
  insert_sorted-perm x [] = Perm.refl (x ∷ [])
  insert_sorted-perm x (y ∷ ys) = elim (Bool-cases (less y x)) [
    | inl h ↦ rw h (Perm.trans (Perm.cons y (insert_sorted-perm x ys)) (Perm.swap x y ys))
    | inr h ↦ rw h (Perm.refl (x ∷ y ∷ ys))
  ]

  pub sort_by-perm : (l : List A) → Perm (sort_by less l) l
  unfolding sort_by
  sort_by-perm [] = Perm.refl []
  sort_by-perm (x ∷ xs) =
      Perm.trans (insert_sorted-perm x (sort_by less xs)) (Perm.cons x (sort_by-perm xs))

module _ {ℓ κ} {A : Type ℓ} (P : A → Type κ) (less : A → A → Bool) where
  All-insert_sorted : (x : A) (l : List A) → P x → All P l → All P (insert_sorted less x l)
  unfolding insert_sorted
  All-insert_sorted x [] p h = (p, tt)
  All-insert_sorted x (y ∷ ys) p (q, h) = elim (Bool-cases (less y x)) [
    | inl e ↦ rw e (q, All-insert_sorted x ys p h)
    | inr e ↦ rw e (p, (q, h))
  ]

  pub All-sort_by : (l : List A) → All P l → All P (sort_by less l)
  unfolding sort_by
  All-sort_by [] h = tt
  All-sort_by (x ∷ xs) (p, h) = All-insert_sorted x (sort_by less xs) p (All-sort_by xs h)

-- No later element is less than an earlier one.
abbrev pub IsSorted {ℓ} : {A : Type ℓ} → (A → A → Ordering) → List A → Type ℓ
IsSorted cmp [] = Unit
IsSorted cmp (x ∷ xs) = All (λ y. cmp y x ≢ Ordering.lt) xs × IsSorted cmp xs

module _ {ℓ} {A : Type ℓ} {cmp : A → A → Ordering} (c : IsComparison cmp) where
  abbrev less_of : A → A → Bool
  less_of a b = is_lt (cmp a b)

  not_less_trans :
      (x y z : A) → cmp y x ≢ Ordering.lt → cmp z y ≢ Ordering.lt → cmp z x ≢ Ordering.lt
  not_less_trans x y z p q h =
      ground (arith, c.trans z x y, c.swap x y, c.swap y z, c.tie x y z, c.swap x z)

  All_not_less :
      (x y : A) (l : List A)
      → cmp y x ≢ Ordering.lt
      → All (λ z. cmp z y ≢ Ordering.lt) l
      → All (λ z. cmp z x ≢ Ordering.lt) l
  All_not_less x y [] p h = tt
  All_not_less x y (z ∷ zs) p (q, h) = (not_less_trans x y z p q, All_not_less x y zs p h)

  insert_sorted-IsSorted :
      (x : A) (l : List A) → IsSorted cmp l → IsSorted cmp (insert_sorted less_of x l)
  unfolding insert_sorted
  insert_sorted-IsSorted x [] s = (tt, tt)
  insert_sorted-IsSorted x (y ∷ ys) (h, s) = elim (Bool-cases (is_lt (cmp y x))) [
    | inl e ↦
        let not_less : cmp x y ≢ Ordering.lt = ground (arith, c.swap y x) in
        rw e (
          All-insert_sorted (λ z. cmp z y ≢ Ordering.lt) less_of x ys not_less h,
          insert_sorted-IsSorted x ys s,
        )
    | inr e ↦
        let not_less : cmp y x ≢ Ordering.lt = ground arith in
        rw e ((not_less, All_not_less x y ys not_less h), (h, s))
  ]

  pub sort_by-IsSorted : (l : List A) → IsSorted cmp (sort_by less_of l)
  unfolding sort_by
  sort_by-IsSorted [] = tt
  sort_by-IsSorted (x ∷ xs) = insert_sorted-IsSorted x (sort_by less_of xs) (sort_by-IsSorted xs)

  -- The elements that tie with `a`.
  abbrev ties : A → List A → List A
  ties a = keep (λ b. is_tie (cmp a b))

  ties-insert_sorted : (a x : A) (l : List A) → ties a (insert_sorted less_of x l) ≡ ties a (x ∷ l)
  unfolding insert_sorted
  ties-insert_sorted a x [] = refl
  ties-insert_sorted a x (y ∷ ys) =
      ground (arith, ties-insert_sorted a x ys, c.swap y x, c.tie a y x, c.tie a x y)

  -- Elements that tie keep their order.
  pub ties-sort_by : (a : A) (l : List A) → ties a (sort_by less_of l) ≡ ties a l
  unfolding sort_by
  ties-sort_by a [] = refl
  ties-sort_by a (x ∷ xs) =
      ties-insert_sorted a x (sort_by less_of xs)
      ∙ ap (λ l. if is_tie (cmp a x) then x ∷ l else l) (ties-sort_by a xs)

-- On elements where the comparator does not panic the sort is the pure one.
module _ {ℓ κ} {A : Type ℓ} (P : A → Type κ) (try_less : A → A → Option Bool) (less : A → A → Bool)
    (agrees : (a b : A) → P a → P b → try_less a b ≡ some (less a b)) where
  try_insert_sorted-eq :
      (x : A) (l : List A)
      → P x
      → All P l
      → try_insert_sorted try_less x l ≡ some (insert_sorted less x l)
  unfolding try_insert_sorted insert_sorted
  try_insert_sorted-eq x [] p h = refl
  try_insert_sorted-eq x (y ∷ ys) p (q, h) =
      ground (arith, agrees y x q p, try_insert_sorted-eq x ys p h)

  pub try_sort_by-eq : (l : List A) → All P l → try_sort_by try_less l ≡ some (sort_by less l)
  unfolding try_sort_by sort_by
  try_sort_by-eq [] h = refl
  try_sort_by-eq (x ∷ xs) (p, h) =
      rw (try_sort_by-eq xs h)
        (try_insert_sorted-eq x (sort_by less xs) p (All-sort_by P less xs h))
