-- ===== src/Common/Sorting.antt =====
-- Go's `sort.SliceStable`: a stable sort by a comparator. Where the comparator is a total preorder
-- the result does not depend on the algorithm, so an insertion sort stands for it. The comparator
-- may panic, which is `none`, and so may the sort.
pub mod Laws
use mathlib.Core.Option.{Option, none, some}
use mathlib.Core.Bool.{Bool}
use mathlib.Core.List.{List, [], ◌∷◌}
use Prim.Native.Nat.{Ordering}
use ngrok_operator.Common.Tests.{if◌then◌else◌}

infixl 5 ◌>>=◌
abbrev pub ◌>>=◌ {ℓ κ} : {A : Type ℓ} {B : Type κ} → Option A → (A → Option B) → Option B
none >>= f = none
some a >>= f = f a

module _ {ℓ} {A : Type ℓ} (less : A → A → Bool) where
  -- An element goes behind those that are less than it, and before its equals.
  insert_sorted : A → List A → List A
  insert_sorted x [] = x ∷ []
  insert_sorted x (y ∷ ys) = if less y x then y ∷ insert_sorted x ys else x ∷ y ∷ ys

  unfoldable pub sort_by : List A → List A
  unfolding insert_sorted
  sort_by [] = []
  sort_by (x ∷ xs) = insert_sorted x (sort_by xs)

module _ {ℓ} {A : Type ℓ} (less : A → A → Option Bool) where
  try_insert_sorted : A → List A → Option (List A)
  try_insert_sorted x [] = some (x ∷ [])
  try_insert_sorted x (y ∷ ys) =
      let rest = try_insert_sorted x ys in
      less y x >>= λ b. if b then (rest >>= λ zs. some (y ∷ zs)) else some (x ∷ y ∷ ys)

  unfoldable pub try_sort_by : List A → Option (List A)
  unfolding try_insert_sorted
  try_sort_by [] = some []
  try_sort_by (x ∷ xs) = try_sort_by xs >>= λ ys. try_insert_sorted x ys
