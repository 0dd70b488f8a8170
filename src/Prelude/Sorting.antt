-- ===== src/Prelude/Sorting.antt =====
-- `Array.prototype.sort` with a comparator, which is stable: insertion, where `le a b` says that
-- the comparator does not put `b` before `a`.
use Prim.Native.Nat.{suc}
use mathlib.Core.Path.{◌≡◌, refl}
use mathlib.Core.Logic.{inl, inr}
use mathlib.Core.Bool.{Bool, true, false}
use mathlib.Core.List.{List, [], ◌∷◌}
use native.Mathlib.Omega.{arith}
use inmoagent.Prelude.Tests.{if◌then◌else◌, Bool-cases}
use inmoagent.Prelude.Lists.{length, All}

module _ {ℓ} {A : Type ℓ} (le : A → A → Bool) where
  pub insert_sorted : A → List A → List A
  insert_sorted a [] = a ∷ []
  insert_sorted a (x ∷ xs) = if le a x then a ∷ x ∷ xs else x ∷ insert_sorted a xs

  unfoldable pub sort_by : List A → List A
  unfolding insert_sorted
  sort_by [] = []
  sort_by (x ∷ xs) = insert_sorted x (sort_by xs)

  pub length-insert_sorted : (a : A) (xs : List A) → length (insert_sorted a xs) ≡ suc (length xs)
  unfolding insert_sorted
  length-insert_sorted a [] = refl
  length-insert_sorted a (x ∷ xs) = ground (arith, length-insert_sorted a xs)

  pub length-sort_by : (xs : List A) → length (sort_by xs) ≡ length xs
  unfolding sort_by
  length-sort_by [] = refl
  length-sort_by (x ∷ xs) = ground (arith, length-insert_sorted x (sort_by xs), length-sort_by xs)

  -- every element is in order with its successor
  abbrev pub IsSorted : List A → Type 0
  IsSorted [] = Unit
  IsSorted (x ∷ []) = Unit
  IsSorted (x ∷ y ∷ ys) = (le x y ≡ true) × IsSorted (y ∷ ys)

  module _ (total : (a b : A) → le a b ≡ false → le b a ≡ true) where
    insert_sorted-IsSorted : (a : A) (xs : List A) → IsSorted xs → IsSorted (insert_sorted a xs)
    unfolding insert_sorted
    insert_sorted-IsSorted a [] h = tt
    insert_sorted-IsSorted a (x ∷ []) h = ground (arith, total a x)
    insert_sorted-IsSorted a (x ∷ y ∷ ys) h =
        ground (arith, total a x, insert_sorted-IsSorted a (y ∷ ys) h.1)

    pub sort_by-IsSorted : (xs : List A) → IsSorted (sort_by xs)
    unfolding sort_by
    sort_by-IsSorted [] = tt
    sort_by-IsSorted (x ∷ xs) = insert_sorted-IsSorted x (sort_by xs) (sort_by-IsSorted xs)

module _ {ℓ κ} {A : Type ℓ} (le : A → A → Bool) (P : A → Type κ) where
  insert_sorted-All : (a : A) (xs : List A) → P a → All P xs → All P (insert_sorted le a xs)
  unfolding insert_sorted
  insert_sorted-All a [] p h = (p, tt)
  insert_sorted-All a (x ∷ xs) p h = elim (Bool-cases (le a x)) [
    | inl e ↦ rw e (p, h)
    | inr e ↦ rw e (h.0, insert_sorted-All a xs p h.1)
  ]

  pub sort_by-All : (xs : List A) → All P xs → All P (sort_by le xs)
  unfolding sort_by
  sort_by-All [] h = tt
  sort_by-All (x ∷ xs) h = insert_sorted-All x (sort_by le xs) h.0 (sort_by-All xs h.1)
