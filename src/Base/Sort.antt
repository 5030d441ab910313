-- ===== src/Base/Sort.antt =====
-- sort.Slice with a `less` test, as an insertion sort. Go's sort is not stable, so no statement may
-- rest on the order of elements that compare equal.
use Prim.Native.Nat.{suc}
use mathlib.Core.Path.{◌≡◌, refl}
use mathlib.Core.Logic.{◌↔◌, ◌⊎◌, inl, inr}
use mathlib.Core.Bool.{Bool, true, false}
use mathlib.Core.List.{List, [], ◌∷◌}
use native.Mathlib.Omega.{arith}
use rampart.Base.Tests.{if◌then◌else◌, Bool-cases}
use rampart.Base.Lists.{In, length}

module _ {A : Type 0} (less : A → A → Bool) where
  unfoldable pub insert_sorted : A → List A → List A
  insert_sorted a [] = a ∷ []
  insert_sorted a (x ∷ xs) = if less x a then x ∷ insert_sorted a xs else a ∷ x ∷ xs

  unfoldable pub sort_by : List A → List A
  unfolding insert_sorted
  sort_by [] = []
  sort_by (x ∷ xs) = insert_sorted x (sort_by xs)

  -- No element is less than one that stands before it.
  abbrev pub AllGe : A → List A → Type 0
  AllGe a [] = Unit
  AllGe a (y ∷ ys) = (less y a ≡ false) × AllGe a ys

  abbrev pub IsSorted : List A → Type 0
  IsSorted [] = Unit
  IsSorted (x ∷ xs) = AllGe x xs × IsSorted xs

  In-insert_sorted : (a b : A) (xs : List A) → In b (insert_sorted a xs) ↔ ((b ≡ a) ⊎ In b xs)
  unfolding insert_sorted
  In-insert_sorted a b [] = (λ h. h, λ h. h)
  In-insert_sorted a b (x ∷ xs) =
      (λ h. ground (arith, In-insert_sorted a b xs), λ h. ground (arith, In-insert_sorted a b xs))

  -- Sorting keeps exactly the elements.
  pub In-sort_by : (b : A) (xs : List A) → In b (sort_by xs) ↔ In b xs
  unfolding sort_by
  In-sort_by b [] = (λ h. h, λ h. h)
  In-sort_by b (x ∷ xs) = (
    λ h. ground (arith, In-sort_by b xs, In-insert_sorted x b (sort_by xs)),
    λ h. ground (arith, In-sort_by b xs, In-insert_sorted x b (sort_by xs)),
  )

  length-insert_sorted : (a : A) (xs : List A) → length (insert_sorted a xs) ≡ suc (length xs)
  unfolding insert_sorted
  length-insert_sorted a [] = refl
  length-insert_sorted a (x ∷ xs) = ground (arith, length-insert_sorted a xs)

  pub length-sort_by : (xs : List A) → length (sort_by xs) ≡ length xs
  unfolding sort_by
  length-sort_by [] = refl
  length-sort_by (x ∷ xs) = ground (arith, length-sort_by xs, length-insert_sorted x (sort_by xs))

  module _ (asym : (a b : A) → less a b ≡ true → less b a ≡ false)
      (trans : (a b c : A) → less b a ≡ false → less c b ≡ false → less c a ≡ false) where
    AllGe-trans : (a b : A) (xs : List A) → less b a ≡ false → AllGe b xs → AllGe a xs
    AllGe-trans a b [] h g = tt
    AllGe-trans a b (x ∷ xs) h g = (trans a b x h g.0, AllGe-trans a b xs h g.1)

    AllGe-insert_sorted :
        (c a : A) (xs : List A) → less a c ≡ false → AllGe c xs → AllGe c (insert_sorted a xs)
    unfolding insert_sorted
    AllGe-insert_sorted c a [] h g = (h, tt)
    AllGe-insert_sorted c a (x ∷ xs) h g = ground (arith, AllGe-insert_sorted c a xs h g.1)

    insert_sorted-IsSorted : (a : A) (xs : List A) → IsSorted xs → IsSorted (insert_sorted a xs)
    unfolding insert_sorted
    insert_sorted-IsSorted a [] s = (tt, tt)
    insert_sorted-IsSorted a (x ∷ xs) s = elim (Bool-cases (less x a)) [
      | inl p ↦ rw p (AllGe-insert_sorted x a xs (asym x a p) s.0, insert_sorted-IsSorted a xs s.1)
      | inr p ↦ rw p ((p, AllGe-trans a x xs p s.0), s)
    ]

    -- The result is in order, for a test that is a strict weak order.
    pub sort_by-IsSorted : (xs : List A) → IsSorted (sort_by xs)
    unfolding sort_by
    sort_by-IsSorted [] = tt
    sort_by-IsSorted (x ∷ xs) = insert_sorted-IsSorted x (sort_by xs) (sort_by-IsSorted xs)
