-- ===== src/Base/Lists.antt =====
-- Lists measured by native numbers, predicates over lists, membership and filtering by a test.
use Prim.Native.Nat.{ℕ, zero, suc, ◌+◌, ◌≤◌}
use mathlib.Core.Path.{◌≡◌, refl, sym, ap}
use mathlib.Core.Logic.{◌⊎◌, ◌↔◌, inl, inr}
use mathlib.Core.Bool.{Bool, true}
use mathlib.Core.List.{List, [], ◌∷◌, ◌++◌, map}
use native.Mathlib.Omega.{arith}
use rampart.Base.Tests.{if◌then◌else◌}
use rampart.Base.Equality.{Eq, contains}

module _ {ℓ} {A : Type ℓ} where
  abbrev pub length : List A → ℕ
  length [] = 0
  length (x ∷ xs) = suc (length xs)

  abbrev pub take : ℕ → List A → List A
  take zero xs = []
  take (suc n) [] = []
  take (suc n) (x ∷ xs) = x ∷ take n xs

  pub length-append : (xs ys : List A) → length (xs ++ ys) ≡ length xs + length ys
  length-append [] ys = omega arith
  length-append (x ∷ xs) ys = omega (arith, length-append xs ys)

  abbrev pub All {κ} : (A → Type κ) → List A → Type κ
  All P [] = Unit
  All P (x ∷ xs) = P x × All P xs

  pub All-append {κ} :
      (Good : A → Type κ) (front back : List A)
      → All Good front
      → All Good back
      → All Good (front ++ back)
  All-append Good [] back f b = b
  All-append Good (x ∷ front) back f b = (f.0, All-append Good front back f.1 b)

-- Membership by recursion, which the tactics take apart.
module _ {A : Type 0} where
  abbrev pub In : A → List A → Type 0
  In a [] = ⊥
  In a (x ∷ xs) = (a ≡ x) ⊎ In a xs

  pub All-In {κ} : (P : A → Type κ) (xs : List A) (a : A) → In a xs → All P xs → P a
  All-In P [] a m h = elim m [ ]
  All-In P (x ∷ xs) a (inl e) h = rw e h.0
  All-In P (x ∷ xs) a (inr m) h = All-In P xs a m h.1

  pub All-intro {κ} : (P : A → Type κ) (xs : List A) → ((a : A) → In a xs → P a) → All P xs
  All-intro P [] h = tt
  All-intro P (x ∷ xs) h = (h x (inl refl), All-intro P xs (λ a m. h a (inr m)))

  pub In-append_left : (xs ys : List A) (a : A) → In a xs → In a (xs ++ ys)
  In-append_left [] ys a m = elim m [ ]
  In-append_left (x ∷ xs) ys a (inl e) = inl e
  In-append_left (x ∷ xs) ys a (inr m) = inr (In-append_left xs ys a m)

  pub In-append_right : (xs ys : List A) (a : A) → In a ys → In a (xs ++ ys)
  In-append_right [] ys a m = m
  In-append_right (x ∷ xs) ys a m = inr (In-append_right xs ys a m)

  pub In-append : (xs ys : List A) (a : A) → In a (xs ++ ys) → In a xs ⊎ In a ys
  In-append [] ys a m = inr m
  In-append (x ∷ xs) ys a (inl e) = inl (inl e)
  In-append (x ∷ xs) ys a (inr m) = elim (In-append xs ys a m) [
    | inl l ↦ inl (inr l)
    | inr r ↦ inr r
  ]

  -- No element stands twice.
  abbrev pub NoRepeat : List A → Type 0
  NoRepeat [] = Unit
  NoRepeat (x ∷ xs) = (¬ In x xs) × NoRepeat xs

  pub NoRepeat-append : (xs : List A) (a : A) → NoRepeat xs → ¬ In a xs → NoRepeat (xs ++ a ∷ [])
  NoRepeat-append [] a d n = (λ m. m, tt)
  NoRepeat-append (x ∷ xs) a d n = (
    λ m. elim (In-append xs (a ∷ []) x m) [
      | inl l ↦ d.0 l
      | inr r ↦ elim r [ inl e ↦ n (inl (sym e)) | inr never ↦ never ]
    ],
    NoRepeat-append xs a d.1 (λ m. n (inr m)),
  )

  -- The loop `for x in xs { if !keep(x) { continue }; out = append(out, x) }`.
  unfoldable pub keep_if : (A → Bool) → List A → List A
  keep_if keep [] = []
  keep_if keep (x ∷ xs) = let rest = keep_if keep xs in if keep x then x ∷ rest else rest

  pub In-keep_if :
      (keep : A → Bool) (xs : List A) (a : A) → In a (keep_if keep xs) ↔ (In a xs × (keep a ≡ true))
  unfolding keep_if
  In-keep_if keep [] a = (λ m. absurd m, λ m. absurd m.0)
  In-keep_if keep (x ∷ xs) a =
      (λ m. ground (arith, In-keep_if keep xs a), λ m. ground (arith, In-keep_if keep xs a))

  pub length-keep_if-le : (keep : A → Bool) (xs : List A) → length (keep_if keep xs) ≤ length xs
  unfolding keep_if
  length-keep_if-le keep [] = omega arith
  length-keep_if-le keep (x ∷ xs) = ground (arith, length-keep_if-le keep xs)

  pub length-take-le : (n : ℕ) (xs : List A) → length (take n xs) ≤ n
  length-take-le zero xs = omega arith
  length-take-le (suc n) [] = omega arith
  length-take-le (suc n) (x ∷ xs) = omega (arith, length-take-le n xs)

  pub In-take : (n : ℕ) (xs : List A) (a : A) → In a (take n xs) → In a xs
  In-take zero xs a m = elim m [ ]
  In-take (suc n) [] a m = elim m [ ]
  In-take (suc n) (x ∷ xs) a (inl e) = inl e
  In-take (suc n) (x ∷ xs) a (inr m) = inr (In-take n xs a m)

module _ {A B : Type 0} where
  pub In-map_intro : (f : A → B) (xs : List A) (a : A) → In a xs → In (f a) (map f xs)
  In-map_intro f [] a m = elim m [ ]
  In-map_intro f (x ∷ xs) a (inl e) = inl (ap f e)
  In-map_intro f (x ∷ xs) a (inr m) = inr (In-map_intro f xs a m)

  pub In-map : (f : A → B) (xs : List A) (b : B) → In b (map f xs) → (a : A) × In a xs × (b ≡ f a)
  In-map f [] b m = elim m [ ]
  In-map f (x ∷ xs) b (inl e) = (x, inl refl, e)
  In-map f (x ∷ xs) b (inr m) = let (a, h, e) = In-map f xs b m in (a, inr h, e)

module _ {ℓ κ} {A : Type ℓ} {B : Type κ} where
  pub length-map : (f : A → B) (xs : List A) → length (map f xs) ≡ length xs
  length-map f [] = refl
  length-map f (x ∷ xs) = ap suc (length-map f xs)

module _ {A : Type 0} ⦃e : Eq A⦄ where
  pub contains_iff : (xs : List A) (a : A) → (contains xs a ≡ true) ↔ In a xs
  unfolding contains
  contains_iff [] a = (λ h. cc, λ h. absurd h)
  contains_iff (x ∷ xs) a = (
    λ h. ground (arith, e.same_iff x a, contains_iff xs a),
    λ h. ground (arith, e.same_iff x a, contains_iff xs a),
  )
