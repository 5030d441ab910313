-- ===== src/Base/Assoc.antt =====
-- A Go map as a list of keys and values. An update keeps the place of its key, a new key goes to
-- the end. Go ranges over a map in no fixed order, so no statement may rest on the order here.
use mathlib.Core.Path.{◌≡◌, refl}
use mathlib.Core.Logic.{◌↔◌, ◌⊎◌, ◌≢◌, inl, inr}
use mathlib.Core.Option.{Option, none, some}
use mathlib.Core.List.{List, [], ◌∷◌}
use native.Mathlib.Omega.{arith}
use rampart.Base.Tests.{if◌then◌else◌}
use rampart.Base.Equality.{Eq, ◌==◌}
use rampart.Base.Lists.{In}

abbrev pub Assoc {ℓ κ} : Type ℓ → Type κ → Type (ℓ ⊔ κ)
Assoc K V = List (K × V)

module _ {ℓ κ} {K : Type ℓ} {V : Type κ} where
  abbrev pub keys : Assoc K V → List K
  keys [] = []
  keys ((k₁, v) ∷ kvs) = k₁ ∷ keys kvs

  abbrev pub values : Assoc K V → List V
  values [] = []
  values ((k₁, v) ∷ kvs) = v ∷ values kvs

module _ {ℓ κ} {K : Type ℓ} {V : Type κ} ⦃e : Eq K⦄ where
  -- `m[k]` with its presence.
  unfoldable pub lookup : K → Assoc K V → Option V
  lookup k₁ [] = none
  lookup k₁ ((k₂, v) ∷ kvs) = if k₂ == k₁ then some v else lookup k₁ kvs

  -- `m[k] = v`.
  unfoldable pub insert : K → V → Assoc K V → Assoc K V
  insert k₁ v [] = (k₁, v) ∷ []
  insert k₁ v ((k₂, w) ∷ kvs) = if k₂ == k₁ then (k₂, v) ∷ kvs else (k₂, w) ∷ insert k₁ v kvs

  -- `delete(m, k)`.
  unfoldable pub remove : K → Assoc K V → Assoc K V
  remove k₁ [] = []
  remove k₁ ((k₂, w) ∷ kvs) = let rest = remove k₁ kvs in if k₂ == k₁ then rest else (k₂, w) ∷ rest

  pub lookup-insert :
      (k₁ k₂ : K) (v : V) (kvs : Assoc K V)
      → lookup k₂ (insert k₁ v kvs) ≡ (if k₁ == k₂ then some v else lookup k₂ kvs)
  unfolding lookup insert
  lookup-insert k₁ k₂ v [] = refl
  lookup-insert k₁ k₂ v ((i, w) ∷ kvs) =
      ground (arith, e.same_iff k₁ k₂, e.same_iff i k₁, e.same_iff i k₂, lookup-insert k₁ k₂ v kvs)

  pub lookup-insert_self : (k₁ : K) (v : V) (kvs : Assoc K V) → lookup k₁ (insert k₁ v kvs) ≡ some v
  lookup-insert_self k₁ v kvs = ground (arith, lookup-insert k₁ k₁ v kvs, e.same_iff k₁ k₁)

  pub lookup-insert_ne :
      (k₁ k₂ : K) (v : V) (kvs : Assoc K V) → k₁ ≢ k₂ → lookup k₂ (insert k₁ v kvs) ≡ lookup k₂ kvs
  lookup-insert_ne k₁ k₂ v kvs h = ground (arith, lookup-insert k₁ k₂ v kvs, e.same_iff k₁ k₂)

  pub lookup-remove :
      (k₁ k₂ : K) (kvs : Assoc K V)
      → lookup k₂ (remove k₁ kvs) ≡ (if k₁ == k₂ then none else lookup k₂ kvs)
  unfolding lookup remove
  lookup-remove k₁ k₂ [] = ground arith
  lookup-remove k₁ k₂ ((i, w) ∷ kvs) =
      ground (arith, e.same_iff k₁ k₂, e.same_iff i k₁, e.same_iff i k₂, lookup-remove k₁ k₂ kvs)

module _ {K V : Type 0} ⦃e : Eq K⦄ where
  -- No key stands twice.
  abbrev pub Distinct : Assoc K V → Type 0
  Distinct [] = Unit
  Distinct ((k₁, v) ∷ kvs) = (¬ In k₁ (keys kvs)) × Distinct kvs

  pub keys-insert :
      (k₁ k₂ : K) (v : V) (kvs : Assoc K V)
      → In k₂ (keys (insert k₁ v kvs))
      → (k₂ ≡ k₁) ⊎ In k₂ (keys kvs)
  unfolding insert
  keys-insert k₁ k₂ v [] h = ground arith
  keys-insert k₁ k₂ v ((i, w) ∷ kvs) h = ground (arith, keys-insert k₁ k₂ v kvs)

  pub insert-Distinct :
      (k₁ : K) (v : V) (kvs : Assoc K V) → Distinct kvs → Distinct (insert k₁ v kvs)
  unfolding insert
  insert-Distinct k₁ v [] d = (λ h. h, tt)
  insert-Distinct k₁ v ((i, w) ∷ kvs) d =
      ground (arith, e.same_iff i k₁, insert-Distinct k₁ v kvs d.1, keys-insert k₁ i v kvs)

  pub lookup-In : (k₁ : K) (v : V) (kvs : Assoc K V) → lookup k₁ kvs ≡ some v → In (k₁, v) kvs
  unfolding lookup
  lookup-In k₁ v [] h = cc
  lookup-In k₁ v ((k₂, w) ∷ kvs) h = ground (arith, e.same_iff k₂ k₁, lookup-In k₁ v kvs)

  pub In-keys : (k₁ : K) (v : V) (kvs : Assoc K V) → In (k₁, v) kvs → In k₁ (keys kvs)
  In-keys k₁ v [] h = h
  In-keys k₁ v ((k₂, w) ∷ kvs) h = ground (arith, In-keys k₁ v kvs)

  pub In-lookup :
      (k₁ : K) (v : V) (kvs : Assoc K V) → Distinct kvs → In (k₁, v) kvs → lookup k₁ kvs ≡ some v
  unfolding lookup
  In-lookup k₁ v [] d h = absurd h
  In-lookup k₁ v ((k₂, w) ∷ kvs) d h =
      ground (arith, e.same_iff k₂ k₁, In-lookup k₁ v kvs d.1, In-keys k₁ v kvs)

  pub values-In : (v : V) (kvs : Assoc K V) → In v (values kvs) → (k₁ : K) × In (k₁, v) kvs
  values-In v [] h = absurd h
  values-In v ((k₂, w) ∷ kvs) (inl p) = (k₂, inl (ground arith))
  values-In v ((k₂, w) ∷ kvs) (inr h) = let (k₁, r) = values-In v kvs h in (k₁, inr r)

  pub In-values : (k₁ : K) (v : V) (kvs : Assoc K V) → In (k₁, v) kvs → In v (values kvs)
  In-values k₁ v [] h = h
  In-values k₁ v ((k₂, w) ∷ kvs) h = ground (arith, In-values k₁ v kvs)

  -- A value stored under a new key joins the values.
  pub In-values-insert :
      (k₁ : K) (v w : V) (kvs : Assoc K V)
      → ¬ In k₁ (keys kvs)
      → In w (values (insert k₁ v kvs)) ↔ ((w ≡ v) ⊎ In w (values kvs))
  unfolding insert
  In-values-insert k₁ v w [] fresh = (λ h. h, λ h. h)
  In-values-insert k₁ v w ((i, x) ∷ kvs) fresh = (
    λ h. ground (arith, e.same_iff i k₁, In-values-insert k₁ v w kvs (λ n. fresh (inr n))),
    λ h. ground (arith, e.same_iff i k₁, In-values-insert k₁ v w kvs (λ n. fresh (inr n))),
  )

  pub In-insert :
      (k₁ : K) (v : V) (p : K × V) (kvs : Assoc K V)
      → ¬ In k₁ (keys kvs)
      → In p (insert k₁ v kvs) ↔ ((p ≡ (k₁, v)) ⊎ In p kvs)
  unfolding insert
  In-insert k₁ v p [] fresh = (λ h. h, λ h. h)
  In-insert k₁ v p ((i, x) ∷ kvs) fresh = (
    λ h. ground (arith, e.same_iff i k₁, In-insert k₁ v p kvs (λ n. fresh (inr n))),
    λ h. ground (arith, e.same_iff i k₁, In-insert k₁ v p kvs (λ n. fresh (inr n))),
  )
