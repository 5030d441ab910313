-- ===== src/Boot/Keeps.antt =====
-- FromEnv of engine/internal/config/config.go: what an override leaves alone, the overrides do too.
use rampart.Base.{
  ◌≡◌, inl, inr, true, false, Option, none, some, List, [], ◌∷◌, Text, ◌==◌, Text-eq, ℕ-eq, All,
  Bool-cases,
}
use rampart.Base.Int.{ℤ, pos, lt_int}
use rampart.Boot.{Config, when_set, when_positive, apply_all, with_origins}

module _ (Good : Config → Type 0) where
  abbrev pub Keeps : (Config → Config) → Type 0
  Keeps f = (c : Config) → Good c → Good (f c)

  pub when_set-Keeps : (v : Text) (f : Config → Config) → Keeps f → Keeps (when_set v f)
  when_set-Keeps v f k c good = elim (Bool-cases (v == [])) [
    | inl e ↦ rw e good
    | inr e ↦ rw e (k c good)
  ]

  pub when_positive-Keeps :
      (o : Option ℤ) (f : ℤ → Config → Config)
      → ((n : ℤ) → lt_int (pos 0) n ≡ true → Keeps (f n))
      → Keeps (when_positive o f)
  when_positive-Keeps none f k c good = good
  when_positive-Keeps (some n) f k c good = elim (Bool-cases (lt_int (pos 0) n)) [
    | inl e ↦ rw e (k n e c good)
    | inr e ↦ rw e good
  ]

  pub apply_all-Keeps : (fs : List (Config → Config)) → All Keeps fs → Keeps (apply_all fs)
  apply_all-Keeps [] k c good = good
  apply_all-Keeps (f ∷ fs) k c good = apply_all-Keeps fs k.1 (f c) (k.0 c good)

  pub with_origins-Keeps :
      (o : Option Text)
      → ((os : List Text) → Keeps (λ c. record c { cors_origins = os; cors_allow_all = false }))
      → Keeps (with_origins o)
  with_origins-Keeps none k c good = good
  with_origins-Keeps (some v) k c good = k _ c good
