-- ===== src/Anomaly/VersionJump/Bounds.antt =====
-- The jumps between versions with realistic numbers: int64 does not overflow.
use rampart.Base.{
  ℕ, zero, suc, ◌-◌, ◌<◌, ◌≡◌, refl, inl, inr, Bool, true, false, not, ◌&&◌, List, [], ◌∷◌, arith,
  Text-eq, ℕ-eq, All, if◌then◌else◌, ltb, Bool-cases, lt→ltb,
}
use rampart.Base.Int.{ℤ, pos, negsuc, wrap, half, lt_int, sub_int64, int64, negate}
use rampart.Matcher.{Semver}
use rampart.Anomaly.VersionJump.{breaking_delta, jumps_from, is_zero}

-- A jump so small that twice its size is an int64.
abbrev pub Small : ℤ → Type 0
Small (pos n) = n < 4611686018427387904
Small (negsuc n) = Unit

-- The jumps between the versions of a history, oldest first.
abbrev pub jumps : (semver : Semver) → List semver.Version → List ℤ
jumps semver [] = []
jumps semver (v ∷ vs) = jumps_from semver v vs

if-Small : (b : Bool) (x y : ℤ) → Small x → Small y → Small (if b then x else y)
if-Small true x y hx hy = hx
if-Small false x y hx hy = hy

int64_small : (m : ℕ) → m < 4611686018427387904 → int64 m ≡ pos m
int64_small m h = rw (lt→ltb m half (omega arith)) refl

wrap-pos-Small : (m : ℕ) → m < 4611686018427387904 → Small (wrap (pos m))
wrap-pos-Small m h = rw (lt→ltb m half (omega arith)) h

wrap-negate-Small : (m : ℕ) → m < 4611686018427387904 → Small (wrap (negate m))
wrap-negate-Small zero h = h
wrap-negate-Small (suc m) h = rw (lt→ltb m half (omega arith)) tt

sub_int64-Small :
    (m n : ℕ)
    → m < 4611686018427387904
    → n < 4611686018427387904
    → Small (sub_int64 (int64 m) (int64 n))
sub_int64-Small m n hm hn =
    rw (int64_small m hm, int64_small n hn)
      (elim (Bool-cases (ltb m n)) [
        | inl less ↦ rw less (wrap-negate-Small (n - m) (omega arith))
        | inr more ↦ rw more (wrap-pos-Small (m - n) (omega arith))
      ])

module _ (semver : Semver) where
  -- A version whose numbers are realistic: twice a jump between two of them is an int64.
  abbrev pub SmallVersion : semver.Version → Type 0
  SmallVersion v = (semver.major v < 4611686018427387904) × (semver.minor v < 4611686018427387904)

  breaking_delta-Small :
      (v w : semver.Version) → SmallVersion v → SmallVersion w → Small (breaking_delta semver v w)
  unfolding breaking_delta
  breaking_delta-Small v w hv hw =
      let before = int64 (semver.major v) in
      let after = int64 (semver.major w) in
      if-Small (is_zero before && is_zero after)
        (sub_int64 (int64 (semver.minor w)) (int64 (semver.minor v)))
        (if is_zero before && not (lt_int after (pos 1)) then pos 1 else sub_int64 after before)
        (sub_int64-Small (semver.minor w) (semver.minor v) hw.1 hv.1)
        (if-Small (is_zero before && not (lt_int after (pos 1))) (pos 1) (sub_int64 after before)
          (omega arith) (sub_int64-Small (semver.major w) (semver.major v) hw.0 hv.0))

  jumps_from-Small :
      (v : semver.Version) (vs : List semver.Version)
      → All SmallVersion (v ∷ vs)
      → All Small (jumps_from semver v vs)
  unfolding jumps_from
  jumps_from-Small v [] h = tt
  jumps_from-Small v (w ∷ vs) h = (breaking_delta-Small v w h.0 h.1.0, jumps_from-Small w vs h.1)

  pub jumps-Small : (vs : List semver.Version) → All SmallVersion vs → All Small (jumps semver vs)
  jumps-Small [] h = tt
  jumps-Small (v ∷ vs) h = jumps_from-Small v vs h
