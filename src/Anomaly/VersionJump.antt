-- ===== src/Anomaly/VersionJump.antt =====
-- engine/anomaly/versionjump/detector.go: a release that jumps further than the ones before it.
pub mod Bounds
pub mod Outlier
use rampart.Base.{
  ℕ, zero, suc, ◌+◌, ◌-◌, ◌*◌, ◌≤◌, ◌<◌, ◌≡◌, refl, sym, ap, ◌∙◌, ◌≢◌, ◌↔◌, ◌⊎◌, inl, inr, Bool,
  true, false, not, ◌&&◌, ◌||◌, Option, none, some, List, [], ◌∷◌, ◌++◌, map, arith, Text, bytes,
  String, Eq, ◌==◌, eq_iff, eq_refl, eq_false, ne_of_eq_false, Text-eq, ℕ-eq, contains,
  contains_iff, keep_if, In, All, length, take, if◌then◌else◌, ltb, leb, Bool-cases, Option-cases,
}
use mathlib.Core.List.{reverse}
use rampart.Base.Int.{ℤ, pos, negsuc, lt_int, int64, sub_int64, double_int64}
use rampart.Domain.Incident.{Time, Value, text, number}
use rampart.Domain.Publisher.{PublisherSnapshot, Anomaly, AnomalyKind, ConfidenceLevel}
use rampart.Matcher.{Semver}
use rampart.Anomaly.{decimal}

unfoldable pub last_of {ℓ} : {A : Type ℓ} → A → List A → A
last_of x [] = x
last_of x (y ∷ ys) = last_of y ys

unfoldable pub but_last {ℓ} : {A : Type ℓ} → A → List A → List A
but_last x [] = []
but_last x (y ∷ ys) = x ∷ but_last y ys

unfoldable pub max_from : ℤ → List ℤ → ℤ
max_from m [] = m
max_from m (x ∷ xs) = max_from (if lt_int m x then x else m) xs

-- maxOrZero
unfoldable pub max_or_zero : List ℤ → ℤ
unfolding max_from
max_or_zero xs = max_from (pos 0) xs

-- isUnusualVsHistory
unfoldable pub is_unusual_vs_history : ℤ → List ℤ → Bool
unfolding max_or_zero
is_unusual_vs_history latest historical =
    if lt_int latest (pos 2)
    then false
    else not (lt_int latest (pos 2)) && lt_int (double_int64 (max_or_zero historical)) latest

-- The counter `patchOrMinor` of classify.
unfoldable pub zeros : List ℤ → ℕ
zeros [] = 0
zeros (pos zero ∷ js) = suc (zeros js)
zeros (j ∷ js) = zeros js

-- classify
unfoldable pub classify : ℤ → List ℤ → ConfidenceLevel
unfolding zeros
classify latest historical =
    if leb 5 (zeros historical) && not (lt_int latest (pos 5))
    then ConfidenceLevel.high
    else if leb 2 (length historical) && not (lt_int latest (pos 2))
    then ConfidenceLevel.medium
    else ConfidenceLevel.low

-- `x == 0`
abbrev pub is_zero : ℤ → Bool
is_zero x = not (lt_int x (pos 0)) && not (lt_int (pos 0) x)

module _ (semver : Semver) where
  open semver use {Version, new_version, major, minor, prerelease, original, equal}

  -- breakingDelta
  unfoldable pub breaking_delta : Version → Version → ℤ
  breaking_delta prev curr =
      let prev_major = int64 (major prev) in
      let curr_major = int64 (major curr) in
      if is_zero prev_major && is_zero curr_major
      then sub_int64 (int64 (minor curr)) (int64 (minor prev))
      else if is_zero prev_major && not (lt_int curr_major (pos 1))
      then pos 1
      else sub_int64 curr_major prev_major

  -- `len(out) > 0 && out[len(out)-1].Equal(v)`
  same_as_last : List Version → Version → Bool
  same_as_last [] v = false
  same_as_last (x ∷ xs) v = equal (last_of x xs) v

  keep_parsed : List Version → Option Version → List Version
  keep_parsed out none = out
  keep_parsed out (some v) =
      if not (prerelease v == []) then out else if same_as_last out v then out else out ++ v ∷ []

  -- The body of the loop of extractVersionsOldestFirst.
  unfoldable pub extract_one : List Version → PublisherSnapshot → List Version
  unfolding keep_parsed same_as_last
  extract_one out snap =
      if snap.latest_version == [] then out else keep_parsed out (new_version snap.latest_version)

  unfoldable pub extract_from : List Version → List PublisherSnapshot → List Version
  extract_from out [] = out
  extract_from out (snap ∷ snaps) = extract_from (extract_one out snap) snaps

  -- extractVersionsOldestFirst
  unfoldable pub extract_versions_oldest_first : List PublisherSnapshot → List Version
  extract_versions_oldest_first history = extract_from [] (reverse history)

  -- The jumps from a version through those that follow it.
  unfoldable pub jumps_from : Version → List Version → List ℤ
  jumps_from prev [] = []
  jumps_from prev (curr ∷ vs) = breaking_delta prev curr ∷ jumps_from curr vs

  abbrev pub report : Time → Text → Version → Version → ℤ → List ℤ → Anomaly
  report now package_ref prev curr latest historical = record {
    id = 0;
    kind = AnomalyKind.version_jump;
    package_ref = package_ref;
    detected_at = now;
    confidence = classify latest historical;
    explanation =
        package_ref
        ++ bytes " jumped from "
        ++ original prev
        ++ bytes " to "
        ++ original curr
        ++ b' ' ∷ 226 ∷ 128 ∷ 148 ∷ bytes " breaking-delta "
        ++ decimal latest
        ++ bytes " vs historical max "
        ++ decimal (max_or_zero historical)
        ++ bytes " over "
        ++ decimal (pos (length historical))
        ++ bytes " prior jump(s)";
    evidence =
        (bytes "previous_version", text (original prev))
        ∷ (bytes "current_version", text (original curr))
        ∷ (bytes "breaking_delta", number latest)
        ∷ (bytes "historical_max_delta", number (max_or_zero historical))
        ∷ (bytes "historical_jump_count", number (pos (length historical)))
        ∷ [];
  }

  unfoldable pub judge : Time → Text → Version → Version → ℤ → List ℤ → List Anomaly
  judge now package_ref prev curr latest historical =
      if not (lt_int (pos 0) latest)
      then []
      else if not (is_unusual_vs_history latest historical)
      then []
      else report now package_ref prev curr latest historical ∷ []

  -- The versions oldest first; fewer than two make no jump.
  unfoldable pub detect_versions : Time → Text → List Version → List Anomaly
  unfolding judge last_of but_last
  detect_versions now package_ref [] = []
  detect_versions now package_ref (v ∷ []) = []
  detect_versions now package_ref (v ∷ w ∷ vs) =
      judge now package_ref (last_of v (but_last w vs)) (last_of w vs)
        (last_of (breaking_delta v w) (jumps_from w vs))
        (but_last (breaking_delta v w) (jumps_from w vs))

  -- Detect
  unfoldable pub detect : Time → Text → List PublisherSnapshot → List Anomaly
  detect now package_ref history =
      detect_versions now package_ref (extract_versions_oldest_first history)
