-- ===== src/Anomaly/Drift.antt =====
-- engine/anomaly/maintainerdrift/detector.go: a new maintainer e-mail address on the newest snapshot.
pub mod Emails
pub mod Verdict
use rampart.Base.{
  ℕ, zero, suc, ◌+◌, ◌-◌, ◌*◌, ◌≤◌, ◌<◌, ◌≡◌, refl, sym, ap, ◌∙◌, ◌≢◌, ◌↔◌, ◌⊎◌, inl, inr, Bool,
  true, false, not, ◌&&◌, ◌||◌, Option, none, some, List, [], ◌∷◌, ◌++◌, map, arith, Text, bytes,
  String, Eq, ◌==◌, eq_iff, eq_refl, eq_false, ne_of_eq_false, Text-eq, ℕ-eq, contains,
  contains_iff, keep_if, In, All, length, take, if◌then◌else◌, ltb, leb, Bool-cases, Option-cases,
}
use rampart.Base.Int.{ℤ, pos, negsuc, minus, lt_int, half}
use rampart.Base.Strings.{to_lower, trim_space, join}
use rampart.Domain.Incident.{Time, Value, text, texts, number, hours}
use rampart.Domain.Publisher.{Maintainer, PublisherSnapshot, Anomaly, AnomalyKind, ConfidenceLevel}

-- highWindow and mediumWindow, in nanoseconds.
abbrev pub high_window : ℕ
high_window = 604800000000000

abbrev pub medium_window : ℕ
medium_window = 1209600000000000

-- `strings.ToLower(strings.TrimSpace(m.Email))`
abbrev pub address : Maintainer → Text
address m = to_lower (trim_space m.email)

-- `out[e] = struct{}{}`
abbrev pub add : List Text → Text → List Text
add out e = if contains out e then out else out ++ e ∷ []

-- The loop of emailSet.
unfoldable pub email_from : List Text → List Maintainer → List Text
email_from out [] = out
email_from out (m ∷ ms) = email_from (if address m == [] then out else add out (address m)) ms

-- emailSet, in the order of the maintainers.
unfoldable pub email_set : List Maintainer → List Text
unfolding email_from
email_set ms = email_from [] ms

unfoldable pub seen_from : List Text → List Maintainer → List Text
seen_from out [] = out
seen_from out (m ∷ ms) = seen_from (add out (address m)) ms

-- The map `everSeen`, filled from `history[1:]`.
unfoldable pub ever_seen : List Text → List PublisherSnapshot → List Text
ever_seen out [] = out
ever_seen out (snap ∷ snaps) = ever_seen (seen_from out snap.maintainers) snaps

-- `now.Sub(t)`: the difference of two times, which saturates.
abbrev pub saturate : ℤ → ℤ
saturate (pos n) = if ltb n half then pos n else pos (half - 1)
saturate (negsuc n) = if ltb n half then negsuc n else negsuc (half - 1)

abbrev pub since : Time → Time → ℤ
since now t = saturate (minus now t)

-- The loop that computes `allFirstSeen`.
unfoldable pub all_first_seen : List Text → List Text → Bool
all_first_seen ever [] = true
all_first_seen ever (e ∷ es) =
    let rest = all_first_seen ever es in if contains ever e then false else rest

-- classifyConfidence: the level, and `ageHours`.
unfoldable pub classify_confidence :
    Time → Option Time → List Text → List Text → ConfidenceLevel × Value
classify_confidence now none new_emails ever = (ConfidenceLevel.low, number (negsuc 0))
classify_confidence now (some t) new_emails ever = (
  if not (lt_int (pos high_window) (since now t)) && all_first_seen ever new_emails
      then ConfidenceLevel.high
      else if not (lt_int (pos medium_window) (since now t))
      then ConfidenceLevel.medium
      else ConfidenceLevel.low,
  hours (since now t),
)

abbrev pub drift :
    Time
    → Time
    → Text
    → PublisherSnapshot
    → PublisherSnapshot
    → List PublisherSnapshot
    → List Text
    → Anomaly
drift now stamped package_ref newest previous older new_emails =
    let (level, age) =
      classify_confidence now newest.latest_version_published_at new_emails
        (ever_seen [] (previous ∷ older)) in
    record {
      id = 0;
      kind = AnomalyKind.maintainer_email_drift;
      package_ref = package_ref;
      detected_at = stamped;
      confidence = level;
      explanation =
          bytes "new maintainer email(s) ["
          ++ join b' ' new_emails
          ++ bytes "] appeared on the latest snapshot of "
          ++ package_ref;
      evidence =
          (bytes "new_emails", texts new_emails)
          ∷ (bytes "prior_email_count", number (pos (length (email_set previous.maintainers))))
          ∷ (bytes "current_email_count", number (pos (length (email_set newest.maintainers))))
          ∷ (bytes "latest_version", text newest.latest_version)
          ∷ (bytes "latest_publish_age_h", age)
          ∷ [];
    }

report_drift :
    Time
    → Time
    → Text
    → PublisherSnapshot
    → PublisherSnapshot
    → List PublisherSnapshot
    → List Text
    → List Anomaly
report_drift now stamped package_ref newest previous older [] = []
report_drift now stamped package_ref newest previous older (e ∷ es) =
    drift now stamped package_ref newest previous older (e ∷ es) ∷ []

-- The loop over `current`.
abbrev pub new_emails : PublisherSnapshot → PublisherSnapshot → List Text
new_emails newest previous =
    keep_if (λ e. not (contains (email_set previous.maintainers) e)) (email_set newest.maintainers)

-- Detect, with what its two readings of the clock return; the order of the new addresses is that of a map in the source.
unfoldable pub detect_drift : Time → Time → Text → List PublisherSnapshot → List Anomaly
unfolding report_drift
detect_drift now stamped package_ref [] = []
detect_drift now stamped package_ref (newest ∷ []) = []
detect_drift now stamped package_ref (newest ∷ previous ∷ older) =
    report_drift now stamped package_ref newest previous older (new_emails newest previous)
