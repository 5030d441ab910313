-- ===== src/Anomaly/Drift/Verdict.antt =====
-- When the maintainer-drift detector reports, and with which confidence.
use rampart.Base.{
  ℕ, suc, ◌+◌, ◌-◌, ◌≤◌, ◌<◌, ◌≡◌, refl, sym, ◌↔◌, ◌⊎◌, inl, inr, Bool, true, false, not, ◌&&◌,
  Option, none, some, List, [], ◌∷◌, arith, Text, Text-eq, ℕ-eq, contains, contains_iff, In,
  if◌then◌else◌, ltb, Bool-cases, ltb→lt,
}
use rampart.Base.Int.{pos, lt_int, half, negate}
use rampart.Domain.Incident.{Time}
use rampart.Domain.Publisher.{PublisherSnapshot, Anomaly, AnomalyKind, ConfidenceLevel}
use rampart.Anomaly.Drift.{
  ever_seen, saturate, since, high_window, medium_window, all_first_seen, classify_confidence,
  drift, report_drift, new_emails, detect_drift,
}
use rampart.Anomaly.Drift.Emails.{EverSeen, Drifted, In-ever_seen, In-new_emails}

saturate-negate : (w n : ℕ) → lt_int (pos w) (saturate (negate (suc n))) ≡ false
saturate-negate w n = elim (Bool-cases (ltb n half)) [ inl s ↦ rw s refl | inr s ↦ rw s refl ]

subtracted : (now t : ℕ) → now < t → t - now ≡ suc (t - now - 1)
subtracted now t h = omega arith

-- A difference of times is within a window that is no longer than an int64.
within_iff :
    (w now t : ℕ) → w < 9223372036854775807 → (lt_int (pos w) (since now t) ≡ false) ↔ (now ≤ t + w)
within_iff w now t hw = elim (Bool-cases (ltb now t)) [
  | inl future ↦
      rw (future, subtracted now t (ltb→lt now t future))
        (λ h. omega (arith, ltb→lt now t future), λ h. saturate-negate w (t - now - 1))
  | inr past ↦ rw past (elim (Bool-cases (ltb (now - t) half)) [
    | inl fits ↦ rw fits (λ h. ground arith, λ h. ground arith)
    | inr long ↦ rw long (λ h. ground arith, λ h. ground arith)
  ])
]

all_first :
    (ever es : List Text) → all_first_seen ever es ≡ true → (e : Text) → In e es → ¬ In e ever
unfolding all_first_seen
all_first ever [] h e m = absurd m
all_first ever (x ∷ es) h e m = elim (Bool-cases (contains ever x)) [
  | inl dup ↦ absurd (cc (rw dup at h))
  | inr fresh ↦ elim m [
    | inl same ↦ λ there. cc (fresh, (contains_iff ever x).1 (rw same at there))
    | inr later ↦ all_first ever es (rw fresh at h) e later
  ]
]

not_first :
    (ever es : List Text) → all_first_seen ever es ≡ false → (e : Text) × In e es × In e ever
unfolding all_first_seen
not_first ever [] h = absurd (cc h)
not_first ever (x ∷ es) h = elim (Bool-cases (contains ever x)) [
  | inl dup ↦ (x, inl refl, (contains_iff ever x).0 dup)
  | inr fresh ↦ let (e, m, there) = not_first ever es (rw fresh at h) in (e, inr m, there)
]

-- The newest version was published at a known time, no longer ago than the window.
abbrev pub Recent : ℕ → Time → Option Time → Type 0
Recent w now none = ⊥
Recent w now (some t) = now ≤ t + w

-- No new address stood on any earlier snapshot.
abbrev pub AllFirst : PublisherSnapshot → PublisherSnapshot → List PublisherSnapshot → Type 0
AllFirst newest previous older =
    (e : Text) → Drifted e (newest ∷ previous ∷ older) → ¬ EverSeen e (previous ∷ older)

abbrev pub Graded :
    Time
    → Option Time
    → PublisherSnapshot
    → PublisherSnapshot
    → List PublisherSnapshot
    → ConfidenceLevel
    → Type 0
Graded now published newest previous older ConfidenceLevel.high =
    Recent high_window now published × AllFirst newest previous older
Graded now published newest previous older ConfidenceLevel.medium =
    Recent medium_window now published
    × ((¬ Recent high_window now published) ⊎ (¬ AllFirst newest previous older))
Graded now published newest previous older ConfidenceLevel.low =
    ¬ Recent medium_window now published
Graded now published newest previous older (ConfidenceLevel.other t) = ⊥

first_iff :
    (newest previous : PublisherSnapshot) (older : List PublisherSnapshot)
    → (all_first_seen (ever_seen [] (previous ∷ older)) (new_emails newest previous) ≡ true)
      ↔ AllFirst newest previous older
first_iff newest previous older =
    let ever = ever_seen [] (previous ∷ older) in
    let news = new_emails newest previous in
    (
      λ h e d seen.
          all_first ever news h e ((In-new_emails e newest previous older).1 d)
            ((In-ever_seen e (previous ∷ older) []).1 (inr seen)),
      λ all. elim (Bool-cases (all_first_seen ever news)) [
        | inl h ↦ h
        | inr h ↦
            let (e, m, there) = not_first ever news h in
            absurd (elim ((In-ever_seen e (previous ∷ older) []).0 there) [
              | inl never ↦ never
              | inr seen ↦ all e ((In-new_emails e newest previous older).0 m) seen
            ])
      ],
    )

grade_of :
    (now : Time) (published : Option Time) (newest previous : PublisherSnapshot)
    (older : List PublisherSnapshot)
    → Graded now published newest previous older
        (classify_confidence now published
          (new_emails newest previous)
          (ever_seen [] (previous ∷ older))).0
unfolding classify_confidence
grade_of now none newest previous older = λ h. h
grade_of now (some t) newest previous older =
    let first = first_iff newest previous older in
    let all = all_first_seen (ever_seen [] (previous ∷ older)) (new_emails newest previous) in
    let high = within_iff high_window now t (omega arith) in
    let medium = within_iff medium_window now t (omega arith) in
    graded (lt_int (pos high_window) (since now t)) all (lt_int (pos medium_window) (since now t))
      high first medium
  where
    graded :
        (h a m : Bool)
        → (h ≡ false) ↔ (now ≤ t + high_window)
        → (a ≡ true) ↔ AllFirst newest previous older
        → (m ≡ false) ↔ (now ≤ t + medium_window)
        → Graded now (some t) newest previous older (
            if not h && a
            then ConfidenceLevel.high
            else if not m
            then ConfidenceLevel.medium
            else ConfidenceLevel.low)
    graded false true m hi fi me = (hi.0 refl, fi.0 refl)
    graded true a false hi fi me = (me.0 refl, inl (λ r. cc (hi.1 r)))
    graded true a true hi fi me = λ r. cc (me.1 r)
    graded false false false hi fi me = (me.0 refl, inr (λ r. cc (fi.1 r)))
    graded false false true hi fi me = λ r. cc (me.1 r)

pub data DriftVerdict (now stamped : Time) (package_ref : Text)
    : List PublisherSnapshot → List Anomaly → Type 0 where
  nothing :
      (history : List PublisherSnapshot)
      → ((e : Text) → ¬ Drifted e history)
      → DriftVerdict now stamped package_ref history []
  found :
      (newest previous : PublisherSnapshot) (older : List PublisherSnapshot) (a : Anomaly)
      → ((e : Text) × Drifted e (newest ∷ previous ∷ older))
      → a.kind ≡ AnomalyKind.maintainer_email_drift
      → a.package_ref ≡ package_ref
      → a.detected_at ≡ stamped
      → Graded now newest.latest_version_published_at newest previous older a.confidence
      → DriftVerdict now stamped package_ref (newest ∷ previous ∷ older) (a ∷ [])

-- The detector reports exactly when an address stands on the newest snapshot and not on the one
-- before. Then it raises one drift anomaly for the package, dated by its second reading of the clock:
-- of high confidence when the newest version was published within seven days before the first
-- reading and no new address ever stood on an earlier snapshot, else of medium confidence within
-- fourteen days, and of low confidence when it is older or its time is not known.
pub detect_drift-DriftVerdict :
    (now stamped : Time) (package_ref : Text) (history : List PublisherSnapshot)
    → DriftVerdict now stamped package_ref history (detect_drift now stamped package_ref history)
unfolding detect_drift report_drift
detect_drift-DriftVerdict now stamped package_ref [] = nothing [] (λ e h. h)
detect_drift-DriftVerdict now stamped package_ref (newest ∷ []) = nothing (newest ∷ []) (λ e h. h)
detect_drift-DriftVerdict now stamped package_ref (newest ∷ previous ∷ older) =
    by_news (new_emails newest previous) refl
  where
    by_news :
        (news : List Text)
        → new_emails newest previous ≡ news
        → DriftVerdict now stamped package_ref
            (newest ∷ previous ∷ older)
            (report_drift now stamped package_ref newest previous older news)
    by_news [] e =
        nothing (newest ∷ previous ∷ older)
          (λ x d. rw e at ((In-new_emails x newest previous older).1 d))
    by_news (x ∷ xs) e =
        found newest previous older (drift now stamped package_ref newest previous older (x ∷ xs))
          (x, (In-new_emails x newest previous older).0 (rw e (inl refl))) refl refl refl
          (rw (sym e) (grade_of now newest.latest_version_published_at newest previous older))
