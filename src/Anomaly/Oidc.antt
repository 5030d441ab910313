-- ===== src/Anomaly/Oidc.antt =====
-- engine/anomaly/oidcregression/detector.go: a package that published by OIDC falls back to tokens.
use rampart.Base.{
  ℕ, ◌+◌, ◌≡◌, refl, ◌≢◌, inl, inr, Bool, true, false, not, Option, none, some, List, [], ◌∷◌, ◌++◌,
  Text, bytes, ◌==◌, eq_iff, ne_of_eq_false, Text-eq, ℕ-eq, In, if◌then◌else◌, Bool-cases,
  Option-cases,
}
use rampart.Base.Int.{pos}
use rampart.Domain.Incident.{Time, text, number}
use rampart.Domain.Publisher.{PublisherSnapshot, Anomaly, AnomalyKind, ConfidenceLevel}

-- publishMethodOIDC and publishMethodToken.
abbrev pub oidc : Text
oidc = bytes "oidc-trusted-publisher"

abbrev pub token : Text
token = bytes "token"

-- The loop over `history[1:]`: the index of the first snapshot that was published by OIDC.
unfoldable pub prior_oidc_at : ℕ → List PublisherSnapshot → Option ℕ
prior_oidc_at i [] = none
prior_oidc_at i (snap ∷ snaps) =
    let rest = prior_oidc_at (i + 1) snaps in if snap.publish_method == oidc then some i else rest

abbrev pub regression : Time → Text → PublisherSnapshot → PublisherSnapshot → ℕ → Anomaly
regression now package_ref newest previous index = record {
  id = 0;
  kind = AnomalyKind.oidc_publishing_regression;
  package_ref = package_ref;
  detected_at = now;
  confidence =
      if previous.publish_method == oidc then ConfidenceLevel.high else ConfidenceLevel.medium;
  explanation =
      package_ref
      ++ bytes " publish_method regressed from "
      ++ b'"' ∷ oidc
      ++ b'"' ∷ bytes " to "
      ++ b'"' ∷ token
      ++ b'"' ∷ bytes " (latest version "
      ++ newest.latest_version
      ++ bytes ")";
  evidence =
      (bytes "newest_publish_method", text newest.publish_method)
      ∷ (bytes "previous_publish_method", text previous.publish_method)
      ∷ (bytes "latest_version", text newest.latest_version)
      ∷ (bytes "oidc_seen_at_index", number (pos index))
      ∷ [];
}

after_search : Time → Text → PublisherSnapshot → PublisherSnapshot → Option ℕ → List Anomaly
after_search now package_ref newest previous none = []
after_search now package_ref newest previous (some index) =
    regression now package_ref newest previous index ∷ []

-- Detect
unfoldable pub detect : Time → Text → List PublisherSnapshot → List Anomaly
unfolding after_search
detect now package_ref [] = []
detect now package_ref (newest ∷ []) = []
detect now package_ref (newest ∷ previous ∷ older) =
    if not (newest.publish_method == token)
    then []
    else after_search now package_ref newest previous (prior_oidc_at 1 (previous ∷ older))

-- The newest release was published by token, and an earlier one by OIDC.
abbrev pub Regresses : List PublisherSnapshot → Type 0
Regresses [] = ⊥
Regresses (newest ∷ older) =
    (newest.publish_method ≡ token)
    × ((snap : PublisherSnapshot) × In snap older × (snap.publish_method ≡ oidc))

-- The second newest release was published by OIDC.
abbrev pub JustBefore : List PublisherSnapshot → Type 0
JustBefore [] = ⊥
JustBefore (newest ∷ []) = ⊥
JustBefore (newest ∷ previous ∷ older) = previous.publish_method ≡ oidc

abbrev pub Graded : List PublisherSnapshot → ConfidenceLevel → Type 0
Graded history ConfidenceLevel.high = JustBefore history
Graded history ConfidenceLevel.medium = ¬ JustBefore history
Graded history ConfidenceLevel.low = ⊥
Graded history (ConfidenceLevel.other t) = ⊥

pub data RegressionVerdict (now : Time) (package_ref : Text) (history : List PublisherSnapshot)
    : List Anomaly → Type 0 where
  nothing : ¬ Regresses history → RegressionVerdict now package_ref history []
  found :
      (a : Anomaly)
      → Regresses history
      → a.kind ≡ AnomalyKind.oidc_publishing_regression
      → a.package_ref ≡ package_ref
      → a.detected_at ≡ now
      → Graded history a.confidence
      → RegressionVerdict now package_ref history (a ∷ [])

prior_none :
    (i : ℕ) (snaps : List PublisherSnapshot)
    → prior_oidc_at i snaps ≡ none
    → (snap : PublisherSnapshot) → In snap snaps
    → snap.publish_method ≢ oidc
unfolding prior_oidc_at
prior_none i [] h snap m = absurd m
prior_none i (x ∷ snaps) h snap m = elim (Bool-cases (x.publish_method == oidc)) [
  | inl hit ↦ absurd (cc (rw hit at h))
  | inr miss ↦ elim m [
    | inl e ↦ rw e (ne_of_eq_false x.publish_method oidc miss)
    | inr later ↦ prior_none (i + 1) snaps (rw miss at h) snap later
  ]
]

prior_some :
    (i k : ℕ) (snaps : List PublisherSnapshot)
    → prior_oidc_at i snaps ≡ some k
    → (snap : PublisherSnapshot) × In snap snaps × (snap.publish_method ≡ oidc)
unfolding prior_oidc_at
prior_some i k [] h = absurd (cc h)
prior_some i k (x ∷ snaps) h = elim (Bool-cases (x.publish_method == oidc)) [
  | inl hit ↦ (x, inl refl, (eq_iff x.publish_method oidc).0 hit)
  | inr miss ↦ let (snap, m, e) = prior_some (i + 1) k snaps (rw miss at h) in (snap, inr m, e)
]

grade_of :
    (newest previous : PublisherSnapshot) (older : List PublisherSnapshot) (b : Bool)
    → (previous.publish_method == oidc) ≡ b
    → Graded
        (newest ∷ previous ∷ older)
        (if b then ConfidenceLevel.high else ConfidenceLevel.medium)
grade_of newest previous older true e = (eq_iff previous.publish_method oidc).0 e
grade_of newest previous older false e = ne_of_eq_false previous.publish_method oidc e

-- The detector reports exactly when the newest snapshot was published by token and some earlier one
-- by OIDC. Then it raises one regression anomaly for the package, dated now, of high confidence when
-- the snapshot right before was published by OIDC and of medium confidence otherwise.
pub detect-RegressionVerdict :
    (now : Time) (package_ref : Text) (history : List PublisherSnapshot)
    → RegressionVerdict now package_ref history (detect now package_ref history)
unfolding detect
detect-RegressionVerdict now package_ref [] = nothing (λ h. h)
detect-RegressionVerdict now package_ref (newest ∷ []) = nothing (λ h. h.1.1)
detect-RegressionVerdict now package_ref (newest ∷ previous ∷ older) =
    elim (Bool-cases (newest.publish_method == token)) [
      | inr other ↦ rw other (nothing (λ h. ne_of_eq_false newest.publish_method token other h.0))
      | inl by_token ↦ elim (Option-cases (prior_oidc_at 1 (previous ∷ older))) [
        | inl never ↦
            rw (by_token, never, after_search)
              (nothing
                (λ h. let (snap, m, e) = h.1 in prior_none 1 (previous ∷ older) never snap m e))
        | inr (k, seen) ↦
            rw (by_token, seen, after_search)
              (found (regression now package_ref newest previous k)
                (
                  (eq_iff newest.publish_method token).0 by_token,
                  prior_some 1 k (previous ∷ older) seen,
                )
                refl refl refl
                (grade_of newest previous older (previous.publish_method == oidc) refl))
      ]
    ]
