-- ===== src/Cases/Parts.antt =====
-- The theorems on incidents, IoCs, references and detectors, applied to concrete data.
use rampart.Base.{
  list_eq, ◌≡◌, refl, ◌↔◌, none, List, [], ◌∷◌, arith, Text, bytes, Text-eq, ℕ-eq, All, some, ◌++◌,
}
use rampart.Domain.Incident.{
  pending, triaged, acknowledged, remediating, closed, transition, can_transition_to,
}
use rampart.Domain.Incident.Laws.{Outcome, transition-Outcome}
use rampart.Domain.Incident.History.{History, run, remaining, requests, closed_by_steps}
use mathlib.Core.List.{Sublistᴰ}
use rampart.Domain.Ioc.{validate, IocBody, IsTagged, validate_iff}
use rampart.Domain.Component.{
  parse_component_ref, parsed, format_ref, IsSegment, parse_component_ref_iff,
}
use rampart.Domain.Publisher.{PublisherSnapshot}
use rampart.Anomaly.VersionJump.{extract_from, extract_one, last_of, extract_versions_oldest_first}
use rampart.Anomaly.VersionJump.Bounds.{jumps, SmallVersion}
use rampart.Anomaly.VersionJump.Outlier.{JumpVerdict, detect-JumpVerdict}
use rampart.Anomaly.Oidc.{RegressionVerdict, detect-RegressionVerdict}
use rampart.Anomaly.Drift.{detect_drift}
use rampart.Anomaly.Drift.Verdict.{DriftVerdict, detect_drift-DriftVerdict}
use rampart.Anomaly.Bridge.{emitted_ioc, emitted_ioc-lookup}
use rampart.Api.Lookup.{ioc_lookup_key}
use rampart.Cases.{jump, axios_ioc, open_incident, web_ref, short_semver}

transition-Outcome_example : Outcome open_incident triaged 8 (transition open_incident triaged 8)
transition-Outcome_example = transition-Outcome open_incident triaged 8

-- One refused request on the way from pending to closed.
abbrev history : History
history =
    (triaged, 5)
    ∷ (closed, 6)
    ∷ (acknowledged, 7)
    ∷ (remediating, 8)
    ∷ (closed, 9)
    ∷ (pending, 10)
    ∷ []

history_closes : (run open_incident history).state ≡ closed
unfolding run transition can_transition_to
history_closes = refl

closed_by_steps_example : Sublistᴰ (remaining open_incident.state) (requests history)
closed_by_steps_example = closed_by_steps open_incident history history_closes

validate_iff_example : (validate axios_ioc ≡ none) ↔ ((b : IocBody) × IsTagged axios_ioc b)
validate_iff_example = validate_iff axios_ioc

parse_component_ref_iff_example :
    (parse_component_ref web_ref ≡ parsed (bytes "Component") (bytes "default") (bytes "web")) ↔ (
      (web_ref ≡ format_ref (bytes "Component") (bytes "default") (bytes "web"))
      × IsSegment (bytes "Component")
      × IsSegment (bytes "default")
      × IsSegment (bytes "web"))
parse_component_ref_iff_example =
    parse_component_ref_iff web_ref (bytes "Component") (bytes "default") (bytes "web")

abbrev snapshot : Text → Text → PublisherSnapshot
snapshot version method = record {
  id = 0;
  package_ref = bytes "npm:axios";
  snapshot_at = 1;
  maintainers = [];
  latest_version = version;
  latest_version_published_at = none;
  publish_method = method;
  source_repo_url = none;
  raw_data = [];
}

-- Newest first: a jump from 1.1 to 7.0, published by token after OIDC.
abbrev snapshots : List PublisherSnapshot
snapshots =
    snapshot (bytes "7.0") (bytes "token")
    ∷ snapshot (bytes "1.1") (bytes "oidc-trusted-publisher")
    ∷ snapshot (bytes "1.0") (bytes "oidc-trusted-publisher")
    ∷ []

small_versions :
    All (SmallVersion short_semver) (extract_versions_oldest_first short_semver snapshots)
unfolding extract_versions_oldest_first extract_from extract_one last_of list_eq
small_versions =
    ((omega arith, omega arith), ((omega arith, omega arith), ((omega arith, omega arith), tt)))

detect-JumpVerdict_example :
    JumpVerdict 9
      (bytes "npm:axios")
      (jumps short_semver (extract_versions_oldest_first short_semver snapshots))
      (rampart.Anomaly.VersionJump.detect short_semver 9 (bytes "npm:axios") snapshots)
detect-JumpVerdict_example =
    detect-JumpVerdict short_semver 9 (bytes "npm:axios") snapshots small_versions

detect-RegressionVerdict_example :
    RegressionVerdict 9
      (bytes "npm:axios")
      snapshots
      (rampart.Anomaly.Oidc.detect 9 (bytes "npm:axios") snapshots)
detect-RegressionVerdict_example = detect-RegressionVerdict 9 (bytes "npm:axios") snapshots

abbrev mailed : Text → PublisherSnapshot
mailed email = record {
  id = 0;
  package_ref = bytes "npm:axios";
  snapshot_at = 1;
  maintainers = record { email = email; name = []; username = [] } ∷ [];
  latest_version = bytes "1.0";
  latest_version_published_at = some 5;
  publish_method = [];
  source_repo_url = none;
  raw_data = [];
}

abbrev mails : List PublisherSnapshot
mails = mailed (bytes "Eve@x.org ") ∷ mailed (bytes "ada@x.org") ∷ []

detect_drift-DriftVerdict_example :
    DriftVerdict 9 10 (bytes "npm:axios") mails (detect_drift 9 10 (bytes "npm:axios") mails)
detect_drift-DriftVerdict_example = detect_drift-DriftVerdict 9 10 (bytes "npm:axios") mails

emitted_ioc-lookup_example :
    let ioc = emitted_ioc (λ t. t ∷ []) jump (bytes "npm" ++ b':' ∷ bytes "axios") 9 in
    (validate ioc ≡ none)
    × (ioc.ecosystem ≡ bytes "npm")
    × (ioc_lookup_key ioc ≡ some (bytes "npm", bytes "axios"))
emitted_ioc-lookup_example =
    emitted_ioc-lookup (λ t. t ∷ []) jump (bytes "npm") (bytes "axios") 9 (λ e. cc e) (λ e. cc e)
      (ground arith)
