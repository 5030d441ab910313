-- ===== src/Store.antt =====
-- engine/internal/storage/memory/memory.go: the in-process store. Each method holds the store's lock
-- from its first statement to its last, or until it has copied what it reads, so a call is one step.
-- `err` is what ctx.Err() returns when the method ends; the methods that write do so before they
-- consult it.
pub mod Catalog
pub mod Incidents
pub mod Publishers
pub mod Anomalies
use rampart.Base.{
  ℕ, zero, suc, ◌+◌, ◌-◌, ◌*◌, ◌≤◌, ◌<◌, ◌≡◌, refl, sym, ap, ◌∙◌, ◌≢◌, ◌↔◌, ◌⊎◌, inl, inr, Bool,
  true, false, not, ◌&&◌, ◌||◌, Option, none, some, List, [], ◌∷◌, ◌++◌, map, arith, Text, bytes,
  String, Eq, ◌==◌, eq_iff, eq_refl, eq_false, ne_of_eq_false, Text-eq, ℕ-eq, contains,
  contains_iff, keep_if, In, All, length, take, if◌then◌else◌, ltb, leb, Bool-cases, Option-cases,
}
use rampart.Base.Assoc.{Assoc, lookup, insert, values}
use rampart.Base.Strings.{text_lt, contains_text, to_lower}
use rampart.Base.Sort.{sort_by}
use rampart.Domain.Incident.{Time, Incident, IncidentState, IncidentState-eq, Remediation}
use rampart.Domain.Package.{PackageVersion, Sbom, SbomPackageRef}
use rampart.Domain.Component.{Component}
use rampart.Domain.Ioc.{Ioc}
use rampart.Domain.Publisher.{
  Publisher, PublisherProfile, PublisherSnapshot, Anomaly, AnomalyFilter, AnomalyKind,
  anomaly_kind_text,
}

-- storage.ErrNotFound, or the request context's own error.
pub data StorageError : Type 0 where
  not_found : StorageError
  context_error : Text → StorageError

pub data Result {ℓ} (A : Type ℓ) : Type ℓ where
  ok : A → Result A
  err : StorageError → Result A

-- `return v, ctx.Err()`, for callers that look at the error first.
abbrev pub finish {ℓ} : {A : Type ℓ} → Option StorageError → A → Result A
finish none a = ok a
finish (some e) a = err e

-- publisherKey
abbrev pub PublisherKey : Type 0
PublisherKey = Text × Text

pub publisher_key_iff : (a b : PublisherKey) → ((a.0 == b.0 && a.1 == b.1) ≡ true) ↔ (a ≡ b)
publisher_key_iff (a, x) (b, y) =
    (λ h. ground (arith, eq_iff a b, eq_iff x y), λ h. ground (arith, eq_iff a b, eq_iff x y))

instance abbrev pub PublisherKey-eq : Eq PublisherKey
PublisherKey-eq = record {
  same = λ a b. a.0 == b.0 && a.1 == b.1;
  same_iff = λ a b. publisher_key_iff a b;
}

-- anomalyDedupKey: kind, package reference and time of detection.
abbrev pub DedupKey : Type 0
DedupKey = Text × Text × Time

pub dedup_key_iff : (a b : DedupKey) → ((a.0 == b.0 && a.1 == b.1 && a.2 == b.2) ≡ true) ↔ (a ≡ b)
dedup_key_iff (a, x, t) (b, y, u) =
    (λ h. ground (arith, eq_iff a b, eq_iff x y), λ h. ground (arith, eq_iff a b, eq_iff x y))

instance abbrev pub DedupKey-eq : Eq DedupKey
DedupKey-eq = record {
  same = λ a b. a.0 == b.0 && a.1 == b.1 && a.2 == b.2;
  same_iff = λ a b. dedup_key_iff a b;
}

pub record Store : Type 0 where
  pub components : Assoc Text Component
  pub sboms : Assoc Text Sbom
  pub iocs : Assoc Text Ioc
  pub incidents : Assoc Text Incident
  pub publishers : Assoc PublisherKey Publisher
  pub profiles : Assoc PublisherKey PublisherProfile
  pub publisher_history : Assoc Text (List PublisherSnapshot)
  pub next_snapshot_id : ℕ
  pub anomalies : Assoc ℕ Anomaly
  pub anomaly_dedup : Assoc DedupKey ℕ
  pub next_anomaly_id : ℕ

-- New
unfoldable pub new : Store
new = record {
  components = [];
  sboms = [];
  iocs = [];
  incidents = [];
  publishers = [];
  profiles = [];
  publisher_history = [];
  next_snapshot_id = 0;
  anomalies = [];
  anomaly_dedup = [];
  next_anomaly_id = 0;
}
