-- ===== src/Cases.antt =====
-- Concrete data on which the theorems are applied: an engine with one component, its SBOM, an IoC and
-- an open incident.
pub mod Engine
pub mod Parts
pub mod Flows
pub mod Web
pub mod Gate
pub mod Wire
pub mod Start
use rampart.Base.{
  ℕ, zero, suc, ◌+◌, ◌-◌, Bool, Option, none, some, List, [], ◌∷◌, Text, bytes, leb, nat_eq, ◌&&◌,
}
use rampart.Domain.Incident.{Incident, pending, Remediation}
use rampart.Domain.Package.{PackageVersion, Sbom}
use rampart.Domain.Component.{Component}
use rampart.Domain.Ioc.{Ioc, IocKind, IocPackageVersion}
use rampart.Domain.Publisher.{Severity, PublisherSnapshot, Anomaly, AnomalyKind, ConfidenceLevel}
use rampart.Matcher.{Semver}
use rampart.Store.{Store}
use rampart.Api.{Env, World}
use rampart.Api.Matching.{MatchPair}

-- Versions of the form "a.b" with one digit each.
abbrev parse_digits : Text → Option (ℕ × ℕ)
parse_digits (a ∷ dot ∷ b ∷ []) = some (a - 48, b - 48)
parse_digits _ = none

abbrev pub short_semver : Semver
short_semver = record {
  Version = ℕ × ℕ;
  Constraint = ℕ × ℕ;
  new_version = parse_digits;
  new_constraint = parse_digits;
  check = λ c v. leb c.0 v.0;
  major = λ v. v.0;
  minor = λ v. v.1;
  prerelease = λ v. [];
  original = λ v. (v.0 + 48) ∷ b'.' ∷ (v.1 + 48) ∷ [];
  equal = λ a b. nat_eq a.0 b.0 && nat_eq a.1 b.1;
}

abbrev pub axios : PackageVersion
axios = record {
  ecosystem = bytes "npm";
  name = bytes "axios";
  version = bytes "1.2";
  purl = [];
  scope = [];
  integrity = [];
}

abbrev pub web_ref : Text
web_ref = bytes "kind:Component/default/web"

abbrev pub web_sbom : Sbom
web_sbom = record {
  id = bytes "S1";
  component_ref = web_ref;
  commit_sha = [];
  ecosystem = bytes "npm";
  generated_at = 3;
  packages = axios ∷ [];
  source_format = bytes "npm-package-lock-v3";
  source_bytes = 10;
}

abbrev pub web : Component
web = record {
  ref = web_ref;
  kind = bytes "Component";
  namespace = bytes "default";
  name = bytes "web";
  owner = bytes "team";
  system = [];
  lifecycle = [];
  tags = [];
  annotations = [];
}

abbrev pub axios_body : IocPackageVersion
axios_body = record { name = bytes "axios"; version = bytes "1.2"; purl = [] }

abbrev pub axios_ioc : Ioc
axios_ioc = record {
  id = bytes "I1";
  kind = IocKind.package_version;
  severity = Severity.high;
  ecosystem = bytes "npm";
  source = [];
  published_at = 2;
  description = [];
  version_body = some axios_body;
  range_body = none;
  publisher_body = none;
  anomaly_body = none;
}

abbrev pub open_incident : Incident
open_incident = record {
  id = bytes "X";
  ioc_id = bytes "I1";
  state = pending;
  opened_at = 4;
  last_transitioned_at = 4;
  affected_components_snapshot = web_ref ∷ [];
  remediations = [];
}

abbrev pub jump : Anomaly
jump = record {
  id = 0;
  kind = AnomalyKind.version_jump;
  package_ref = bytes "npm:axios";
  detected_at = 9;
  confidence = ConfidenceLevel.low;
  explanation = [];
  evidence = [];
}

abbrev pub store : Store
store = record {
  components = (web_ref, web) ∷ [];
  sboms = (bytes "S1", web_sbom) ∷ [];
  iocs = (bytes "I1", axios_ioc) ∷ [];
  incidents = (bytes "X", open_incident) ∷ [];
  publishers = [];
  profiles = [];
  publisher_history = [];
  next_snapshot_id = 0;
  anomalies = [];
  anomaly_dedup = [];
  next_anomaly_id = 0;
}

-- Every id that is minted is longer than the one before.
abbrev pub long_id : ℕ → Text
long_id zero = bytes "YY"
long_id (suc n) = b'Z' ∷ long_id n

abbrev pub env : Env
env = record { now = λ n. n + 100; new_ulid = long_id; ctx_err = λ n. none }

abbrev pub world : World
world = record { store = store; outbox = []; clock = 0; minted = 0; polls = 0 }

-- Two pairs: one whose incident is open, and a new one, given twice.
abbrev known_pair : MatchPair
known_pair = record { ioc_id = bytes "I1"; component_ref = web_ref }

abbrev pub new_pair : MatchPair
new_pair = record { ioc_id = bytes "I2"; component_ref = web_ref }

abbrev pub pairs : List MatchPair
pairs = known_pair ∷ new_pair ∷ new_pair ∷ []
