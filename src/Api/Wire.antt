-- ===== src/Api/Wire.antt =====
-- The JSON types of engine/api/gen/api.gen.go that the handlers read and write, and the handlers' conversions
-- between them and the domain's types. A pointer is an Option. A conversion from one string type to
-- another changes nothing, so the enumerations are the domain's.
pub mod Laws
use rampart.Base.{
  ℕ, zero, suc, ◌+◌, ◌-◌, ◌*◌, ◌≤◌, ◌<◌, ◌≡◌, refl, sym, ap, ◌∙◌, ◌≢◌, ◌↔◌, ◌⊎◌, inl, inr, Bool,
  true, false, not, ◌&&◌, ◌||◌, Option, none, some, List, [], ◌∷◌, ◌++◌, map, arith, Text, bytes,
  String, Eq, ◌==◌, eq_iff, eq_refl, eq_false, ne_of_eq_false, Text-eq, ℕ-eq, contains,
  contains_iff, keep_if, In, All, length, take, if◌then◌else◌, ltb, leb, Bool-cases, Option-cases,
}
use rampart.Domain.Incident.{Time, Details, Incident, IncidentState, Remediation, RemediationKind}
use rampart.Domain.Publisher.{
  Severity, AnomalyKind, ConfidenceLevel, Anomaly, Maintainer, PublisherSnapshot,
}
use rampart.Domain.Package.{PackageVersion, Sbom}
use rampart.Domain.Component.{Component}
use rampart.Domain.Ioc.{
  Ioc, IocKind, IocPackageVersion, IocPackageRange, IocPublisherAnomaly, IocBodyAnomaly,
}

-- `if s != "" { out = &s }`, and optionalNonEmpty.
unfoldable pub optional_non_empty : Text → Option Text
optional_non_empty s = if s == [] then none else some s

-- `if p != nil { out = *p }`, where `out` is the zero value.
abbrev pub text_or_zero : Option Text → Text
text_or_zero none = []
text_or_zero (some s) = s

-- `if len(xs) > 0 { out = &xs }`
abbrev pub optional_list {ℓ} : {A : Type ℓ} → List A → Option (List A)
optional_list [] = none
optional_list (x ∷ xs) = some (x ∷ xs)

abbrev pub list_or_nil {ℓ} : {A : Type ℓ} → Option (List A) → List A
list_or_nil none = []
list_or_nil (some xs) = xs

pub record GenIocPublisherAnomaly : Type 0 where
  pub publisher_name : Text

pub record GenIoc : Type 0 where
  pub anomaly_body : Option IocBodyAnomaly
  pub description : Option Text
  pub ecosystem : Text
  pub id : Text
  pub kind : IocKind
  pub package_range : Option IocPackageRange
  pub package_version : Option IocPackageVersion
  pub published_at : Time
  pub publisher_anomaly : Option GenIocPublisherAnomaly
  pub severity : Severity
  pub source : Option Text

abbrev pub from_gen_publisher : Option GenIocPublisherAnomaly → Option IocPublisherAnomaly
from_gen_publisher none = none
from_gen_publisher (some b) = some (record { publisher_name = b.publisher_name; signals = [] })

abbrev pub to_gen_publisher : Option IocPublisherAnomaly → Option GenIocPublisherAnomaly
to_gen_publisher none = none
to_gen_publisher (some b) = some (record { publisher_name = b.publisher_name })

-- fromGenIoC, which reads no AnomalyBody.
unfoldable pub from_gen_ioc : GenIoc → Ioc
from_gen_ioc g = record {
  id = g.id;
  kind = g.kind;
  severity = g.severity;
  ecosystem = g.ecosystem;
  source = text_or_zero g.source;
  published_at = g.published_at;
  description = text_or_zero g.description;
  version_body = g.package_version;
  range_body = g.package_range;
  publisher_body = from_gen_publisher g.publisher_anomaly;
  anomaly_body = none;
}

-- toGenIoC, which writes no AnomalyBody.
unfoldable pub to_gen_ioc : Ioc → GenIoc
to_gen_ioc i = record {
  anomaly_body = none;
  description = optional_non_empty i.description;
  ecosystem = i.ecosystem;
  id = i.id;
  kind = i.kind;
  package_range = i.range_body;
  package_version = i.version_body;
  published_at = i.published_at;
  publisher_anomaly = to_gen_publisher i.publisher_body;
  severity = i.severity;
  source = optional_non_empty i.source;
}

pub record GenComponent : Type 0 where
  pub annotations : Option (List (Text × Text))
  pub kind : Text
  pub lifecycle : Option Text
  pub name : Text
  pub namespace : Text
  pub owner : Option Text
  pub ref : Text
  pub system : Option Text
  pub tags : Option (List Text)

-- toGenComponent
unfoldable pub to_gen_component : Component → GenComponent
to_gen_component c = record {
  annotations = optional_list c.annotations;
  kind = c.kind;
  lifecycle = optional_non_empty c.lifecycle;
  name = c.name;
  namespace = c.namespace;
  owner = optional_non_empty c.owner;
  ref = c.ref;
  system = optional_non_empty c.system;
  tags = optional_list c.tags;
}

-- fromGenComponent
unfoldable pub from_gen_component : GenComponent → Component
from_gen_component g = record {
  ref = g.ref;
  kind = g.kind;
  namespace = g.namespace;
  name = g.name;
  owner = text_or_zero g.owner;
  system = text_or_zero g.system;
  lifecycle = text_or_zero g.lifecycle;
  tags = list_or_nil g.tags;
  annotations = list_or_nil g.annotations;
}

pub record GenRemediation : Type 0 where
  pub actor_ref : Option Text
  pub details : Option Details
  pub executed_at : Time
  pub id : Text
  pub incident_id : Text
  pub kind : RemediationKind

-- toGenRemediation
unfoldable pub to_gen_remediation : Remediation → GenRemediation
to_gen_remediation r = record {
  actor_ref = optional_non_empty r.actor_ref;
  details = optional_list r.details;
  executed_at = r.executed_at;
  id = r.id;
  incident_id = r.incident_id;
  kind = r.kind;
}

pub record GenIncident : Type 0 where
  pub affected_components_snapshot : Option (List Text)
  pub id : Text
  pub ioc_id : Text
  pub last_transitioned_at : Time
  pub opened_at : Time
  pub remediations : Option (List GenRemediation)
  pub state : IncidentState

-- toGenIncident
unfoldable pub to_gen_incident : Incident → GenIncident
to_gen_incident inc = record {
  affected_components_snapshot = optional_list inc.affected_components_snapshot;
  id = inc.id;
  ioc_id = inc.ioc_id;
  last_transitioned_at = inc.last_transitioned_at;
  opened_at = inc.opened_at;
  remediations = optional_list (map to_gen_remediation inc.remediations);
  state = inc.state;
}

pub record GenPackageVersion : Type 0 where
  pub ecosystem : Text
  pub integrity : Option Text
  pub name : Text
  pub purl : Text
  pub scope : Option (List Text)
  pub version : Text

-- toGenPackageVersion
unfoldable pub to_gen_package_version : PackageVersion → GenPackageVersion
to_gen_package_version p = record {
  ecosystem = p.ecosystem;
  integrity = optional_non_empty p.integrity;
  name = p.name;
  purl = p.purl;
  scope = optional_list p.scope;
  version = p.version;
}

pub record GenSbom : Type 0 where
  pub commit_sha : Option Text
  pub component_ref : Text
  pub ecosystem : Text
  pub generated_at : Time
  pub id : Text
  pub packages : Option (List GenPackageVersion)
  pub source_bytes : Option ℕ
  pub source_format : Text

-- toGenSBOM
unfoldable pub to_gen_sbom : Sbom → GenSbom
to_gen_sbom b = record {
  commit_sha = optional_non_empty b.commit_sha;
  component_ref = b.component_ref;
  ecosystem = b.ecosystem;
  generated_at = b.generated_at;
  id = b.id;
  packages = optional_list (map to_gen_package_version b.packages);
  source_bytes = if ltb 0 b.source_bytes then some b.source_bytes else none;
  source_format = b.source_format;
}

pub record GenAnomaly : Type 0 where
  pub confidence : ConfidenceLevel
  pub detected_at : Time
  pub evidence : Option Details
  pub explanation : Text
  pub id : ℕ
  pub kind : AnomalyKind
  pub package_ref : Text

-- anomalyToWire
unfoldable pub anomaly_to_wire : Anomaly → GenAnomaly
anomaly_to_wire a = record {
  confidence = a.confidence;
  detected_at = a.detected_at;
  evidence = optional_list a.evidence;
  explanation = a.explanation;
  id = a.id;
  kind = a.kind;
  package_ref = a.package_ref;
}

pub record GenMaintainer : Type 0 where
  pub email : Option Text
  pub name : Option Text
  pub username : Option Text

unfoldable pub maintainer_to_wire : Maintainer → GenMaintainer
maintainer_to_wire m = record {
  email = optional_non_empty m.email;
  name = optional_non_empty m.name;
  username = optional_non_empty m.username;
}

pub record GenPublisherSnapshot : Type 0 where
  pub id : ℕ
  pub latest_version : Option Text
  pub latest_version_published_at : Option Time
  pub maintainers : Option (List GenMaintainer)
  pub package_ref : Text
  pub publish_method : Option Text
  pub snapshot_at : Time
  pub source_repo_url : Option Text

-- snapshotToWire
unfoldable pub snapshot_to_wire : PublisherSnapshot → GenPublisherSnapshot
snapshot_to_wire snap = record {
  id = snap.id;
  latest_version = optional_non_empty snap.latest_version;
  latest_version_published_at = snap.latest_version_published_at;
  maintainers = optional_list (map maintainer_to_wire snap.maintainers);
  package_ref = snap.package_ref;
  publish_method = optional_non_empty snap.publish_method;
  snapshot_at = snap.snapshot_at;
  source_repo_url = optional_non_empty (text_or_zero snap.source_repo_url);
}
