-- ===== src/Anomaly/Bridge.antt =====
-- engine/anomaly/orchestrator.go: the IoC that emitIoC builds from an anomaly. The ULID of a time
-- (github.com/oklog/ulid/v2) is a parameter.
use rampart.Base.{
  ◌≡◌, refl, ◌≢◌, Option, none, some, [], ◌∷◌, ◌++◌, Text, bytes, eq_false, Text-eq, ℕ-eq,
}
use rampart.Base.Strings.{cut, Lacks, cut-append}
use rampart.Domain.Incident.{Time}
use rampart.Domain.Ioc.{Ioc, IocKind, validate}
use rampart.Domain.Publisher.{Anomaly, ConfidenceLevel, Severity}
use rampart.Api.Lookup.{ioc_lookup_key, split_ref}

head_or_all : Text → Option (Text × Text) → Text
head_or_all ref none = ref
head_or_all ref (some (head, tail)) = head

-- ecosystemFromPackageRef: the text before the first colon, or all of it.
unfoldable pub ecosystem_from_package_ref : Text → Text
unfolding head_or_all
ecosystem_from_package_ref ref = head_or_all ref (cut b':' ref)

-- severityFromConfidence
unfoldable pub severity_from_confidence : ConfidenceLevel → Severity
severity_from_confidence ConfidenceLevel.high = Severity.critical
severity_from_confidence ConfidenceLevel.medium = Severity.high
severity_from_confidence _ = Severity.medium

-- The IoC of emitIoC; `id_at` is deterministicIoCID.
unfoldable pub emitted_ioc : (Time → Text) → Anomaly → Text → Time → Ioc
emitted_ioc id_at a package_ref tick = record {
  id = id_at tick;
  kind = IocKind.publisher_anomaly;
  severity = severity_from_confidence a.confidence;
  ecosystem = ecosystem_from_package_ref package_ref;
  source = bytes "rampart-anomaly-orchestrator";
  published_at = tick;
  description = a.explanation;
  version_body = none;
  range_body = none;
  publisher_body = none;
  anomaly_body = some (record {
    kind = a.kind;
    confidence = a.confidence;
    explanation = a.explanation;
    package_ref = package_ref;
    evidence = a.evidence;
  });
}

-- For a package reference "ecosystem:name" whose parts are not empty and whose ecosystem holds no
-- colon, the IoC passes Validate, names that ecosystem, and is looked up under that ecosystem and
-- name.
pub emitted_ioc-lookup :
    (id_at : Time → Text) (a : Anomaly) (ecosystem name : Text) (tick : Time)
    → ecosystem ≢ []
    → name ≢ []
    → Lacks b':' ecosystem
    → let ioc = emitted_ioc id_at a (ecosystem ++ b':' ∷ name) tick in
      (validate ioc ≡ none)
      × (ioc.ecosystem ≡ ecosystem)
      × (ioc_lookup_key ioc ≡ some (ecosystem, name))
unfolding emitted_ioc validate ioc_lookup_key ecosystem_from_package_ref
emitted_ioc-lookup id_at a ecosystem name tick he hn plain =
    let parts = cut-append b':' ecosystem name plain in
    (
      refl,
      rw (parts, head_or_all) refl,
      rw (parts, split_ref, eq_false ecosystem [] he, eq_false name [] hn) refl,
    )
