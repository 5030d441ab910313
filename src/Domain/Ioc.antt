-- ===== src/Domain/Ioc.antt =====
-- engine/internal/domain/ioc.go: indicators of compromise, a tagged union that is checked by hand.
use rampart.Base.{
  ℕ, ◌+◌, ◌≡◌, refl, ◌↔◌, Bool, true, false, ◌||◌, Option, none, some, List, arith, Text, ◌==◌,
  Text-eq, ℕ-eq, if◌then◌else◌,
}
use rampart.Domain.Incident.{Time, Details}
use rampart.Domain.Publisher.{Severity, PublisherSignal, AnomalyKind, ConfidenceLevel}

-- An IoCKind is a Go string: `other` stands for any string that is none of the constants.
pub data IocKind : Type 0 where
  package_version package_range publisher_anomaly : IocKind
  other : Text → IocKind

pub record IocPackageVersion : Type 0 where
  pub name : Text
  pub version : Text
  pub purl : Text

pub record IocPackageRange : Type 0 where
  pub name : Text
  pub constraint : Text

pub record IocPublisherAnomaly : Type 0 where
  pub publisher_name : Text
  pub signals : List PublisherSignal

pub record IocBodyAnomaly : Type 0 where
  pub kind : AnomalyKind
  pub confidence : ConfidenceLevel
  pub explanation : Text
  pub package_ref : Text
  pub evidence : Details

-- The four body pointers; `none` is nil.
pub record Ioc : Type 0 where
  pub id : Text
  pub kind : IocKind
  pub severity : Severity
  pub ecosystem : Text
  pub source : Text
  pub published_at : Time
  pub description : Text
  pub version_body : Option IocPackageVersion
  pub range_body : Option IocPackageRange
  pub publisher_body : Option IocPublisherAnomaly
  pub anomaly_body : Option IocBodyAnomaly

pub data IocError : Type 0 where
  bodies_set : ℕ → IocError
  version_body_nil range_body_nil anomaly_bodies_nil : IocError
  unknown_kind : Text → IocError

abbrev pub is_set {ℓ} : {A : Type ℓ} → Option A → Bool
is_set none = false
is_set (some a) = true

abbrev count_set {ℓ} : {A : Type ℓ} → Option A → ℕ → ℕ
count_set none n = n
count_set (some a) n = n + 1

-- The counter `set` of Validate.
bodies : Ioc → ℕ
bodies i =
    count_set i.anomaly_body
      (count_set i.publisher_body (count_set i.range_body (count_set i.version_body 0)))

-- The `switch i.Kind` of Validate.
check_kind : IocKind → Ioc → Option IocError
check_kind package_version i = if is_set i.version_body then none else some version_body_nil
check_kind package_range i = if is_set i.range_body then none else some range_body_nil
check_kind publisher_anomaly i =
    if is_set i.publisher_body || is_set i.anomaly_body then none else some anomaly_bodies_nil
check_kind (other k) i = some (unknown_kind k)

-- IoC.Validate: `none` is success.
unfoldable pub validate : Ioc → Option IocError
unfolding bodies check_kind
validate i = if bodies i == 1 then check_kind i.kind i else some (bodies_set (bodies i))

-- The tagged union that an Ioc stands for: one body, of the kind's own type.
pub data IocBody : Type 0 where
  version : IocPackageVersion → IocBody
  range : IocPackageRange → IocBody
  publisher : IocPublisherAnomaly → IocBody
  anomaly : IocBodyAnomaly → IocBody

abbrev pub IsTagged : Ioc → IocBody → Type 0
IsTagged i (version b) =
    (i.kind ≡ package_version)
    × (i.version_body ≡ some b)
    × (i.range_body ≡ none)
    × (i.publisher_body ≡ none)
    × (i.anomaly_body ≡ none)
IsTagged i (range b) =
    (i.kind ≡ package_range)
    × (i.version_body ≡ none)
    × (i.range_body ≡ some b)
    × (i.publisher_body ≡ none)
    × (i.anomaly_body ≡ none)
IsTagged i (publisher b) =
    (i.kind ≡ publisher_anomaly)
    × (i.version_body ≡ none)
    × (i.range_body ≡ none)
    × (i.publisher_body ≡ some b)
    × (i.anomaly_body ≡ none)
IsTagged i (anomaly b) =
    (i.kind ≡ publisher_anomaly)
    × (i.version_body ≡ none)
    × (i.range_body ≡ none)
    × (i.publisher_body ≡ none)
    × (i.anomaly_body ≡ some b)

tag_of :
    (i : Ioc) (k : IocKind) (v : Option IocPackageVersion) (r : Option IocPackageRange)
    (p : Option IocPublisherAnomaly) (a : Option IocBodyAnomaly)
    → i.kind ≡ k
    → i.version_body ≡ v
    → i.range_body ≡ r
    → i.publisher_body ≡ p
    → i.anomaly_body ≡ a
    → validate i ≡ none
    → (b : IocBody) × IsTagged i b
unfolding validate
tag_of i package_version (some v) none none none ek ev er ep ea h =
    (version v, (ek, ev, er, ep, ea))
tag_of i package_range none (some r) none none ek ev er ep ea h = (range r, (ek, ev, er, ep, ea))
tag_of i publisher_anomaly none none (some p) none ek ev er ep ea h =
    (publisher p, (ek, ev, er, ep, ea))
tag_of i publisher_anomaly none none none (some a) ek ev er ep ea h =
    (anomaly a, (ek, ev, er, ep, ea))
tag_of i k v r p a ek ev er ep ea h = absurd (ground arith)

-- Validate accepts an IoC exactly when it is a well-formed tagged union: one body is set, and it is
-- one of the bodies that belong to the kind.
pub validate_iff : (i : Ioc) → (validate i ≡ none) ↔ ((b : IocBody) × IsTagged i b)
unfolding validate
validate_iff i = (tag_of i _ _ _ _ _ refl refl refl refl refl, back)
  where
    back : (b : IocBody) × IsTagged i b → validate i ≡ none
    back (version b, t) = ground arith
    back (range b, t) = ground arith
    back (publisher b, t) = ground arith
    back (anomaly b, t) = ground arith
