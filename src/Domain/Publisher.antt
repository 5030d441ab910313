-- ===== src/Domain/Publisher.antt =====
-- engine/internal/domain/publisher.go, publisher_snapshot.go and anomaly.go: what is known of a
-- package's publishers, and the anomalies that the detectors raise from it.
use rampart.Base.{ℕ, bytes, Text, Bool, Option, List}
use rampart.Domain.Incident.{Time, Details}
use rampart.Domain.Package.{PackageVersion}

pub data Severity : Type 0 where
  low medium high critical : Severity
  other : Text → Severity

pub data ConfidenceLevel : Type 0 where
  low medium high : ConfidenceLevel
  other : Text → ConfidenceLevel

pub data AnomalyKind : Type 0 where
  maintainer_email_drift oidc_publishing_regression version_jump : AnomalyKind
  other : Text → AnomalyKind

-- The persisted string of an AnomalyKind.
unfoldable pub anomaly_kind_text : AnomalyKind → Text
anomaly_kind_text maintainer_email_drift = bytes "new_maintainer_email"
anomaly_kind_text oidc_publishing_regression = bytes "oidc_regression"
anomaly_kind_text version_jump = bytes "version_jump"
anomaly_kind_text (other s) = s

pub data SignalType : Type 0 where
  new_maintainer_email dormant_account_active missing_git_tag off_hours_publish : SignalType
  oidc_regression version_jump low_download_day_attack : SignalType
  other : Text → SignalType

pub record Publisher : Type 0 where
  pub ecosystem : Text
  pub name : Text
  pub first_seen : Time
  pub last_seen : Time

pub record PublisherProfile : Type 0 where
  pub publisher : Publisher
  pub package_count : ℕ
  pub publish_count : ℕ
  pub last_30_day_publishes : ℕ
  pub uses_oidc : Bool
  pub has_git_tags : Bool
  pub maintainer_emails : List Text
  pub last_email_change : Option Time

pub record PublisherSignal : Type 0 where
  pub type : SignalType
  pub publisher : Publisher
  pub pkg : Option PackageVersion
  pub severity : Severity
  pub description : Text
  pub evidence : Details
  pub detected_at : Time

pub record Maintainer : Type 0 where
  pub email : Text
  pub name : Text
  pub username : Text

pub record PublisherSnapshot : Type 0 where
  pub id : ℕ
  pub package_ref : Text
  pub snapshot_at : Time
  pub maintainers : List Maintainer
  pub latest_version : Text
  pub latest_version_published_at : Option Time
  pub publish_method : Text
  pub source_repo_url : Option Text
  pub raw_data : Text

pub record Anomaly : Type 0 where
  pub id : ℕ
  pub kind : AnomalyKind
  pub package_ref : Text
  pub detected_at : Time
  pub confidence : ConfidenceLevel
  pub explanation : Text
  pub evidence : Details

pub record AnomalyFilter : Type 0 where
  pub package_ref : Text
  pub kind : Text
  pub from : Option Time
  pub to : Option Time
  pub limit : ℕ
