-- ===== src/Domain/Package.antt =====
-- engine/internal/domain/packageversion.go and sbom.go: packages and dependency snapshots.
use rampart.Base.{ℕ, Text, List}
use rampart.Domain.Incident.{Time}

pub record PackageVersion : Type 0 where
  pub ecosystem : Text
  pub name : Text
  pub version : Text
  pub purl : Text
  pub scope : List Text
  pub integrity : Text

pub record ParsedSbom : Type 0 where
  pub ecosystem : Text
  pub packages : List PackageVersion
  pub source_format : Text
  pub source_bytes : ℕ

pub record Sbom : Type 0 where
  pub id : Text
  pub component_ref : Text
  pub commit_sha : Text
  pub ecosystem : Text
  pub generated_at : Time
  pub packages : List PackageVersion
  pub source_format : Text
  pub source_bytes : ℕ

-- A row of Storage.ListSBOMPackages.
pub record SbomPackageRef : Type 0 where
  pub component_ref : Text
  pub pkg : PackageVersion
