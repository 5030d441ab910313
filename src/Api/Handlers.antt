-- ===== src/Api/Handlers.antt =====
-- engine/internal/api: the responses of the HTTP handlers, and how a request ends.
pub mod Submit
pub mod Sbom
pub mod Catalog
pub mod Incidents
pub mod BlastRadius
pub mod Refusals
use rampart.Base.{
  ℕ, zero, suc, ◌+◌, ◌-◌, ◌*◌, ◌≤◌, ◌<◌, ◌≡◌, refl, sym, ap, ◌∙◌, ◌≢◌, ◌↔◌, ◌⊎◌, inl, inr, Bool,
  true, false, not, ◌&&◌, ◌||◌, Option, none, some, List, [], ◌∷◌, ◌++◌, map, arith, Text, bytes,
  String, Eq, ◌==◌, eq_iff, eq_refl, eq_false, ne_of_eq_false, Text-eq, ℕ-eq, contains,
  contains_iff, keep_if, In, All, length, take, if◌then◌else◌, ltb, leb, Bool-cases, Option-cases,
}
use rampart.Domain.Incident.{RemediationError}
use rampart.Domain.Component.{RefError}
use rampart.Domain.Ioc.{IocError}
use rampart.Store.{StorageError, not_found, context_error, Result, ok, err}

-- What writeError is called with, without the message's wording.
pub data Failure : Type 0 where
  invalid_payload invalid_ref_path iocs_required ref_required : Failure
  invalid_ioc : IocError → Failure
  invalid_constraint : Text → Failure
  invalid_ref : RefError → Failure
  invalid_remediation : RemediationError → Failure
  unsupported_ecosystem unsupported_source_format : Text → Failure
  parse_failed : Failure
  component_not_found sbom_not_found incident_not_found : Text → Failure
  anomaly_not_found : Failure
  storage_failed match_failed incident_open_failed internal : StorageError → Failure

-- The status codes of net/http that writeError is called with.
unfoldable pub status_of : Failure → ℕ
status_of (component_not_found ref) = 404
status_of (sbom_not_found id) = 404
status_of (incident_not_found id) = 404
status_of anomaly_not_found = 404
status_of (storage_failed e) = 500
status_of (match_failed e) = 500
status_of (incident_open_failed e) = 500
status_of (internal e) = 500
status_of _ = 400

-- A response: writeError's, or writeJSON's with its status.
pub data Response {ℓ} (A : Type ℓ) : Type ℓ where
  refused : Failure → Response A
  replied : ℕ → A → Response A

-- The response says that the client is at fault.
abbrev pub ClientError {ℓ} : {A : Type ℓ} → Response A → Type 0
ClientError (refused f) = status_of f < 500
ClientError (replied status a) = ⊥
