-- ===== src/Domain/Event.antt =====
-- engine/internal/domain/events.go: what the engine publishes on its event bus.
use rampart.Base.{Text, List, bytes}
use rampart.Domain.Incident.{Time, IncidentState, RemediationKind}

pub data DomainEvent : Type 0 where
  incident_opened : (incident_id ioc_id : Text) (snapshot : List Text) (at : Time) → DomainEvent
  incident_transitioned : (incident_id : Text) (from to : IncidentState) (at : Time) → DomainEvent
  remediation_added :
      (incident_id remediation_id : Text) (kind : RemediationKind) (at : Time) → DomainEvent
  sbom_ingested : (sbom_id component_ref : Text) (at : Time) → DomainEvent
  ioc_matched : (ioc_id : Text) (components : List Text) (at : Time) → DomainEvent

-- EventType
unfoldable pub event_type : DomainEvent → Text
event_type (incident_opened i c s t) = bytes "incident.opened"
event_type (incident_transitioned i f to t) = bytes "incident.transitioned"
event_type (remediation_added i r k t) = bytes "remediation.added"
event_type (sbom_ingested s c t) = bytes "sbom.ingested"
event_type (ioc_matched i c t) = bytes "ioc.matched"

-- AggregateID
unfoldable pub aggregate_id : DomainEvent → Text
aggregate_id (incident_opened i c s t) = i
aggregate_id (incident_transitioned i f to t) = i
aggregate_id (remediation_added i r k t) = i
aggregate_id (sbom_ingested s c t) = s
aggregate_id (ioc_matched i c t) = i

-- OccurredAt
unfoldable pub occurred_at : DomainEvent → Time
occurred_at (incident_opened i c s t) = t
occurred_at (incident_transitioned i f to t) = t
occurred_at (remediation_added i r k t) = t
occurred_at (sbom_ingested s c t) = t
occurred_at (ioc_matched i c t) = t
