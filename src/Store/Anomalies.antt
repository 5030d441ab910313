-- ===== src/Store/Anomalies.antt =====
-- Anomalies in the in-process store of engine/internal/storage/memory/memory.go, with the index
-- that mirrors the database's UNIQUE (kind, package_ref, detected_at) constraint.
pub mod Unique
use rampart.Base.{
  ℕ, ◌+◌, Bool, false, not, ◌&&◌, Option, none, some, List, [], ◌==◌, Text-eq, ℕ-eq, keep_if,
  if◌then◌else◌, ltb,
}
use rampart.Base.Assoc.{lookup, insert, values}
use rampart.Base.Sort.{sort_by}
use rampart.Domain.Incident.{Time, IncidentState-eq}
use rampart.Domain.Publisher.{Anomaly, AnomalyFilter, anomaly_kind_text}
use rampart.Store.{Store, StorageError, Result, finish, PublisherKey-eq, DedupKey, DedupKey-eq}
use rampart.Store.Catalog.{get_or_not_found}
use rampart.Store.Incidents.{cap_at, not_before, not_after}
use rampart.Store.Publishers.{or_now}

abbrev pub dedup_key : Anomaly → DedupKey
dedup_key a = (anomaly_kind_text a.kind, a.package_ref, a.detected_at)

abbrev pub save_new : Store → Option StorageError → Anomaly → Option ℕ → Store × Result ℕ
save_new s e a (some existing) = (s, finish e existing)
save_new s e a none =
    let id = s.next_anomaly_id + 1 in
    (
      record s {
        next_anomaly_id = id;
        anomalies = insert id (record a { id = id }) s.anomalies;
        anomaly_dedup = insert (dedup_key a) id s.anomaly_dedup;
      },
      finish e id,
    )

abbrev pub dated : Time → Anomaly → Anomaly
dated now a = record a { detected_at = or_now now a.detected_at }

-- SaveAnomaly
unfoldable pub save_anomaly : Store → Option StorageError → Time → Anomaly → Store × Result ℕ
save_anomaly s e now a =
    let a' = dated now a in save_new s e a' (lookup (dedup_key a') s.anomaly_dedup)

-- GetAnomaly
unfoldable pub get_anomaly : Store → Option StorageError → ℕ → Result Anomaly
get_anomaly s e id = get_or_not_found e (lookup id s.anomalies)

-- The guards of the loop of ListAnomalies.
unfoldable pub matches_anomaly_filter : AnomalyFilter → Anomaly → Bool
matches_anomaly_filter f a =
    if not (f.package_ref == []) && not (a.package_ref == f.package_ref)
    then false
    else if not (f.kind == []) && not (anomaly_kind_text a.kind == f.kind)
    then false
    else if not (not_before f.from a.detected_at)
    then false
    else not_after f.to a.detected_at

-- ListAnomalies
unfoldable pub list_anomalies : Store → Option StorageError → AnomalyFilter → Result (List Anomaly)
list_anomalies s e f = finish e (
    cap_at f.limit (
      sort_by (λ a b. ltb b.detected_at a.detected_at)
        (keep_if (matches_anomaly_filter f) (values s.anomalies))))
