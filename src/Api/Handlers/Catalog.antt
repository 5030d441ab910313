-- ===== src/Api/Handlers/Catalog.antt =====
-- engine/internal/api: UpsertComponent of handlers_component.go, ListComponents of server.go, the
-- anomalies of handlers_anomaly.go and the history of handlers_publisher.go.
use rampart.Base.{
  ℕ, ◌+◌, Option, none, some, List, [], map, Text, ◌==◌, Text-eq, ℕ-eq, if◌then◌else◌,
}
use rampart.Base.Int.{ℤ, pos, negsuc}
use rampart.Domain.Incident.{Time}
use rampart.Domain.Component.{Component, Parsed, parsed, failed, parse_component_ref}
use rampart.Domain.Publisher.{
  Anomaly, AnomalyFilter, AnomalyKind, anomaly_kind_text, PublisherSnapshot,
}
use rampart.Store.{StorageError, not_found, context_error, Result, ok, err}
use rampart.Store.Catalog.{get_component, upsert_component, list_components}
use rampart.Store.Anomalies.{get_anomaly, list_anomalies}
use rampart.Store.Publishers.{get_publisher_history}
use rampart.Api.{Env, World}
use rampart.Api.Wire.{
  GenComponent, from_gen_component, to_gen_component, GenAnomaly, anomaly_to_wire,
  GenPublisherSnapshot, snapshot_to_wire, text_or_zero,
}
use rampart.Api.Handlers.{
  invalid_payload, ref_required, invalid_ref, anomaly_not_found, invalid_ref_path, storage_failed,
  internal, Response, refused, replied,
}

-- The statements after UpsertComponent of the storage.
unfoldable pub component_stored :
    ℕ → Component → World → Option StorageError → World × Response GenComponent
component_stored status c w (some e) = (w, refused (storage_failed e))
component_stored status c w none = (w, replied status (to_gen_component c))

unfoldable pub component_saved : Env → ℕ → Component → World → World × Response GenComponent
component_saved env status c w =
    let (store, e) = upsert_component w.store (env.ctx_err w.polls) c in
    component_stored status c (record w { store = store; polls = w.polls + 1 }) e

-- The statements after GetComponent, which says whether the component is new.
unfoldable pub component_known :
    Env → Component → World → Result Component → World × Response GenComponent
component_known env c w (ok old) = component_saved env 200 c w
component_known env c w (err not_found) = component_saved env 201 c w
component_known env c w (err (context_error t)) = (w, refused (storage_failed (context_error t)))

-- The statements after ParseComponentRef.
unfoldable pub component_parsed :
    Env → GenComponent → World → Parsed → World × Response GenComponent
component_parsed env body w (failed e) = (w, refused (invalid_ref e))
component_parsed env body w (parsed kind namespace name) =
    component_known env
      (record (from_gen_component body) { kind = kind; namespace = namespace; name = name })
      (record w { polls = w.polls + 1 }) (get_component w.store (env.ctx_err w.polls) body.ref)

-- UpsertComponent; `none` is a body that does not decode.
unfoldable pub upsert_component_handler :
    Env → Option GenComponent → World → World × Response GenComponent
upsert_component_handler env none w = (w, refused invalid_payload)
upsert_component_handler env (some body) w =
    if body.ref == []
    then (w, refused ref_required)
    else component_parsed env body w (parse_component_ref body.ref)

unfoldable pub components_page : Result (List Component) → Response (List GenComponent)
components_page (err e) = refused (internal e)
components_page (ok cs) = replied 200 (map to_gen_component cs)

-- ListComponents
unfoldable pub list_components_handler : Env → World → World × Response (List GenComponent)
list_components_handler env w = (
  record w { polls = w.polls + 1 },
  components_page (list_components w.store (env.ctx_err w.polls)),
)

-- ListAnomaliesParams
pub record ListAnomaliesParams : Type 0 where
  pub package_ref : Option Text
  pub kind : Option AnomalyKind
  pub from : Option Time
  pub to : Option Time
  pub limit : Option ℤ

-- A limit that is not positive is no limit to the storage, whatever its value.
unfoldable pub limit_or : ℕ → Option ℤ → ℕ
limit_or default none = default
limit_or default (some (pos n)) = n
limit_or default (some (negsuc n)) = 0

abbrev kind_or_zero : Option AnomalyKind → Text
kind_or_zero none = []
kind_or_zero (some k) = anomaly_kind_text k

-- The filter of ListAnomalies; 100 is defaultAnomalyLimit.
unfoldable pub anomaly_filter : ListAnomaliesParams → AnomalyFilter
anomaly_filter params = record {
  package_ref = text_or_zero params.package_ref;
  kind = kind_or_zero params.kind;
  from = params.from;
  to = params.to;
  limit = limit_or 100 params.limit;
}

unfoldable pub anomalies_page : Result (List Anomaly) → Response (List GenAnomaly)
anomalies_page (err e) = refused (storage_failed e)
anomalies_page (ok rows) = replied 200 (map anomaly_to_wire rows)

-- ListAnomalies
unfoldable pub list_anomalies_handler :
    Env → ListAnomaliesParams → World → World × Response (List GenAnomaly)
list_anomalies_handler env params w = (
  record w { polls = w.polls + 1 },
  anomalies_page (list_anomalies w.store (env.ctx_err w.polls) (anomaly_filter params)),
)

unfoldable pub anomaly_or_missing : Result Anomaly → Response GenAnomaly
anomaly_or_missing (err not_found) = refused anomaly_not_found
anomaly_or_missing (err (context_error t)) = refused (storage_failed (context_error t))
anomaly_or_missing (ok a) = replied 200 (anomaly_to_wire a)

-- GetAnomaly
unfoldable pub get_anomaly_handler : Env → ℕ → World → World × Response GenAnomaly
get_anomaly_handler env id w = (
  record w { polls = w.polls + 1 },
  anomaly_or_missing (get_anomaly w.store (env.ctx_err w.polls) id),
)

unfoldable pub history_page : Result (List PublisherSnapshot) → Response (List GenPublisherSnapshot)
history_page (err e) = refused (storage_failed e)
history_page (ok rows) = replied 200 (map snapshot_to_wire rows)

-- GetPublisherHistory; 100 is defaultHistoryLimit.
unfoldable pub publisher_history_handler :
    Env → Text → Option ℤ → World → World × Response (List GenPublisherSnapshot)
publisher_history_handler env package_ref limit w =
    if package_ref == [] then (w, refused invalid_ref_path) else (
      record w { polls = w.polls + 1 },
      history_page
          (get_publisher_history w.store (env.ctx_err w.polls) package_ref (limit_or 100 limit)),
    )
