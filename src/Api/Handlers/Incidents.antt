-- ===== src/Api/Handlers/Incidents.antt =====
-- engine/internal/api: ListIncidents, GetIncident and GetIncidentDetail of handlers_incident.go, and
-- AddRemediation of handlers_remediation.go.
use rampart.Base.{
  ℕ, ◌+◌, not, Option, none, some, List, [], ◌∷◌, map, Text, ◌==◌, Text-eq, ℕ-eq, keep_if,
  if◌then◌else◌,
}
use rampart.Base.Int.{ℤ}
use rampart.Domain.Incident.{
  Time, Details, Incident, IncidentState, Remediation, RemediationError, validate_remediation,
}
use rampart.Domain.Component.{Component}
use rampart.Domain.Event.{remediation_added}
use rampart.Domain.Ioc.{Ioc}
use rampart.Store.{Store, StorageError, not_found, context_error, Result, ok, err}
use rampart.Store.Catalog.{get_component, get_ioc}
use rampart.Store.Incidents.{
  IncidentFilter, get_incident, list_incidents_filtered, append_remediation,
}
use rampart.Api.{Env, World, emit}
use rampart.Api.Wire.{
  GenIncident, to_gen_incident, GenIoc, to_gen_ioc, GenComponent, to_gen_component, GenRemediation,
  to_gen_remediation, text_or_zero, list_or_nil,
}
use rampart.Api.Handlers.{
  invalid_payload, invalid_remediation, incident_not_found, storage_failed, Response, refused,
  replied,
}
use rampart.Api.Handlers.Catalog.{limit_or}

-- ListIncidentsParams, less the cursor, which is ignored.
pub record ListIncidentsParams : Type 0 where
  pub state : Option (List IncidentState)
  pub ecosystem : Option (List Text)
  pub from : Option Time
  pub since : Option Time
  pub to : Option Time
  pub search : Option Text
  pub owner : Option Text
  pub limit : Option ℤ

-- `from` wins over `since`.
abbrev pub first_set {ℓ} : {A : Type ℓ} → Option A → Option A → Option A
first_set (some a) b = some a
first_set none b = b

-- The filter that the parameters give.
unfoldable pub incident_filter : ListIncidentsParams → IncidentFilter
incident_filter params = record {
  states = list_or_nil params.state;
  ecosystems = keep_if (λ eco. not (eco == [])) (list_or_nil params.ecosystem);
  from = first_set params.from params.since;
  to = params.to;
  search = text_or_zero params.search;
  owner = text_or_zero params.owner;
  limit = limit_or 0 params.limit;
}

unfoldable pub incidents_page : Result (List Incident) → Response (List GenIncident)
incidents_page (err e) = refused (storage_failed e)
incidents_page (ok incs) = replied 200 (map to_gen_incident incs)

-- ListIncidents
unfoldable pub list_incidents_handler :
    Env → ListIncidentsParams → World → World × Response (List GenIncident)
list_incidents_handler env params w = (
  record w { polls = w.polls + 1 },
  incidents_page (list_incidents_filtered w.store (env.ctx_err w.polls) (incident_filter params)),
)

unfoldable pub incident_or_missing : Text → Result Incident → Response GenIncident
incident_or_missing id (err not_found) = refused (incident_not_found id)
incident_or_missing id (err (context_error t)) = refused (storage_failed (context_error t))
incident_or_missing id (ok inc) = replied 200 (to_gen_incident inc)

-- GetIncident
unfoldable pub get_incident_handler : Env → Text → World → World × Response GenIncident
get_incident_handler env id w = (
  record w { polls = w.polls + 1 },
  incident_or_missing id (get_incident w.store (env.ctx_err w.polls) id),
)

-- IncidentDetail
pub record GenIncidentDetail : Type 0 where
  pub incident : GenIncident
  pub ioc : Option GenIoc
  pub affected_components : List GenComponent

abbrev found_ioc : Result Ioc → Option GenIoc
found_ioc (err e) = none
found_ioc (ok i) = some (to_gen_ioc i)

-- The IoC of the detail, with how many calls looked at the context.
unfoldable pub detail_ioc : Env → Store → Text → ℕ → Option GenIoc × ℕ
detail_ioc env s id polls =
    if id == [] then (none, polls) else (found_ioc (get_ioc s (env.ctx_err polls) id), polls + 1)

abbrev add_found : Result Component → List GenComponent → List GenComponent
add_found (err e) rest = rest
add_found (ok c) rest = to_gen_component c ∷ rest

-- The loop over the snapshot, which drops what is not found.
unfoldable pub hydrate : Env → Store → List Text → ℕ → List GenComponent × ℕ
hydrate env s [] polls = ([], polls)
hydrate env s (ref ∷ refs) polls =
    let (rest, polls') = hydrate env s refs (polls + 1) in
    (add_found (get_component s (env.ctx_err polls) ref) rest, polls')

-- The statements after GetIncident.
unfoldable pub detail_of : Env → Text → World → Result Incident → World × Response GenIncidentDetail
detail_of env id w (err not_found) = (w, refused (incident_not_found id))
detail_of env id w (err (context_error t)) = (w, refused (storage_failed (context_error t)))
detail_of env id w (ok inc) =
    let (ioc, polls) = detail_ioc env w.store inc.ioc_id w.polls in
    let (components, polls') = hydrate env w.store inc.affected_components_snapshot polls in
    (
      record w { polls = polls' },
      replied 200
          (record { incident = to_gen_incident inc; ioc = ioc; affected_components = components }),
    )

-- GetIncidentDetail
unfoldable pub get_incident_detail : Env → Text → World → World × Response GenIncidentDetail
get_incident_detail env id w =
    detail_of env id (record w { polls = w.polls + 1 })
      (get_incident w.store (env.ctx_err w.polls) id)

abbrev details_or_nil : Option Details → Details
details_or_nil none = []
details_or_nil (some d) = d

-- The remediation that is stored, from the body, the path, a fresh ULID and the time.
unfoldable pub canonical : Text → Text → Time → GenRemediation → Remediation
canonical id incident_id now body = record {
  id = id;
  incident_id = incident_id;
  kind = body.kind;
  executed_at = if body.executed_at == 0 then now else body.executed_at;
  actor_ref = text_or_zero body.actor_ref;
  details = details_or_nil body.details;
}

-- The statements after AppendRemediation.
unfoldable pub remediation_stored :
    Text → Time → Remediation → World → Option StorageError → World × Response GenRemediation
remediation_stored id now rem w (some e) = (w, refused (storage_failed e))
remediation_stored id now rem w none =
    (emit (remediation_added id rem.id rem.kind now) w, replied 201 (to_gen_remediation rem))

-- The statements after Validate.
unfoldable pub remediation_validated :
    Env
    → Text
    → Time
    → Remediation
    → World
    → Option RemediationError
    → World × Response GenRemediation
remediation_validated env id now rem w (some e) = (w, refused (invalid_remediation e))
remediation_validated env id now rem w none =
    let (store, e) = append_remediation w.store (env.ctx_err w.polls) id rem in
    remediation_stored id now rem (record w { store = store; polls = w.polls + 1 }) e

-- The statements after GetIncident.
unfoldable pub remediation_for :
    Env → Text → Option GenRemediation → World → Result Incident → World × Response GenRemediation
remediation_for env id body w (err not_found) = (w, refused (incident_not_found id))
remediation_for env id body w (err (context_error t)) =
    (w, refused (storage_failed (context_error t)))
remediation_for env id none w (ok inc) = (w, refused invalid_payload)
remediation_for env id (some body) w (ok inc) =
    let now = env.now w.clock in
    let rem = canonical (env.new_ulid w.minted) id now body in
    remediation_validated env id now rem (record w { clock = w.clock + 1; minted = w.minted + 1 })
      (validate_remediation rem)

-- AddRemediation; `none` is a body that does not decode.
unfoldable pub add_remediation :
    Env → Text → Option GenRemediation → World → World × Response GenRemediation
add_remediation env id body w =
    remediation_for env id body (record w { polls = w.polls + 1 })
      (get_incident w.store (env.ctx_err w.polls) id)
