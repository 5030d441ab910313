-- ===== src/Api/Transition.antt =====
-- The handler TransitionIncident of engine/internal/api/handlers_incident.go, from the decoded body on.
use rampart.Base.{
  ◌+◌, ◌≡◌, ◌≢◌, not, Option, none, some, Text, ◌==◌, eq_refl, eq_false, Text-eq, ℕ-eq,
  if◌then◌else◌,
}
use rampart.Base.Assoc.{lookup, insert}
use rampart.Domain.Incident.{
  Incident, IncidentState, IncidentState-eq, Time, TransitionError, invalid_transition,
  unknown_state, transition,
}
use rampart.Domain.Incident.Laws.{
  ◌⟶◌, arrow_changes, moved, stayed, refused, unknown, Outcome, transition-Outcome,
}
use rampart.Domain.Event.{incident_transitioned}
use rampart.Store.{StorageError, not_found, context_error, Result, ok, err}
use rampart.Store.Incidents.{get_incident, upsert_incident}
use rampart.Api.{Env, World, emit}

-- The responses, by their codes.
pub data Reply : Type 0 where
  invalid_payload : Reply
  incident_not_found : Text → Reply
  storage_error : StorageError → Reply
  conflict invalid_state : TransitionError → Reply
  accepted : Incident → Reply

-- The statements after UpsertIncident.
after_write : IncidentState → Time → Incident → World → Option StorageError → World × Reply
after_write from now inc w (some e) = (w, storage_error e)
after_write from now inc w none = (
  if not (from == inc.state) then emit (incident_transitioned inc.id from inc.state now) w else w,
  accepted inc,
)

-- The statements after Transition.
after_transition :
    Env → IncidentState → Time → World → Incident × Option TransitionError → World × Reply
unfolding after_write
after_transition env from now w (inc, some (invalid_transition s t)) =
    (w, conflict (invalid_transition s t))
after_transition env from now w (inc, some (unknown_state s)) = (w, invalid_state (unknown_state s))
after_transition env from now w (inc, none) =
    let (store, e) = upsert_incident w.store (env.ctx_err w.polls) inc in
    after_write from now inc (record w { store = store; polls = w.polls + 1 }) e

-- The statements after GetIncident.
after_read : Env → Text → IncidentState → World → Result Incident → World × Reply
unfolding after_transition
after_read env id target w (err not_found) = (w, incident_not_found id)
after_read env id target w (err (context_error t)) = (w, storage_error (context_error t))
after_read env id target w (ok inc) =
    let now = env.now w.clock in
    after_transition env inc.state now (record w { clock = w.clock + 1 })
      (transition inc target now)

-- TransitionIncident; `none` is a body that does not decode.
unfoldable pub transition_incident : Env → Text → Option IncidentState → World → World × Reply
unfolding after_read
transition_incident env id none w = (w, invalid_payload)
transition_incident env id (some target) w =
    after_read env id target (record w { polls = w.polls + 1 })
      (get_incident w.store (env.ctx_err w.polls) id)

-- The server after a write of the incident, and the incident after a move.
abbrev pub written : Env → Incident → World → World
written env inc w = record w {
  store = record w.store { incidents = insert inc.id inc w.store.incidents };
  clock = w.clock + 1;
  polls = w.polls + 1 + 1;
}

abbrev pub moved_to : Env → Incident → IncidentState → World → Incident
moved_to env inc target w = record inc { state = target; last_transitioned_at = env.now w.clock }

-- What a request to move a stored incident does: the state of the server, and the response.
pub data Effect (env : Env) (inc : Incident) (target : IncidentState) (w : World)
    : World × Reply → Type 0 where
  advances :
      inc.state ⟶ target
      → Effect env inc target w (
        emit
            (incident_transitioned inc.id inc.state target (env.now w.clock))
            (written env (moved_to env inc target w) w),
        accepted (moved_to env inc target w),
      )
  repeats : inc.state ≡ target → Effect env inc target w (written env inc w, accepted inc)
  refuses :
      inc.state ≢ target
      → ¬ (inc.state ⟶ target)
      → Effect env inc target w (
        record w { clock = w.clock + 1; polls = w.polls + 1 },
        conflict (invalid_transition inc.state target),
      )
  misread :
      (raw : Text)
      → inc.state ≡ IncidentState.other raw
      → Effect env inc target w (
        record w { clock = w.clock + 1; polls = w.polls + 1 },
        invalid_state (unknown_state inc.state),
      )

after_transition-Effect :
    (env : Env) (inc : Incident) (target : IncidentState) (w : World)
    (r : Incident × Option TransitionError)
    → env.ctx_err (w.polls + 1) ≡ none
    → Outcome inc target (env.now w.clock) r
    → Effect env inc target w (
        after_transition env inc.state
          (env.now w.clock)
          (record w { polls = w.polls + 1; clock = w.clock + 1 })
          r)
unfolding after_transition after_write upsert_incident
after_transition-Effect env inc target w r calm (moved a) =
    rw (calm, after_write, eq_false inc.state target (arrow_changes a)) (advances a)
after_transition-Effect env inc target w r calm (stayed e) =
    rw (calm, after_write, eq_refl inc.state) (repeats e)
after_transition-Effect env inc target w r calm (refused n a) = refuses n a
after_transition-Effect env inc target w r calm (unknown raw e) = misread raw e

-- While the request is not cancelled, TransitionIncident on a stored incident follows an arrow of the
-- life cycle, stores the incident and announces the move; or accepts a move to the same state without
-- an event; or refuses, with a conflict or as an invalid state, and leaves store and events alone. So a
-- request to dismiss an incident in remediation is answered with a conflict, although the API's
-- description says that any non-terminal state may go to dismissed.
pub transition_incident-Effect :
    (env : Env) (id : Text) (inc : Incident) (target : IncidentState) (w : World)
    → lookup id w.store.incidents ≡ some inc
    → env.ctx_err w.polls ≡ none
    → env.ctx_err (w.polls + 1) ≡ none
    → Effect env inc target w (transition_incident env id (some target) w)
unfolding transition_incident get_incident after_read
transition_incident-Effect env id inc target w hit calm later =
    rw (hit, calm, after_read)
      (after_transition-Effect env inc target w (transition inc target (env.now w.clock)) later
        (transition-Outcome inc target (env.now w.clock)))
