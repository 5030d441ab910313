-- ===== src/Domain/Incident.antt =====
-- engine/internal/domain/incident.go and remediation.go: the incident life cycle.
-- An IncidentState is a Go string: `other` stands for any string that is none of the constants.
-- A time is a number of nanoseconds since Go's zero time.
pub mod Laws
pub mod History
use rampart.Base.{
  ℕ, Text, bytes, ◌≡◌, refl, ◌↔◌, Bool, true, false, ◌&&◌, Option, none, some, List, [], ◌∷◌, ◌++◌,
  arith, Eq, ◌==◌, Text-eq, not, contains, if◌then◌else◌, eq_iff,
}
use rampart.Base.Int.{ℤ}

abbrev pub Time : Type 0
Time = ℕ

-- A value of a `map[string]any`: a string, strings, an integer, the hours of a duration in
-- nanoseconds, or the JSON text of any other.
pub data Value : Type 0 where
  text : Text → Value
  texts : List Text → Value
  number : ℤ → Value
  hours : ℤ → Value
  json : Text → Value

-- `map[string]any`
abbrev pub Details : Type 0
Details = List (Text × Value)

pub data IncidentState : Type 0 where
  pending triaged acknowledged remediating closed dismissed : IncidentState
  other : Text → IncidentState

abbrev pub state_eq : IncidentState → IncidentState → Bool
state_eq pending pending = true
state_eq triaged triaged = true
state_eq acknowledged acknowledged = true
state_eq remediating remediating = true
state_eq closed closed = true
state_eq dismissed dismissed = true
state_eq (other a) (other b) = a == b
state_eq _ _ = false

state_eq-other : (a b : Text) → (state_eq (other a) (other b) ≡ true) ↔ (other a ≡ other b)
state_eq-other a b = (λ h. ground (arith, eq_iff a b), λ h. ground (arith, eq_iff a b))

pub state_eq_iff : (s t : IncidentState) → (state_eq s t ≡ true) ↔ (s ≡ t)
state_eq_iff (other a) (other b) = state_eq-other a b
state_eq_iff s t = (λ h. ground arith, λ h. ground arith)

instance abbrev pub IncidentState-eq : Eq IncidentState
IncidentState-eq = record { same = state_eq; same_iff = state_eq_iff }

-- A RemediationKind is a Go string as well.
pub data RemediationKind : Type 0 where
  pin_version rotate_secret open_pr notify dismiss : RemediationKind
  other_kind : Text → RemediationKind

pub record Remediation : Type 0 where
  pub id : Text
  pub incident_id : Text
  pub kind : RemediationKind
  pub executed_at : Time
  pub actor_ref : Text
  pub details : Details

pub data RemediationError : Type 0 where
  invalid_remediation_kind : RemediationKind → RemediationError

-- Membership in `validRemediationKinds`.
unfoldable pub valid_remediation_kind : RemediationKind → Bool
valid_remediation_kind (other_kind k) = false
valid_remediation_kind kind = true

-- Remediation.Validate
unfoldable pub validate_remediation : Remediation → Option RemediationError
unfolding valid_remediation_kind
validate_remediation r =
    if valid_remediation_kind r.kind then none else some (invalid_remediation_kind r.kind)

pub record Incident : Type 0 where
  pub id : Text
  pub ioc_id : Text
  pub state : IncidentState
  pub opened_at : Time
  pub last_transitioned_at : Time
  pub affected_components_snapshot : List Text
  pub remediations : List Remediation

pub data TransitionError : Type 0 where
  invalid_transition : IncidentState → IncidentState → TransitionError
  unknown_state : IncidentState → TransitionError

-- The map `allowedTransitions`; `none` where the key is missing.
unfoldable pub allowed_transitions : IncidentState → Option (List IncidentState)
allowed_transitions pending = some (triaged ∷ dismissed ∷ [])
allowed_transitions triaged = some (acknowledged ∷ dismissed ∷ [])
allowed_transitions acknowledged = some (remediating ∷ dismissed ∷ [])
allowed_transitions remediating = some (closed ∷ [])
allowed_transitions closed = some []
allowed_transitions dismissed = some []
allowed_transitions (other s) = none

-- IncidentState.CanTransitionTo
unfoldable pub can_transition_to : IncidentState → IncidentState → Bool
unfolding allowed_transitions contains
can_transition_to s next =
    if s == next
    then true
    else elim (allowed_transitions s) [ none ↦ false | some allowed ↦ contains allowed next ]

apply_transition : Incident → IncidentState → Time → Incident × Option TransitionError
apply_transition i next now =
    if not (can_transition_to i.state next)
    then (i, some (invalid_transition i.state next))
    else if i.state == next
    then (i, none)
    else (record i { state = next; last_transitioned_at = now }, none)

-- Incident.Transition: the incident after the call, and the error.
unfoldable pub transition : Incident → IncidentState → Time → Incident × Option TransitionError
unfolding apply_transition
transition i next now = elim (allowed_transitions i.state) [
  | none ↦ (i, some (unknown_state i.state))
  | some _ ↦ apply_transition i next now
]

-- isNonTerminal of engine/internal/api/matching.go
unfoldable pub is_non_terminal : IncidentState → Bool
is_non_terminal state = not (state == closed) && not (state == dismissed)
