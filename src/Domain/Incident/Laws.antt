-- ===== src/Domain/Incident/Laws.antt =====
-- The incident state machine as a graph, and what any history of transitions keeps.
use rampart.Base.{
  ◌≡◌, refl, ◌≢◌, ◌↔◌, ◌⊎◌, inl, inr, true, Option, none, some, arith, eq_iff, Text-eq, List,
  Bool-cases, ◌==◌, ne_of_eq_false,
}
use rampart.Domain.Incident.{
  IncidentState, pending, triaged, acknowledged, remediating, closed, dismissed, other,
  IncidentState-eq, Incident, Time, TransitionError, invalid_transition, unknown_state,
  can_transition_to, allowed_transitions, transition, apply_transition,
}
use rampart.Base.{Text, eq_refl}

-- The arrows of the life cycle, drawn independently of the code.
infix 40 ◌⟶◌
pub data ◌⟶◌ : IncidentState → IncidentState → Type 0 where
  triage : pending ⟶ triaged
  acknowledge : triaged ⟶ acknowledged
  remediate : acknowledged ⟶ remediating
  close : remediating ⟶ closed
  dismiss_pending : pending ⟶ dismissed
  dismiss_triaged : triaged ⟶ dismissed
  dismiss_acknowledged : acknowledged ⟶ dismissed

pub ruleset arrows =
    (triage, acknowledge, remediate, close, dismiss_pending, dismiss_triaged, dismiss_acknowledged)

arrow_code : {s t : IncidentState} → s ⟶ t → (can_transition_to s t ≡ true) × (s ≢ t)
unfolding can_transition_to
arrow_code triage = (refl, λ e. cc)
arrow_code acknowledge = (refl, λ e. cc)
arrow_code remediate = (refl, λ e. cc)
arrow_code close = (refl, λ e. cc)
arrow_code dismiss_pending = (refl, λ e. cc)
arrow_code dismiss_triaged = (refl, λ e. cc)
arrow_code dismiss_acknowledged = (refl, λ e. cc)

pub arrow_changes : {s t : IncidentState} → s ⟶ t → s ≢ t
arrow_changes a = (arrow_code a).1

arrow_of_code : (s t : IncidentState) → can_transition_to s t ≡ true → (s ≡ t) ⊎ (s ⟶ t)
unfolding can_transition_to
arrow_of_code pending t h = grind (arith, arrows)
arrow_of_code triaged t h = grind (arith, arrows)
arrow_of_code acknowledged t h = grind (arith, arrows)
arrow_of_code remediating t h = grind (arith, arrows)
arrow_of_code closed t h = grind (arith, arrows)
arrow_of_code dismissed t h = grind (arith, arrows)
arrow_of_code (other a) t h = inl (ground (arith, eq_iff (other a) t))

can_transition_to_self : (s : IncidentState) → can_transition_to s s ≡ true
unfolding can_transition_to
can_transition_to_self s = rw (eq_refl s)

-- A transition to another state is allowed exactly along an arrow of the life cycle, and a
-- transition to the same state always, whatever the two strings are.
pub can_transition_to_iff :
    (s t : IncidentState) → (can_transition_to s t ≡ true) ↔ ((s ≡ t) ⊎ (s ⟶ t))
can_transition_to_iff s t = (arrow_of_code s t, back)
  where
    back : (s ≡ t) ⊎ (s ⟶ t) → can_transition_to s t ≡ true
    back (inl e) = rw (← e) (can_transition_to_self s)
    back (inr a) = (arrow_code a).0

-- What a call of Transition does, on every branch.
pub data Outcome (i : Incident) (next : IncidentState) (now : Time)
    : Incident × Option TransitionError → Type 0 where
  moved :
      i.state ⟶ next
      → Outcome i next now (record i { state = next; last_transitioned_at = now }, none)
  stayed : i.state ≡ next → Outcome i next now (i, none)
  refused :
      i.state ≢ next
      → ¬ (i.state ⟶ next)
      → Outcome i next now (i, some (invalid_transition i.state next))
  unknown :
      (raw : Text) → i.state ≡ other raw → Outcome i next now (i, some (unknown_state i.state))

known_or_other :
    (s : IncidentState)
    → ((raw : Text) × (s ≡ other raw) × (allowed_transitions s ≡ none))
      ⊎ ((l : List IncidentState) × (allowed_transitions s ≡ some l))
unfolding allowed_transitions
known_or_other (other a) = inl (a, refl, refl)
known_or_other pending = inr (_, refl)
known_or_other triaged = inr (_, refl)
known_or_other acknowledged = inr (_, refl)
known_or_other remediating = inr (_, refl)
known_or_other closed = inr (_, refl)
known_or_other dismissed = inr (_, refl)

arrow_unless_same :
    {s t : IncidentState}
    → (can_transition_to s t ≡ true) ↔ ((s ≡ t) ⊎ (s ⟶ t))
    → can_transition_to s t ≡ true
    → s ≢ t
    → s ⟶ t
arrow_unless_same iff h ne = elim (iff.0 h) [ inl e ↦ absurd (ne e) | inr a ↦ a ]

-- Transition follows an arrow and stamps the time, or stays where it is without touching the time,
-- or refuses a move that no arrow allows, or reports a state that is none of the constants. The arrows
-- are those of the code: an incident in remediation can only be closed, although the API's description
-- says that any non-terminal state may go to dismissed.
pub transition-Outcome :
    (i : Incident) (next : IncidentState) (now : Time) → Outcome i next now (transition i next now)
unfolding transition
transition-Outcome i next now = elim (known_or_other i.state) [
  | inl (raw, e, miss) ↦ rw (miss, transition) (unknown raw e)
  | inr (l, hit) ↦
      rw (hit, transition, apply_transition)
        (elim (Bool-cases (can_transition_to i.state next)) [
          | inl allowed ↦ rw allowed (elim (Bool-cases (i.state == next)) [
            | inl same ↦ rw same (stayed ((eq_iff i.state next).0 same))
            | inr differs ↦ rw differs (
                moved (
                  arrow_unless_same (can_transition_to_iff i.state next) allowed
                    (ne_of_eq_false i.state next differs)))
          ])
          | inr denied ↦ rw denied (
              refused (λ e. cc (denied, (can_transition_to_iff i.state next).1 (inl e)))
                (λ a. cc (denied, (can_transition_to_iff i.state next).1 (inr a))))
        ])
]
