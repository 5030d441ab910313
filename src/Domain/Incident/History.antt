-- ===== src/Domain/Incident/History.antt =====
-- Whole histories of calls of Incident.Transition: a list of requested states with their times.
use mathlib.Core.List.{Sublistᴰ}
use rampart.Base.{◌≡◌, refl, ◌⊎◌, inl, inr, true, false, Option, List, [], ◌∷◌, Text-eq, ℕ-eq}
use rampart.Domain.Incident.{
  IncidentState, pending, triaged, acknowledged, remediating, closed, dismissed, IncidentState-eq,
  Incident, Time, TransitionError, transition, is_non_terminal,
}
use rampart.Domain.Incident.Laws.{
  ◌⟶◌, triage, acknowledge, remediate, close, dismiss_pending, dismiss_triaged,
  dismiss_acknowledged, moved, stayed, refused, unknown, Outcome, transition-Outcome,
}

abbrev pub History : Type 0
History = List (IncidentState × Time)

-- The incident after each request in turn; a request that is refused changes nothing.
unfoldable pub run : Incident → History → Incident
run i [] = i
run i ((next, now) ∷ rest) = run (transition i next now).0 rest

module _ {ℓ} (P : Incident → Type ℓ) (i : Incident) (next : IncidentState) (now : Time) where
  -- The incident after a request either moved along an arrow or is as it was.
  after_cases :
      (i.state ⟶ next → P (record i { state = next; last_transitioned_at = now }))
      → P i
      → P (transition i next now).0
  after_cases moves_ stays = go (transition i next now) (transition-Outcome i next now)
    where
      go : (r : Incident × Option TransitionError) → Outcome i next now r → P r.0
      go r (moved a) = moves_ a
      go r (stayed e) = stays
      go r (refused n a) = stays
      go r (unknown raw e) = stays

arrow_from_non_terminal : {s t : IncidentState} → s ⟶ t → is_non_terminal s ≡ true
unfolding is_non_terminal
arrow_from_non_terminal triage = refl
arrow_from_non_terminal acknowledge = refl
arrow_from_non_terminal remediate = refl
arrow_from_non_terminal close = refl
arrow_from_non_terminal dismiss_pending = refl
arrow_from_non_terminal dismiss_triaged = refl
arrow_from_non_terminal dismiss_acknowledged = refl

transition_terminal :
    (i : Incident) (next : IncidentState) (now : Time)
    → is_non_terminal i.state ≡ false
    → (transition i next now).0 ≡ i
transition_terminal i next now t =
    after_cases (λ j. j ≡ i) i next now (λ a. cc (t, arrow_from_non_terminal a)) refl

-- A closed or dismissed incident stays exactly as it is under every history of requests.
run_terminal : (i : Incident) (h : History) → is_non_terminal i.state ≡ false → run i h ≡ i
unfolding run
run_terminal i [] t = refl
run_terminal i ((next, now) ∷ rest) t =
    rw (transition_terminal i next now t) (run_terminal i rest t)

-- The states that an incident has yet to be asked to enter before it is closed.
abbrev pub remaining : IncidentState → List IncidentState
remaining pending = triaged ∷ acknowledged ∷ remediating ∷ closed ∷ []
remaining triaged = acknowledged ∷ remediating ∷ closed ∷ []
remaining acknowledged = remediating ∷ closed ∷ []
remaining remediating = closed ∷ []
remaining _ = []

abbrev pub requests : History → List IncidentState
requests [] = []
requests ((next, now) ∷ rest) = next ∷ requests rest

arrow-remaining : {s t : IncidentState} → s ⟶ t → (remaining s ≡ t ∷ remaining t) ⊎ (t ≡ dismissed)
arrow-remaining triage = inl refl
arrow-remaining acknowledge = inl refl
arrow-remaining remediate = inl refl
arrow-remaining close = inl refl
arrow-remaining dismiss_pending = inr refl
arrow-remaining dismiss_triaged = inr refl
arrow-remaining dismiss_acknowledged = inr refl

run_dismissed : (i : Incident) (h : History) → i.state ≡ dismissed → (run i h).state ≡ dismissed
run_dismissed i h d = rw (run_terminal i h (rw d (unfold is_non_terminal in refl))) d

-- No history of requests, however long and with whatever refused requests in between, brings an
-- incident to closed unless it asks, in this order, for every state that the incident had yet to pass:
-- from pending these are triaged, acknowledged, remediating and closed.
pub closed_by_steps :
    (i : Incident) (h : History)
    → (run i h).state ≡ closed
    → Sublistᴰ (remaining i.state) (requests h)
unfolding run
closed_by_steps i [] c = rw c Sublistᴰ.slnil
closed_by_steps i ((next, now) ∷ rest) c = step (closed_by_steps (transition i next now).0 rest c) c
  where
    step :
        Sublistᴰ (remaining (transition i next now).0.state) (requests rest)
        → (run (transition i next now).0 rest).state ≡ closed
        → Sublistᴰ (remaining i.state) (next ∷ requests rest)
    step =
        after_cases
          (λ j.
            Sublistᴰ (remaining j.state) (requests rest)
            → (run j rest).state ≡ closed
            → Sublistᴰ (remaining i.state) (next ∷ requests rest))
          i next now
          (λ a sub fin. elim (arrow-remaining a) [
            | inl e ↦ rw e (Sublistᴰ.cons-cons refl sub)
            | inr d ↦
                cc (
                  fin,
                  run_dismissed (record i { state = next; last_transitioned_at = now }) rest d,
                )
          ])
          (λ sub fin. Sublistᴰ.cons sub)
