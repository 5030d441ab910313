-- ===== src/Forward/Calm.antt =====
-- openIncidentsForMatches while the request is not cancelled: it returns no error, and touches nothing
-- but the incidents and the event bus.
use rampart.Base.{ℕ, ◌≡◌, refl, inl, inr, none, List, [], ◌∷◌, Text-eq, ℕ-eq, Option-cases}
use rampart.Domain.Incident.{Time}
use rampart.Store.{PublisherKey-eq, Store}
use rampart.Store.Incidents.{upsert_incident, list_incidents}
use rampart.Api.{Env, World}
use rampart.Api.Matching.{
  MatchPair, Opening, open_one, open_new, open_unless, after_upsert, open_each, open_with,
  open_incidents_for_matches,
}
use rampart.Api.Matching.Open.{key_of, open_one_cases}
use rampart.Api.Matching.Once.{unless_error_cases}
use rampart.Api.Matching.Contract.{first, open_cases}
use rampart.Base.Assoc.{lookup}

-- The request is never cancelled.
abbrev pub Calm : Env → Type 0
Calm env = (n : ℕ) → env.ctx_err n ≡ none

-- Only the incidents of the store may have changed.
abbrev pub SameCatalog : Store → Store → Type 0
SameCatalog s t = t ≡ record s { incidents = t.incidents }

module _ (env : Env) (now : Time) where
  one-SameCatalog :
      (s : Store) (p : MatchPair) (o : Opening)
      → SameCatalog s o.world.store
      → SameCatalog s (open_one env now p o).world.store
  one-SameCatalog s p o same =
      open_one_cases env now p o (λ r. SameCatalog s r.world.store) (λ known. same)
        (λ miss e. rw same refl) (λ miss. rw same refl)

  each-SameCatalog :
      (s : Store) (ps : List MatchPair) (o : Opening)
      → SameCatalog s o.world.store
      → SameCatalog s (open_each env now ps o).world.store
  unfolding open_each
  each-SameCatalog s [] o same = same
  each-SameCatalog s (p ∷ ps) o same =
      let o' = open_one env now p o in
      let same' = one-SameCatalog s p o same in
      unless_error_cases (λ r. SameCatalog s r.world.store) o'.error o' (open_each env now ps o')
        (λ fine. each-SameCatalog s ps o' same') (λ x bad. same')

  module _ (calm : Calm env) where
    one-Calm : (p : MatchPair) (o : Opening) → o.error ≡ none → (open_one env now p o).error ≡ none
    unfolding open_one upsert_incident
    one-Calm p o fine = elim (Option-cases (lookup (key_of p) o.index)) [
      | inr (inc, hit) ↦ rw (hit, open_unless) fine
      | inl miss ↦ rw (miss, open_unless, open_new, calm o.world.polls, after_upsert) fine
    ]

    each-Calm :
        (ps : List MatchPair) (o : Opening) → o.error ≡ none → (open_each env now ps o).error ≡ none
    unfolding open_each
    each-Calm [] o fine = fine
    each-Calm (p ∷ ps) o fine =
        let o' = open_one env now p o in
        unless_error_cases (λ r. r.error ≡ none) o'.error o' (open_each env now ps o')
          (λ fine'. each-Calm ps o' fine') (λ x bad. one-Calm p o fine)

pub open_incidents_for_matches-SameCatalog :
    (env : Env) (pairs : List MatchPair) (w : World)
    → SameCatalog w.store (open_incidents_for_matches env pairs w).world.store
open_incidents_for_matches-SameCatalog env pairs w =
    open_cases (λ r. SameCatalog w.store r.world.store) env pairs w (λ e. refl) (λ e. refl)
      (each-SameCatalog env (env.now w.clock) w.store pairs (first env w) refl)

pub open_incidents_for_matches-Calm :
    (env : Env) (pairs : List MatchPair) (w : World)
    → Calm env
    → (open_incidents_for_matches env pairs w).error ≡ none
unfolding open_incidents_for_matches open_with list_incidents
open_incidents_for_matches-Calm env [] w calm = refl
open_incidents_for_matches-Calm env (p ∷ ps) w calm =
    rw (calm w.polls, open_with) (each-Calm env (env.now w.clock) calm (p ∷ ps) (first env w) refl)
