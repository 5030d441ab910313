-- ===== src/Api/Matching/Contract.antt =====
-- The contract of openIncidentsForMatches, engine/internal/api/matching.go.
use rampart.Base.{
  ℕ, ◌+◌, ◌≡◌, refl, sym, ◌⊎◌, inl, inr, Option, none, some, List, [], ◌∷◌, Text, Text-eq, ℕ-eq, In,
  ltb, Option-cases, In-map_intro,
}
use mathlib.Core.List.{append-nil}
use rampart.Base.Assoc.{values}
use rampart.Base.Sort.{sort_by}
use rampart.Domain.Incident.{Incident}
use rampart.Store.{StorageError}
use rampart.Store.Incidents.{list_incidents}
use rampart.Api.{Env, World}
use rampart.Api.Matching.{
  MatchPair, Opening, Opened, open_each, open_with, open_incidents_for_matches,
}
use rampart.Api.Matching.Open.{Covered, Fresh, key_of}
use rampart.Api.Matching.Unique.{AtMostOne, Announced, Progress}
use rampart.Api.Matching.Once.{
  start_of, start-Progress, each-Progress, each-covers, each-known, Agrees-start,
}

-- What a call leaves behind, whatever happens during it: incidents that were stored stay as they
-- were, the ids that are returned are announced, and ids stay unused until they are minted.
pub record Kept (env : Env) (w : World) (r : Opened) : Type 0 where
  pub fresh : Fresh env r.world
  pub kept : (a : Text × Incident) → In a w.store.incidents → In a r.world.store.incidents
  pub announced : Announced r.opened w.outbox r.world.outbox r.world.store

abbrev pub result : Opening → Opened
result o = record { opened = o.opened; error = o.error; world = o.world }

abbrev pub first : Env → World → Opening
first env w =
    start_of env w (sort_by (λ a b. ltb a.opened_at b.opened_at) (values w.store.incidents))

pub open_cases {ℓ} :
    (P : Opened → Type ℓ) (env : Env) (pairs : List MatchPair) (w : World)
    → (pairs ≡ [] → P (record { opened = []; error = none; world = w }))
    → ((e : StorageError)
        → P (record { opened = []; error = some e; world = record w { polls = w.polls + 1 } }))
    → P (result (open_each env (env.now w.clock) pairs (first env w)))
    → P (open_incidents_for_matches env pairs w)
unfolding open_incidents_for_matches open_with list_incidents
open_cases P env [] w empty failed loop = empty refl
open_cases P env (p ∷ ps) w empty failed loop = elim (Option-cases (env.ctx_err w.polls)) [
  | inl fine ↦ rw (fine, open_with) loop
  | inr (e, bad) ↦ rw (bad, open_with) (failed e)
]

nothing-Kept :
    (env : Env) (w : World) (e : Option StorageError) (n : ℕ)
    → Fresh env w
    → Kept env w (record { opened = []; error = e; world = record w { polls = n } })
nothing-Kept env w e n fresh = record {
  fresh = record { unused = fresh.unused; injective = fresh.injective };
  kept = λ a m. m;
  announced = record {
    incidents = [];
    stored = λ inc m. absurd m;
    returned = refl;
    events = sym (append-nil w.outbox);
  };
}

progress :
    (env : Env) (pairs : List MatchPair) (w : World)
    → Fresh env w
    → Progress env (first env w) (open_each env (env.now w.clock) pairs (first env w))
progress env pairs w fresh =
    each-Progress env (env.now w.clock) (first env w) pairs (first env w)
      (start-Progress env w fresh) refl

-- Whatever happens during the call, a cancelled request included, and as long as ULIDs do not
-- repeat: incidents that were stored are kept as they were; and the ids that are returned, the
-- incident.opened events that are published and the incidents that they stand for agree, one for one
-- and in one order, each stored under its id and pending.
pub open_incidents_for_matches-Kept :
    (env : Env) (pairs : List MatchPair) (w : World)
    → Fresh env w
    → Kept env w (open_incidents_for_matches env pairs w)
open_incidents_for_matches-Kept env pairs w fresh =
    open_cases (Kept env w) env pairs w (λ e. nothing-Kept env w none w.polls fresh)
      (λ e. nothing-Kept env w (some e) (w.polls + 1) fresh)
      (let q = progress env pairs w fresh in
        record { fresh = q.fresh; kept = q.kept; announced = q.announced })

-- If no two stored incidents were open for one IoC and component before a call, none are after it,
-- whatever pairs it is given, repeated ones included, as long as ULIDs do not repeat.
pub open_incidents_for_matches-AtMostOne :
    (env : Env) (pairs : List MatchPair) (w : World)
    → Fresh env w
    → AtMostOne w.store
    → AtMostOne (open_incidents_for_matches env pairs w).world.store
open_incidents_for_matches-AtMostOne env pairs w fresh unique =
    open_cases (λ r. AtMostOne r.world.store) env pairs w (λ e. unique) (λ e. unique)
      ((progress env pairs w fresh).unique unique)

-- As long as ULIDs do not repeat, after a call that returns no error every stored incident was
-- stored before or has its id among those that are returned: none is opened in silence.
pub open_incidents_for_matches-complete :
    (env : Env) (pairs : List MatchPair) (w : World) (a : Text × Incident)
    → Fresh env w
    → (open_incidents_for_matches env pairs w).error ≡ none
    → In a (open_incidents_for_matches env pairs w).world.store.incidents
    → In a w.store.incidents ⊎ In a.1.id (open_incidents_for_matches env pairs w).opened
open_incidents_for_matches-complete env pairs w a fresh fine m =
    open_cases
      (λ r.
        r.error ≡ none → In a r.world.store.incidents → In a w.store.incidents ⊎ In a.1.id r.opened)
      env pairs w (λ e fine m. inl m) (λ e fine m. inl m)
      (λ fine m.
        let q = progress env pairs w fresh in
        elim (q.complete fine a m) [
          | inl old ↦ inl old
          | inr new ↦
              inr (
                rw q.announced.returned
                  (In-map_intro (λ inc. inc.id) q.announced.incidents a.1 new))
        ])
      fine m

-- After a call that returns no error every pair has an open incident in the store, as long as ULIDs
-- do not repeat.
pub open_incidents_for_matches-Covered :
    (env : Env) (pairs : List MatchPair) (w : World)
    → Fresh env w
    → (open_incidents_for_matches env pairs w).error ≡ none
    → (p : MatchPair) → In p pairs
    → Covered (open_incidents_for_matches env pairs w).world.store (key_of p)
open_incidents_for_matches-Covered env pairs w fresh fine x m =
    open_cases (λ r. r.error ≡ none → Covered r.world.store (key_of x)) env pairs w
      (λ e fine. absurd (rw e at m)) (λ e fine. absurd (cc fine))
      (λ fine.
        each-covers env (env.now w.clock) (first env w) pairs (first env w)
          (start-Progress env w fresh) refl x m fine)
      fine

-- A call whose pairs all have an open incident already, as when one submission is repeated, opens
-- nothing: it returns no id, publishes no event and leaves the store as it was.
open_incidents_for_matches-again :
    (env : Env) (pairs : List MatchPair) (w : World)
    → ((p : MatchPair) → In p pairs → Covered w.store (key_of p))
    → let r = open_incidents_for_matches env pairs w in
      (r.opened ≡ [])
      × (r.world.store ≡ w.store)
      × (r.world.outbox ≡ w.outbox)
      × (r.world.minted ≡ w.minted)
open_incidents_for_matches-again env pairs w all =
    open_cases
      (λ r.
        (r.opened ≡ [])
        × (r.world.store ≡ w.store)
        × (r.world.outbox ≡ w.outbox)
        × (r.world.minted ≡ w.minted))
      env pairs w (λ e. (refl, refl, refl, refl)) (λ e. (refl, refl, refl, refl))
      (rw
        (each-known env (env.now w.clock) (first env w) pairs (first env w) refl
          (λ x m. (Agrees-start env w (key_of x)).1 (all x m)))
        (refl, refl, refl, refl))
