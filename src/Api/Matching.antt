-- ===== src/Api/Matching.antt =====
-- openIncidentsForMatches of engine/internal/api/matching.go: one open incident for each pair of an
-- IoC and a component.
pub mod Index
pub mod Open
pub mod Unique
pub mod Once
pub mod Contract
use rampart.Base.{
  ℕ, zero, suc, ◌+◌, ◌-◌, ◌*◌, ◌≤◌, ◌<◌, ◌≡◌, refl, sym, ap, ◌∙◌, ◌≢◌, ◌↔◌, ◌⊎◌, inl, inr, Bool,
  true, false, not, ◌&&◌, ◌||◌, Option, none, some, List, [], ◌∷◌, ◌++◌, map, arith, Text, bytes,
  String, Eq, ◌==◌, eq_iff, eq_refl, eq_false, ne_of_eq_false, Text-eq, ℕ-eq, contains,
  contains_iff, keep_if, In, All, length, take, if◌then◌else◌, ltb, leb, Bool-cases, Option-cases,
}
use rampart.Base.Assoc.{Assoc, lookup, insert, values, keys}
use rampart.Domain.Incident.{Time, Incident, pending, is_non_terminal}
use rampart.Domain.Event.{incident_opened}
use rampart.Store.{Store, StorageError, Result, ok, err, PublisherKey-eq}
use rampart.Store.Incidents.{list_incidents, upsert_incident}
use rampart.Api.{Env, World, emit}

pub record MatchPair : Type 0 where
  pub ioc_id : Text
  pub component_ref : Text

-- The struct `key` of the index: IoC and component.
abbrev pub Key : Type 0
Key = Text × Text

-- `for _, r := range inc.AffectedComponentsSnapshot { open[key{inc.IoCID, r}] = inc }`
unfoldable pub index_refs : Incident → List Text → Assoc Key Incident → Assoc Key Incident
index_refs inc [] open_ = open_
index_refs inc (r ∷ refs) open_ = index_refs inc refs (insert (inc.ioc_id, r) inc open_)

-- The body of the loop over the incidents, which skips those that are closed or dismissed.
unfoldable pub index_one : Incident → Assoc Key Incident → Assoc Key Incident
index_one inc open_ =
    if not (is_non_terminal inc.state)
    then open_
    else index_refs inc inc.affected_components_snapshot open_

-- The loop that builds the index.
unfoldable pub index_open : List Incident → Assoc Key Incident → Assoc Key Incident
index_open [] open_ = open_
index_open (inc ∷ incs) open_ = index_open incs (index_one inc open_)

-- The variables of the loop over the pairs, with the error that ends it.
pub record Opening : Type 0 where
  pub index : Assoc Key Incident
  pub opened : List Text
  pub error : Option StorageError
  pub world : World

abbrev pub new_incident : Text → Time → MatchPair → Incident
new_incident id now p = record {
  id = id;
  ioc_id = p.ioc_id;
  state = pending;
  opened_at = now;
  last_transitioned_at = now;
  affected_components_snapshot = p.component_ref ∷ [];
  remediations = [];
}

-- The statements after UpsertIncident, by its error.
unfoldable pub after_upsert :
    Incident → Time → MatchPair → Opening → Store → Option StorageError → Opening
after_upsert inc now p o store (some e) = record o {
  error = some e;
  world = record o.world { store = store; minted = o.world.minted + 1; polls = o.world.polls + 1 };
}
after_upsert inc now p o store none = record o {
  index = insert (p.ioc_id, p.component_ref) inc o.index;
  opened = o.opened ++ inc.id ∷ [];
  world =
      emit (incident_opened inc.id inc.ioc_id inc.affected_components_snapshot now)
        (record o.world { store = store; minted = o.world.minted + 1; polls = o.world.polls + 1 });
}

unfoldable pub open_new : Env → Time → MatchPair → Opening → Opening
unfolding after_upsert
open_new env now p o =
    let inc = new_incident (env.new_ulid o.world.minted) now p in
    let (store, e) = upsert_incident o.world.store (env.ctx_err o.world.polls) inc in
    after_upsert inc now p o store e

unfoldable pub open_unless : Env → Time → MatchPair → Opening → Option Incident → Opening
open_unless env now p o (some already) = o
open_unless env now p o none = open_new env now p o

-- The body of the loop over the pairs.
unfoldable pub open_one : Env → Time → MatchPair → Opening → Opening
unfolding open_unless open_new
open_one env now p o = open_unless env now p o (lookup (p.ioc_id, p.component_ref) o.index)

abbrev pub unless_error : Option StorageError → Opening → Opening → Opening
unless_error none stopped rest = rest
unless_error (some e) stopped rest = stopped

-- The loop; an error returns at once.
unfoldable pub open_each : Env → Time → List MatchPair → Opening → Opening
open_each env now [] o = o
open_each env now (p ∷ ps) o =
    let o' = open_one env now p o in
    let rest = open_each env now ps o' in unless_error o'.error o' rest

-- What the call returns, beside the new state of the server.
pub record Opened : Type 0 where
  pub opened : List Text
  pub error : Option StorageError
  pub world : World

unfoldable pub open_with : Env → List MatchPair → World → Result (List Incident) → Opened
open_with env pairs w (err e) = record { opened = []; error = some e; world = w }
open_with env pairs w (ok existing) =
    let o = open_each env (env.now w.clock) pairs (record {
      index = index_open existing [];
      opened = [];
      error = none;
      world = record w { clock = w.clock + 1 };
    }) in
    record { opened = o.opened; error = o.error; world = o.world }

-- openIncidentsForMatches
unfoldable pub open_incidents_for_matches : Env → List MatchPair → World → Opened
unfolding open_with
open_incidents_for_matches env [] w = record { opened = []; error = none; world = w }
open_incidents_for_matches env (p ∷ ps) w =
    open_with env (p ∷ ps) (record w { polls = w.polls + 1 })
      (list_incidents w.store (env.ctx_err w.polls))
