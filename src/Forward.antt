-- ===== src/Forward.antt =====
-- engine/internal/iocforward/iocforward.go: Submit, the path of a new IoC from the store to the opened
-- incidents. `bus` says whether the event bus is there: the orchestrator may leave it out.
pub mod Calm
pub mod Scan
pub mod Mirror
pub mod Submit
use rampart.Base.{
  ℕ, zero, suc, ◌+◌, ◌-◌, ◌*◌, ◌≤◌, ◌<◌, ◌≡◌, refl, sym, ap, ◌∙◌, ◌≢◌, ◌↔◌, ◌⊎◌, inl, inr, Bool,
  true, false, not, ◌&&◌, ◌||◌, Option, none, some, List, [], ◌∷◌, ◌++◌, map, arith, Text, bytes,
  String, Eq, ◌==◌, eq_iff, eq_refl, eq_false, ne_of_eq_false, Text-eq, ℕ-eq, contains,
  contains_iff, keep_if, In, All, length, take, if◌then◌else◌, ltb, leb, Bool-cases, Option-cases,
}
use rampart.Base.Assoc.{Assoc, lookup, insert}
use rampart.Domain.Incident.{Time, Incident}
use rampart.Domain.Package.{Sbom}
use rampart.Domain.Component.{Component}
use rampart.Domain.Event.{DomainEvent, incident_opened, ioc_matched}
use rampart.Domain.Ioc.{Ioc}
use rampart.Matcher.{Semver, evaluate}
use rampart.Store.{Store, StorageError, Result, ok, err, PublisherKey-eq}
use rampart.Store.Catalog.{upsert_ioc, list_components, list_sboms_by_component}
use rampart.Store.Incidents.{list_incidents, upsert_incident}
use rampart.Api.{Env, World, emit}
use rampart.Api.Matching.{MatchPair, Key, Opening, Opened, index_open, new_incident}

-- `if bus != nil { bus.Publish(e) }`
abbrev pub emit_if : Bool → DomainEvent → World → World
emit_if true e w = emit e w
emit_if false e w = w

-- The variables of forwardMatch.
pub record Scanned : Type 0 where
  pub seen : List Text
  pub pairs : List MatchPair
  pub matched : List Text

module _ (semver : Semver) where
  -- The loop over the SBOMs of one component, which ends at the first hit.
  unfoldable pub scan_sboms : Ioc → Text → List Sbom → Scanned → Scanned
  scan_sboms i ref [] acc = acc
  scan_sboms i ref (b ∷ bs) acc =
      let rest = scan_sboms i ref bs acc in
      if not (evaluate semver i b).matched
      then rest
      else if contains acc.seen ref
      then rest
      else record {
        seen = ref ∷ acc.seen;
        pairs = acc.pairs ++ (record { ioc_id = i.id; component_ref = ref }) ∷ [];
        matched = acc.matched ++ ref ∷ [];
      }

  -- What forwardMatch returns, with how often ctx.Err() has been asked.
  abbrev pub Scan : Type 0
  Scan = Result (List MatchPair × List Text) × ℕ

  -- The body of the loop over the components, by what ListSBOMsByComponent returns.
  unfoldable pub scan_one : Ioc → Text → Result (List Sbom) → Scanned → (Scanned → Scan) → ℕ → Scan
  scan_one i ref (err e) acc next polls = (err e, polls)
  scan_one i ref (ok bs) acc next polls = next (scan_sboms i ref bs acc)

  unfoldable pub scan_components : Env → Store → Ioc → List Component → Scanned → ℕ → Scan
  scan_components env s i [] acc polls = (ok (acc.pairs, acc.matched), polls)
  scan_components env s i (c ∷ cs) acc polls =
      scan_one i c.ref (list_sboms_by_component s (env.ctx_err polls) c.ref) acc
        (λ acc'. scan_components env s i cs acc' (polls + 1)) (polls + 1)

  scan_listed : Env → Store → Ioc → Result (List Component) → ℕ → Scan
  scan_listed env s i (err e) polls = (err e, polls)
  scan_listed env s i (ok cs) polls =
      scan_components env s i cs (record { seen = []; pairs = []; matched = [] }) polls

  -- forwardMatch
  unfoldable pub forward_scan : Env → Store → Ioc → ℕ → Scan
  unfolding scan_listed
  forward_scan env s i polls =
      scan_listed env s i (list_components s (env.ctx_err polls)) (polls + 1)

-- The statements of openIncidentsForMatches after UpsertIncident.
after_insert : Bool → Incident → Time → MatchPair → Opening → Store → Option StorageError → Opening
after_insert bus inc now p o store (some e) = record o {
  error = some e;
  world = record o.world { store = store; minted = o.world.minted + 1; polls = o.world.polls + 1 };
}
after_insert bus inc now p o store none = record o {
  index = insert (p.ioc_id, p.component_ref) inc o.index;
  opened = o.opened ++ inc.id ∷ [];
  world =
      emit_if bus (incident_opened inc.id inc.ioc_id inc.affected_components_snapshot now)
        (record o.world { store = store; minted = o.world.minted + 1; polls = o.world.polls + 1 });
}

insert_unless : Bool → Env → Time → MatchPair → Opening → Option Incident → Opening
unfolding after_insert
insert_unless bus env now p o (some already) = o
insert_unless bus env now p o none =
    let inc = new_incident (env.new_ulid o.world.minted) now p in
    let (store, e) = upsert_incident o.world.store (env.ctx_err o.world.polls) inc in
    after_insert bus inc now p o store e

-- The body of its loop over the pairs.
unfoldable pub insert_one : Bool → Env → Time → MatchPair → Opening → Opening
unfolding insert_unless
insert_one bus env now p o =
    insert_unless bus env now p o (lookup (p.ioc_id, p.component_ref) o.index)

stop_or : Option StorageError → Opening → Opening → Opening
stop_or none stopped rest = rest
stop_or (some e) stopped rest = stopped

unfoldable pub insert_each : Bool → Env → Time → List MatchPair → Opening → Opening
unfolding stop_or
insert_each bus env now [] o = o
insert_each bus env now (p ∷ ps) o =
    let o' = insert_one bus env now p o in
    let rest = insert_each bus env now ps o' in stop_or o'.error o' rest

insert_with : Bool → Env → List MatchPair → World → Result (List Incident) → Opened
insert_with bus env pairs w (err e) = record { opened = []; error = some e; world = w }
insert_with bus env pairs w (ok existing) =
    let o = insert_each bus env (env.now w.clock) pairs (record {
      index = index_open existing [];
      opened = [];
      error = none;
      world = record w { clock = w.clock + 1 };
    }) in
    record { opened = o.opened; error = o.error; world = o.world }

-- openIncidentsForMatches of this package.
unfoldable pub open_incidents : Bool → Env → List MatchPair → World → Opened
unfolding insert_with
open_incidents bus env [] w = record { opened = []; error = none; world = w }
open_incidents bus env (p ∷ ps) w =
    insert_with bus env (p ∷ ps) (record w { polls = w.polls + 1 })
      (list_incidents w.store (env.ctx_err w.polls))

-- The three ways in which Submit wraps an error.
pub data SubmitError : Type 0 where
  upsert_failed match_failed open_failed : StorageError → SubmitError

-- Result, with the error and the state of the server.
pub record Submitted : Type 0 where
  pub opened_incidents : List Text
  pub matched_components : List Text
  pub error : Option SubmitError
  pub world : World

unfoldable pub announce_match : Bool → Env → Ioc → List Text → World → World
announce_match bus env i [] w = w
announce_match false env i (r ∷ refs) w = w
announce_match true env i (r ∷ refs) w =
    emit (ioc_matched i.id (r ∷ refs) (env.now w.clock)) (record w { clock = w.clock + 1 })

after_open : Bool → Env → Ioc → List Text → Opened → Option StorageError → Submitted
unfolding announce_match
after_open bus env i matched o (some e) = record {
  opened_incidents = o.opened;
  matched_components = matched;
  error = some (open_failed e);
  world = o.world;
}
after_open bus env i matched o none = record {
  opened_incidents = o.opened;
  matched_components = matched;
  error = none;
  world = announce_match bus env i matched o.world;
}

after_match : Bool → Env → Ioc → World → Result (List MatchPair × List Text) → Submitted
unfolding after_open
after_match bus env i w (err e) = record {
  opened_incidents = [];
  matched_components = [];
  error = some (match_failed e);
  world = w;
}
after_match bus env i w (ok (pairs, matched)) =
    let o = open_incidents bus env pairs w in after_open bus env i matched o o.error

after_upsert_ioc : Semver → Bool → Env → Ioc → World → Option StorageError → Submitted
unfolding after_match
after_upsert_ioc semver bus env i w (some e) = record {
  opened_incidents = [];
  matched_components = [];
  error = some (upsert_failed e);
  world = w;
}
after_upsert_ioc semver bus env i w none =
    let (r, polls) = forward_scan semver env w.store i w.polls in
    after_match bus env i (record w { polls = polls }) r

-- Submit
unfoldable pub submit : Semver → Bool → Env → Ioc → World → Submitted
unfolding after_upsert_ioc
submit semver bus env i w =
    let (store, e) = upsert_ioc w.store (env.ctx_err w.polls) i in
    after_upsert_ioc semver bus env i (record w { store = store; polls = w.polls + 1 }) e
