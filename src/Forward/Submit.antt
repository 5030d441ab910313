-- ===== src/Forward/Submit.antt =====
-- Submit of engine/internal/iocforward/iocforward.go, as a whole.
use rampart.Base.{
  ℕ, ◌+◌, ◌≡◌, refl, ap, ◌↔◌, ◌⊎◌, inl, inr, Bool, true, false, Option, none, some, List, [], ◌∷◌,
  map, Text, Text-eq, ℕ-eq, In, Option-cases,
}
use rampart.Base.{NoRepeat, In-map_intro}
use rampart.Base.Assoc.{insert}
use rampart.Domain.Ioc.{Ioc}
use rampart.Domain.Incident.{Incident}
use rampart.Domain.Event.{DomainEvent}
use rampart.Matcher.{Semver}
use rampart.Store.{Store, StorageError, Result, ok, err}
use rampart.Store.Catalog.{upsert_ioc}
use rampart.Api.{Env, World}
use rampart.Api.Matching.{MatchPair, Opened, open_incidents_for_matches}
use rampart.Api.Matching.Open.{Covered, Fresh, key_of}
use rampart.Api.Matching.Unique.{AtMostOne}
use rampart.Api.Matching.Contract.{
  open_incidents_for_matches-Kept, open_incidents_for_matches-AtMostOne,
  open_incidents_for_matches-Covered,
}
use rampart.Api.Lookup.{pair_for}
use rampart.Api.Lookup.Forward.{Affected}
use rampart.Forward.{
  Scan, upsert_failed, match_failed, Submitted, open_incidents, forward_scan, announce_match,
  after_open, after_match, after_upsert_ioc, submit,
}
use rampart.Forward.Scan.{Registered, forward_scan-exact}
use rampart.Forward.Mirror.{without_bus, open_incidents-open_incidents_for_matches}
use rampart.Forward.Calm.{
  Calm, SameCatalog, open_incidents_for_matches-SameCatalog, open_incidents_for_matches-Calm,
}

pub announce_match-store :
    (bus : Bool) (env : Env) (i : Ioc) (refs : List Text) (w : World)
    → (announce_match bus env i refs w).store ≡ w.store
unfolding announce_match
announce_match-store bus env i [] w = refl
announce_match-store false env i (r ∷ refs) w = refl
announce_match-store true env i (r ∷ refs) w = refl

-- What an uncancelled Submit has done.
pub record Forwarded (semver : Semver) (i : Ioc) (w : World) (r : Submitted) : Type 0 where
  pub fine : r.error ≡ none
  pub matched_exactly :
      (ref : Text)
      → In ref r.matched_components ↔ (Registered w.store ref × Affected semver w.store i ref)
  pub once : NoRepeat r.matched_components
  pub covered : (ref : Text) → In ref r.matched_components → Covered r.world.store (i.id, ref)
  pub kept : (a : Text × Incident) → In a w.store.incidents → In a r.world.store.incidents
  pub unique : AtMostOne w.store → AtMostOne r.world.store
  pub catalog :
      r.world.store
      ≡ record w.store { iocs = insert i.id i w.store.iocs; incidents = r.world.store.incidents }

-- What opening incidents leaves as it was, however it ends.
record Leaves (env : Env) (w : World) (r : Opened) : Type 0 where
  fresh : Fresh env r.world
  kept : (a : Text × Incident) → In a w.store.incidents → In a r.world.store.incidents
  unique : AtMostOne w.store → AtMostOne r.world.store
  catalog : SameCatalog w.store r.world.store

-- A property of the result that says nothing of the events holds with and without a bus.
mute :
    (P : Opened → Type 0) (bus : Bool) (env : Env) (pairs : List MatchPair) (w : World)
    → ((o : Opened) (box : List DomainEvent)
        → P o
        → P (record o { world = record o.world { outbox = box } }))
    → P (open_incidents_for_matches env pairs w)
    → P (open_incidents bus env pairs w)
mute P bus env pairs w deaf theirs =
    rw (open_incidents-open_incidents_for_matches bus env pairs w) (without bus)
  where
    without : (b : Bool) → P (without_bus b w (open_incidents_for_matches env pairs w))
    without true = theirs
    without false = deaf (open_incidents_for_matches env pairs w) w.outbox theirs

module _ (bus : Bool) (env : Env) (pairs : List MatchPair) (w : World) (fresh : Fresh env w) where
  open_incidents-Leaves : Leaves env w (open_incidents bus env pairs w)
  open_incidents-Leaves =
      mute (Leaves env w) bus env pairs w
        (λ o box q. record {
          fresh = record { unused = q.fresh.unused; injective = q.fresh.injective };
          kept = q.kept;
          unique = q.unique;
          catalog = q.catalog;
        })
        (record {
          fresh = (open_incidents_for_matches-Kept env pairs w fresh).fresh;
          kept = (open_incidents_for_matches-Kept env pairs w fresh).kept;
          unique = open_incidents_for_matches-AtMostOne env pairs w fresh;
          catalog = open_incidents_for_matches-SameCatalog env pairs w;
        })

  open_incidents-Calm : Calm env → (open_incidents bus env pairs w).error ≡ none
  open_incidents-Calm calm =
      mute (λ o. o.error ≡ none) bus env pairs w (λ o box fine. fine)
        (open_incidents_for_matches-Calm env pairs w calm)

  open_incidents-Covered :
      Calm env
      → (p : MatchPair) → In p pairs
      → Covered (open_incidents bus env pairs w).world.store (key_of p)
  open_incidents-Covered calm p m =
      mute (λ o. Covered o.world.store (key_of p)) bus env pairs w (λ o box c. c)
        (open_incidents_for_matches-Covered env pairs w fresh
          (open_incidents_for_matches-Calm env pairs w calm) p m)

-- The last part of Submit, once the scan has found these components.
after_match-Forwarded :
    (semver : Semver) (bus : Bool) (env : Env) (i : Ioc) (w : World) (refs : List Text) (polls : ℕ)
    → Calm env
    → Fresh env w
    → NoRepeat refs
    → ((ref : Text) → In ref refs ↔ (Registered w.store ref × Affected semver w.store i ref))
    → Forwarded semver i w (
        after_match bus env i
          (record w { store = record w.store { iocs = insert i.id i w.store.iocs }; polls = polls })
          (ok (map (pair_for semver i.id) refs, refs)))
unfolding after_match
after_match-Forwarded semver bus env i w refs polls calm fresh distinct exact =
    let stored : Store = record w.store { iocs = insert i.id i w.store.iocs } in
    let w' : World = record w { store = stored; polls = polls } in
    let pairs = map (pair_for semver i.id) refs in
    let o = open_incidents bus env pairs w' in
    let fresh' : Fresh env w' = record { unused = fresh.unused; injective = fresh.injective } in
    let q = open_incidents-Leaves bus env pairs w' fresh' in
    let same = announce_match-store bus env i refs o.world in
    rw (open_incidents-Calm bus env pairs w' fresh' calm, after_open)
      (record {
        fine = refl;
        matched_exactly = exact;
        once = distinct;
        covered = λ ref m. rw same (
            open_incidents-Covered bus env pairs w' fresh' calm (pair_for semver i.id ref)
              (In-map_intro (pair_for semver i.id) refs ref m));
        kept = λ a m. rw same (q.kept a m);
        unique = λ one. rw same (q.unique one);
        catalog = rw same q.catalog;
      })

-- Submit, while the request is not cancelled and ULIDs do not repeat, with or without an event bus:
-- it returns no error; the components that it returns are exactly the registered ones with a stored
-- SBOM that the IoC matches, each once; each of them has an open incident for the IoC afterwards; what
-- was stored is kept, and at most one incident stays open for each IoC and component; and nothing but
-- the IoC and the incidents has changed in the store.
pub submit-Forwarded :
    (semver : Semver) (bus : Bool) (env : Env) (i : Ioc) (w : World)
    → Calm env
    → Fresh env w
    → Forwarded semver i w (submit semver bus env i w)
unfolding submit upsert_ioc after_upsert_ioc
submit-Forwarded semver bus env i w calm fresh =
    let stored : Store = record w.store { iocs = insert i.id i w.store.iocs } in
    let (refs, polls, e, distinct, exact) =
      forward_scan-exact semver i env calm stored (w.polls + 1) in
    let ends : submit semver bus env i w
        ≡ after_match bus env i (record w { store = stored; polls = polls })
            (ok (map (pair_for semver i.id) refs, refs)) =
      rw (calm w.polls, after_upsert_ioc)
        (ap
          (λ (out : Scan semver).
            after_match bus env i (record w { store = stored; polls = out.1 }) out.0)
          e) in
    rw ends (after_match-Forwarded semver bus env i w refs polls calm fresh distinct exact)

-- What holds of every Submit, however it ends.
pub record Safe (env : Env) (w : World) (r : Submitted) : Type 0 where
  pub fresh : Fresh env r.world
  pub kept : (a : Text × Incident) → In a w.store.incidents → In a r.world.store.incidents
  pub unique : AtMostOne w.store → AtMostOne r.world.store
  pub catalog :
      r.world.store
      ≡ record w.store { iocs = r.world.store.iocs; incidents = r.world.store.incidents }
  pub early :
      (e : StorageError)
      → (r.error ≡ some (upsert_failed e)) ⊎ (r.error ≡ some (match_failed e))
      → (r.opened_incidents ≡ [])
        × (r.world.store.incidents ≡ w.store.incidents)
        × (r.world.outbox ≡ w.outbox)

module _ (bus : Bool) (env : Env) (i : Ioc) where
  announce_match-Fresh :
      (refs : List Text) (w : World) → Fresh env w → Fresh env (announce_match bus env i refs w)
  unfolding announce_match
  announce_match-Fresh refs w fresh = by_bus bus refs
    where
      by_bus : (b : Bool) (rs : List Text) → Fresh env (announce_match b env i rs w)
      by_bus b [] = fresh
      by_bus true (r ∷ rs) = record { unused = fresh.unused; injective = fresh.injective }
      by_bus false (r ∷ rs) = fresh

  after_open-Safe :
      (w : World) (matched : List Text) (o : Opened) (e : Option StorageError)
      → Leaves env w o
      → Safe env w (after_open bus env i matched o e)
  unfolding after_open
  after_open-Safe w matched o (some e) q = record {
    fresh = q.fresh;
    kept = q.kept;
    unique = q.unique;
    catalog = rw q.catalog refl;
    early = λ x h. elim h [ inl never ↦ absurd (cc never) | inr never ↦ absurd (cc never) ];
  }
  after_open-Safe w matched o none q =
      let stays = announce_match-store bus env i matched o.world in
      record {
        fresh = announce_match-Fresh matched o.world q.fresh;
        kept = λ a m. rw stays (q.kept a m);
        unique = λ one. rw stays (q.unique one);
        catalog = rw (stays, q.catalog) refl;
        early = λ x h. elim h [ inl never ↦ absurd (cc never) | inr never ↦ absurd (cc never) ];
      }

  after_match-Safe :
      (w : World) (r : Result (List MatchPair × List Text))
      → Fresh env w
      → Safe env w (after_match bus env i w r)
  unfolding after_match
  after_match-Safe w (err e) fresh = record {
    fresh = fresh;
    kept = λ a m. m;
    unique = λ one. one;
    catalog = refl;
    early = λ x h. (refl, refl, refl);
  }
  after_match-Safe w (ok (pairs, matched)) fresh =
      let o = open_incidents bus env pairs w in
      after_open-Safe w matched o o.error (open_incidents-Leaves bus env pairs w fresh)

-- However Submit ends, a cancelled request included, as long as ULIDs do not repeat: incidents that
-- were stored stay as they were; at most one incident is open for each IoC and component if that was so
-- before; and nothing but IoCs and incidents changes in the store. An error of the upsert or of the
-- match means that no incident was opened and nothing was published.
pub submit-Safe :
    (semver : Semver) (bus : Bool) (env : Env) (i : Ioc) (w : World)
    → Fresh env w
    → Safe env w (submit semver bus env i w)
unfolding submit upsert_ioc after_upsert_ioc
submit-Safe semver bus env i w fresh = elim (Option-cases (env.ctx_err w.polls)) [
  | inl fine ↦
      rw (fine, after_upsert_ioc)
        (let stored : Store = record w.store { iocs = insert i.id i w.store.iocs } in
          let (r, polls) = forward_scan semver env stored i (w.polls + 1) in
          let q =
            after_match-Safe bus env i (record w { store = stored; polls = polls }) r
              (record { unused = fresh.unused; injective = fresh.injective }) in
          record {
            fresh = q.fresh;
            kept = q.kept;
            unique = q.unique;
            catalog = rw q.catalog refl;
            early = q.early;
          })
  | inr (e, bad) ↦
      rw (bad, after_upsert_ioc)
        (record {
          fresh = record { unused = fresh.unused; injective = fresh.injective };
          kept = λ a m. m;
          unique = λ one. one;
          catalog = refl;
          early = λ x h. (refl, refl, refl);
        })
]
