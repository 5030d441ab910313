-- ===== src/Forward/Mirror.antt =====
-- openIncidentsForMatches of engine/internal/iocforward/iocforward.go against the function of that name
-- in engine/internal/api/matching.go, of which it is a copy.
use rampart.Base.{
  ◌≡◌, refl, ap, inl, inr, Bool, true, false, Option, none, some, List, [], ◌∷◌, Text-eq, ℕ-eq,
  Option-cases,
}
use rampart.Base.Assoc.{lookup}
use rampart.Domain.Incident.{Time}
use rampart.Domain.Event.{DomainEvent}
use rampart.Store.{StorageError, PublisherKey-eq}
use rampart.Store.Incidents.{list_incidents, upsert_incident}
use rampart.Api.{Env, World}
use rampart.Api.Matching.{
  MatchPair, Opening, Opened, after_upsert, open_new, open_unless, open_one, open_each, open_with,
  open_incidents_for_matches, unless_error,
}
use rampart.Api.Matching.Contract.{first, result}
use rampart.Forward.{
  after_insert, insert_unless, insert_one, stop_or, insert_each, insert_with, open_incidents,
}

-- Without a bus nothing is published: the outbox is still `box`.
abbrev muffled : Bool → List DomainEvent → World → World
muffled true box w = w
muffled false box w = record w { outbox = box }

abbrev muffle : Bool → List DomainEvent → Opening → Opening
muffle bus box o = record o { world = muffled bus box o.world }

-- What the call returns when nothing but the events may differ.
abbrev pub without_bus : Bool → World → Opened → Opened
without_bus true w o = o
without_bus false w o = record o { world = record o.world { outbox = w.outbox } }

module _ (env : Env) (now : Time) where
  insert_one-open_one :
      (bus : Bool) (box : List DomainEvent) (p : MatchPair) (o : Opening)
      → insert_one bus env now p (muffle bus box o) ≡ muffle bus box (open_one env now p o)
  unfolding insert_one open_one upsert_incident
  insert_one-open_one true box p o =
      elim (Option-cases (lookup (p.ioc_id, p.component_ref) o.index)) [
        | inr (inc, hit) ↦ rw (hit, open_one, open_unless, insert_unless) refl
        | inl miss ↦ elim (Option-cases (env.ctx_err o.world.polls)) [
          | inl fine ↦
              rw
                (
                  miss, open_one, open_unless, open_new, insert_unless, fine, after_upsert,
                  after_insert,
                )
                refl
          | inr (e, bad) ↦
              rw
                (
                  miss, open_one, open_unless, open_new, insert_unless, bad, after_upsert,
                  after_insert,
                )
                refl
        ]
      ]
  insert_one-open_one false box p o =
      elim (Option-cases (lookup (p.ioc_id, p.component_ref) o.index)) [
        | inr (inc, hit) ↦ rw (hit, open_one, open_unless, insert_unless) refl
        | inl miss ↦ elim (Option-cases (env.ctx_err o.world.polls)) [
          | inl fine ↦
              rw
                (
                  miss, open_one, open_unless, open_new, insert_unless, fine, after_upsert,
                  after_insert,
                )
                refl
          | inr (e, bad) ↦
              rw
                (
                  miss, open_one, open_unless, open_new, insert_unless, bad, after_upsert,
                  after_insert,
                )
                refl
        ]
      ]

  insert_each-open_each :
      (bus : Bool) (box : List DomainEvent) (ps : List MatchPair) (o : Opening)
      → insert_each bus env now ps (muffle bus box o) ≡ muffle bus box (open_each env now ps o)
  unfolding insert_each open_each stop_or
  insert_each-open_each bus box [] o = refl
  insert_each-open_each bus box (p ∷ ps) o =
      rw (insert_one-open_one bus box p o, insert_each-open_each bus box ps (open_one env now p o))
        (stop_or_lem (open_one env now p o).error (open_one env now p o)
          (open_each env now ps (open_one env now p o)))
    where
      stop_or_lem :
          (e : Option StorageError) (a b : Opening)
          → stop_or e (muffle bus box a) (muffle bus box b) ≡ muffle bus box (unless_error e a b)
      stop_or_lem none a b = refl
      stop_or_lem (some e) a b = refl

-- The copy of openIncidentsForMatches that Submit uses does what the one of the api package does:
-- with a bus the two calls return the same, in every world; without a bus nothing is published and
-- all else is the same.
pub open_incidents-open_incidents_for_matches :
    (bus : Bool) (env : Env) (pairs : List MatchPair) (w : World)
    → open_incidents bus env pairs w ≡ without_bus bus w (open_incidents_for_matches env pairs w)
unfolding open_incidents open_incidents_for_matches open_with insert_with list_incidents
open_incidents-open_incidents_for_matches true env [] w = refl
open_incidents-open_incidents_for_matches false env [] w = refl
open_incidents-open_incidents_for_matches true env (p ∷ ps) w =
    elim (Option-cases (env.ctx_err w.polls)) [
      | inr (e, bad) ↦ rw (bad, open_with, insert_with) refl
      | inl fine ↦
          rw (fine, open_with, insert_with)
            (ap result
              (insert_each-open_each env (env.now w.clock) true w.outbox (p ∷ ps) (first env w)))
    ]
open_incidents-open_incidents_for_matches false env (p ∷ ps) w =
    elim (Option-cases (env.ctx_err w.polls)) [
      | inr (e, bad) ↦ rw (bad, open_with, insert_with) refl
      | inl fine ↦
          rw (fine, open_with, insert_with)
            (ap result
              (insert_each-open_each env (env.now w.clock) false w.outbox (p ∷ ps) (first env w)))
    ]
