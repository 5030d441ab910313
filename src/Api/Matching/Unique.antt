-- ===== src/Api/Matching/Unique.antt =====
-- What openIncidentsForMatches keeps from one pair to the next: one open incident for each pair,
-- each announced once.
use rampart.Base.{
  ◌≡◌, refl, ap, ◌∙◌, ◌≢◌, ◌⊎◌, inl, inr, false, none, List, [], ◌∷◌, ◌++◌, map, arith, Text, ◌==◌,
  eq_iff, Text-eq, ℕ-eq, In, Bool-cases, In-append, In-append_right, In-append_left,
}
use mathlib.Core.Path.{subst}
use mathlib.Core.List.{append_assoc, map-append}
use rampart.Base.Assoc.{In-insert, In-values}
use rampart.Domain.Incident.{Time, Incident, pending}
use rampart.Domain.Event.{incident_opened, DomainEvent}
use rampart.Store.{Store, StorageError, PublisherKey-eq}
use rampart.Api.{Env}
use rampart.Api.Matching.{MatchPair, Key, Opening, open_one}
use rampart.Api.Matching.Index.{Covers, has, has-insert}
use rampart.Api.Matching.Open.{
  Fresh, Agrees, key_of, added, store_after, new-Covers, Covered-store_after, fresh_here,
  Fresh-after, stored_world, failed_opening, done_opening, open_one_cases,
}

-- No two stored incidents are open for the same IoC and component.
abbrev pub AtMostOne : Store → Type 0
AtMostOne s =
    (a b : Text × Incident) (k : Key)
    → In a s.incidents
    → In b s.incidents
    → Covers a.1 k
    → Covers b.1 k
    → a.0 ≡ b.0

abbrev pub announcement : Incident → DomainEvent
announcement inc = incident_opened inc.id inc.ioc_id inc.affected_components_snapshot inc.opened_at

abbrev pub ids : List Incident → List Text
ids incs = map (λ inc. inc.id) incs

-- The new incidents are stored under their ids, are pending, and are exactly those that were
-- announced and returned, in one order.
pub record Announced (opened : List Text) (before after : List DomainEvent) (s : Store)
    : Type 0 where
  pub incidents : List Incident
  pub stored :
      (inc : Incident) → In inc incidents → In (inc.id, inc) s.incidents × (inc.state ≡ pending)
  pub returned : opened ≡ ids incidents
  pub events : after ≡ before ++ map announcement incidents

-- What the loop has achieved between two states.
pub record Progress (env : Env) (start o : Opening) : Type 0 where
  pub fresh : Fresh env o.world
  pub agrees : o.error ≡ none → Agrees o
  pub kept : (a : Text × Incident) → In a start.world.store.incidents → In a o.world.store.incidents
  pub unique : AtMostOne start.world.store → AtMostOne o.world.store
  pub announced : Announced o.opened start.world.outbox o.world.outbox o.world.store
  pub complete :
      o.error ≡ none
      → (a : Text × Incident) → In a o.world.store.incidents
      → In a start.world.store.incidents ⊎ In a.1 announced.incidents

module _ (env : Env) (now : Time) (p : MatchPair) (o : Opening) (fresh : Fresh env o.world) where
  pub kept-store_after :
      (a : Text × Incident)
      → In a o.world.store.incidents
      → In a (store_after env now p o).incidents
  kept-store_after a m =
      (In-insert (added env now p o).id (added env now p o) a o.world.store.incidents
          (fresh_here env now p o fresh)).1
        (inr m)

  AtMostOne-store_after :
      has (key_of p) o.index ≡ false
      → Agrees o
      → AtMostOne o.world.store
      → AtMostOne (store_after env now p o)
  AtMostOne-store_after miss agrees unique a b k ma mb ca cb = go (split a ma) (split b mb)
    where
      new : Incident
      new = added env now p o

      split :
          (c : Text × Incident)
          → In c (store_after env now p o).incidents
          → (c ≡ (new.id, new)) ⊎ In c o.world.store.incidents
      split c m =
          (In-insert new.id new c o.world.store.incidents (fresh_here env now p o fresh)).0 m

      uncovered : (c : Text × Incident) → In c o.world.store.incidents → Covers c.1 k → key_of p ≢ k
      uncovered (i, c) m cov e = cc (
        miss,
        (agrees (key_of p)).1 (c, In-values i c o.world.store.incidents m, rw (← e) at cov),
      )

      go :
          (a ≡ (new.id, new)) ⊎ In a o.world.store.incidents
          → (b ≡ (new.id, new)) ⊎ In b o.world.store.incidents
          → a.0 ≡ b.0
      go (inl ea) (inl eb) = cc
      go (inl ea) (inr ob) = absurd (
          uncovered b ob cb (
            (new-Covers env now p o fresh k).0
              (subst (λ (c : Text × Incident). Covers c.1 k) ea ca)))
      go (inr oa) (inl eb) = absurd (
          uncovered a oa ca (
            (new-Covers env now p o fresh k).0
              (subst (λ (c : Text × Incident). Covers c.1 k) eb cb)))
      go (inr oa) (inr ob) = unique a b k oa ob ca cb

Announced-more :
    (opened : List Text) (before after : List DomainEvent) (s t : Store)
    → ((a : Text × Incident) → In a s.incidents → In a t.incidents)
    → Announced opened before after s
    → Announced opened before after t
Announced-more opened before after s t more n = record {
  incidents = n.incidents;
  stored = λ inc m. (more (inc.id, inc) (n.stored inc m).0, (n.stored inc m).1);
  returned = n.returned;
  events = n.events;
}

module _ (env : Env) (now : Time) (start o : Opening) (p : MatchPair) (q : Progress env start o)
    (going : o.error ≡ none) where
  abbrev new : Incident
  new = added env now p o

  failed_Progress :
      has (key_of p) o.index ≡ false
      → (e : StorageError) → Progress env start (failed_opening env now p o e)
  failed_Progress miss e = record {
    fresh = Fresh-after env now p o q.fresh (stored_world env now p o) refl refl;
    agrees = λ h. absurd (cc h);
    kept = λ a m. kept-store_after env now p o q.fresh a (q.kept a m);
    unique = λ u. AtMostOne-store_after env now p o q.fresh miss (q.agrees going) (q.unique u);
    announced =
        Announced-more o.opened start.world.outbox o.world.outbox o.world.store
          (store_after env now p o) (kept-store_after env now p o q.fresh) q.announced;
    complete = λ h. absurd (cc h);
  }

  done_Announced :
      Announced
        (done_opening env now p o).opened
        start.world.outbox
        (done_opening env now p o).world.outbox
        (store_after env now p o)
  done_Announced = record {
    incidents = q.announced.incidents ++ new ∷ [];
    stored = λ inc m. elim (In-append q.announced.incidents (new ∷ []) inc m) [
      | inl old ↦
          let (there, is_pending) = q.announced.stored inc old in
          (kept-store_after env now p o q.fresh (inc.id, inc) there, is_pending)
      | inr (inl e) ↦ rw e (
        (In-insert new.id new (new.id, new) o.world.store.incidents
              (fresh_here env now p o q.fresh)).1
            (inl refl),
        refl,
      )
      | inr (inr never) ↦ absurd never
    ];
    returned = rw (map-append, q.announced.returned) refl;
    events =
        rw (map-append, q.announced.events)
          (append_assoc start.world.outbox (map announcement q.announced.incidents) _);
  }

  done_Progress : has (key_of p) o.index ≡ false → Progress env start (done_opening env now p o)
  unfolding done_Announced
  done_Progress miss = record {
    fresh = Fresh-after env now p o q.fresh (done_opening env now p o).world refl refl;
    agrees = λ h k.
        let insert_ = has-insert (key_of p) k new o.index in
        let before = q.agrees going k in
        let covered = Covered-store_after env now p o q.fresh k in
        (
          λ g. covered.1 (elim (Bool-cases (key_of p == k)) [
            | inl same ↦ inl ((eq_iff (key_of p) k).0 same)
            | inr other ↦ inr (before.0 (ground (arith, insert_, other, g)))
          ]),
          λ c. insert_ ∙ elim (covered.0 c) [
            | inl same ↦ ground (arith, (eq_iff (key_of p) k).1 same)
            | inr old ↦ ground (arith, before.1 old)
          ],
        );
    kept = λ a m. kept-store_after env now p o q.fresh a (q.kept a m);
    unique = λ u. AtMostOne-store_after env now p o q.fresh miss (q.agrees going) (q.unique u);
    announced = done_Announced;
    complete = λ h a m.
        elim ((In-insert new.id new a o.world.store.incidents (fresh_here env now p o q.fresh)).0
          m) [
            | inl e ↦ inr (
                In-append_right q.announced.incidents (new ∷ []) a.1
                  (inl (ap (λ (c : Text × Incident). c.1) e)))
            | inr old ↦ elim (q.complete going a old) [
              | inl first ↦ inl first
              | inr later ↦ inr (In-append_left q.announced.incidents (new ∷ []) a.1 later)
            ]
          ];
  }

  pub Progress-step : Progress env start (open_one env now p o)
  Progress-step =
      open_one_cases env now p o (Progress env start) (λ known. q) failed_Progress done_Progress
