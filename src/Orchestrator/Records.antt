-- ===== src/Orchestrator/Records.antt =====
-- Tick of engine/anomaly/orchestrator.go: every detector is run on every package that is due, and what it reports is saved.
use rampart.Base.{
  ℕ, ◌+◌, ◌≤◌, ◌≡◌, refl, sym, ap, ◌∙◌, ◌≢◌, inl, inr, false, Option, none, some, List, [], ◌∷◌,
  arith, Text, eq_false, Text-eq, ℕ-eq, In, length, ltb, All,
}
use rampart.Base.Assoc.{lookup, lookup-insert_self}
use rampart.Domain.Incident.{Time}
use rampart.Domain.Publisher.{Anomaly, PublisherSnapshot}
use rampart.Matcher.{Semver}
use rampart.Store.{Store, StorageError, ok, DedupKey, DedupKey-eq}
use rampart.Store.Anomalies.{save_anomaly, dedup_key}
use rampart.Store.Anomalies.Unique.{Table, save_anomaly_cases}
use rampart.Store.Publishers.{list_packages_needing_refresh, get_publisher_history}
use rampart.Api.{Env, World}
use rampart.Api.Matching.Open.{Fresh}
use rampart.Forward.Calm.{Calm}
use rampart.Orchestrator.{
  Detector, Orchestrator, Ticking, polled, history_for, evaluate_package, evaluate_each,
  detect_each, after_detect, raise_each, raise_one, saved_world, tick_listed, tick, hour,
}
use rampart.Orchestrator.Steps.{
  Advances, save-Advances, next_package, next_package-Advances, tick-Advances, after_save-Advances,
  raise_one-Advances, raise_each-Advances, after_detect-Advances, detect_each-Advances,
  evaluate_each-Advances,
}

-- The index of the anomalies has this key.
abbrev Indexed : Store → DedupKey → Type 0
Indexed s k = (id : ℕ) × (lookup k s.anomaly_dedup ≡ some id)

-- An anomaly with this kind, package and time is stored.
abbrev pub Recorded : Store → DedupKey → Type 0
Recorded s k = (id : ℕ) × (a : Anomaly) × (lookup id s.anomalies ≡ some a) × (dedup_key a ≡ k)

abbrev pub key_at : Time → Anomaly → DedupKey
key_at time a = dedup_key (record a { detected_at = time })

-- All that a detector has returned is in the index, or stored, with its time that of the tick; an
-- error returns nothing.
abbrev pub AllIndexed : Store → Time → Option (List Anomaly) → Type 0
AllIndexed s time none = Unit
AllIndexed s time (some anomalies) = (a : Anomaly) → In a anomalies → Indexed s (key_at time a)

abbrev pub AllRecorded : Store → Time → Option (List Anomaly) → Type 0
AllRecorded s time none = Unit
AllRecorded s time (some anomalies) = All (λ a. Recorded s (key_at time a)) anomalies

AllIndexed-AllRecorded :
    (s : Store) (time : Time) (r : Option (List Anomaly))
    → Table s
    → AllIndexed s time r
    → AllRecorded s time r
AllIndexed-AllRecorded s time none table h = tt
AllIndexed-AllRecorded s time (some anomalies) table h = each anomalies (λ a m.
    let (id, hit) = h a m in
    let (b, stored, same) = table.indexed (key_at time a) id hit in (id, b, stored, same))
  where
    each :
        (xs : List Anomaly)
        → ((a : Anomaly) → In a xs → Recorded s (key_at time a))
        → All (λ a. Recorded s (key_at time a)) xs
    each [] h = tt
    each (x ∷ xs) h = (h x (inl refl), each xs (λ a m. h a (inr m)))

AllIndexed-Advances :
    {env : Env} {v w : World} (time : Time) (r : Option (List Anomaly))
    → Advances env v w
    → AllIndexed v.store time r
    → AllIndexed w.store time r
AllIndexed-Advances time none q h = tt
AllIndexed-Advances time (some anomalies) q h =
    λ a m. let (id, hit) = h a m in (id, q.index (key_at time a) id hit)

save_anomaly-Indexed :
    (s : Store) (e : Option StorageError) (now time : Time) (a : Anomaly)
    → time ≢ 0
    → Indexed (save_anomaly s e now (record a { detected_at = time })).0 (key_at time a)
save_anomaly-Indexed s e now time a nonzero =
    save_anomaly_cases (λ r. Indexed r.0 (key_at time a)) s e now (record a { detected_at = time })
      (λ id hit. (id, rw (eq_false time 0 nonzero) at hit))
      (λ miss. (
        s.next_anomaly_id + 1,
        rw (eq_false time 0 nonzero)
            (lookup-insert_self (key_at time a) (s.next_anomaly_id + 1) s.anomaly_dedup),
      ))

Indexed-Advances :
    {env : Env} {v w : World} (k : DedupKey)
    → Advances env v w
    → Indexed v.store k
    → Indexed w.store k
Indexed-Advances k q (id, h) = (id, q.index k id h)

module _ (semver : Semver) (env : Env) (id_at : Time → Text) (o : Orchestrator) (time : Time)
    (nonzero : time ≢ 0) where
  raise_one-Indexed :
      (ref : Text) (a : Anomaly) (t : Ticking)
      → Fresh env t.world
      → Indexed (raise_one semver env id_at o time ref a t).world.store (key_at time a)
  unfolding raise_one
  raise_one-Indexed ref a t fresh =
      let a' = record a { detected_at = time } in
      let s = save_anomaly t.world.store (env.ctx_err t.world.polls) (env.now t.world.clock) a' in
      let saved = saved_world semver env id_at o s.0 time t.world in
      let q =
        save-Advances env t.world (env.ctx_err t.world.polls) (env.now t.world.clock) a' saved refl
          refl in
      Indexed-Advances (key_at time a)
        (after_save-Advances semver env id_at o time ref a' s.1 (record t { world = saved })
          (q.fresh fresh))
        (save_anomaly-Indexed t.world.store (env.ctx_err t.world.polls) (env.now t.world.clock) time
          a nonzero)

  raise_each-Indexed :
      (ref : Text) (anomalies : List Anomaly) (t : Ticking) (a : Anomaly)
      → Fresh env t.world
      → In a anomalies
      → Indexed (raise_each semver env id_at o time ref anomalies t).world.store (key_at time a)
  unfolding raise_each
  raise_each-Indexed ref [] t a fresh m = absurd m
  raise_each-Indexed ref (b ∷ more) t a fresh m =
      let t' = raise_one semver env id_at o time ref b t in
      let fresh' = (raise_one-Advances semver env id_at o time ref b t fresh).fresh fresh in
      elim m [
        | inl e ↦
            Indexed-Advances (key_at time a)
              (raise_each-Advances semver env id_at o time ref more t' fresh')
              (rw e (raise_one-Indexed ref b t fresh))
        | inr later ↦ raise_each-Indexed ref more t' a fresh' later
      ]

  after_detect-AllIndexed :
      (ref : Text) (r : Option (List Anomaly)) (t : Ticking)
      → Fresh env t.world
      → AllIndexed (after_detect semver env id_at o time ref r t).world.store time r
  unfolding after_detect
  after_detect-AllIndexed ref none t fresh = tt
  after_detect-AllIndexed ref (some anomalies) t fresh =
      λ a m. raise_each-Indexed ref anomalies t a fresh m

  -- The detector was run on the history at some reading of the clock, and all that it returned is in
  -- the index.
  abbrev Ran : Detector → Text → List PublisherSnapshot → Store → Type 0
  Ran d ref history s = (n : ℕ) × AllIndexed s time (d.detect ref history n).0

  Ran-Advances :
      {v w : World} (d : Detector) (ref : Text) (history : List PublisherSnapshot)
      → Advances env v w
      → Ran d ref history v.store
      → Ran d ref history w.store
  Ran-Advances d ref history q (n, h) = (n, AllIndexed-Advances time (d.detect ref history n).0 q h)

  detect_each-Ran :
      (ref : Text) (history : List PublisherSnapshot) (ds : List Detector) (t : Ticking)
      (d : Detector)
      → Fresh env t.world
      → In d ds
      → Ran d ref history (detect_each semver env id_at o time ref history ds t).world.store
  unfolding detect_each
  detect_each-Ran ref history [] t d fresh m = absurd m
  detect_each-Ran ref history (b ∷ ds) t d fresh m =
      let (r, clock) = b.detect ref history t.world.clock in
      let t' = record t { world = record t.world { clock = clock } } in
      let t'' = after_detect semver env id_at o time ref r t' in
      let fresh' : Fresh env t'.world = record {
        unused = fresh.unused;
        injective = fresh.injective;
      } in
      let fresh'' = (after_detect-Advances semver env id_at o time ref r t' fresh').fresh fresh' in
      elim m [
        | inl e ↦
            Ran-Advances d ref history
              (detect_each-Advances semver env id_at o time ref history ds t'' fresh'')
              (rw e (t.world.clock, after_detect-AllIndexed ref r t' fresh'))
        | inr later ↦ detect_each-Ran ref history ds t'' d fresh'' later
      ]

  history-Advances :
      {v w : World} (e : Option StorageError) (ref : Text) (n : ℕ)
      → Advances env v w
      → get_publisher_history w.store e ref n ≡ get_publisher_history v.store e ref n
  unfolding get_publisher_history
  history-Advances e ref n q = rw q.rest refl

  module _ (calm : Calm env) where
    next_package-Ran :
        (ref : Text) (history : List PublisherSnapshot) (t : Ticking) (d : Detector)
        → Fresh env t.world
        → get_publisher_history t.world.store none ref o.history_depth ≡ ok history
        → 2 ≤ length history
        → In d o.detectors
        → Ran d ref history (next_package semver env id_at o time ref t).world.store
    unfolding evaluate_package history_for
    next_package-Ran ref history t d fresh found long m =
        let t' = polled semver env id_at o 2 t in
        let enough : ltb (length history) 2 ≡ false = ground (arith, long) in
        rw (calm (t.world.polls + 1), found, evaluate_package, enough)
          (detect_each-Ran ref history o.detectors t' d
            (record { unused = fresh.unused; injective = fresh.injective }) m)

    evaluate_each-Ran :
        (refs : List Text) (ref : Text) (history : List PublisherSnapshot) (t : Ticking)
        (d : Detector)
        → Fresh env t.world
        → In ref refs
        → get_publisher_history t.world.store none ref o.history_depth ≡ ok history
        → 2 ≤ length history
        → In d o.detectors
        → Ran d ref history (evaluate_each semver env id_at o time refs t).1.world.store
    unfolding evaluate_each
    evaluate_each-Ran [] ref history t d fresh m found long md = absurd m
    evaluate_each-Ran (r ∷ refs) ref history t d fresh m found long md =
        let t' = next_package semver env id_at o time r t in
        let q = next_package-Advances semver env id_at o time r t fresh in
        rw (evaluate_each, calm t.world.polls)
          (elim m [
            | inl e ↦
                Ran-Advances d ref history
                  (evaluate_each-Advances semver env id_at o time refs t' (q.fresh fresh))
                  (rw (sym e) (next_package-Ran ref history t d fresh found long md))
            | inr later ↦
                evaluate_each-Ran refs ref history t' d (q.fresh fresh) later
                  (history-Advances none ref o.history_depth q ∙ found) long md
          ])

module _ (semver : Semver) (env : Env) (id_at : Time → Text) (o : Orchestrator) (time : Time)
    (calm : Calm env) where
  evaluate_each-calm :
      (refs : List Text) (t : Ticking) → (evaluate_each semver env id_at o time refs t).0 ≡ none
  unfolding evaluate_each
  evaluate_each-calm [] t = refl
  evaluate_each-calm (r ∷ refs) t =
      rw (evaluate_each, calm t.world.polls)
        (evaluate_each-calm refs (next_package semver env id_at o time r t))

-- A tick that is not cancelled ends without an error, and runs every detector on every package that is
-- listed and has at least two snapshots, whatever the other detectors do, report or fail with, and
-- whatever becomes of their anomalies: there is a reading of the clock such that every anomaly that the
-- detector returns at that reading, with that history, is stored under its kind, its package and the
-- time of the tick. The time is not zero, ULIDs do not repeat, and the table of anomalies and its index
-- were in step.
pub tick-Recorded :
    (semver : Semver) (env : Env) (id_at : Time → Text) (o : Orchestrator) (w : World)
    (refs : List Text) (ref : Text) (history : List PublisherSnapshot) (d : Detector)
    → Calm env
    → Fresh env w
    → Table w.store
    → env.now w.clock ≢ 0
    → list_packages_needing_refresh w.store none (env.now w.clock + hour) o.batch_size ≡ ok refs
    → In ref refs
    → get_publisher_history w.store none ref o.history_depth ≡ ok history
    → 2 ≤ length history
    → In d o.detectors
    → ((tick semver env id_at o w).0 ≡ none)
      × (n : ℕ) × AllRecorded
          (tick semver env id_at o w).1.world.store
          (env.now w.clock)
          (d.detect ref history n).0
unfolding tick tick_listed
tick-Recorded semver env id_at o w refs ref history d calm fresh table nonzero listed m found long
      md =
    let time = env.now w.clock in
    let t : Ticking = record {
      world = record w { clock = w.clock + 1; polls = w.polls + 1 };
      raised = 0;
      skipped = 0;
      failed = 0;
    } in
    let ends : tick semver env id_at o w ≡ evaluate_each semver env id_at o time refs t =
      rw (calm w.polls, listed, tick_listed) refl in
    let fine : (tick semver env id_at o w).0 ≡ none =
      ap (λ r. r.0) ends ∙ evaluate_each-calm semver env id_at o time calm refs t in
    let (n, h) : Ran semver env id_at o time nonzero d ref history
        (tick semver env id_at o w).1.world.store =
      rw ends (
        evaluate_each-Ran semver env id_at o time nonzero calm refs ref history t d
          (record { unused = fresh.unused; injective = fresh.injective }) m found long md) in
    (
      fine,
      n,
      AllIndexed-AllRecorded (tick semver env id_at o w).1.world.store time
          (d.detect ref history n).0 ((tick-Advances semver env id_at o w fresh).table table) h,
    )
