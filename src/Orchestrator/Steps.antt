-- ===== src/Orchestrator/Steps.antt =====
-- What the steps of Tick in engine/anomaly/orchestrator.go keep, however each of them ends.
use rampart.Base.{
  ℕ, ◌+◌, ◌≡◌, refl, ap, ◌∙◌, inl, inr, Option, none, some, List, [], ◌∷◌, arith, Text, ◌==◌,
  eq_iff, Text-eq, ℕ-eq, In, length, ltb, Bool-cases, Option-cases,
}
use rampart.Base.Assoc.{lookup, lookup-insert}
use rampart.Domain.Incident.{Time, Incident}
use rampart.Domain.Publisher.{Anomaly, PublisherSnapshot}
use rampart.Matcher.{Semver}
use rampart.Store.{Store, StorageError, Result, ok, err, DedupKey, DedupKey-eq}
use rampart.Store.Anomalies.{save_anomaly, dedup_key, dated}
use rampart.Store.Anomalies.Unique.{Table, save_anomaly-Table, save_anomaly_cases}
use rampart.Store.Publishers.{list_packages_needing_refresh}
use rampart.Api.{Env, World}
use rampart.Api.Matching.Open.{Fresh}
use rampart.Api.Matching.Unique.{AtMostOne}
use rampart.Anomaly.Bridge.{emitted_ioc}
use rampart.Forward.Submit.{submit-Safe}
use rampart.Orchestrator.{
  hour, Detector, Orchestrator, Ticking, emit_ioc, after_save, saved_world, raise_one, raise_each,
  after_detect, detect_each, evaluate_package, polled, history_for, evaluate_each, tick_listed,
  tick,
}

-- What holds between the state before and after any part of a tick.
pub record Advances (env : Env) (v w : World) : Type 0 where
  pub table : Table v.store → Table w.store
  -- Anomalies are never lost or changed, and their index neither.
  pub anomalies :
      Table v.store
      → (id : ℕ) (a : Anomaly) → lookup id v.store.anomalies ≡ some a
      → lookup id w.store.anomalies ≡ some a
  pub index :
      (k : DedupKey) (id : ℕ)
      → lookup k v.store.anomaly_dedup ≡ some id
      → lookup k w.store.anomaly_dedup ≡ some id
  pub fresh : Fresh env v → Fresh env w
  pub kept : Fresh env v → (a : Text × Incident) → In a v.store.incidents → In a w.store.incidents
  pub unique : Fresh env v → AtMostOne v.store → AtMostOne w.store
  -- Nothing else changes but the IoCs.
  pub rest : w.store ≡ record v.store {
    iocs = w.store.iocs;
    incidents = w.store.incidents;
    anomalies = w.store.anomalies;
    anomaly_dedup = w.store.anomaly_dedup;
    next_anomaly_id = w.store.next_anomaly_id;
  }

module _ (env : Env) where
  -- A step that leaves the store and the ULIDs alone.
  pub still : (v w : World) → w.store ≡ v.store → w.minted ≡ v.minted → Advances env v w
  still v w same minted = record {
    table = λ t. rw same t;
    anomalies = λ t id a h. rw same h;
    index = λ k id h. rw same h;
    fresh = λ f. record { unused = rw (same, minted) f.unused; injective = f.injective };
    kept = λ f a m. rw same m;
    unique = λ f one. rw same one;
    rest = rw same refl;
  }

  pub trans : (u v w : World) → Advances env u v → Advances env v w → Advances env u w
  trans u v w p q = record {
    table = λ t. q.table (p.table t);
    anomalies = λ t id a h. q.anomalies (p.table t) id a (p.anomalies t id a h);
    index = λ k id h. q.index k id (p.index k id h);
    fresh = λ f. q.fresh (p.fresh f);
    kept = λ f a m. q.kept (p.fresh f) a (p.kept f a m);
    unique = λ f one. q.unique (p.fresh f) (p.unique f one);
    rest =
        q.rest
        ∙ ap
            (λ (s : Store). record s {
              iocs = w.store.iocs;
              incidents = w.store.incidents;
              anomalies = w.store.anomalies;
              anomaly_dedup = w.store.anomaly_dedup;
              next_anomaly_id = w.store.next_anomaly_id;
            })
            p.rest;
  }

  -- Saving an anomaly, with the counters of calls moved on.
  pub save-Advances :
      (v : World) (e : Option StorageError) (now : Time) (a : Anomaly) (w : World)
      → w.store ≡ (save_anomaly v.store e now a).0
      → w.minted ≡ v.minted
      → Advances env v w
  save-Advances v e now a w es em =
      save_anomaly_cases (λ r. w.store ≡ r.0 → Advances env v w) v.store e now a
        (λ id hit es'. still v w es' em)
        (λ miss es'. record {
          table = λ t. rw es (save_anomaly-Table v.store e now a t);
          anomalies = λ t id b h. rw es' (
              rw
                (lookup-insert (v.store.next_anomaly_id + 1) id
                  (record (dated now a) { id = v.store.next_anomaly_id + 1 }) v.store.anomalies)
                (elim (Bool-cases (v.store.next_anomaly_id + 1 == id)) [
                  | inl clash ↦ absurd (
                      omega (
                        arith,
                        (t.given id b h).1,
                        (eq_iff (v.store.next_anomaly_id + 1) id).0 clash,
                      ))
                  | inr apart ↦ rw apart h
                ]));
          index = λ k id h. rw es' (
              rw
                (lookup-insert (dedup_key (dated now a)) k (v.store.next_anomaly_id + 1)
                  v.store.anomaly_dedup)
                (elim (Bool-cases (dedup_key (dated now a) == k)) [
                  | inl clash ↦ absurd (cc (miss, h, (eq_iff (dedup_key (dated now a)) k).0 clash))
                  | inr apart ↦ rw apart h
                ]));
          fresh = λ f. record { unused = rw (es', em) f.unused; injective = f.injective };
          kept = λ f b m. rw es' m;
          unique = λ f one. rw es' one;
          rest = rw es' refl;
        })
        es

  pub then_ :
      (u v w : World)
      → Fresh env u
      → Advances env u v
      → (Fresh env v → Advances env v w)
      → Advances env u w
  then_ u v w f p q = trans u v w p (q (p.fresh f))

module _ (semver : Semver) (env : Env) (id_at : Time → Text) (o : Orchestrator) where
  pub emit_ioc-Advances :
      (a : Anomaly) (ref : Text) (t : Time) (w : World)
      → Fresh env w
      → Advances env w (emit_ioc semver env id_at o a ref t w)
  emit_ioc-Advances a ref t w fresh =
      let q = submit-Safe semver o.bus env (emitted_ioc id_at a ref t) w fresh in
      record {
        table = λ tab. rw q.catalog (record { given = tab.given; indexed = tab.indexed });
        anomalies = λ tab id b h. rw q.catalog h;
        index = λ k id h. rw q.catalog h;
        fresh = λ _. q.fresh;
        kept = λ _. q.kept;
        unique = λ _. q.unique;
        rest = rw q.catalog refl;
      }

  pub after_save-Advances :
      (time : Time) (ref : Text) (a : Anomaly) (r : Result ℕ) (t : Ticking)
      → Fresh env t.world
      → Advances env t.world (after_save semver env id_at o time ref a r t).world
  unfolding after_save
  after_save-Advances time ref a (err e) t fresh = still env t.world t.world refl refl
  after_save-Advances time ref a (ok id) t fresh = emit_ioc-Advances a ref time t.world fresh

  pub raise_one-Advances :
      (time : Time) (ref : Text) (a : Anomaly) (t : Ticking)
      → Fresh env t.world
      → Advances env t.world (raise_one semver env id_at o time ref a t).world
  unfolding raise_one
  raise_one-Advances time ref a t fresh =
      let a' = record a { detected_at = time } in
      let s = save_anomaly t.world.store (env.ctx_err t.world.polls) (env.now t.world.clock) a' in
      let saved = saved_world semver env id_at o s.0 time t.world in
      then_ env t.world saved (raise_one semver env id_at o time ref a t).world fresh
        (save-Advances env t.world (env.ctx_err t.world.polls) (env.now t.world.clock) a' saved refl
          refl)
        (after_save-Advances time ref a' s.1 (record t { world = saved }))

  pub raise_each-Advances :
      (time : Time) (ref : Text) (anomalies : List Anomaly) (t : Ticking)
      → Fresh env t.world
      → Advances env t.world (raise_each semver env id_at o time ref anomalies t).world
  unfolding raise_each
  raise_each-Advances time ref [] t fresh = still env t.world t.world refl refl
  raise_each-Advances time ref (a ∷ more) t fresh =
      let t' = raise_one semver env id_at o time ref a t in
      then_ env t.world t'.world (raise_each semver env id_at o time ref more t').world fresh
        (raise_one-Advances time ref a t fresh) (raise_each-Advances time ref more t')

  pub after_detect-Advances :
      (time : Time) (ref : Text) (r : Option (List Anomaly)) (t : Ticking)
      → Fresh env t.world
      → Advances env t.world (after_detect semver env id_at o time ref r t).world
  unfolding after_detect
  after_detect-Advances time ref none t fresh = still env t.world t.world refl refl
  after_detect-Advances time ref (some anomalies) t fresh =
      raise_each-Advances time ref anomalies t fresh

  pub detect_each-Advances :
      (time : Time) (ref : Text) (history : List PublisherSnapshot) (ds : List Detector)
      (t : Ticking)
      → Fresh env t.world
      → Advances env t.world (detect_each semver env id_at o time ref history ds t).world
  unfolding detect_each
  detect_each-Advances time ref history [] t fresh = still env t.world t.world refl refl
  detect_each-Advances time ref history (d ∷ ds) t fresh =
      let (r, clock) = d.detect ref history t.world.clock in
      let t' = record t { world = record t.world { clock = clock } } in
      let t'' = after_detect semver env id_at o time ref r t' in
      then_ env t.world t'.world (detect_each semver env id_at o time ref history ds t'').world
        fresh (still env t.world t'.world refl refl)
        (λ f.
          then_ env t'.world t''.world
            (detect_each semver env id_at o time ref history ds t'').world f
            (after_detect-Advances time ref r t' f) (detect_each-Advances time ref history ds t''))

  pub evaluate_package-Advances :
      (time : Time) (ref : Text) (r : Result (List PublisherSnapshot)) (t : Ticking)
      → Fresh env t.world
      → Advances env t.world (evaluate_package semver env id_at o time ref r t).world
  unfolding evaluate_package
  evaluate_package-Advances time ref (err e) t fresh = still env t.world t.world refl refl
  evaluate_package-Advances time ref (ok history) t fresh =
      elim (Bool-cases (ltb (length history) 2)) [
        | inl short ↦ rw short (still env t.world t.world refl refl)
        | inr long ↦ rw long (detect_each-Advances time ref history o.detectors t fresh)
      ]

  -- One package: the two calls that look at the context, then its evaluation.
  abbrev pub next_package : Time → Text → Ticking → Ticking
  next_package time ref t =
      evaluate_package semver env id_at o time ref (history_for semver env id_at o ref t)
        (polled semver env id_at o 2 t)

  pub next_package-Advances :
      (time : Time) (ref : Text) (t : Ticking)
      → Fresh env t.world
      → Advances env t.world (next_package time ref t).world
  next_package-Advances time ref t fresh =
      let t' = polled semver env id_at o 2 t in
      then_ env t.world t'.world (next_package time ref t).world fresh
        (still env t.world t'.world refl refl)
        (evaluate_package-Advances time ref (history_for semver env id_at o ref t) t')

  pub evaluate_each-Advances :
      (time : Time) (refs : List Text) (t : Ticking)
      → Fresh env t.world
      → Advances env t.world (evaluate_each semver env id_at o time refs t).1.world
  unfolding evaluate_each
  evaluate_each-Advances time [] t fresh = still env t.world t.world refl refl
  evaluate_each-Advances time (ref ∷ refs) t fresh =
      elim (Option-cases (env.ctx_err t.world.polls)) [
        | inr (e, bad) ↦
            rw (evaluate_each, bad)
              (still env t.world (polled semver env id_at o 1 t).world refl refl)
        | inl fine ↦
            rw (evaluate_each, fine)
              (let t' = next_package time ref t in
                then_ env t.world t'.world (evaluate_each semver env id_at o time refs t').1.world
                  fresh (next_package-Advances time ref t fresh)
                  (evaluate_each-Advances time refs t'))
      ]

  tick_listed-Advances :
      (time : Time) (r : Result (List Text)) (w : World)
      → Fresh env w
      → Advances env w (tick_listed semver env id_at o time r w).1.world
  unfolding tick_listed
  tick_listed-Advances time (err e) w fresh = still env w w refl refl
  tick_listed-Advances time (ok refs) w fresh =
      evaluate_each-Advances time refs (record { world = w; raised = 0; skipped = 0; failed = 0 })
        fresh

  -- Whatever happens during a tick, a cancelled request or a detector's error included, and as long as
  -- ULIDs do not repeat: the table of anomalies and its index stay in step, and no anomaly or incident
  -- that was stored is lost or changed; at most one incident stays open for each IoC and component; and
  -- nothing but IoCs, incidents and anomalies changes in the store.
  pub tick-Advances : (w : World) → Fresh env w → Advances env w (tick semver env id_at o w).1.world
  unfolding tick
  tick-Advances w fresh =
      let w' : World = record w { clock = w.clock + 1; polls = w.polls + 1 } in
      let listed =
        list_packages_needing_refresh w.store (env.ctx_err w.polls) (env.now w.clock + hour)
          o.batch_size in
      then_ env w w' (tick semver env id_at o w).1.world fresh (still env w w' refl refl)
        (tick_listed-Advances (env.now w.clock) listed w')
