-- ===== src/Orchestrator.antt =====
-- engine/anomaly/orchestrator.go: the detectors run over the packages, their anomalies are saved, and
-- each becomes an IoC that is submitted. What is logged is left out, but for the counts.
pub mod Steps
pub mod Tick
pub mod Records
use rampart.Base.{
  ℕ, zero, suc, ◌+◌, ◌-◌, ◌*◌, ◌≤◌, ◌<◌, ◌≡◌, refl, sym, ap, ◌∙◌, ◌≢◌, ◌↔◌, ◌⊎◌, inl, inr, Bool,
  true, false, not, ◌&&◌, ◌||◌, Option, none, some, List, [], ◌∷◌, ◌++◌, map, arith, Text, bytes,
  String, Eq, ◌==◌, eq_iff, eq_refl, eq_false, ne_of_eq_false, Text-eq, ℕ-eq, contains,
  contains_iff, keep_if, In, All, length, take, if◌then◌else◌, ltb, leb, Bool-cases, Option-cases,
}
use rampart.Base.Int.{ℤ, pos, negsuc}
use rampart.Domain.Incident.{Time}
use rampart.Domain.Publisher.{Anomaly, AnomalyKind, PublisherSnapshot}
use rampart.Matcher.{Semver}
use rampart.Store.{Store, StorageError, Result, ok, err}
use rampart.Store.Anomalies.{save_anomaly}
use rampart.Store.Publishers.{get_publisher_history, list_packages_needing_refresh}
use rampart.Api.{Env, World}
use rampart.Anomaly.Bridge.{emitted_ioc}
use rampart.Forward.{submit}

-- The interface Detector. Detect may read a clock that was injected into the detector: it takes and
-- returns the number of readings. `none` is an error, whose text is only logged.
pub record Detector : Type 0 where
  pub kind : AnomalyKind
  pub detect : Text → List PublisherSnapshot → ℕ → Option (List Anomaly) × ℕ

-- OrchestratorConfig, less the logger. A duration is in nanoseconds.
pub record OrchestratorConfig : Type 0 where
  pub storage : Bool
  pub event_bus : Bool
  pub detectors : List Detector
  pub tick_interval : ℤ
  pub batch_size : ℤ
  pub history_depth : ℤ

pub record Orchestrator : Type 0 where
  pub bus : Bool
  pub detectors : List Detector
  pub tick_interval : ℕ
  pub batch_size : ℕ
  pub history_depth : ℕ

pub data ConfigError : Type 0 where
  storage_required detector_required : ConfigError

-- `if v <= 0 { v = d }`
abbrev pub or_default : ℕ → ℤ → ℕ
or_default d (pos zero) = d
or_default d (pos (suc n)) = suc n
or_default d (negsuc n) = d

-- time.Hour
abbrev pub hour : ℕ
hour = 3600000000000

-- NewOrchestrator
unfoldable pub new_orchestrator : OrchestratorConfig → ConfigError ⊎ Orchestrator
new_orchestrator cfg =
    if not cfg.storage
    then inl storage_required
    else if length cfg.detectors == 0
    then inl detector_required
    else inr (record {
      bus = cfg.event_bus;
      detectors = cfg.detectors;
      tick_interval = or_default hour cfg.tick_interval;
      batch_size = or_default 200 cfg.batch_size;
      history_depth = or_default 50 cfg.history_depth;
    })

-- The variables of Tick, with the state of the engine.
pub record Ticking : Type 0 where
  pub world : World
  pub raised : ℕ
  pub skipped : ℕ
  pub failed : ℕ

-- The two errors that Tick returns.
pub data TickError : Type 0 where
  list_failed cancelled : StorageError → TickError

-- What Run waits for: the end of its context, or the ticker.
pub data Wake : Type 0 where
  done : StorageError → Wake
  ticked : Wake

-- `if err := ctx.Err(); err != nil { return err }`
abbrev pub unless_cancelled :
    Option StorageError → Ticking → Option TickError × Ticking → Option TickError × Ticking
unless_cancelled none stopped rest = rest
unless_cancelled (some e) stopped rest = (some (cancelled e), stopped)

module _ (semver : Semver) (env : Env) (id_at : Time → Text) (o : Orchestrator) where
  -- emitIoC; its error is only logged.
  abbrev pub emit_ioc : Anomaly → Text → Time → World → World
  emit_ioc a package_ref tick w =
      (submit semver o.bus env (emitted_ioc id_at a package_ref tick) w).world

  -- What follows SaveAnomaly.
  unfoldable pub after_save : Time → Text → Anomaly → Result ℕ → Ticking → Ticking
  after_save tick ref a (err e) t = record t { failed = t.failed + 1 }
  after_save tick ref a (ok id) t = record t {
    raised = t.raised + 1;
    world = emit_ioc a ref tick t.world;
  }

  -- The state after SaveAnomaly, which reads the clock if the anomaly has no time.
  abbrev pub saved_world : Store → Time → World → World
  saved_world store tick w = record w {
    store = store;
    polls = w.polls + 1;
    clock = if tick == 0 then w.clock + 1 else w.clock;
  }

  -- The body of the loop over the anomalies.
  unfoldable pub raise_one : Time → Text → Anomaly → Ticking → Ticking
  raise_one tick ref a t =
      let a' = record a { detected_at = tick } in
      let (store, r) =
        save_anomaly t.world.store (env.ctx_err t.world.polls) (env.now t.world.clock) a' in
      after_save tick ref a' r (record t { world = saved_world store tick t.world })

  unfoldable pub raise_each : Time → Text → List Anomaly → Ticking → Ticking
  raise_each tick ref [] t = t
  raise_each tick ref (a ∷ more) t = raise_each tick ref more (raise_one tick ref a t)

  -- The body of the loop over the detectors, by what Detect returns.
  unfoldable pub after_detect : Time → Text → Option (List Anomaly) → Ticking → Ticking
  after_detect tick ref none t = record t { failed = t.failed + 1 }
  after_detect tick ref (some anomalies) t = raise_each tick ref anomalies t

  unfoldable pub detect_each :
      Time → Text → List PublisherSnapshot → List Detector → Ticking → Ticking
  detect_each tick ref history [] t = t
  detect_each tick ref history (d ∷ ds) t =
      let (r, clock) = d.detect ref history t.world.clock in
      detect_each tick ref history ds
        (after_detect tick ref r (record t { world = record t.world { clock = clock } }))

  -- The body of the loop over the packages, by what GetPublisherHistory returns.
  unfoldable pub evaluate_package :
      Time → Text → Result (List PublisherSnapshot) → Ticking → Ticking
  evaluate_package tick ref (err e) t = record t { failed = t.failed + 1 }
  evaluate_package tick ref (ok history) t =
      if ltb (length history) 2
      then record t { skipped = t.skipped + 1 }
      else detect_each tick ref history o.detectors t

  -- `n` more calls that look at the context have been made.
  abbrev pub polled : ℕ → Ticking → Ticking
  polled n t = record t { world = record t.world { polls = t.world.polls + n } }

  unfoldable pub history_for : Text → Ticking → Result (List PublisherSnapshot)
  history_for ref t =
      get_publisher_history t.world.store (env.ctx_err (t.world.polls + 1)) ref o.history_depth

  -- The loop over the packages, by what ctx.Err() returns.
  unfoldable pub evaluate_each : Time → List Text → Ticking → Option TickError × Ticking
  evaluate_each tick [] t = (none, t)
  evaluate_each tick (ref ∷ refs) t =
      let rest =
        evaluate_each tick refs (evaluate_package tick ref (history_for ref t) (polled 2 t)) in
      unless_cancelled (env.ctx_err t.world.polls) (polled 1 t) rest

  unfoldable pub tick_listed : Time → Result (List Text) → World → Option TickError × Ticking
  tick_listed tick (err e) w =
      (some (list_failed e), record { world = w; raised = 0; skipped = 0; failed = 0 })
  tick_listed tick (ok refs) w =
      evaluate_each tick refs (record { world = w; raised = 0; skipped = 0; failed = 0 })

  -- Tick
  unfoldable pub tick : World → Option TickError × Ticking
  tick w =
      let tick_time = env.now w.clock in
      tick_listed tick_time
        (list_packages_needing_refresh w.store (env.ctx_err w.polls) (tick_time + hour)
          o.batch_size)
        (record w { clock = w.clock + 1; polls = w.polls + 1 })

  -- The loop of Run, over what its select receives; an error of Tick is only logged.
  unfoldable pub run_loop : List Wake → World → Option StorageError × World
  run_loop [] w = (none, w)
  run_loop (done e ∷ wakes) w = (some e, w)
  run_loop (ticked ∷ wakes) w = run_loop wakes (tick w).1.world

  -- Run, which ticks once before it waits. `none` says that it still runs.
  unfoldable pub run : List Wake → World → Option StorageError × World
  run wakes w = run_loop wakes (tick w).1.world
