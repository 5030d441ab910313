-- ===== src/Publisher/Scheduler.antt =====
-- engine/publisher/scheduler.go: the snapshots of the packages that are due are fetched and saved. An
-- Ingestor talks to the network: what it returns depends on how many calls were made. What is logged is
-- left out, but for the counts.
pub mod Fates
pub mod Laws
use rampart.Base.{
  ℕ, zero, suc, ◌+◌, ◌-◌, ◌*◌, ◌≤◌, ◌<◌, ◌≡◌, refl, sym, ap, ◌∙◌, ◌≢◌, ◌↔◌, ◌⊎◌, inl, inr, Bool,
  true, false, not, ◌&&◌, ◌||◌, Option, none, some, List, [], ◌∷◌, ◌++◌, map, arith, Text, bytes,
  String, Eq, ◌==◌, eq_iff, eq_refl, eq_false, ne_of_eq_false, Text-eq, ℕ-eq, contains,
  contains_iff, keep_if, In, All, length, take, if◌then◌else◌, ltb, leb, Bool-cases, Option-cases,
}
use rampart.Base.Int.{ℤ, pos, negsuc}
use rampart.Base.Assoc.{Assoc}
use rampart.Base.Strings.{has_prefix}
use rampart.Domain.Incident.{Time}
use rampart.Domain.Publisher.{PublisherSnapshot}
use rampart.Store.{Store, StorageError, Result, ok, err}
use rampart.Store.Publishers.{list_packages_needing_refresh, save_publisher_snapshot}
use rampart.Api.{Env, World}
use rampart.Publisher.Httpx.{or_default}

-- What Ingest returns: a snapshot, one of the sentinel errors of httpx, or another error.
pub data Ingestion : Type 0 where
  fetched : PublisherSnapshot → Ingestion
  not_found rate_limited server_failure other_error : Ingestion

abbrev pub Ingestor : Type 0
Ingestor = ℕ → Text → Ingestion

-- SchedulerConfig, less the logger.
pub record SchedulerConfig : Type 0 where
  pub storage : Bool
  pub ingestors : Assoc Text Ingestor
  pub refresh_interval : ℤ
  pub batch_size : ℤ

pub record Scheduler : Type 0 where
  pub ingestors : Assoc Text Ingestor
  pub refresh_interval : ℕ
  pub batch_size : ℕ

pub data ConfigError : Type 0 where
  storage_required ingestor_required : ConfigError
  bad_prefix : Text → ConfigError

-- `strings.HasSuffix(prefix, ":")`
unfoldable pub ends_with_colon : Text → Bool
ends_with_colon [] = false
ends_with_colon (c ∷ []) = c == b':'
ends_with_colon (c ∷ d ∷ s) = ends_with_colon (d ∷ s)

-- The loop over the keys: the first that does not end with a colon.
unfoldable pub first_bad_prefix : Assoc Text Ingestor → Option Text
first_bad_prefix [] = none
first_bad_prefix ((prefix, ing) ∷ m) =
    let rest = first_bad_prefix m in if not (ends_with_colon prefix) then some prefix else rest

abbrev checked_prefixes : SchedulerConfig → Option Text → ConfigError ⊎ Scheduler
checked_prefixes cfg (some prefix) = inl (bad_prefix prefix)
checked_prefixes cfg none = inr (record {
  ingestors = cfg.ingestors;
  refresh_interval = or_default 3600000000000 cfg.refresh_interval;
  batch_size = or_default 50 cfg.batch_size;
})

-- NewScheduler
unfoldable pub new_scheduler : SchedulerConfig → ConfigError ⊎ Scheduler
new_scheduler cfg =
    if not cfg.storage
    then inl storage_required
    else if length cfg.ingestors == 0
    then inl ingestor_required
    else checked_prefixes cfg (first_bad_prefix cfg.ingestors)

-- dispatch. The order in which Go ranges over the map is that of the list.
unfoldable pub dispatch : Assoc Text Ingestor → Text → Option Ingestor
dispatch [] package_ref = none
dispatch ((prefix, ing) ∷ m) package_ref =
    let rest = dispatch m package_ref in if has_prefix package_ref prefix then some ing else rest

-- The variables of Tick, with the state of the engine and the number of calls of Ingest.
pub record Refreshing : Type 0 where
  pub world : World
  pub calls : ℕ
  pub refreshed : ℕ
  pub missing : ℕ
  pub throttled : ℕ
  pub failed : ℕ

pub data TickError : Type 0 where
  list_failed cancelled : StorageError → TickError

module _ (env : Env) where
  -- What follows SavePublisherSnapshot.
  unfoldable pub after_save : Option StorageError → Refreshing → Refreshing
  after_save (some e) r = record r { failed = r.failed + 1 }
  after_save none r = record r { refreshed = r.refreshed + 1 }

  -- The statements after Ingest. The storage reads the clock if the snapshot has no time.
  unfoldable pub after_ingest : Ingestion → Refreshing → Refreshing
  after_ingest not_found r = record r { missing = r.missing + 1 }
  after_ingest rate_limited r = record r { throttled = r.throttled + 1 }
  after_ingest server_failure r = record r { failed = r.failed + 1 }
  after_ingest other_error r = record r { failed = r.failed + 1 }
  after_ingest (fetched snap) r =
      let w = r.world in
      let (store, e) =
        save_publisher_snapshot w.store (env.ctx_err w.polls) (env.now w.clock) snap in
      after_save e (record r {
        world = record w {
          store = store;
          polls = w.polls + 1;
          clock = if snap.snapshot_at == 0 then w.clock + 1 else w.clock;
        };
      })

  -- The statements after dispatch.
  unfoldable pub refresh : Text → Option Ingestor → Refreshing → Refreshing
  refresh ref none r = record r { failed = r.failed + 1 }
  refresh ref (some ing) r = after_ingest (ing r.calls ref) (record r { calls = r.calls + 1 })

  -- `if err := ctx.Err(); err != nil { return err }`
  abbrev pub unless_cancelled :
      Option StorageError
      → Refreshing
      → Option TickError × Refreshing
      → Option TickError × Refreshing
  unless_cancelled none stopped rest = rest
  unless_cancelled (some e) stopped rest = (some (cancelled e), stopped)

  abbrev pub polled : Refreshing → Refreshing
  polled r = record r { world = record r.world { polls = r.world.polls + 1 } }

  -- The loop over the packages.
  unfoldable pub refresh_each :
      Assoc Text Ingestor → List Text → Refreshing → Option TickError × Refreshing
  refresh_each ings [] r = (none, r)
  refresh_each ings (ref ∷ refs) r =
      let rest = refresh_each ings refs (refresh ref (dispatch ings ref) (polled r)) in
      unless_cancelled (env.ctx_err r.world.polls) (polled r) rest

  abbrev pub starting : World → ℕ → Refreshing
  starting w calls = record {
    world = w;
    calls = calls;
    refreshed = 0;
    missing = 0;
    throttled = 0;
    failed = 0;
  }

  unfoldable pub tick_listed :
      Scheduler → Result (List Text) → World → ℕ → Option TickError × Refreshing
  tick_listed s (err e) w calls = (some (list_failed e), starting w calls)
  tick_listed s (ok refs) w calls = refresh_each s.ingestors refs (starting w calls)

  -- Tick. A time before Go's zero time is that time here: nothing is older than either.
  unfoldable pub tick : Scheduler → World → ℕ → Option TickError × Refreshing
  tick s w calls =
      tick_listed s
        (list_packages_needing_refresh w.store (env.ctx_err w.polls)
          (env.now w.clock - s.refresh_interval) s.batch_size)
        (record w { clock = w.clock + 1; polls = w.polls + 1 }) calls
