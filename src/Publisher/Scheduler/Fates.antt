-- ===== src/Publisher/Scheduler/Fates.antt =====
-- engine/publisher/scheduler.go: the fates of the packages that a tick deals with, from what the
-- ingestors and the context give, and the account of a tick by them.
use rampart.Base.{
  ℕ, ◌+◌, ◌≡◌, Option, none, some, List, [], ◌∷◌, ◌++◌, Text, ◌==◌, Text-eq, ℕ-eq, Bool,
  if◌then◌else◌, map, true, false,
}
use rampart.Base.Assoc.{Assoc, lookup}
use rampart.Domain.Publisher.{PublisherSnapshot}
use rampart.Store.{Store, StorageError}
use rampart.Store.Publishers.{or_empty}
use rampart.Api.{Env}
use rampart.Publisher.Scheduler.{
  Ingestion, fetched, not_found, rate_limited, server_failure, other_error, Ingestor, Refreshing,
  dispatch,
}

-- The history of a package, oldest first, which is empty for one that is not known.
abbrev pub history : Store → Text → List PublisherSnapshot
history s ref = or_empty (lookup ref s.publisher_history)

-- What becomes of a package: its snapshot is fetched and saved; it is fetched and written, but the
-- storage reports the end of the context; the registry does not know it, or throttles; another failure;
-- or no ingestor is there for it.
pub data Fate : Type 0 where
  saved unsure : PublisherSnapshot → Fate
  missing throttled failing unclaimed : Fate

abbrev pub is_saved : Fate → Bool
is_saved (saved snap) = true
is_saved _ = false

abbrev pub is_missing : Fate → Bool
is_missing missing = true
is_missing _ = false

abbrev pub is_throttled : Fate → Bool
is_throttled throttled = true
is_throttled _ = false

-- The fates that the scheduler counts as failed.
abbrev pub is_failed : Fate → Bool
is_failed (unsure snap) = true
is_failed failing = true
is_failed unclaimed = true
is_failed _ = false

abbrev pub one_if : Bool → ℕ
one_if true = 1
one_if false = 0

abbrev pub count : (Fate → Bool) → List Fate → ℕ
count p [] = 0
count p (f ∷ fs) = one_if (p f) + count p fs

abbrev pub if_for : Text → PublisherSnapshot → List PublisherSnapshot
if_for ref snap = if snap.package_ref == ref then snap ∷ [] else []

-- The snapshots of a package that were written, in order.
abbrev pub written_by : Text → Fate → List PublisherSnapshot
written_by ref (saved snap) = if_for ref snap
written_by ref (unsure snap) = if_for ref snap
written_by ref _ = []

abbrev pub all_written : Text → List Fate → List PublisherSnapshot
all_written ref [] = []
all_written ref (f ∷ fs) = written_by ref f ++ all_written ref fs

-- A snapshot without its number and time, which the storage may set.
abbrev pub bare : PublisherSnapshot → PublisherSnapshot
bare snap = record snap { id = 0; snapshot_at = 0 }

-- The calls of Ingest, and the looks at the context, that a fate comes with.
abbrev pub calls_of : Fate → ℕ
calls_of unclaimed = 0
calls_of _ = 1

abbrev pub polls_of : Fate → ℕ
polls_of (saved snap) = 2
polls_of (unsure snap) = 2
polls_of _ = 1

abbrev pub by_context : PublisherSnapshot → Option StorageError → Fate
by_context snap none = saved snap
by_context snap (some e) = unsure snap

module _ (env : Env) where
  abbrev pub by_outcome : ℕ → Ingestion → Fate
  by_outcome polls (fetched snap) = by_context snap (env.ctx_err (polls + 1))
  by_outcome polls not_found = missing
  by_outcome polls rate_limited = throttled
  by_outcome polls server_failure = failing
  by_outcome polls other_error = failing

  abbrev pub fate : Option Ingestor → Text → ℕ → ℕ → Fate
  fate none ref calls polls = unclaimed
  fate (some ing) ref calls polls = by_outcome polls (ing calls ref)

  -- The fates of packages that are refreshed in turn, from so many calls and looks at the context on.
  abbrev pub fates : Assoc Text Ingestor → List Text → ℕ → ℕ → List Fate
  fates ings [] calls polls = []
  fates ings (ref ∷ refs) calls polls =
      let f = fate (dispatch ings ref) ref calls polls in
      f ∷ fates ings refs (calls + calls_of f) (polls + polls_of f)

-- From one state of a tick to a later one, the fates in between account for everything: the four
-- counts, and for every package what was written at the end of its history. Nothing else in the store
-- changes.
pub record Accounts (fs : List Fate) (r t : Refreshing) : Type 0 where
  pub refreshed : t.refreshed ≡ r.refreshed + count is_saved fs
  pub missing : t.missing ≡ r.missing + count is_missing fs
  pub throttled : t.throttled ≡ r.throttled + count is_throttled fs
  pub failed : t.failed ≡ r.failed + count is_failed fs
  pub histories :
      (ref : Text)
      → (more : List PublisherSnapshot) × (history t.world.store ref
          ≡ history r.world.store ref ++ more)
        × (map bare more ≡ map bare (all_written ref fs))
  pub rest : t.world.store ≡ record r.world.store {
    publisher_history = t.world.store.publisher_history;
    next_snapshot_id = t.world.store.next_snapshot_id;
  }
