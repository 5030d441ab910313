-- ===== src/Cases/Flows.antt =====
-- The theorems on the forwarding of an IoC, on the orchestrator and on the publisher's ingestion, applied
-- to the data of Cases.
use rampart.Base.{
  ℕ, zero, suc, ◌+◌, ◌-◌, ◌≤◌, ◌≡◌, refl, ◌↔◌, inl, inr, true, false, none, some, List, [], ◌∷◌,
  map, arith, Text, bytes, Text-eq, ℕ-eq, In, length, if◌then◌else◌, ◌==◌, Option, ◌++◌, Bool,
}
use rampart.Base.{NoRepeat, list_eq}
use rampart.Base.Assoc.{values, lookup, Assoc}
use rampart.Base.Sort.{sort_by}
use rampart.Domain.Incident.{Time}
use rampart.Domain.Package.{Sbom}
use rampart.Domain.Publisher.{AnomalyKind, PublisherSnapshot, Anomaly}
use rampart.Store.{PublisherKey-eq, context_error, ok}
use rampart.Store.Anomalies.Unique.{Table}
use rampart.Store.Publishers.{
  list_packages_needing_refresh, get_publisher_history, candidates, latest_time, emit_refs,
}
use rampart.Api.{Env, World}
use rampart.Api.Matching.Open.{Fresh}
use rampart.Api.Lookup.{pair_for, forward_match}
use rampart.Forward.{submit, forward_scan, upsert_failed}
use rampart.Forward.Scan.{forward_scan-forward_match}
use rampart.Forward.Submit.{Forwarded, submit-Forwarded, Safe, submit-Safe}
use rampart.Orchestrator.{Detector, Orchestrator, tick, hour}
use rampart.Orchestrator.Steps.{Advances, tick-Advances}
use rampart.Orchestrator.Records.{tick-Recorded, AllRecorded}
use rampart.Publisher.Httpx.{Network, Fetched, transport, get, new_client}
use rampart.Publisher.Httpx.Retry.{retries_of, get-Ends, Retried, once, EndsAt}
use rampart.Publisher.Scheduler.{Scheduler, fetched, starting}
use rampart.Publisher.Scheduler.Fates.{fates, Accounts}
use rampart.Publisher.Scheduler.Laws.{Reached, tick-Accounts}
use rampart.Base.Assoc.{insert}
use rampart.Base.{list_eq}
use rampart.Base.Strings.{split, trim_space, has_prefix, is_space}
use rampart.Parsers.Lines.{
  scan, scan_lines, drop_last_empty, cut_suffix, cut_prefix, fields, words, before, split_once,
}
use rampart.Parsers.Gomod.{
  gosum_lines, entry_from, replace_lines, replace_line, parse_replace_directive, SumEntry, Key,
  ReplaceTarget, parse, parse_gosum, parse_gomod_replaces,
}
use rampart.Parsers.Gomod.Parsed.{chosen_hash, Shows, parse-Shows}
use rampart.Domain.Package.{PackageVersion, ParsedSbom}
use rampart.Anomaly.Oidc.{oidc, token}
use rampart.Anomaly.VersionJump
use rampart.Cases.{short_semver, web, axios_ioc, store, env, world}
use rampart.Cases.Engine.{world-Fresh, web-WellFormed, store-Table}

submit-Forwarded_example :
    Forwarded short_semver axios_ioc world (submit short_semver false env axios_ioc world)
submit-Forwarded_example =
    submit-Forwarded short_semver false env axios_ioc world (λ n. refl) world-Fresh

-- The request is done after the first look at its context.
abbrev done_env : Env
done_env = record env {
  ctx_err = λ n. elim n [ zero ↦ none | suc m ↦ some (context_error (bytes "canceled")) ];
}

done-Fresh : Fresh done_env world
done-Fresh = record { unused = world-Fresh.unused; injective = world-Fresh.injective }

submit-Safe_example : Safe done_env world (submit short_semver true done_env axios_ioc world)
submit-Safe_example = submit-Safe short_semver true done_env axios_ioc world done-Fresh

web-owned :
    (b : Sbom) → In b (values store.sboms) → rampart.Forward.Scan.Registered store b.component_ref
web-owned b m = elim m [ inl e ↦ rw e (web, inl refl, refl) | inr never ↦ absurd never ]

forward_scan-forward_match_example :
    (xs ys : List Text) × (polls' : ℕ) × (forward_scan short_semver env store axios_ioc 0
      ≡ (ok (map (pair_for short_semver (bytes "I1")) xs, xs), polls'))
    × (forward_match short_semver store none axios_ioc
        ≡ ok (map (pair_for short_semver (bytes "I1")) ys, ys))
    × NoRepeat xs
    × NoRepeat ys
    × ((ref : Text) → In ref xs ↔ In ref ys)
forward_scan-forward_match_example =
    forward_scan-forward_match short_semver env store axios_ioc 0 (λ n. refl) (λ e. cc e)
      web-WellFormed web-owned

-- A package with two snapshots: the newer one was published by token, the older one by OIDC.
abbrev snapshot_at : Time → PublisherSnapshot
snapshot_at time = record {
  id = time;
  package_ref = bytes "npm:axios";
  snapshot_at = time;
  maintainers = [];
  latest_version = bytes "1.2";
  latest_version_published_at = none;
  publish_method = if time == 6 then token else oidc;
  source_repo_url = none;
  raw_data = [];
}

abbrev snapshots : List PublisherSnapshot
snapshots = snapshot_at 6 ∷ snapshot_at 5 ∷ []

abbrev watched : World
watched = record world {
  store = record store {
    publisher_history = (bytes "npm:axios", snapshot_at 5 ∷ snapshot_at 6 ∷ []) ∷ [];
  };
}

watched-Fresh : Fresh env watched
watched-Fresh = record { unused = world-Fresh.unused; injective = world-Fresh.injective }

watched-Table : Table watched.store
watched-Table = record { given = store-Table.given; indexed = store-Table.indexed }

-- Two shipping detectors; each reads the clock once for each anomaly that it reports.
abbrev dated : ℕ → List Anomaly → Option (List Anomaly) × ℕ
dated n anomalies = (some anomalies, n + length anomalies)

abbrev version_jumps : Detector
version_jumps = record {
  kind = AnomalyKind.version_jump;
  detect = λ ref history n.
      dated n (rampart.Anomaly.VersionJump.detect short_semver (env.now n) ref history);
}

abbrev regressions : Detector
regressions = record {
  kind = AnomalyKind.oidc_publishing_regression;
  detect = λ ref history n. dated n (rampart.Anomaly.Oidc.detect (env.now n) ref history);
}

abbrev watcher : Orchestrator
watcher = record {
  bus = true;
  detectors = version_jumps ∷ regressions ∷ [];
  tick_interval = hour;
  batch_size = 200;
  history_depth = 50;
}

abbrev fixed_id : Time → Text
fixed_id time = bytes "T1"

tick-Advances_example :
    Advances env watched (tick short_semver env fixed_id watcher watched).1.world
tick-Advances_example = tick-Advances short_semver env fixed_id watcher watched watched-Fresh

listed :
    list_packages_needing_refresh watched.store none (100 + hour) 200 ≡ ok (bytes "npm:axios" ∷ [])
unfolding list_packages_needing_refresh candidates latest_time emit_refs sort_by
listed = refl

found : get_publisher_history watched.store none (bytes "npm:axios") 50 ≡ ok snapshots
unfolding get_publisher_history lookup list_eq sort_by
found = refl

tick-Recorded_example :
    ((tick short_semver env fixed_id watcher watched).0 ≡ none)
    × (n : ℕ) × AllRecorded
        (tick short_semver env fixed_id watcher watched).1.world.store
        100
        (regressions.detect (bytes "npm:axios") snapshots n).0
tick-Recorded_example =
    tick-Recorded short_semver env fixed_id watcher watched (bytes "npm:axios" ∷ [])
      (bytes "npm:axios") snapshots regressions (λ n. refl) watched-Fresh watched-Table
      (λ e. omega (arith, e)) listed (inl refl) found (omega arith) (inr (inl refl))

-- No connection is ever made.
abbrev dead_network : Network
dead_network = record {
  wait = λ n. none;
  build = λ n. none;
  exchange = λ n. transport (bytes "refused");
  timer_first = λ n. true;
  ctx_err = λ n. none;
}

get-Ends_example :
    (k : ℕ) × (f : Fetched) × (get dead_network new_client ≡ (some f, suc k))
    × (k ≤ retries_of new_client)
    × Retried (once dead_network new_client) 0 k
    × EndsAt (once dead_network new_client k) (k ≡ retries_of new_client) f
get-Ends_example = get-Ends dead_network new_client

-- The registry has a newer snapshot of the package.
abbrev npm_scheduler : Scheduler
npm_scheduler = record {
  ingestors = (bytes "npm:", λ n ref. fetched (snapshot_at 7)) ∷ [];
  refresh_interval = 10;
  batch_size = 50;
}

tick-Accounts_example :
    (seen : List Text) × Reached env
      (list_packages_needing_refresh watched.store none (100 - 10) 50)
      (rampart.Publisher.Scheduler.tick env npm_scheduler watched 0).0
      seen
    × Accounts
        (fates env npm_scheduler.ingestors seen 0 1)
        (starting env watched 0)
        (rampart.Publisher.Scheduler.tick env npm_scheduler watched 0).1
tick-Accounts_example = tick-Accounts env npm_scheduler watched 0

-- go.sum has two lines for m, the go.mod line first; go.mod replaces m by n.
abbrev gosum : Text
gosum = bytes "m v1/go.mod h1:b" ++ 10 ∷ bytes "m v1 h1:a"

abbrev gomod : Text
gomod = bytes "replace m => n v2"

abbrev sum_line : Text → Bool → SumEntry
sum_line hash primary = record {
  module_path = bytes "m";
  version = bytes "v1";
  hash = hash;
  is_primary = primary;
}

abbrev sum_lines : List SumEntry
sum_lines = sum_line (bytes "h1:b") false ∷ sum_line (bytes "h1:a") true ∷ []

abbrev replaces : Assoc Text ReplaceTarget
replaces = (bytes "m", record { new_path = bytes "n"; new_version = bytes "v2" }) ∷ []

gosum-read : parse_gosum gosum ≡ inr sum_lines
unfolding parse_gosum gosum_lines entry_from scan scan_lines drop_last_empty split list_eq
    trim_space cut_suffix cut_prefix fields words has_prefix
gosum-read = refl

gomod-read : parse_gomod_replaces gomod ≡ inr replaces
unfolding parse_gomod_replaces replace_lines replace_line parse_replace_directive before split_once
    insert scan scan_lines drop_last_empty split list_eq trim_space cut_suffix cut_prefix fields
    words has_prefix is_space
gomod-read = refl

parse-Shows_example :
    (sbom : ParsedSbom) × (parse none gosum gomod ≡ inr sbom)
    × ((p : PackageVersion)
        → In p sbom.packages ↔ (
            (k : Key) × (hash : Text) × (chosen_hash k sum_lines ≡ some hash)
            × Shows k hash p (lookup k.0 replaces)))
parse-Shows_example = parse-Shows gosum gomod replaces sum_lines gomod-read gosum-read
