-- ===== src/Store/Publishers.antt =====
-- Publishers, profiles and snapshots in the in-process store of
-- engine/internal/storage/memory/memory.go. `now` is what time.Now() returns where it is called.
use rampart.Base.{
  ℕ, ◌+◌, Bool, ◌&&◌, Option, none, some, List, [], ◌∷◌, ◌++◌, Text, ◌==◌, Text-eq, ℕ-eq, length,
  if◌then◌else◌, ltb, leb,
}
use rampart.Base.Assoc.{Assoc, lookup, insert}
use rampart.Base.Strings.{text_lt}
use rampart.Base.Sort.{sort_by}
use rampart.Domain.Incident.{Time, IncidentState-eq}
use rampart.Domain.Publisher.{Publisher, PublisherProfile, PublisherSnapshot}
use rampart.Store.{Store, StorageError, Result, finish, PublisherKey, PublisherKey-eq, DedupKey-eq}
use rampart.Store.Catalog.{get_or_not_found}
use rampart.Store.Incidents.{cap_at}

-- UpsertPublisher
unfoldable pub upsert_publisher :
    Store → Option StorageError → Publisher → Store × Option StorageError
upsert_publisher s e p = (record s { publishers = insert (p.ecosystem, p.name) p s.publishers }, e)

-- GetPublisher
unfoldable pub get_publisher : Store → Option StorageError → Text → Text → Result Publisher
get_publisher s e ecosystem name = get_or_not_found e (lookup (ecosystem, name) s.publishers)

-- UpsertPublisherProfile
unfoldable pub upsert_publisher_profile :
    Store → Option StorageError → PublisherProfile → Store × Option StorageError
upsert_publisher_profile s e p =
    (record s { profiles = insert (p.publisher.ecosystem, p.publisher.name) p s.profiles }, e)

-- GetPublisherProfile
unfoldable pub get_publisher_profile :
    Store → Option StorageError → Text → Text → Result PublisherProfile
get_publisher_profile s e ecosystem name = get_or_not_found e (lookup (ecosystem, name) s.profiles)

unfoldable pub publishers_in : Text → Assoc PublisherKey Publisher → List Publisher
publishers_in ecosystem [] = []
publishers_in ecosystem ((k, p) ∷ m) =
    let rest = publishers_in ecosystem m in if k.0 == ecosystem then p ∷ rest else rest

-- ListPublishers
unfoldable pub list_publishers : Store → Option StorageError → Text → Result (List Publisher)
list_publishers s e ecosystem =
    finish e (sort_by (λ a b. text_lt a.name b.name) (publishers_in ecosystem s.publishers))

abbrev pub or_empty {ℓ} : {A : Type ℓ} → Option (List A) → List A
or_empty none = []
or_empty (some xs) = xs

-- `IsZero` is the time 0; the UTC conversion keeps the instant.
abbrev pub or_now : Time → Time → Time
or_now now t = if t == 0 then now else t

-- SavePublisherSnapshot
unfoldable pub save_publisher_snapshot :
    Store → Option StorageError → Time → PublisherSnapshot → Store × Option StorageError
save_publisher_snapshot s e now snap =
    let stored = record snap {
      id = s.next_snapshot_id + 1;
      snapshot_at = or_now now snap.snapshot_at;
    } in
    let earlier = or_empty (lookup snap.package_ref s.publisher_history) in
    (
      record s {
        next_snapshot_id = s.next_snapshot_id + 1;
        publisher_history = insert snap.package_ref (earlier ++ stored ∷ []) s.publisher_history;
      },
      e,
    )

abbrev newest_snapshot_first : PublisherSnapshot → PublisherSnapshot → Bool
newest_snapshot_first a b = ltb b.snapshot_at a.snapshot_at

abbrev history_of :
    Option StorageError → ℕ → Option (List PublisherSnapshot) → Result (List PublisherSnapshot)
history_of e limit none = finish e []
history_of e limit (some all) = finish e (cap_at limit (sort_by newest_snapshot_first all))

-- GetPublisherHistory
unfoldable pub get_publisher_history :
    Store → Option StorageError → Text → ℕ → Result (List PublisherSnapshot)
get_publisher_history s e package_ref limit =
    history_of e limit (lookup package_ref s.publisher_history)

-- The loop over `hist[1:]` that finds the time of the latest snapshot.
unfoldable pub latest_time : Time → List PublisherSnapshot → Time
latest_time latest [] = latest
latest_time latest (sn ∷ hist) =
    latest_time (if ltb latest sn.snapshot_at then sn.snapshot_at else latest) hist

-- The struct `cand` of ListPackagesNeedingRefresh: a package and its latest snapshot time.
abbrev pub Candidate : Type 0
Candidate = Text × Time

unfoldable pub candidates : Time → Assoc Text (List PublisherSnapshot) → List Candidate
candidates older_than [] = []
candidates older_than ((ref, []) ∷ m) = candidates older_than m
candidates older_than ((ref, sn ∷ hist) ∷ m) =
    let latest = latest_time sn.snapshot_at hist in
    let rest = candidates older_than m in
    if ltb latest older_than then (ref, latest) ∷ rest else rest

-- The output loop appends and then breaks once `limit` refs are out, if `limit` is positive.
unfoldable pub emit_refs : ℕ → List Text → List Candidate → List Text
emit_refs limit out [] = out
emit_refs limit out (c ∷ cs) =
    let out' = out ++ c.0 ∷ [] in
    let rest = emit_refs limit out' cs in
    if ltb 0 limit && leb limit (length out') then out' else rest

-- ListPackagesNeedingRefresh
unfoldable pub list_packages_needing_refresh :
    Store → Option StorageError → Time → ℕ → Result (List Text)
list_packages_needing_refresh s e older_than limit =
    finish e (
      emit_refs limit [] (sort_by (λ a b. ltb a.1 b.1) (candidates older_than s.publisher_history)))
