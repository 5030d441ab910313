-- ===== src/Store/Incidents.antt =====
-- Incidents and remediations in the in-process store of engine/internal/storage/memory/memory.go.
pub mod Filtered
pub mod Page
pub mod Hits
use rampart.Base.{
  ℕ, Bool, true, false, not, ◌&&◌, ◌||◌, Option, none, some, List, [], ◌∷◌, ◌++◌, Text, ◌==◌,
  Text-eq, ℕ-eq, contains, keep_if, nat_eq, length, take, if◌then◌else◌, ltb,
}
use mathlib.Core.Option
use rampart.Base.Assoc.{Assoc, lookup, insert, values}
use rampart.Base.Strings.{text_lt, contains_text, to_lower}
use rampart.Base.Sort.{sort_by}
use rampart.Domain.Incident.{Time, Incident, IncidentState, IncidentState-eq, Remediation}
use rampart.Domain.Component.{Component}
use rampart.Domain.Ioc.{Ioc}
use rampart.Store.{Store, StorageError, not_found, Result, finish, PublisherKey-eq, DedupKey-eq}
use rampart.Store.Catalog.{get_or_not_found}

-- domain.IncidentFilter; an empty field does not filter.
pub record IncidentFilter : Type 0 where
  pub states : List IncidentState
  pub ecosystems : List Text
  pub from : Option Time
  pub to : Option Time
  pub search : Text
  pub owner : Text
  pub limit : ℕ

-- UpsertIncident
unfoldable pub upsert_incident :
    Store → Option StorageError → Incident → Store × Option StorageError
upsert_incident s e i = (record s { incidents = insert i.id i s.incidents }, e)

-- GetIncident
unfoldable pub get_incident : Store → Option StorageError → Text → Result Incident
get_incident s e id = get_or_not_found e (lookup id s.incidents)

-- ListIncidents
unfoldable pub list_incidents : Store → Option StorageError → Result (List Incident)
list_incidents s e = finish e (sort_by (λ a b. ltb a.opened_at b.opened_at) (values s.incidents))

-- The map `seen` and the slice `out` of MatchedComponentRefsByIoC.
pub record Refs : Type 0 where
  pub seen : List Text
  pub out : List Text

-- The inner loop, over the snapshot of one incident.
unfoldable pub collect_refs : Refs → List Text → Refs
collect_refs acc [] = acc
collect_refs acc (ref ∷ refs) =
    collect_refs
      (if contains acc.seen ref
        then acc
        else record acc { seen = ref ∷ acc.seen; out = acc.out ++ ref ∷ [] })
      refs

-- The outer loop, over the incidents.
unfoldable pub refs_of : Text → Refs → List Incident → Refs
refs_of ioc_id acc [] = acc
refs_of ioc_id acc (inc ∷ incs) =
    refs_of ioc_id
      (if not (inc.ioc_id == ioc_id)
        then acc
        else collect_refs acc inc.affected_components_snapshot)
      incs

-- MatchedComponentRefsByIoC
unfoldable pub matched_component_refs_by_ioc :
    Store → Option StorageError → Text → Result (List Text)
matched_component_refs_by_ioc s e ioc_id =
    finish e
      (sort_by text_lt (refs_of ioc_id (record { seen = []; out = [] }) (values s.incidents)).out)

abbrev pub not_before : Option Time → Time → Bool
not_before none t = true
not_before (some from) t = not (ltb t from)

abbrev pub not_after : Option Time → Time → Bool
not_after none t = true
not_after (some to) t = not (ltb to t)

-- matchesIndexedFilter
unfoldable pub matches_indexed_filter : Incident → IncidentFilter → Bool
matches_indexed_filter inc f =
    if ltb 0 (length f.states) && not (contains f.states inc.state)
    then false
    else if not (not_before f.from inc.opened_at)
    then false
    else not_after f.to inc.opened_at

unfoldable pub any_ecosystem : Text → List Text → Bool
any_ecosystem ecosystem [] = false
any_ecosystem ecosystem (eco ∷ ecos) =
    (not (eco == []) && ecosystem == eco) || any_ecosystem ecosystem ecos

abbrev pub ioc_in : List Text → Option Ioc → Bool
ioc_in ecosystems none = false
ioc_in ecosystems (some ioc) = any_ecosystem ioc.ecosystem ecosystems

-- matchesEcosystemFilter
unfoldable pub matches_ecosystem_filter : Incident → IncidentFilter → Assoc Text Ioc → Bool
matches_ecosystem_filter inc f iocs =
    if nat_eq (length f.ecosystems) 0 then true else ioc_in f.ecosystems (lookup inc.ioc_id iocs)

unfoldable pub any_contains : Text → List Text → Bool
any_contains q [] = false
any_contains q (ref ∷ refs) = contains_text (to_lower ref) q || any_contains q refs

-- matchesSearchFilter
unfoldable pub matches_search_filter : Incident → IncidentFilter → Bool
matches_search_filter inc f =
    let q = to_lower f.search in
    if f.search == []
    then true
    else if contains_text (to_lower inc.id) q
    then true
    else if contains_text (to_lower inc.ioc_id) q
    then true
    else any_contains q inc.affected_components_snapshot

abbrev pub owned_by : Text → Option Component → Bool
owned_by owner none = false
owned_by owner (some c) = c.owner == owner

unfoldable pub any_owned : Text → Assoc Text Component → List Text → Bool
any_owned owner components [] = false
any_owned owner components (ref ∷ refs) =
    owned_by owner (lookup ref components) || any_owned owner components refs

-- matchesOwnerFilter
unfoldable pub matches_owner_filter : Incident → IncidentFilter → Assoc Text Component → Bool
matches_owner_filter inc f components =
    if f.owner == [] then true else any_owned f.owner components inc.affected_components_snapshot

-- `if limit > 0 && len(out) > limit { out = out[:limit] }`
abbrev pub cap_at {ℓ} : {A : Type ℓ} → ℕ → List A → List A
cap_at limit xs = if ltb 0 limit && ltb limit (length xs) then take limit xs else xs

abbrev pub newest_first : Incident → Incident → Bool
newest_first a b = ltb b.opened_at a.opened_at

-- The three tests of the second loop of ListIncidentsFiltered.
unfoldable pub joined_filter : Store → IncidentFilter → Incident → Bool
joined_filter s f inc =
    matches_ecosystem_filter inc f s.iocs
    && matches_search_filter inc f
    && matches_owner_filter inc f s.components

-- ListIncidentsFiltered
unfoldable pub list_incidents_filtered :
    Store → Option StorageError → IncidentFilter → Result (List Incident)
unfolding joined_filter
list_incidents_filtered s e f =
    let candidates = keep_if (λ inc. matches_indexed_filter inc f) (values s.incidents) in
    finish e (cap_at f.limit (sort_by newest_first (keep_if (joined_filter s f) candidates)))

abbrev append_to :
    Store → Option StorageError → Text → Remediation → Option Incident → Store × Option StorageError
append_to s e incident_id r none = (s, some not_found)
append_to s e incident_id r (some inc) =
    let inc' = record inc { remediations = inc.remediations ++ r ∷ [] } in
    (record s { incidents = insert incident_id inc' s.incidents }, e)

-- AppendRemediation
unfoldable pub append_remediation :
    Store → Option StorageError → Text → Remediation → Store × Option StorageError
append_remediation s e incident_id r = append_to s e incident_id r (lookup incident_id s.incidents)

-- ListRemediations
unfoldable pub list_remediations : Store → Option StorageError → Text → Result (List Remediation)
list_remediations s e incident_id =
    get_or_not_found e (Option.map (λ inc. inc.remediations) (lookup incident_id s.incidents))
