-- ===== src/Cases/Engine.antt =====
-- The theorems on matching, on the store and on the event bus, applied to the data of Cases.
use rampart.Domain.Incident.{Incident, is_non_terminal}
use rampart.Base.{
  ℕ, zero, suc, ◌+◌, ◌≡◌, refl, ap, ◌↔◌, ◌⊎◌, inl, inr, false, none, some, List, [], ◌∷◌, map,
  arith, Text, bytes, Text-eq, ℕ-eq, In, length, NoRepeat, list_eq,
}
use rampart.Base.Sort.{sort_by}
use rampart.Base.Assoc.{insert, values, lookup}
use rampart.Domain.Package.{Sbom}
use rampart.Domain.Event.{DomainEvent, ioc_matched}
use rampart.Matcher.{evaluate}
use rampart.Matcher.Predicate.{Fires, evaluate-packages}
use rampart.Store.{ok, DedupKey-eq, PublisherKey-eq}
use rampart.Store.Incidents.{
  upsert_incident, IncidentFilter, list_incidents_filtered, list_incidents, upsert_incident,
}
use rampart.Store.Incidents.Page.{Page, list_incidents_filtered-Page}
use rampart.Store.Anomalies.{save_anomaly}
use rampart.Store.Anomalies.Unique.{Table, save_anomaly-Table}
use rampart.Bus.{Bus, new_bus}
use rampart.Bus.Change.{Op, subscribes, cancels, publishes, receives, Inv}
use rampart.Bus.Run.{run, all_published, GivenPrefix, run_total, delivery}
use rampart.Api.Matching.{
  index_open, index_one, index_refs, open_incidents_for_matches, open_each, open_one,
}
use rampart.Api.Matching.Open.{Fresh, Covered, key_of}
use rampart.Api.Matching.Unique.{AtMostOne}
use rampart.Api.Matching.Contract.{
  Kept, open_incidents_for_matches-Kept, open_incidents_for_matches-AtMostOne,
  open_incidents_for_matches-complete, open_incidents_for_matches-Covered,
}
use rampart.Api.Lookup.{pair_for, forward_match, retroactive_match}
use rampart.Api.Lookup.Forward.{WellFormed, Affected, forward_match-exact}
use rampart.Api.Lookup.Retroactive.{Matches, retroactive_match-exact}
use rampart.Api.Transition.{transition_incident, Effect, transition_incident-Effect}
use rampart.Domain.Incident.{triaged}
use rampart.Cases.{
  short_semver, axios, web_ref, web_sbom, axios_ioc, open_incident, jump, store, long_id, env,
  world, new_pair, pairs,
}

length-long_id : (n : ℕ) → length (long_id n) ≡ n + 2
length-long_id zero = refl
length-long_id (suc n) = omega (arith, length-long_id n)

long_id-injective : (m n : ℕ) → long_id m ≡ long_id n → m ≡ n
long_id-injective m n e = omega (arith, ap (λ t. length t) e, length-long_id m, length-long_id n)

long_id-unused : (n : ℕ) → ¬ In (long_id n) (bytes "X" ∷ [])
long_id-unused n m = elim m [
  | inl e ↦ omega (arith, ap (λ t. length t) e, length-long_id n)
  | inr never ↦ never
]

pub world-Fresh : Fresh env world
world-Fresh = record { unused = λ n le. long_id-unused n; injective = long_id-injective }

store-AtMostOne : AtMostOne store
store-AtMostOne a b k ma mb ca cb = elim ma [
  | inl ea ↦ elim mb [ inl eb ↦ cc (ea, eb) | inr never ↦ absurd never ]
  | inr never ↦ absurd never
]

open_incidents_for_matches-Kept_example :
    Kept env world (open_incidents_for_matches env pairs world)
open_incidents_for_matches-Kept_example =
    open_incidents_for_matches-Kept env pairs world world-Fresh

open_incidents_for_matches-AtMostOne_example :
    AtMostOne (open_incidents_for_matches env pairs world).world.store
open_incidents_for_matches-AtMostOne_example =
    open_incidents_for_matches-AtMostOne env pairs world world-Fresh store-AtMostOne

no_error : (open_incidents_for_matches env pairs world).error ≡ none
unfolding open_incidents_for_matches list_incidents open_each open_one upsert_incident index_open
    index_one index_refs lookup insert is_non_terminal sort_by list_eq
no_error = refl

open_incidents_for_matches-Covered_example :
    Covered (open_incidents_for_matches env pairs world).world.store (key_of new_pair)
open_incidents_for_matches-Covered_example =
    open_incidents_for_matches-Covered env pairs world world-Fresh no_error new_pair
      (inr (inl refl))

npm-WellFormed : WellFormed web_sbom
npm-WellFormed = record {
  named = λ e. cc e;
  plain = ground arith;
  shared = λ p m. elim m [ inl e ↦ rw e (refl, λ n. cc n) | inr never ↦ absurd never ];
}

pub web-WellFormed : (b : Sbom) → In b (values store.sboms) → WellFormed b
web-WellFormed b m = elim m [ inl e ↦ rw e npm-WellFormed | inr never ↦ absurd never ]

forward_match-exact_example :
    (refs : List Text) × (forward_match short_semver store none axios_ioc
      ≡ ok (map (pair_for short_semver (bytes "I1")) refs, refs))
    × NoRepeat refs
    × ((ref : Text) → In ref refs ↔ Affected short_semver store axios_ioc ref)
forward_match-exact_example =
    forward_match-exact short_semver store axios_ioc (λ e. cc e) web-WellFormed

retroactive_match-exact_example :
    (ids : List Text) × (returned : List Text) × (retroactive_match short_semver store none web_sbom
      ≡ ok (map (λ id. pair_for short_semver id web_ref) ids, returned))
    × NoRepeat ids
    × ((id : Text) → In id returned ↔ In id ids)
    × ((id : Text) → In id ids ↔ Matches short_semver web_sbom (axios_ioc ∷ []) id)
retroactive_match-exact_example = retroactive_match-exact short_semver store web_sbom

evaluate-packages_example :
    In axios (evaluate short_semver axios_ioc web_sbom).packages
    ↔ Fires short_semver axios_ioc web_sbom axios
evaluate-packages_example = evaluate-packages short_semver axios_ioc web_sbom axios

pub store-Table : Table store
unfolding lookup
store-Table = record { given = λ id a h. absurd (cc h); indexed = λ k id h. absurd (cc h) }

save_anomaly-Table_example : Table (save_anomaly store none 9 jump).0
save_anomaly-Table_example = save_anomaly-Table store none 9 jump store-Table

abbrev web_filter : IncidentFilter
web_filter = record {
  states = [];
  ecosystems = bytes "npm" ∷ [];
  from = some 1;
  to = none;
  search = bytes "WEB";
  owner = bytes "team";
  limit = 5;
}

list_incidents_filtered-Page_example :
    (xs : List Incident) × (list_incidents_filtered store none web_filter ≡ ok xs)
    × Page store web_filter xs
list_incidents_filtered-Page_example = list_incidents_filtered-Page store web_filter

abbrev event : DomainEvent
event = ioc_matched (bytes "I1") (web_ref ∷ []) 7

abbrev ops : List Op
ops = publishes event ∷ receives 0 ∷ publishes event ∷ cancels 0 ∷ publishes event ∷ []

run_total_example : (b : Bus) × (run (subscribes ∷ ops) (new_bus 1) ≡ some b) × Inv b
run_total_example = run_total 1 (subscribes ∷ ops)

abbrev one_subscriber : Bus
one_subscriber = record {
  chans = (0, record { buffer = []; closed = false; received = [] }) ∷ [];
  subs = 0 ∷ [];
  fired = [];
  next_id = 1;
  buffer_size = 2;
}

one_subscriber-Inv : Inv one_subscriber
unfolding lookup
one_subscriber-Inv = record {
  distinct = (λ m. m, tt);
  live = λ j m. elim m [
    | inl e ↦ rw e (record {
      chan = record { buffer = []; closed = false; received = [] };
      found = refl;
      is_open = refl;
      fits = omega arith;
      numbered = omega arith;
    })
    | inr never ↦ absurd never
  ];
}

delivery_example :
    (b : Bus) × (run ops one_subscriber ≡ some b)
    × GivenPrefix (all_published ops) 0 one_subscriber b
delivery_example = delivery ops one_subscriber 0 one_subscriber-Inv (omega arith)

open_incidents_for_matches-complete_example :
    In (bytes "X", open_incident) store.incidents
    ⊎ In (bytes "X") (open_incidents_for_matches env pairs world).opened
open_incidents_for_matches-complete_example =
    open_incidents_for_matches-complete env pairs world (bytes "X", open_incident) world-Fresh
      no_error
      ((open_incidents_for_matches-Kept env pairs world world-Fresh).kept (bytes "X", open_incident)
        (inl refl))

transition_incident-Effect_example :
    Effect env open_incident triaged world
      (transition_incident env (bytes "X") (some triaged) world)
unfolding lookup list_eq
transition_incident-Effect_example =
    transition_incident-Effect env (bytes "X") open_incident triaged world refl refl refl
