-- ===== src/Store/Incidents/Filtered.antt =====
-- What the filter of ListIncidentsFiltered selects.
use rampart.Base.{
  suc, ◌≤◌, ◌≡◌, refl, ◌≢◌, ◌↔◌, ◌⊎◌, inl, inr, true, false, not, ◌&&◌, Option, none, some, List,
  [], ◌∷◌, arith, Text, ◌==◌, eq_iff, ne_of_eq_false, Text-eq, ℕ-eq, contains, contains_iff,
  keep_if, In, length, if◌then◌else◌, ltb, Bool-cases, nat_eq, In-keep_if,
}
use rampart.Base.Assoc.{Assoc, lookup, values}
use rampart.Base.Strings.{contains_text, to_lower}
use rampart.Domain.Incident.{Time, Incident, IncidentState, IncidentState-eq}
use rampart.Domain.Component.{Component}
use rampart.Domain.Ioc.{Ioc}
use rampart.Store.{Store}
use rampart.Store.Incidents.{
  IncidentFilter, not_before, not_after, matches_indexed_filter, any_ecosystem, ioc_in,
  matches_ecosystem_filter, any_contains, matches_search_filter, owned_by, any_owned,
  matches_owner_filter, joined_filter,
}

-- The conditions of a filter; an empty field sets none.
abbrev pub InStates : List IncidentState → Incident → Type 0
InStates states inc = (states ≡ []) ⊎ In inc.state states

abbrev pub From : Option Time → Time → Type 0
From none t = Unit
From (some from) t = from ≤ t

abbrev pub Until : Option Time → Time → Type 0
Until none t = Unit
Until (some to) t = t ≤ to

abbrev pub InEcosystems : Store → List Text → Incident → Type 0
InEcosystems s ecos inc =
    (ecos ≡ [])
    ⊎ ((ioc : Ioc) × (lookup inc.ioc_id s.iocs ≡ some ioc)
        × (ioc.ecosystem ≢ [])
        × In ioc.ecosystem ecos)

-- Some text of the list holds the search text, whatever the case.
abbrev pub Mentions : Text → List Text → Type 0
Mentions search texts =
    (t : Text) × In t texts × (contains_text (to_lower t) (to_lower search) ≡ true)

abbrev pub Found : Text → Incident → Type 0
Found search inc =
    (search ≡ []) ⊎ Mentions search (inc.id ∷ inc.ioc_id ∷ inc.affected_components_snapshot)

abbrev pub Owned : Store → Text → Incident → Type 0
Owned s owner inc =
    (owner ≡ [])
    ⊎ ((ref : Text) × (c : Component) × In ref inc.affected_components_snapshot
        × (lookup ref s.components ≡ some c)
        × (c.owner ≡ owner))

pub record Selected (s : Store) (f : IncidentFilter) (inc : Incident) : Type 0 where
  pub states : InStates f.states inc
  pub from : From f.from inc.opened_at
  pub to : Until f.to inc.opened_at
  pub ecosystems : InEcosystems s f.ecosystems inc
  pub search : Found f.search inc
  pub owner : Owned s f.owner inc

not_before_iff : (o : Option Time) (t : Time) → (not_before o t ≡ true) ↔ From o t
not_before_iff none t = (λ h. tt, λ h. refl)
not_before_iff (some from) t = (λ h. ground arith, λ h. ground arith)

not_after_iff : (o : Option Time) (t : Time) → (not_after o t ≡ true) ↔ Until o t
not_after_iff none t = (λ h. tt, λ h. refl)
not_after_iff (some to) t = (λ h. ground arith, λ h. ground arith)

states_iff :
    (states : List IncidentState) (inc : Incident)
    → ((ltb 0 (length states) && not (contains states inc.state)) ≡ false) ↔ InStates states inc
states_iff [] inc = (λ h. inl refl, λ h. refl)
states_iff (x ∷ xs) inc = (
  λ h. ground (arith, contains_iff (x ∷ xs) inc.state),
  λ h. ground (arith, contains_iff (x ∷ xs) inc.state),
)

indexed_iff :
    (inc : Incident) (f : IncidentFilter)
    → (matches_indexed_filter inc f ≡ true)
      ↔ (InStates f.states inc × From f.from inc.opened_at × Until f.to inc.opened_at)
unfolding matches_indexed_filter
indexed_iff inc f =
    let st = states_iff f.states inc in
    let nb = not_before_iff f.from inc.opened_at in
    let na = not_after_iff f.to inc.opened_at in
    elim (Bool-cases (ltb 0 (length f.states) && not (contains f.states inc.state))) [
      | inl out ↦ rw out (λ h. absurd (cc h), λ (h, a, b). absurd (cc (out, st.1 h)))
      | inr within ↦ elim (Bool-cases (not_before f.from inc.opened_at)) [
        | inl late ↦ rw (within, late) (λ h. (st.0 within, nb.0 late, na.0 h), λ (a, b, h). na.1 h)
        | inr early ↦
            rw (within, early) (λ h. absurd (cc h), λ (a, h, b). absurd (cc (early, nb.1 h)))
      ]
    ]

any_ecosystem_iff :
    (e : Text) (ecos : List Text) → (any_ecosystem e ecos ≡ true) ↔ ((e ≢ []) × In e ecos)
unfolding any_ecosystem
any_ecosystem_iff e [] = (λ h. absurd (cc h), λ h. absurd h.1)
any_ecosystem_iff e (x ∷ ecos) = (
  λ h. ground (arith, any_ecosystem_iff e ecos, eq_iff x [], eq_iff e x),
  λ h. ground (arith, any_ecosystem_iff e ecos, eq_iff x [], eq_iff e x),
)

by_ecosystem :
    (ecos : List Text) (i ioc : Ioc)
    → ioc ≡ i
    → i.ecosystem ≢ []
    → In i.ecosystem ecos
    → any_ecosystem ioc.ecosystem ecos ≡ true
by_ecosystem ecos i ioc e ne m = rw e ((any_ecosystem_iff i.ecosystem ecos).1 (ne, m))

ecosystem_iff :
    (s : Store) (inc : Incident) (f : IncidentFilter)
    → (matches_ecosystem_filter inc f s.iocs ≡ true) ↔ InEcosystems s f.ecosystems inc
unfolding matches_ecosystem_filter
ecosystem_iff s inc f = ecosystems_cases f.ecosystems (lookup inc.ioc_id s.iocs)
  where
    ecosystems_cases :
        (ecos : List Text) (o : Option Ioc)
        → ((if nat_eq (length ecos) 0 then true else ioc_in ecos o) ≡ true) ↔ (
            (ecos ≡ [])
            ⊎ ((ioc : Ioc) × (o ≡ some ioc) × (ioc.ecosystem ≢ []) × In ioc.ecosystem ecos))
    ecosystems_cases [] o = (λ h. inl refl, λ h. refl)
    ecosystems_cases (x ∷ ecos) none = (
      λ h. absurd (ground arith),
      λ h. elim h [ inl given ↦ absurd (cc given) | inr (i, e, ne, m) ↦ absurd (cc e) ],
    )
    ecosystems_cases (x ∷ ecos) (some ioc) =
        let any = any_ecosystem_iff ioc.ecosystem (x ∷ ecos) in
        let given : nat_eq (suc (length ecos)) 0 ≡ false = ground arith in
        rw given (
          λ h. let (ne, m) = any.0 h in inr (ioc, refl, ne, m),
          λ h. elim h [
            | inl none_given ↦ absurd (cc none_given)
            | inr (i, e, ne, m) ↦ by_ecosystem (x ∷ ecos) i ioc (cc e) ne m
          ],
        )

any_contains_iff :
    (search : Text) (refs : List Text)
    → (any_contains (to_lower search) refs ≡ true) ↔ Mentions search refs
unfolding any_contains
any_contains_iff search [] = (λ h. absurd (cc h), λ h. absurd h.1)
any_contains_iff search (r ∷ refs) =
    elim (Bool-cases (contains_text (to_lower r) (to_lower search))) [
      | inl hit ↦ rw hit (λ h. (r, inl refl, hit), λ h. refl)
      | inr miss ↦ rw miss (
        λ h. let (t, m, e) = (any_contains_iff search refs).0 h in (t, inr m, e),
        λ (t, m, e). elim m [
          | inl same ↦ absurd (cc (miss, e, same))
          | inr later ↦ (any_contains_iff search refs).1 (t, later, e)
        ],
      )
    ]

owned_by_iff :
    (owner : Text) (o : Option Component)
    → (owned_by owner o ≡ true) ↔ ((c : Component) × (o ≡ some c) × (c.owner ≡ owner))
owned_by_iff owner none = (λ h. absurd (cc h), λ h. absurd (cc h.1))
owned_by_iff owner (some c) = (
  λ h. (c, refl, (eq_iff c.owner owner).0 h),
  λ (d, e, o). ground (arith, e, o, eq_iff c.owner owner),
)

any_owned_iff :
    (owner : Text) (components : Assoc Text Component) (refs : List Text)
    → (any_owned owner components refs ≡ true) ↔ (
        (ref : Text) × (c : Component) × In ref refs
        × (lookup ref components ≡ some c)
        × (c.owner ≡ owner))
unfolding any_owned
any_owned_iff owner components [] = (λ h. absurd (cc h), λ h. absurd h.2)
any_owned_iff owner components (r ∷ refs) =
    let next = any_owned_iff owner components refs in
    let here = owned_by_iff owner (lookup r components) in
    elim (Bool-cases (owned_by owner (lookup r components))) [
      | inl hit ↦ rw hit (λ h. let (c, e, o) = here.0 hit in (r, c, inl refl, e, o), λ h. refl)
      | inr miss ↦ rw miss (
        λ h. let (t, c, m, e, o) = next.0 h in (t, c, inr m, e, o),
        λ (t, c, m, e, o). elim m [
          | inl same ↦ absurd (cc (miss, here.1 (c, rw same at e, o)))
          | inr later ↦ next.1 (t, c, later, e, o)
        ],
      )
    ]

search_iff :
    (inc : Incident) (f : IncidentFilter)
    → (matches_search_filter inc f ≡ true) ↔ Found f.search inc
unfolding matches_search_filter any_contains
search_iff inc f =
    let any = any_contains_iff f.search (inc.id ∷ inc.ioc_id ∷ inc.affected_components_snapshot) in
    elim (Bool-cases (f.search == [])) [
      | inl empty ↦ rw empty (λ h. inl ((eq_iff f.search []).0 empty), λ h. refl)
      | inr given ↦ rw given (
        λ h. inr (any.0 (ground (arith, h))),
        λ h. elim h [
          | inl e ↦ absurd (ne_of_eq_false f.search [] given e)
          | inr m ↦ let hit = any.1 m in ground (arith, hit)
        ],
      )
    ]

owner_iff :
    (s : Store) (inc : Incident) (f : IncidentFilter)
    → (matches_owner_filter inc f s.components ≡ true) ↔ Owned s f.owner inc
unfolding matches_owner_filter
owner_iff s inc f =
    let any = any_owned_iff f.owner s.components inc.affected_components_snapshot in
    elim (Bool-cases (f.owner == [])) [
      | inl empty ↦ rw empty (λ h. inl ((eq_iff f.owner []).0 empty), λ h. refl)
      | inr given ↦ rw given (
        λ h. inr (any.0 h),
        λ h. elim h [ inl e ↦ absurd (ne_of_eq_false f.owner [] given e) | inr m ↦ any.1 m ],
      )
    ]

-- A stored incident passes both loops exactly when the filter selects it.
pub Selected-iff :
    (s : Store) (f : IncidentFilter) (inc : Incident)
    → In inc (
        keep_if
          (joined_filter s f)
          (keep_if (λ i. matches_indexed_filter i f) (values s.incidents)))
      ↔ (In inc (values s.incidents) × Selected s f inc)
unfolding joined_filter
Selected-iff s f inc =
    let outer =
      In-keep_if (joined_filter s f)
        (keep_if (λ i. matches_indexed_filter i f) (values s.incidents)) inc in
    let inner = In-keep_if (λ i. matches_indexed_filter i f) (values s.incidents) inc in
    let idx = indexed_iff inc f in
    let eco = ecosystem_iff s inc f in
    let sea = search_iff inc f in
    let own = owner_iff s inc f in
    (
      λ m.
          let (kept, joined) = outer.0 m in
          let (there, fits) = inner.0 kept in
          let (st, fr, un) = idx.0 fits in
          (
            there,
            record {
              states = st;
              from = fr;
              to = un;
              ecosystems = eco.0 (ground (arith, joined));
              search = sea.0 (ground (arith, joined));
              owner = own.0 (ground (arith, joined));
            },
          ),
      λ (there, sel). outer.1 (
        inner.1 (there, idx.1 (sel.states, sel.from, sel.to)),
        ground (arith, eco.1 sel.ecosystems, sea.1 sel.search, own.1 sel.owner),
      ),
    )
