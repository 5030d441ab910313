-- ===== src/Store/Incidents/Hits.antt =====
-- MatchedComponentRefsByIoC of engine/internal/storage/memory/memory.go: the components in the
-- snapshots of an IoC's incidents.
use rampart.Base.{
  ◌≡◌, refl, sym, ap, ◌∙◌, ◌↔◌, ◌⊎◌, inl, inr, none, List, [], ◌∷◌, ◌++◌, Text, ◌==◌, eq_iff,
  Text-eq, ℕ-eq, contains, contains_iff, In, Bool-cases,
}
use rampart.Base.{In-append, In-append_left, In-append_right}
use rampart.Base.Assoc.{values}
use rampart.Base.Sort.{sort_by, In-sort_by}
use rampart.Base.Strings.{text_lt}
use rampart.Domain.Incident.{Incident}
use rampart.Store.{Store, ok}
use rampart.Store.Incidents.{Refs, collect_refs, refs_of, matched_component_refs_by_ioc}

abbrev Tracked : Refs → Type 0
Tracked acc = (x : Text) → In x acc.seen ↔ In x acc.out

abbrev added_ref : Text → Refs → Refs
added_ref r acc = record { seen = r ∷ acc.seen; out = acc.out ++ r ∷ [] }

Tracked-added_ref : (r : Text) (acc : Refs) → Tracked acc → Tracked (added_ref r acc)
Tracked-added_ref r acc t x = (
  λ m. elim m [
    | inl e ↦ In-append_right acc.out (r ∷ []) x (inl e)
    | inr old ↦ In-append_left acc.out (r ∷ []) x ((t x).0 old)
  ],
  λ m. elim (In-append acc.out (r ∷ []) x m) [
    | inl old ↦ inr ((t x).1 old)
    | inr n ↦ elim n [ inl e ↦ inl e | inr never ↦ absurd never ]
  ],
)

collect_refs-Tracked :
    (acc : Refs) (refs : List Text)
    → Tracked acc
    → Tracked (collect_refs acc refs)
      × ((x : Text) → In x (collect_refs acc refs).out ↔ (In x acc.out ⊎ In x refs))
unfolding collect_refs
collect_refs-Tracked acc [] t =
    (t, λ x. (λ m. inl m, λ h. elim h [ inl m ↦ m | inr never ↦ absurd never ]))
collect_refs-Tracked acc (r ∷ refs) t = elim (Bool-cases (contains acc.seen r)) [
  | inl seen ↦
      let (t', next) = collect_refs-Tracked acc refs t in
      rw (seen, collect_refs)
        (
          t',
          λ x. (
            λ m. elim ((next x).0 m) [ inl old ↦ inl old | inr n ↦ inr (inr n) ],
            λ h. elim h [
              | inl old ↦ (next x).1 (inl old)
              | inr n ↦ elim n [
                | inl e ↦ (next x).1 (inl (rw e ((t r).0 ((contains_iff acc.seen r).0 seen))))
                | inr later ↦ (next x).1 (inr later)
              ]
            ],
          ),
        )
  | inr fresh ↦
      let (t', next) = collect_refs-Tracked (added_ref r acc) refs (Tracked-added_ref r acc t) in
      rw (fresh, collect_refs)
        (
          t',
          λ x. (
            λ m. elim ((next x).0 m) [
              | inl n ↦ elim (In-append acc.out (r ∷ []) x n) [
                | inl old ↦ inl old
                | inr here ↦ elim here [ inl e ↦ inr (inl e) | inr never ↦ absurd never ]
              ]
              | inr n ↦ inr (inr n)
            ],
            λ h. elim h [
              | inl old ↦ (next x).1 (inl (In-append_left acc.out (r ∷ []) x old))
              | inr n ↦ elim n [
                | inl e ↦ (next x).1 (inl (In-append_right acc.out (r ∷ []) x (inl e)))
                | inr later ↦ (next x).1 (inr later)
              ]
            ],
          ),
        )
]

-- An incident of the list was opened for this IoC and has this component in its snapshot.
abbrev pub Hit : List Incident → Text → Text → Type 0
Hit incs id ref =
    (inc : Incident) × In inc incs × (inc.ioc_id ≡ id) × In ref inc.affected_components_snapshot

refs_of-Hit :
    (id : Text) (acc : Refs) (incs : List Incident)
    → Tracked acc
    → (x : Text) → In x (refs_of id acc incs).out ↔ (In x acc.out ⊎ Hit incs id x)
unfolding refs_of
refs_of-Hit id acc [] t x = (λ m. inl m, λ h. elim h [ inl m ↦ m | inr n ↦ absurd n.1 ])
refs_of-Hit id acc (inc ∷ incs) t x = elim (Bool-cases (inc.ioc_id == id)) [
  | inr other ↦
      let next = refs_of-Hit id acc incs t x in
      rw (other, refs_of)
        (
          λ m. elim (next.0 m) [ inl old ↦ inl old | inr (a, n, e, k) ↦ inr (a, inr n, e, k) ],
          λ h. elim h [
            | inl old ↦ next.1 (inl old)
            | inr (a, n, e, k) ↦ elim n [
              | inl same ↦ absurd (
                  cc (
                    other,
                    (eq_iff inc.ioc_id id).1 (ap (λ (b : Incident). b.ioc_id) (sym same) ∙ e),
                  ))
              | inr later ↦ next.1 (inr (a, later, e, k))
            ]
          ],
        )
  | inl mine ↦
      let (t', here) = collect_refs-Tracked acc inc.affected_components_snapshot t in
      let next = refs_of-Hit id (collect_refs acc inc.affected_components_snapshot) incs t' x in
      rw (mine, refs_of)
        (
          λ m. elim (next.0 m) [
            | inl n ↦ elim ((here x).0 n) [
              | inl old ↦ inl old
              | inr k ↦ inr (inc, inl refl, (eq_iff inc.ioc_id id).0 mine, k)
            ]
            | inr (a, n, e, k) ↦ inr (a, inr n, e, k)
          ],
          λ h. elim h [
            | inl old ↦ next.1 (inl ((here x).1 (inl old)))
            | inr (a, n, e, k) ↦ elim n [
              | inl same ↦ next.1 (inl ((here x).1 (inr (rw same at k))))
              | inr later ↦ next.1 (inr (a, later, e, k))
            ]
          ],
        )
]

-- While the request is not cancelled MatchedComponentRefsByIoC returns exactly the components in the
-- snapshots of the incidents that were opened for the IoC.
pub matched_component_refs_by_ioc-Hit :
    (s : Store) (id : Text)
    → (refs : List Text) × (matched_component_refs_by_ioc s none id ≡ ok refs)
      × ((x : Text) → In x refs ↔ Hit (values s.incidents) id x)
unfolding matched_component_refs_by_ioc
matched_component_refs_by_ioc-Hit s id =
    let out = (refs_of id (record { seen = []; out = [] }) (values s.incidents)).out in
    (
      sort_by text_lt out,
      refl,
      λ x.
          let this =
            refs_of-Hit id (record { seen = []; out = [] }) (values s.incidents)
              (λ y. (λ m. m, λ m. m)) x in
          (
            λ m. elim (this.0 ((In-sort_by text_lt x out).0 m)) [
              | inl never ↦ absurd never
              | inr h ↦ h
            ],
            λ h. (In-sort_by text_lt x out).1 (this.1 (inr h)),
          ),
    )
