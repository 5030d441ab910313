-- ===== src/Api/Lookup/Retroactive.antt =====
-- retroactiveMatch of engine/internal/api/matching.go: the stored IoCs that match a new SBOM.
use rampart.Base.{
  In-append, ◌≡◌, refl, sym, ap, ◌↔◌, ◌⊎◌, inl, inr, true, none, List, [], ◌∷◌, ◌++◌, map, Text,
  Text-eq, ℕ-eq, contains, contains_iff, In, ltb, Bool-cases, NoRepeat, NoRepeat-append,
  In-append_right, In-append_left, In-append,
}
use rampart.Base.Assoc.{values}
use rampart.Base.Sort.{In-sort_by, sort_by}
use rampart.Domain.Package.{Sbom}
use rampart.Domain.Ioc.{Ioc}
use rampart.Matcher.{Semver, evaluate}
use rampart.Store.{Store, ok}
use rampart.Store.Catalog.{list_iocs}
use rampart.Api.Matching.{MatchPair}
use rampart.Api.Lookup.{pair_for, Matched, match_one, match_each, matched_of, retroactive_match}

module _ (semver : Semver) (b : Sbom) where
  -- An IoC of the list with this id matches.
  abbrev pub Matches : List Ioc → Text → Type 0
  Matches iocs id = (i : Ioc) × In i iocs × (i.id ≡ id) × ((evaluate semver i b).matched ≡ true)

  abbrev pairs_of : List Text → List MatchPair
  pairs_of ids = map (λ id. pair_for semver id b.component_ref) ids

  -- The pairs are those of `ids`, each once, and the map holds the same ids.
  record Tracks (acc : Matched semver) (ids : List Text) : Type 0 where
    pairs_eq : acc.pairs ≡ pairs_of ids
    distinct : NoRepeat ids
    same : (id : Text) → In id acc.matched_iocs ↔ In id ids

  pairs_of-append :
      (ids : List Text) (id : Text)
      → pairs_of (ids ++ id ∷ []) ≡ pairs_of ids ++ pair_for semver id b.component_ref ∷ []
  pairs_of-append [] id = refl
  pairs_of-append (x ∷ ids) id =
      ap (λ ps. pair_for semver x b.component_ref ∷ ps) (pairs_of-append ids id)

  -- Ids before the loop's step, and what the step adds.
  abbrev Step : Ioc → Matched semver → List Text → Type 0
  Step i acc ids =
      (ids' : List Text) × Tracks acc ids'
      × ((id : Text)
          → In id ids' ↔ (In id ids ⊎ ((i.id ≡ id) × ((evaluate semver i b).matched ≡ true))))

  match_one-Step :
      (i : Ioc) (acc : Matched semver) (ids : List Text)
      → Tracks acc ids
      → Step i (match_one semver b i acc) ids
  unfolding match_one
  match_one-Step i acc ids t = elim (Bool-cases (evaluate semver i b).matched) [
    | inr miss ↦
        rw miss
          (ids, t, λ id. (λ m. inl m, λ h. elim h [ inl m ↦ m | inr (e, hit) ↦ absurd (cc (hit)) ]))
    | inl good ↦ elim (Bool-cases (contains acc.matched_iocs i.id)) [
      | inl dup ↦
          let there : In i.id ids = (t.same i.id).0 ((contains_iff acc.matched_iocs i.id).0 dup) in
          rw (good, dup)
            (ids, t, λ id. (λ m. inl m, λ h. elim h [ inl m ↦ m | inr (e, hit) ↦ rw e at there ]))
      | inr fresh ↦
          let missing : ¬ In i.id ids =
            λ m. absurd (cc (fresh, (contains_iff acc.matched_iocs i.id).1 ((t.same i.id).1 m))) in
          rw (good, fresh)
            (
              ids ++ i.id ∷ [],
              record {
                pairs_eq = rw t.pairs_eq (sym (pairs_of-append ids i.id));
                distinct = NoRepeat-append ids i.id t.distinct missing;
                same = λ id. (
                  λ m. elim m [
                    | inl e ↦ In-append_right ids (i.id ∷ []) id (inl e)
                    | inr old ↦ In-append_left ids (i.id ∷ []) id ((t.same id).0 old)
                  ],
                  λ m. elim (In-append ids (i.id ∷ []) id m) [
                    | inl old ↦ inr ((t.same id).1 old)
                    | inr n ↦ elim n [ inl e ↦ inl e | inr never ↦ absurd never ]
                  ],
                );
              },
              λ id. (
                λ m. elim (In-append ids (i.id ∷ []) id m) [
                  | inl old ↦ inl old
                  | inr n ↦ elim n [ inl e ↦ inr (sym e, refl) | inr never ↦ absurd never ]
                ],
                λ h. elim h [
                  | inl old ↦ In-append_left ids (i.id ∷ []) id old
                  | inr (e, hit) ↦ In-append_right ids (i.id ∷ []) id (inl (sym e))
                ],
              ),
            )
    ]
  ]

  match_each-Tracks :
      (iocs : List Ioc) (acc : Matched semver) (ids : List Text)
      → Tracks acc ids
      → (ids' : List Text) × Tracks (match_each semver b iocs acc) ids'
        × ((id : Text) → In id ids' ↔ (In id ids ⊎ Matches iocs id))
  unfolding match_each
  match_each-Tracks [] acc ids t =
      (ids, t, λ id. (λ m. inl m, λ h. elim h [ inl m ↦ m | inr n ↦ absurd n.1 ]))
  match_each-Tracks (i ∷ iocs) acc ids t =
      let (here, t1, this) = match_one-Step i acc ids t in
      let (all, t2, next) = match_each-Tracks iocs (match_one semver b i acc) here t1 in
      (
        all,
        t2,
        λ id. (
          λ m. elim ((next id).0 m) [
            | inl n ↦ elim ((this id).0 n) [
              | inl old ↦ inl old
              | inr (e, hit) ↦ inr (i, inl refl, e, hit)
            ]
            | inr (j, n, e, hit) ↦ inr (j, inr n, e, hit)
          ],
          λ h. elim h [
            | inl old ↦ (next id).1 (inl ((this id).1 (inl old)))
            | inr (j, n, e, hit) ↦ elim n [
              | inl same ↦ (next id).1 (inl ((this id).1 (inr (rw same at e, rw same at hit))))
              | inr later ↦ (next id).1 (inr (j, later, e, hit))
            ]
          ],
        ),
      )

-- While the request is not cancelled retroactiveMatch pairs the component of the SBOM with exactly the stored IoCs that match it, each
-- id once, and the ids that it returns beside the pairs are the same.
pub retroactive_match-exact :
    (semver : Semver) (s : Store) (b : Sbom)
    → (ids : List Text) × (returned : List Text) × (retroactive_match semver s none b
        ≡ ok (map (λ id. pair_for semver id b.component_ref) ids, returned))
      × NoRepeat ids
      × ((id : Text) → In id returned ↔ In id ids)
      × ((id : Text) → In id ids ↔ Matches semver b (values s.iocs) id)
unfolding retroactive_match list_iocs
retroactive_match-exact semver s b =
    let less = λ (x y : Ioc). ltb x.published_at y.published_at in
    let iocs = values s.iocs in
    let (ids, t, found) =
      match_each-Tracks semver b (sort_by less iocs) (record { pairs = []; matched_iocs = [] }) []
        (record { pairs_eq = refl; distinct = tt; same = λ id. (λ m. m, λ m. m) }) in
    (
      ids,
      (match_each semver b (sort_by less iocs)
          (record { pairs = []; matched_iocs = [] })).matched_iocs,
      rw (matched_of, t.pairs_eq) refl,
      t.distinct,
      t.same,
      λ id. (
        λ m. elim ((found id).0 m) [
          | inl never ↦ absurd never
          | inr (i, n, e, hit) ↦ (i, (In-sort_by less i iocs).0 n, e, hit)
        ],
        λ (i, n, e, hit). (found id).1 (inr (i, (In-sort_by less i iocs).1 n, e, hit)),
      ),
    )
