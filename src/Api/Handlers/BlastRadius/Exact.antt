-- ===== src/Api/Handlers/BlastRadius/Exact.antt =====
-- BlastRadius of engine/internal/api/handlers_incident.go: which components it replies with.
use rampart.Base.{
  ℕ, ◌+◌, ◌≡◌, refl, sym, ap, ◌≢◌, ◌↔◌, ◌⊎◌, inl, inr, Option, none, some, List, [], ◌∷◌, Text,
  Text-eq, ℕ-eq, contains, contains_iff, In, Bool-cases, Option-cases,
}
use rampart.Base.Assoc.{lookup, values}
use rampart.Base.Sort.{sort_by, In-sort_by}
use rampart.Base.Strings.{text_lt}
use rampart.Domain.Package.{Sbom}
use rampart.Domain.Ioc.{Ioc, validate}
use rampart.Matcher.{Semver}
use rampart.Store.{Store}
use rampart.Store.Catalog.{get_ioc, list_sbom_packages, row_less, package_rows}
use rampart.Store.Incidents.Hits.{Hit, matched_component_refs_by_ioc-Hit}
use rampart.Api.{Env, World}
use rampart.Api.Wire.{GenIoc, from_gen_ioc}
use rampart.Api.Lookup.{
  ioc_lookup_key, match_packages_against_ioc, forward_match, forward_key, forward_rows,
}
use rampart.Api.Lookup.Forward.{WellFormed, Affected, forward_match-exact}
use rampart.Api.Handlers.{Response, replied}
use rampart.Api.Handlers.BlastRadius.{
  Blast, GenBlastRadius, add_refs, add_result, live, cached_or_live, blast_valid, blast_one,
  unless_failed, blast_each, blast_reply, blast_radius,
}
use rampart.Forward.Calm.{Calm}

In-add_refs :
    (x : Text) (refs affected : List Text)
    → In x (add_refs refs affected) ↔ (In x refs ⊎ In x affected)
unfolding add_refs
In-add_refs x [] affected = (λ m. inr m, λ h. elim h [ inl never ↦ absurd never | inr m ↦ m ])
In-add_refs x (r ∷ refs) affected = elim (Bool-cases (contains affected r)) [
  | inl seen ↦
      let next = In-add_refs x refs affected in
      rw seen (
        λ m. elim (next.0 m) [ inl n ↦ inl (inr n) | inr old ↦ inr old ],
        λ h. elim h [
          | inl n ↦ elim n [
            | inl e ↦ next.1 (inr (rw e ((contains_iff affected r).0 seen)))
            | inr later ↦ next.1 (inl later)
          ]
          | inr old ↦ next.1 (inr old)
        ],
      )
  | inr fresh ↦
      let next = In-add_refs x refs (r ∷ affected) in
      rw fresh (
        λ m. elim (next.0 m) [
          | inl n ↦ inl (inr n)
          | inr n ↦ elim n [ inl e ↦ inl (inl e) | inr old ↦ inr old ]
        ],
        λ h. elim h [
          | inl n ↦ elim n [ inl e ↦ next.1 (inr (inl e)) | inr later ↦ next.1 (inl later) ]
          | inr old ↦ next.1 (inr (inr old))
        ],
      )
]

abbrev going : List Text → ℕ → Blast
going affected polls = record { affected = affected; polls = polls; failure = none }

module _ (semver : Semver) (env : Env) (calm : Calm env) (s : Store) where
  -- What affects a component, by what is stored under the IoC's id.
  abbrev pub Affects : Ioc → Option Ioc → Text → Type 0
  Affects i (some stored) ref = Hit (values s.incidents) i.id ref
  Affects i none ref = Affected semver s i ref

  -- What one IoC adds to the loop's variables.
  abbrev Adds : Ioc → Option Ioc → List Text → Blast → Type 0
  Adds i known affected b =
      (refs : List Text) × (polls : ℕ) × (b ≡ going (add_refs refs affected) polls)
      × ((x : Text) → In x refs ↔ Affects i known x)

  module _ (i : Ioc) (named : i.ecosystem ≢ [])
      (wf : (b : Sbom) → In b (values s.sboms) → WellFormed b) where
    live-Adds :
        (affected : List Text) (n : ℕ)
        → Adds i none affected (live semver env s i (ioc_lookup_key i) (going affected n))
    unfolding live forward_match forward_key forward_rows list_sbom_packages add_result add_refs
    live-Adds affected n =
        let (refs, e, distinct, exact) = forward_match-exact semver s i named wf in
        elim (Option-cases (ioc_lookup_key i)) [
          | inl nokey ↦
              let empty : [] ≡ refs = cc (rw (nokey, forward_key) at e) in
              rw (nokey, live) ([], n, refl, λ x. rw (sym empty) at (exact x))
          | inr ((ecosystem, name), key) ↦
              let rows = sort_by row_less (package_rows ecosystem name (values s.sboms)) in
              let same : match_packages_against_ioc semver i ecosystem rows ≡ refs =
                cc (rw (key, forward_key, forward_rows) at e) in
              rw (key, live, calm n, add_result, same) (refs, n + 1, refl, exact)
        ]

  cached_or_live-Adds :
      (i : Ioc) (affected : List Text) (m n : ℕ)
      → i.ecosystem ≢ []
      → ((x : Sbom) → In x (values s.sboms) → WellFormed x)
      → Adds i
          (lookup i.id s.iocs)
          affected
          (cached_or_live semver env s i (get_ioc s (env.ctx_err n) i.id) (going affected m))
  unfolding cached_or_live get_ioc add_result
  cached_or_live-Adds i affected m n named wf = elim (Option-cases (lookup i.id s.iocs)) [
    | inl missing ↦ rw (missing, cached_or_live) (live-Adds i named wf affected m)
    | inr (stored, hit) ↦
        let (refs, e, exact) = matched_component_refs_by_ioc-Hit s i.id in
        rw (hit, calm n, cached_or_live, calm m, e, add_result) (refs, m + 1, refl, exact)
  ]

  -- The conditions on the IoCs of a request.
  abbrev pub Proper : GenIoc → Type 0
  Proper g = (validate (from_gen_ioc g) ≡ none) × ((from_gen_ioc g).ecosystem ≢ [])

  -- Some IoC of the request affects the component.
  abbrev pub AffectedBy : List GenIoc → Text → Type 0
  AffectedBy gs x =
      (g : GenIoc) × In g gs × Affects (from_gen_ioc g) (lookup (from_gen_ioc g).id s.iocs) x

  module _ (wf : (x : Sbom) → In x (values s.sboms) → WellFormed x) where
    blast_one-Adds :
        (g : GenIoc) (affected : List Text) (n : ℕ)
        → Proper g
        → Adds
            (from_gen_ioc g)
            (lookup (from_gen_ioc g).id s.iocs)
            affected
            (blast_one semver env s g (going affected n))
    unfolding blast_one blast_valid
    blast_one-Adds g affected n (valid, named) =
        rw (valid, blast_valid) (cached_or_live-Adds (from_gen_ioc g) affected (n + 1) n named wf)

    blast_each-AffectedBy :
        (gs : List GenIoc) (affected : List Text) (n : ℕ)
        → ((g : GenIoc) → In g gs → Proper g)
        → (out : List Text) × (polls : ℕ) × (blast_each semver env s gs (going affected n)
            ≡ going out polls)
          × ((x : Text) → In x out ↔ (In x affected ⊎ AffectedBy gs x))
    unfolding blast_each
    blast_each-AffectedBy [] affected n proper =
        (affected, n, refl, λ x. (λ m. inl m, λ h. elim h [ inl m ↦ m | inr n ↦ absurd n.1 ]))
    blast_each-AffectedBy (g ∷ gs) affected n proper =
        let (refs, polls, e, exact) = blast_one-Adds g affected n (proper g (inl refl)) in
        let (out, polls', e', next) =
          blast_each-AffectedBy gs (add_refs refs affected) polls (λ h m. proper h (inr m)) in
        (
          out,
          polls',
          rw (e, unless_failed) e',
          λ x. (
            λ m. elim ((next x).0 m) [
              | inl n ↦ elim ((In-add_refs x refs affected).0 n) [
                | inl here ↦ inr (g, inl refl, (exact x).0 here)
                | inr old ↦ inl old
              ]
              | inr (h, n, hit) ↦ inr (h, inr n, hit)
            ],
            λ h. elim h [
              | inl old ↦ (next x).1 (inl ((In-add_refs x refs affected).1 (inr old)))
              | inr (k, n, hit) ↦ elim n [
                | inl same ↦
                    (next x).1
                      (inl ((In-add_refs x refs affected).1 (inl ((exact x).1 (rw same at hit)))))
                | inr later ↦ (next x).1 (inr (k, later, hit))
              ]
            ],
          ),
        )

-- While the request is not cancelled BlastRadius replies 200 to IoCs that pass Validate and name an
-- ecosystem, with well-formed SBOMs in the store, and changes nothing in it. The reply names exactly
-- the components that one of the IoCs affects: for an IoC whose id is stored, those in the snapshots
-- of its incidents; for another, those with a stored SBOM that it matches.
pub blast_radius-AffectedBy :
    (semver : Semver) (env : Env) (w : World) (g : GenIoc) (gs : List GenIoc) (calm : Calm env)
    → ((x : Sbom) → In x (values w.store.sboms) → WellFormed x)
    → ((h : GenIoc) → In h (g ∷ gs) → Proper semver env calm w.store h)
    → let r = blast_radius semver env (some (g ∷ gs)) w in
      (refs : List Text) × (r.0.store ≡ w.store)
      × (r.1
          ≡ replied 200 (record { affected_component_refs = refs; computed_at = env.now w.clock }))
      × ((x : Text) → In x refs ↔ AffectedBy semver env calm w.store (g ∷ gs) x)
unfolding blast_radius blast_reply
blast_radius-AffectedBy semver env w g gs calm wf proper =
    let (out, polls, e, exact) =
      blast_each-AffectedBy semver env calm w.store wf (g ∷ gs) [] w.polls proper in
    let ends : blast_radius semver env (some (g ∷ gs)) w
        ≡ blast_reply env w (going out polls) none =
      ap (λ (b : Blast). blast_reply env w b b.failure) e in
    (
      sort_by text_lt out,
      ap (λ (r : World × Response GenBlastRadius). r.0.store) ends,
      ap (λ (r : World × Response GenBlastRadius). r.1) ends,
      λ x. (
        λ m. elim ((exact x).0 ((In-sort_by text_lt x out).0 m)) [
          | inl never ↦ absurd never
          | inr h ↦ h
        ],
        λ h. (In-sort_by text_lt x out).1 ((exact x).1 (inr h)),
      ),
    )
