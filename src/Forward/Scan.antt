-- ===== src/Forward/Scan.antt =====
-- forwardMatch of engine/internal/iocforward/iocforward.go: the scan of every SBOM of every component.
use rampart.Base.{
  ℕ, ◌+◌, ◌≡◌, refl, sym, ap, ◌∙◌, ◌≢◌, ◌↔◌, ◌⊎◌, inl, inr, Bool, true, none, List, [], ◌∷◌, ◌++◌,
  map, Text, ◌==◌, eq_iff, Text-eq, ℕ-eq, contains, contains_iff, keep_if, In, ltb, Bool-cases,
  NoRepeat, In-append_right, In-append, In-append_left, NoRepeat-append, In-keep_if,
}
use mathlib.Core.List.{map-append}
use rampart.Base.Assoc.{values}
use rampart.Base.Sort.{In-sort_by, sort_by}
use rampart.Base.Strings.{text_lt}
use rampart.Domain.Package.{Sbom}
use rampart.Domain.Component.{Component}
use rampart.Domain.Ioc.{Ioc}
use rampart.Matcher.{Semver, evaluate}
use rampart.Store.{Store, ok}
use rampart.Store.Catalog.{list_components, list_sboms_by_component}
use rampart.Api.{Env}
use rampart.Api.Lookup.{forward_match, pair_for}
use rampart.Api.Lookup.Forward.{WellFormed, Affected, forward_match-exact}
use rampart.Forward.Calm.{Calm}
use rampart.Forward.{Scanned, scan_sboms, scan_one, scan_components, scan_listed, forward_scan}

-- A component is registered under this reference.
abbrev pub Registered : Store → Text → Type 0
Registered s ref = (c : Component) × In c (values s.components) × (c.ref ≡ ref)

module _ (semver : Semver) (i : Ioc) where
  abbrev Hits : List Sbom → Type 0
  Hits bs = (b : Sbom) × In b bs × ((evaluate semver i b).matched ≡ true)

  -- The pairs are those of the components that have matched, each once.
  record Tracks (acc : Scanned) : Type 0 where
    same : (r : Text) → In r acc.seen ↔ In r acc.matched
    pairs_eq : acc.pairs ≡ map (pair_for semver i.id) acc.matched
    distinct : NoRepeat acc.matched

  abbrev added : Text → Scanned → Scanned
  added ref acc = record {
    seen = ref ∷ acc.seen;
    pairs = acc.pairs ++ pair_for semver i.id ref ∷ [];
    matched = acc.matched ++ ref ∷ [];
  }

  scan_sboms_cases {ℓ} :
      (P : Scanned → Type ℓ) (ref : Text) (bs : List Sbom) (acc : Scanned)
      → (¬ Hits bs → P acc)
      → (In ref acc.seen → P acc)
      → (Hits bs → ¬ In ref acc.seen → P (added ref acc))
      → P (scan_sboms semver i ref bs acc)
  unfolding scan_sboms
  scan_sboms_cases P ref [] acc miss_all dup new = miss_all (λ h. h.1)
  scan_sboms_cases P ref (b ∷ bs) acc miss_all dup new =
      elim (Bool-cases (evaluate semver i b).matched) [
        | inr miss ↦ rw miss (
            scan_sboms_cases P ref bs acc
              (λ none_left. miss_all (λ (x, m, hit). elim m [
                | inl e ↦ cc (miss, hit, e)
                | inr later ↦ none_left (x, later, hit)
              ]))
              dup (λ (x, m, hit) fresh. new (x, inr m, hit) fresh))
        | inl hit ↦ elim (Bool-cases (contains acc.seen ref)) [
          | inl seen ↦
              rw (hit, seen)
                (scan_sboms_cases P ref bs acc (λ _. dup ((contains_iff acc.seen ref).0 seen)) dup
                  (λ _ fresh. absurd (fresh ((contains_iff acc.seen ref).0 seen))))
          | inr fresh ↦
              rw (hit, fresh)
                (new (b, inl refl, hit) (λ m. cc (fresh, (contains_iff acc.seen ref).1 m)))
        ]
      ]

  Tracks-scan_sboms :
      (ref : Text) (bs : List Sbom) (acc : Scanned)
      → Tracks acc
      → Tracks (scan_sboms semver i ref bs acc)
  Tracks-scan_sboms ref bs acc t =
      scan_sboms_cases Tracks ref bs acc (λ _. t) (λ _. t)
        (λ hits fresh. record {
          same = λ r. (
            λ m. elim m [
              | inl e ↦ In-append_right acc.matched (ref ∷ []) r (inl e)
              | inr old ↦ In-append_left acc.matched (ref ∷ []) r ((t.same r).0 old)
            ],
            λ m. elim (In-append acc.matched (ref ∷ []) r m) [
              | inl old ↦ inr ((t.same r).1 old)
              | inr n ↦ elim n [ inl e ↦ inl e | inr never ↦ absurd never ]
            ],
          );
          pairs_eq = rw t.pairs_eq (sym (map-append (pair_for semver i.id) acc.matched (ref ∷ [])));
          distinct = NoRepeat-append acc.matched ref t.distinct (λ m. fresh ((t.same ref).1 m));
        })

  In-scan_sboms :
      (ref r : Text) (bs : List Sbom) (acc : Scanned)
      → Tracks acc
      → In r (scan_sboms semver i ref bs acc).matched ↔ (In r acc.matched ⊎ ((ref ≡ r) × Hits bs))
  In-scan_sboms ref r bs acc t =
      scan_sboms_cases (λ a. In r a.matched ↔ (In r acc.matched ⊎ ((ref ≡ r) × Hits bs))) ref bs acc
        (λ none_left.
          (λ m. inl m, λ h. elim h [ inl m ↦ m | inr (e, hits) ↦ absurd (none_left hits) ]))
        (λ seen.
          (λ m. inl m, λ h. elim h [ inl m ↦ m | inr (e, hits) ↦ rw e at ((t.same ref).0 seen) ]))
        (λ hits fresh. (
          λ m. elim (In-append acc.matched (ref ∷ []) r m) [
            | inl old ↦ inl old
            | inr n ↦ elim n [ inl e ↦ inr (sym e, hits) | inr never ↦ absurd never ]
          ],
          λ h. elim h [
            | inl old ↦ In-append_left acc.matched (ref ∷ []) r old
            | inr (e, _) ↦ In-append_right acc.matched (ref ∷ []) r (inl (sym e))
          ],
        ))

  module _ (env : Env) (calm : Calm env) (s : Store) where
    abbrev Found : List Component → Text → Type 0
    Found cs r =
        (c : Component) × In c cs
        × (c.ref ≡ r)
        × Hits (keep_if (λ b. b.component_ref == c.ref) (values s.sboms))

    -- What the loop over the components returns.
    abbrev Scans : List Component → Scanned → ℕ → Type 0
    Scans cs acc polls =
        (out : Scanned) × (polls' : ℕ) × (scan_components semver env s i cs acc polls
          ≡ (ok (out.pairs, out.matched), polls'))
        × Tracks out
        × ((r : Text) → In r out.matched ↔ (In r acc.matched ⊎ Found cs r))

    Hits-sort : (less : Sbom → Sbom → Bool) (bs : List Sbom) → Hits (sort_by less bs) ↔ Hits bs
    Hits-sort less bs = (
      λ (b, m, h). (b, (In-sort_by less b bs).0 m, h),
      λ (b, m, h). (b, (In-sort_by less b bs).1 m, h),
    )

    scan_components-Scans :
        (cs : List Component) (acc : Scanned) (polls : ℕ) → Tracks acc → Scans cs acc polls
    unfolding scan_components list_sboms_by_component scan_one
    scan_components-Scans [] acc polls t =
        (acc, polls, refl, t, λ r. (λ m. inl m, λ h. elim h [ inl m ↦ m | inr f ↦ absurd f.1 ]))
    scan_components-Scans (c ∷ cs) acc polls t =
        let less = λ (a b : Sbom). ltb a.generated_at b.generated_at in
        let mine = keep_if (λ (b : Sbom). b.component_ref == c.ref) (values s.sboms) in
        let acc' = scan_sboms semver i c.ref (sort_by less mine) acc in
        let t' = Tracks-scan_sboms c.ref (sort_by less mine) acc t in
        let (out, polls', e, t'', found) = scan_components-Scans cs acc' (polls + 1) t' in
        (
          out,
          polls',
          rw (calm polls, scan_one) e,
          t'',
          λ r.
              let here = In-scan_sboms c.ref r (sort_by less mine) acc t in
              (
                λ m. elim ((found r).0 m) [
                  | inl n ↦ elim (here.0 n) [
                    | inl old ↦ inl old
                    | inr (er, hits) ↦ inr (c, inl refl, er, (Hits-sort less mine).0 hits)
                  ]
                  | inr (d, n, er, hits) ↦ inr (d, inr n, er, hits)
                ],
                λ h. elim h [
                  | inl old ↦ (found r).1 (inl (here.1 (inl old)))
                  | inr (d, n, er, hits) ↦ elim n [
                    | inl same ↦ (found r).1 (
                        inl (
                          here.1 (
                            inr (
                              ap (λ (x : Component). x.ref) (sym same) ∙ er,
                              (Hits-sort less mine).1 (rw same at hits),
                            ))))
                    | inr later ↦ (found r).1 (inr (d, later, er, hits))
                  ]
                ],
              ),
        )

    Tracks-start : Tracks (record { seen = []; pairs = []; matched = [] })
    Tracks-start = record { same = λ r. (λ m. m, λ m. m); pairs_eq = refl; distinct = tt }

    Found-iff :
        (r : Text) → Found (values s.components) r ↔ (Registered s r × Affected semver s i r)
    Found-iff r = (
      λ (c, m, e, (b, kept, hit)).
          let (stored, owns) =
            (In-keep_if (λ (b : Sbom). b.component_ref == c.ref) (values s.sboms) b).0 kept in
          ((c, m, e), (b, stored, (eq_iff b.component_ref c.ref).0 owns ∙ e, hit)),
      λ ((c, m, e), (b, stored, eb, hit)). (
        c,
        m,
        e,
        (
          b,
          (In-keep_if (λ (b : Sbom). b.component_ref == c.ref) (values s.sboms) b).1
              (stored, (eq_iff b.component_ref c.ref).1 (eb ∙ sym e)),
          hit,
        ),
      ),
    )

    Found-sort :
        (less : Component → Component → Bool) (cs : List Component) (r : Text)
        → Found (sort_by less cs) r ↔ Found cs r
    Found-sort less cs r = (
      λ (c, m, e, h). (c, (In-sort_by less c cs).0 m, e, h),
      λ (c, m, e, h). (c, (In-sort_by less c cs).1 m, e, h),
    )

    -- While the request is not cancelled the scan returns exactly the registered components with a
    -- stored SBOM on which Evaluate matches, each once, with one pair for each.
    pub forward_scan-exact :
        (polls : ℕ)
        → (refs : List Text) × (polls' : ℕ) × (forward_scan semver env s i polls
            ≡ (ok (map (pair_for semver i.id) refs, refs), polls'))
          × NoRepeat refs
          × ((ref : Text) → In ref refs ↔ (Registered s ref × Affected semver s i ref))
    unfolding forward_scan list_components scan_listed
    forward_scan-exact polls =
        let less = λ (a b : Component). text_lt a.ref b.ref in
        let cs = sort_by less (values s.components) in
        let (out, polls', e, t, found) =
          scan_components-Scans cs (record { seen = []; pairs = []; matched = [] }) (polls + 1)
            Tracks-start in
        (
          out.matched,
          polls',
          rw (calm polls, scan_listed) (e ∙ ap (λ ps. (ok (ps, out.matched), polls')) t.pairs_eq),
          t.distinct,
          λ r.
              let order = Found-sort less (values s.components) r in
              let sound = Found-iff r in
              (
                λ m. elim ((found r).0 m) [
                  | inl never ↦ absurd never
                  | inr f ↦ sound.0 (order.0 f)
                ],
                λ h. (found r).1 (inr (order.1 (sound.1 h))),
              ),
        )

-- The two forward matches of the engine agree: while the request is not cancelled, for an IoC that
-- names an ecosystem, and stored SBOMs that are well-formed and belong to registered components, the
-- scan of this package and the bulk lookup of the api package return the same components.
pub forward_scan-forward_match :
    (semver : Semver) (env : Env) (s : Store) (i : Ioc) (polls : ℕ)
    → Calm env
    → i.ecosystem ≢ []
    → ((b : Sbom) → In b (values s.sboms) → WellFormed b)
    → ((b : Sbom) → In b (values s.sboms) → Registered s b.component_ref)
    → (xs ys : List Text) × (polls' : ℕ) × (forward_scan semver env s i polls
        ≡ (ok (map (pair_for semver i.id) xs, xs), polls'))
      × (forward_match semver s none i ≡ ok (map (pair_for semver i.id) ys, ys))
      × NoRepeat xs
      × NoRepeat ys
      × ((ref : Text) → In ref xs ↔ In ref ys)
forward_scan-forward_match semver env s i polls calm ne wf owned =
    let (xs, polls', ex, dx, exact) = forward_scan-exact semver i env calm s polls in
    let (ys, ey, dy, bulk) = forward_match-exact semver s i ne wf in
    (
      xs,
      ys,
      polls',
      ex,
      ey,
      dx,
      dy,
      λ ref. (
        λ m. (bulk ref).1 ((exact ref).0 m).1,
        λ m.
            let (b, stored, e, hit) = (bulk ref).0 m in
            (exact ref).1 (rw e at (owned b stored), (b, stored, e, hit)),
      ),
    )
