-- ===== src/Api/Lookup/Forward.antt =====
-- forwardMatch of engine/internal/api/matching.go against the matcher run on every stored SBOM.
use rampart.Base.{
  ◌≡◌, refl, sym, ◌∙◌, ◌≢◌, ◌↔◌, inl, inr, Bool, true, none, some, List, [], map, Text, eq_false,
  Text-eq, ℕ-eq, In, Option-cases, NoRepeat,
}
use rampart.Base.Strings.{cut, Lacks, cut-append}
use rampart.Base.Assoc.{values}
use rampart.Base.Sort.{In-sort_by, sort_by}
use rampart.Domain.Package.{PackageVersion, Sbom, SbomPackageRef}
use rampart.Domain.Ioc.{Ioc, IocKind}
use rampart.Matcher.{Semver, evaluate}
use rampart.Matcher.Predicate.{Agree, Indicates, Fires, evaluate-matched}
use rampart.Store.{Store, ok}
use rampart.Store.Catalog.{list_sbom_packages, package_rows, row_less}
use rampart.Api.Lookup.{
  synthetic, pair_for, ioc_lookup_key, key_by, version_key, range_key, anomaly_key, split_ref,
  forward_match, forward_key, forward_rows, match_packages_against_ioc,
}
use rampart.Api.Lookup.Rows.{Hit, In-collect_rows, Once-collect_rows, Once-start, In-package_rows}

-- What the parsers and the ingestion give: an ecosystem that all packages share.
pub record WellFormed (b : Sbom) : Type 0 where
  pub named : b.ecosystem ≢ []
  pub plain : Lacks b':' b.ecosystem
  pub shared : (p : PackageVersion) → In p b.packages → (p.ecosystem ≡ b.ecosystem) × (p.name ≢ [])

ecosystem_of_sbom :
    (i : Ioc) (b : Sbom)
    → i.ecosystem ≢ []
    → WellFormed b
    → Agree b.ecosystem i.ecosystem
    → i.ecosystem ≡ b.ecosystem
ecosystem_of_sbom i b ne wf (inl e) = absurd (wf.named e)
ecosystem_of_sbom i b ne wf (inr (inl e)) = absurd (ne e)
ecosystem_of_sbom i b ne wf (inr (inr e)) = sym e

module _ (semver : Semver) where
  key_by-fires :
      (k : IocKind) (i : Ioc) (b : Sbom) (p : PackageVersion)
      → i.ecosystem ≢ []
      → WellFormed b
      → Agree b.ecosystem i.ecosystem
      → In p b.packages
      → Indicates semver k i p
      → key_by k i ≡ some (b.ecosystem, p.name)
  unfolding key_by version_key range_key anomaly_key split_ref
  key_by-fires IocKind.package_version i b p ne wf ag m (x, e, en, ev) =
      rw (e, version_key, ecosystem_of_sbom i b ne wf ag, en) refl
  key_by-fires IocKind.package_range i b p ne wf ag m (x, c, v, e, ec, en, ev, good) =
      rw (e, range_key, ecosystem_of_sbom i b ne wf ag, en) refl
  key_by-fires IocKind.publisher_anomaly i b p ne wf ag m (x, e, nx, er) =
      let (same, named) = wf.shared p m in
      let parts : cut b':' x.package_ref ≡ some (b.ecosystem, p.name) =
        rw (sym er, same) (cut-append b':' b.ecosystem p.name wf.plain) in
      rw
        (
          e,
          anomaly_key,
          parts,
          split_ref,
          eq_false b.ecosystem [] wf.named,
          eq_false p.name [] named,
        )
        refl
  key_by-fires (IocKind.other k) i b p ne wf ag m h = absurd h

  fires_one :
      (i : Ioc) (ecosystem : Text) (p : PackageVersion)
      → ((evaluate semver i (synthetic ecosystem p)).matched ≡ true)
        ↔ (Agree ecosystem i.ecosystem × Indicates semver i.kind i p)
  fires_one i ecosystem p =
      let this = evaluate-matched semver i (synthetic ecosystem p) in
      (
        λ h.
            let (q, (ag, m, ind)) = this.0 h in
            (ag, elim m [ inl e ↦ rw e at ind | inr never ↦ absurd never ]),
        λ h. this.1 (p, (h.0, inl refl, h.1)),
      )

  -- The component has a stored SBOM that the IoC matches.
  abbrev pub Affected : Store → Ioc → Text → Type 0
  Affected s i ref =
      (b : Sbom) × In b (values s.sboms)
      × (b.component_ref ≡ ref)
      × ((evaluate semver i b).matched ≡ true)

  affected_key :
      (i : Ioc) (b : Sbom)
      → i.ecosystem ≢ []
      → WellFormed b
      → (evaluate semver i b).matched ≡ true
      → (p : PackageVersion) × Fires semver i b p × (ioc_lookup_key i ≡ some (b.ecosystem, p.name))
  unfolding ioc_lookup_key
  affected_key i b ne wf h =
      let (p, f) = (evaluate-matched semver i b).0 h in
      (p, f, key_by-fires i.kind i b p ne wf f.0 f.1 f.2)

  -- A hit among the rows of one ecosystem and name is a match of a stored SBOM, and conversely.
  Hit-iff :
      (i : Ioc) (bs : List Sbom) (ecosystem name ref : Text)
      → Hit semver i ecosystem (package_rows ecosystem name bs) ref ↔ (
          (b : Sbom) × (p : PackageVersion) × In b bs
          × (b.component_ref ≡ ref)
          × (b.ecosystem ≡ ecosystem)
          × (p.name ≡ name)
          × Fires semver i b p)
  Hit-iff i bs ecosystem name ref = (
    λ (row, m, er, hit).
        let (b, n, e, (eb, inside, en)) = (In-package_rows ecosystem name bs row).0 m in
        let (ag, ind) = (fires_one i ecosystem row.pkg).0 hit in
        (b, row.pkg, n, sym eb ∙ er, e, en, (rw e ag, inside, ind)),
    λ (b, p, n, er, e, en, (ag, inside, ind)). (
      record { component_ref = b.component_ref; pkg = p },
      (In-package_rows ecosystem name bs (record { component_ref = b.component_ref; pkg = p })).1
          (b, n, e, (refl, inside, en)),
      er,
      (fires_one i ecosystem p).1 (rw e at ag, ind),
    ),
  )

  Hit-sorted :
      (i : Ioc) (less : SbomPackageRef → SbomPackageRef → Bool) (rows : List SbomPackageRef)
      (ecosystem ref : Text)
      → Hit semver i ecosystem (sort_by less rows) ref ↔ Hit semver i ecosystem rows ref
  Hit-sorted i less rows ecosystem ref = (
    λ (row, m, e, h). (row, (In-sort_by less row rows).0 m, e, h),
    λ (row, m, e, h). (row, (In-sort_by less row rows).1 m, e, h),
  )

  found_iff :
      (i : Ioc) (rows : List SbomPackageRef) (ecosystem ref : Text)
      → In ref (match_packages_against_ioc semver i ecosystem rows)
        ↔ Hit semver i ecosystem rows ref
  unfolding match_packages_against_ioc
  found_iff i rows ecosystem ref =
      let found =
        In-collect_rows semver i ecosystem rows (record { seen = []; out = [] }) ref Once-start in
      (λ m. elim (found.0 m) [ inl never ↦ absurd never | inr h ↦ h ], λ h. found.1 (inr h))

  found-NoRepeat :
      (i : Ioc) (rows : List SbomPackageRef) (ecosystem : Text)
      → NoRepeat (match_packages_against_ioc semver i ecosystem rows)
  unfolding match_packages_against_ioc
  found-NoRepeat i rows ecosystem =
      (Once-collect_rows semver i ecosystem rows (record { seen = []; out = [] })
        Once-start).distinct

  Hit-Affected :
      (s : Store) (i : Ioc) (ecosystem name ref : Text)
      → i.ecosystem ≢ []
      → ((b : Sbom) → In b (values s.sboms) → WellFormed b)
      → ioc_lookup_key i ≡ some (ecosystem, name)
      → Hit semver i ecosystem (package_rows ecosystem name (values s.sboms)) ref ↔ Affected s i ref
  Hit-Affected s i ecosystem name ref ne wf key = (
    λ h.
        let (b, p, m, er, e, en, f) = (Hit-iff i (values s.sboms) ecosystem name ref).0 h in
        (b, m, er, (evaluate-matched semver i b).1 (p, f)),
    λ (b, m, er, hit).
        let (p, f, same) = affected_key i b ne (wf b m) hit in
        (Hit-iff i (values s.sboms) ecosystem name ref).1
          (b, p, m, er, cc (key, same), cc (key, same), f),
  )

  -- While the request is not cancelled, for an IoC that names an ecosystem and stored SBOMs that are
  -- well-formed, forwardMatch returns
  -- exactly the components that have a stored SBOM on which Evaluate matches, each once, with one
  -- pair for each: the lookup by ecosystem and name misses nothing that a full scan would find.
  pub forward_match-exact :
      (s : Store) (i : Ioc)
      → i.ecosystem ≢ []
      → ((b : Sbom) → In b (values s.sboms) → WellFormed b)
      → (refs : List Text) × (forward_match semver s none i
          ≡ ok (map (pair_for semver i.id) refs, refs))
        × NoRepeat refs
        × ((ref : Text) → In ref refs ↔ Affected s i ref)
  unfolding forward_match list_sbom_packages
  forward_match-exact s i ne wf = elim (Option-cases (ioc_lookup_key i)) [
    | inl nokey ↦
        rw (nokey, forward_key)
          (
            [],
            refl,
            tt,
            λ ref. (
              λ m. absurd m,
              λ (b, m, er, hit).
                  let (p, f, key) = affected_key i b ne (wf b m) hit in absurd (cc (nokey, key)),
            ),
          )
    | inr ((ecosystem, name), key) ↦
        let rows = package_rows ecosystem name (values s.sboms) in
        let sorted = sort_by row_less rows in
        rw (key, forward_key, forward_rows)
          (
            match_packages_against_ioc semver i ecosystem sorted,
            refl,
            found-NoRepeat i sorted ecosystem,
            λ ref.
                let found = found_iff i sorted ecosystem ref in
                let order = Hit-sorted i row_less rows ecosystem ref in
                let exact = Hit-Affected s i ecosystem name ref ne wf key in
                (λ m. exact.0 (order.0 (found.0 m)), λ a. found.1 (order.1 (exact.1 a))),
          )
  ]
