-- ===== src/Matcher/Predicate.antt =====
-- What an IoC says of one package, and that Evaluate collects exactly those packages.
use rampart.Base.{
  ◌≡◌, refl, sym, ◌∙◌, ◌≢◌, ◌↔◌, ◌⊎◌, inl, inr, Bool, true, false, not, ◌&&◌, Option, none, some,
  List, [], ◌∷◌, arith, Text, ◌==◌, eq_iff, ne_of_eq_false, Text-eq, ℕ-eq, In, length, ltb,
  Bool-cases, Option-cases, In-keep_if,
}
use rampart.Domain.Package.{PackageVersion, Sbom}
use rampart.Domain.Ioc.{Ioc, IocKind, IocPackageVersion, IocPackageRange, IocBodyAnomaly}
use rampart.Matcher.{
  Semver, package_ref, evaluate_anomaly_body, evaluate_package_version, evaluate_package_range,
  with_constraint, evaluate_kind, evaluate, hits_version, hits_anomaly, hits_range,
}

-- Neither side names an ecosystem other than the other's.
abbrev pub Agree : Text → Text → Type 0
Agree a b = (a ≡ []) ⊎ (b ≡ []) ⊎ (a ≡ b)

module _ (semver : Semver) where
  open semver use {Version, Constraint, new_version, new_constraint, check}

  -- The package is the one that the IoC indicates: by name and version, by name and a satisfied
  -- constraint, or by ecosystem and name.
  abbrev pub Indicates : IocKind → Ioc → PackageVersion → Type 0
  Indicates IocKind.package_version i p =
      (b : IocPackageVersion) × (i.version_body ≡ some b)
      × (p.name ≡ b.name)
      × (p.version ≡ b.version)
  Indicates IocKind.package_range i p =
      (b : IocPackageRange) × (c : Constraint) × (v : Version) × (i.range_body ≡ some b)
      × (new_constraint b.constraint ≡ some c)
      × (p.name ≡ b.name)
      × (new_version p.version ≡ some v)
      × (check c v ≡ true)
  Indicates IocKind.publisher_anomaly i p =
      (b : IocBodyAnomaly) × (i.anomaly_body ≡ some b)
      × (b.package_ref ≢ [])
      × (package_ref p ≡ b.package_ref)
  Indicates (IocKind.other k) i p = ⊥

  -- The IoC fires on a package of the SBOM.
  abbrev pub Fires : Ioc → Sbom → PackageVersion → Type 0
  Fires i s p = Agree s.ecosystem i.ecosystem × In p s.packages × Indicates i.kind i p

  version_hits :
      (o : Option IocPackageVersion) (s : Sbom) (p : PackageVersion)
      → In p (evaluate_package_version o s).packages ↔ (
          In p s.packages
          × ((b : IocPackageVersion) × (o ≡ some b) × (p.name ≡ b.name) × (p.version ≡ b.version)))
  unfolding evaluate_package_version
  version_hits none s p = (λ h. absurd h, λ h. absurd (cc h.1.1))
  version_hits (some b) s p = (
    λ m.
        let (inside, test) = (In-keep_if (hits_version b) s.packages p).0 m in
        (
          inside,
          (
            b,
            refl,
            ground (arith, eq_iff p.name b.name),
            ground (arith, eq_iff p.version b.version),
          ),
        ),
    λ h.
        let (x, e, en, ev) = h.1 in
        (In-keep_if (hits_version b) s.packages p).1
          (h.0, ground (arith, e, en, ev, eq_iff p.name b.name, eq_iff p.version b.version)),
  )

  anomaly_hits :
      (o : Option IocBodyAnomaly) (s : Sbom) (p : PackageVersion)
      → In p (evaluate_anomaly_body o s).packages ↔ (
          In p s.packages
          × ((b : IocBodyAnomaly) × (o ≡ some b)
              × (b.package_ref ≢ [])
              × (package_ref p ≡ b.package_ref)))
  unfolding evaluate_anomaly_body
  anomaly_hits none s p = (λ h. absurd h, λ h. absurd (cc h.1.1))
  anomaly_hits (some b) s p = elim (Bool-cases (b.package_ref == [])) [
    | inl empty ↦
        rw empty
          (λ m. absurd m, λ h. absurd (h.1.2 (cc (h.1.1, (eq_iff b.package_ref []).0 empty))))
    | inr filled ↦ rw filled (
      λ m.
          let (inside, test) = (In-keep_if (hits_anomaly b.package_ref) s.packages p).0 m in
          (
            inside,
            (
              b,
              refl,
              ne_of_eq_false b.package_ref [] filled,
              (eq_iff (package_ref p) b.package_ref).0 test,
            ),
          ),
      λ h.
          let (x, e, ne, er) = h.1 in
          (In-keep_if (hits_anomaly b.package_ref) s.packages p).1
            (h.0, ground (arith, e, er, eq_iff (package_ref p) b.package_ref)),
    )
  ]

  range_test :
      (b : IocPackageRange) (c : Constraint) (p : PackageVersion)
      → hits_range semver b c p ≡ true
      → (v : Version) × (p.name ≡ b.name) × (new_version p.version ≡ some v) × (check c v ≡ true)
  range_test b c p h = elim (Option-cases (new_version p.version)) [
    | inl e ↦ absurd (ground arith)
    | inr (v, e) ↦ (v, ground (arith, eq_iff p.name b.name), e, ground arith)
  ]

  range_test_intro :
      (b : IocPackageRange) (c : Constraint) (p : PackageVersion) (v : Version)
      → p.name ≡ b.name
      → new_version p.version ≡ some v
      → check c v ≡ true
      → hits_range semver b c p ≡ true
  range_test_intro b c p v en ev ok = ground (arith, eq_iff p.name b.name)

  range_hits :
      (o : Option IocPackageRange) (s : Sbom) (p : PackageVersion)
      → In p (evaluate_package_range semver o s).packages ↔ (
          In p s.packages
          × ((b : IocPackageRange) × (c : Constraint) × (v : Version) × (o ≡ some b)
              × (new_constraint b.constraint ≡ some c)
              × (p.name ≡ b.name)
              × (new_version p.version ≡ some v)
              × (check c v ≡ true)))
  unfolding evaluate_package_range
  range_hits none s p = (λ h. absurd h, λ h. absurd (cc h.1.3))
  range_hits (some b) s p = elim (Option-cases (new_constraint b.constraint)) [
    | inl bad ↦ rw (bad, with_constraint) (λ m. absurd m, λ h. absurd (cc (bad, h.1.3, h.1.4)))
    | inr (c, good) ↦
        rw (good, with_constraint)
          (
            λ m.
                let (inside, test) = (In-keep_if (hits_range semver b c) s.packages p).0 m in
                let (v, en, ev, ok) = range_test b c p test in
                (inside, (b, c, v, refl, good, en, ev, ok)),
            λ h.
                let (x, d, v, e, ed, en, ev, ok) = h.1 in
                (In-keep_if (hits_range semver b c) s.packages p).1
                  (h.0, range_test_intro b c p v (cc (e, en)) ev (cc (e, ed, good, ok))),
          )
  ]

  kind_hits :
      (k : IocKind) (i : Ioc) (s : Sbom) (p : PackageVersion)
      → In p (evaluate_kind semver k i s).packages ↔ (In p s.packages × Indicates k i p)
  unfolding evaluate_kind
  kind_hits IocKind.package_version i s p = version_hits i.version_body s p
  kind_hits IocKind.package_range i s p = range_hits i.range_body s p
  kind_hits IocKind.publisher_anomaly i s p = anomaly_hits i.anomaly_body s p
  kind_hits (IocKind.other k) i s p = (λ m. absurd m, λ h. absurd h.1)

  disagree : Ioc → Sbom → Bool
  disagree i s =
      not (s.ecosystem == []) && not (i.ecosystem == []) && not (s.ecosystem == i.ecosystem)

  disagree-false : (i : Ioc) (s : Sbom) → disagree i s ≡ false → Agree s.ecosystem i.ecosystem
  unfolding disagree
  disagree-false i s h =
      ground (arith, eq_iff s.ecosystem [], eq_iff i.ecosystem [], eq_iff s.ecosystem i.ecosystem)

  disagree-true : (i : Ioc) (s : Sbom) → disagree i s ≡ true → ¬ Agree s.ecosystem i.ecosystem
  unfolding disagree
  disagree-true i s h a =
      ground (arith, eq_iff s.ecosystem [], eq_iff i.ecosystem [], eq_iff s.ecosystem i.ecosystem)

  -- Evaluate reports exactly the packages of the SBOM that the IoC indicates, provided that the two
  -- name no different ecosystems, and none otherwise.
  pub evaluate-packages :
      (i : Ioc) (s : Sbom) (p : PackageVersion) → In p (evaluate semver i s).packages ↔ Fires i s p
  unfolding evaluate disagree
  evaluate-packages i s p = elim (Bool-cases (disagree i s)) [
    | inl d ↦ rw (d, evaluate) (λ m. absurd m, λ h. absurd (disagree-true i s d h.0))
    | inr d ↦
        rw (d, evaluate)
          (
            λ m.
                let (inside, ind) = (kind_hits i.kind i s p).0 m in
                (disagree-false i s d, inside, ind),
            λ h. (kind_hits i.kind i s p).1 (h.1, h.2),
          )
  ]

  flag_of_hits :
      (i : Ioc) (s : Sbom)
      → (evaluate semver i s).matched ≡ ltb 0 (length (evaluate semver i s).packages)
  unfolding evaluate evaluate_kind evaluate_package_version evaluate_package_range
      evaluate_anomaly_body
  flag_of_hits i s = ground arith

  some_hit : (ps : List PackageVersion) → ltb 0 (length ps) ≡ true → (p : PackageVersion) × In p ps
  some_hit [] h = absurd cc
  some_hit (p ∷ ps) h = (p, inl refl)

  hit_counts : (p : PackageVersion) (ps : List PackageVersion) → In p ps → ltb 0 (length ps) ≡ true
  hit_counts p [] m = absurd m
  hit_counts p (x ∷ ps) m = ground arith

  -- An IoC matches an SBOM exactly when it fires on one of its packages.
  pub evaluate-matched :
      (i : Ioc) (s : Sbom)
      → ((evaluate semver i s).matched ≡ true) ↔ ((p : PackageVersion) × Fires i s p)
  evaluate-matched i s = (
    λ h.
        let (p, m) = some_hit (evaluate semver i s).packages (sym (flag_of_hits i s) ∙ h) in
        (p, (evaluate-packages i s p).0 m),
    λ f.
        flag_of_hits i s
        ∙ hit_counts f.0 (evaluate semver i s).packages ((evaluate-packages i s f.0).1 f.1),
  )
