-- ===== src/Api/Lookup/Rows.antt =====
-- The rows of Storage.ListSBOMPackages and the loop of matchPackagesAgainstIoC over them.
use rampart.Base.{
  ◌≡◌, refl, sym, ◌↔◌, ◌⊎◌, inl, inr, true, false, List, [], ◌∷◌, ◌++◌, arith, Text, ◌==◌, eq_iff,
  ne_of_eq_false, Text-eq, ℕ-eq, contains, contains_iff, In, Bool-cases, In-append, NoRepeat,
  In-append_right, In-append_left, NoRepeat-append,
}
use rampart.Domain.Package.{PackageVersion, Sbom, SbomPackageRef}
use rampart.Domain.Ioc.{Ioc}
use rampart.Matcher.{Semver, evaluate}
use rampart.Store.Catalog.{rows_of, package_rows}
use rampart.Api.Lookup.{Seen, synthetic, collect_row, collect_rows}

-- The row is a package of this name in the SBOM.
abbrev pub RowOf : Text → Sbom → SbomPackageRef → Type 0
RowOf name b r = (r.component_ref ≡ b.component_ref) × In r.pkg b.packages × (r.pkg.name ≡ name)

In-rows_of :
    (component name : Text) (ps : List PackageVersion) (r : SbomPackageRef)
    → In r (rows_of component name ps)
      ↔ ((r.component_ref ≡ component) × In r.pkg ps × (r.pkg.name ≡ name))
unfolding rows_of
In-rows_of component name [] r = (λ m. absurd m, λ h. absurd h.1)
In-rows_of component name (p ∷ ps) r = elim (Bool-cases (p.name == name)) [
  | inl same ↦ rw same (
    λ m. ground (arith, In-rows_of component name ps r, eq_iff p.name name),
    λ h. ground (arith, In-rows_of component name ps r, eq_iff p.name name),
  )
  | inr other ↦ rw other (
    λ m. ground (arith, In-rows_of component name ps r),
    λ h. ground (arith, In-rows_of component name ps r, ne_of_eq_false p.name name other),
  )
]

pub In-package_rows :
    (ecosystem name : Text) (bs : List Sbom) (r : SbomPackageRef)
    → In r (package_rows ecosystem name bs)
      ↔ ((b : Sbom) × In b bs × (b.ecosystem ≡ ecosystem) × RowOf name b r)
unfolding package_rows
In-package_rows ecosystem name [] r = (λ m. absurd m, λ h. absurd h.1)
In-package_rows ecosystem name (x ∷ bs) r = elim (Bool-cases (x.ecosystem == ecosystem)) [
  | inl same ↦ rw same (
    λ m.
        elim (In-append (rows_of x.component_ref name x.packages) (package_rows ecosystem name bs) r
          m) [
            | inl here ↦ (
              x,
              inl refl,
              (eq_iff x.ecosystem ecosystem).0 same,
              (In-rows_of x.component_ref name x.packages r).0 here,
            )
            | inr later ↦
                let (b, n, e, h) = (In-package_rows ecosystem name bs r).0 later in (b, inr n, e, h)
          ],
    λ (b, n, e, h). elim n [
      | inl eq ↦
          In-append_left (rows_of x.component_ref name x.packages) (package_rows ecosystem name bs)
            r ((In-rows_of x.component_ref name x.packages r).1 (rw eq at h))
      | inr later ↦
          In-append_right (rows_of x.component_ref name x.packages) (package_rows ecosystem name bs)
            r ((In-package_rows ecosystem name bs r).1 (b, later, e, h))
    ],
  )
  | inr other ↦ rw other (
    λ m. let (b, n, e, h) = (In-package_rows ecosystem name bs r).0 m in (b, inr n, e, h),
    λ (b, n, e, h). elim n [
      | inl eq ↦ absurd (ne_of_eq_false x.ecosystem ecosystem other (rw eq at e))
      | inr later ↦ (In-package_rows ecosystem name bs r).1 (b, later, e, h)
    ],
  )
]

-- What the loop of matchPackagesAgainstIoC has seen is what it gives out, each once.
pub record Once (acc : Seen) : Type 0 where
  pub same : (r : Text) → In r acc.seen ↔ In r acc.out
  pub distinct : NoRepeat acc.out

-- The row fires, on its own.
abbrev pub Hit : Semver → Ioc → Text → List SbomPackageRef → Text → Type 0
Hit semver i ecosystem rows ref =
    (row : SbomPackageRef) × In row rows
    × (row.component_ref ≡ ref)
    × ((evaluate semver i (synthetic ecosystem row.pkg)).matched ≡ true)

module _ (semver : Semver) (i : Ioc) (ecosystem : Text) where
  collect_row_cases {ℓ} :
      (P : Seen → Type ℓ) (row : SbomPackageRef) (acc : Seen)
      → (In row.component_ref acc.seen → P acc)
      → ((evaluate semver i (synthetic ecosystem row.pkg)).matched ≡ false → P acc)
      → (¬ In row.component_ref acc.seen
          → (evaluate semver i (synthetic ecosystem row.pkg)).matched ≡ true
          → P (record {
            seen = row.component_ref ∷ acc.seen;
            out = acc.out ++ row.component_ref ∷ [];
          }))
      → P (collect_row semver i ecosystem row acc)
  unfolding collect_row
  collect_row_cases P row acc dup miss hit =
      elim (Bool-cases (contains acc.seen row.component_ref)) [
        | inl seen ↦ rw seen (dup ((contains_iff acc.seen row.component_ref).0 seen))
        | inr unseen ↦ elim (Bool-cases (evaluate semver i (synthetic ecosystem row.pkg)).matched) [
          | inl good ↦
              rw (unseen, good)
                (hit (λ m. absurd (ground (arith, contains_iff acc.seen row.component_ref))) good)
          | inr bad ↦ rw (unseen, bad) (miss bad)
        ]
      ]

  Once-collect_row :
      (row : SbomPackageRef) (acc : Seen) → Once acc → Once (collect_row semver i ecosystem row acc)
  Once-collect_row row acc o =
      collect_row_cases Once row acc (λ seen. o) (λ bad. o)
        (λ unseen good. record {
          same = λ r. (
            λ m. elim m [
              | inl e ↦ In-append_right acc.out (row.component_ref ∷ []) r (inl e)
              | inr n ↦ In-append_left acc.out (row.component_ref ∷ []) r ((o.same r).0 n)
            ],
            λ m. elim (In-append acc.out (row.component_ref ∷ []) r m) [
              | inl n ↦ inr ((o.same r).1 n)
              | inr n ↦ ground arith
            ],
          );
          distinct =
              NoRepeat-append acc.out row.component_ref o.distinct
                (λ m. unseen ((o.same row.component_ref).1 m));
        })

  In-collect_row :
      (row : SbomPackageRef) (acc : Seen) (ref : Text)
      → Once acc
      → In ref (collect_row semver i ecosystem row acc).out ↔ (
          In ref acc.out
          ⊎ ((row.component_ref ≡ ref)
              × ((evaluate semver i (synthetic ecosystem row.pkg)).matched ≡ true)))
  In-collect_row row acc ref o =
      collect_row_cases
        (λ a. In ref a.out ↔ (
          In ref acc.out
          ⊎ ((row.component_ref ≡ ref)
              × ((evaluate semver i (synthetic ecosystem row.pkg)).matched ≡ true))))
        row acc
        (λ seen. (
          λ m. inl m,
          λ h. elim h [ inl m ↦ m | inr (e, hit) ↦ rw e at ((o.same row.component_ref).0 seen) ],
        ))
        (λ bad. (λ m. inl m, λ h. elim h [ inl m ↦ m | inr (e, hit) ↦ absurd (cc (bad, hit)) ]))
        (λ unseen good. (
          λ m. elim (In-append acc.out (row.component_ref ∷ []) ref m) [
            | inl old ↦ inl old
            | inr n ↦ elim n [ inl e ↦ inr (sym e, good) | inr never ↦ absurd never ]
          ],
          λ h. elim h [
            | inl m ↦ In-append_left acc.out (row.component_ref ∷ []) ref m
            | inr (e, hit) ↦ In-append_right acc.out (row.component_ref ∷ []) ref (inl (sym e))
          ],
        ))

  pub In-collect_rows :
      (rows : List SbomPackageRef) (acc : Seen) (ref : Text)
      → Once acc
      → In ref (collect_rows semver i ecosystem rows acc).out
        ↔ (In ref acc.out ⊎ Hit semver i ecosystem rows ref)
  unfolding collect_rows
  In-collect_rows [] acc ref o = (λ m. inl m, λ h. elim h [ inl m ↦ m | inr h ↦ absurd h.1 ])
  In-collect_rows (row ∷ rows) acc ref o =
      let next =
        In-collect_rows rows (collect_row semver i ecosystem row acc) ref
          (Once-collect_row row acc o) in
      let here = In-collect_row row acc ref o in
      (
        λ m. elim (next.0 m) [
          | inl n ↦ elim (here.0 n) [
            | inl old ↦ inl old
            | inr (e, hit) ↦ inr (row, inl refl, e, hit)
          ]
          | inr (r, n, e, h) ↦ inr (r, inr n, e, h)
        ],
        λ h. elim h [
          | inl old ↦ next.1 (inl (here.1 (inl old)))
          | inr (r, n, e, hit) ↦ elim n [
            | inl same ↦ next.1 (inl (here.1 (inr (rw same at e, rw same at hit))))
            | inr later ↦ next.1 (inr (r, later, e, hit))
          ]
        ],
      )

  pub Once-collect_rows :
      (rows : List SbomPackageRef) (acc : Seen)
      → Once acc
      → Once (collect_rows semver i ecosystem rows acc)
  unfolding collect_rows
  Once-collect_rows [] acc o = o
  Once-collect_rows (row ∷ rows) acc o =
      Once-collect_rows rows (collect_row semver i ecosystem row acc) (Once-collect_row row acc o)

pub Once-start : Once (record { seen = []; out = [] })
Once-start = record { same = λ r. (λ m. m, λ m. m); distinct = tt }
