-- ===== src/Parsers/Npm/Named.antt =====
-- What the parser of engine/sbom/npm/parser.go promises to the matcher.
use rampart.Base.{
  ℕ, ◌≡◌, refl, sym, ap, ◌∙◌, ◌≢◌, inl, inr, false, none, some, [], ◌∷◌, arith, Text, bytes, ◌==◌,
  eq_iff, Text-eq, ℕ-eq, In, Bool-cases, Option-cases,
}
use rampart.Base.Assoc.{Assoc}
use rampart.Base.Int.{ℤ, pos, negsuc}
use rampart.Base.Sort.{sort_by, In-sort_by}
use rampart.Domain.Incident.{Time}
use rampart.Domain.Package.{PackageVersion, ParsedSbom}
use rampart.Api.Lookup.Forward.{WellFormed}
use rampart.Api.Handlers.Sbom.{ingest}
use rampart.Parsers.Gomod.{pair_less}
use rampart.Parsers.Npm.{
  LockPackage, marker, should_skip, after_last, extract_name, packages_of, parse,
}

-- No path of the document ends right after "node_modules/".
abbrev pub Named : Assoc Text LockPackage → Type 0
Named m = (a : Text × LockPackage) → In a m → after_last marker a.0 ≢ some []

extract_name-Named :
    (path : Text) (entry : LockPackage)
    → should_skip path entry ≡ false
    → after_last marker path ≢ some []
    → extract_name path ≢ []
unfolding extract_name should_skip
extract_name-Named path entry kept named e = elim (Option-cases (after_last marker path)) [
  | inr (name, hit) ↦ named (hit ∙ ap some (rw (hit, extract_name) at e))
  | inl miss ↦ absurd (ground (arith, kept, eq_iff path [], rw (miss, extract_name) at e))
]

packages_of-Named :
    (m : Assoc Text LockPackage) (p : PackageVersion)
    → Named m
    → In p (packages_of m)
    → (p.ecosystem ≡ bytes "npm") × (p.name ≢ [])
unfolding packages_of
packages_of-Named [] p named here = absurd here
packages_of-Named ((path, entry) ∷ m) p named here = elim (Bool-cases (should_skip path entry)) [
  | inl skipped ↦ packages_of-Named m p (λ a n. named a (inr n)) (rw skipped at here)
  | inr kept ↦ elim (Bool-cases (entry.version == [])) [
    | inl unversioned ↦
        packages_of-Named m p (λ a n. named a (inr n)) (rw (kept, unversioned) at here)
    | inr versioned ↦ elim (rw (kept, versioned) at here) [
      | inl e ↦ rw e (refl, extract_name-Named path entry kept (named (path, entry) (inl refl)))
      | inr later ↦ packages_of-Named m p (λ a n. named a (inr n)) later
    ]
  ]
]

-- What the npm parser accepts becomes, by Ingest, an SBOM that the bulk lookup of forwardMatch finds
-- completely: if no path of the document ends right after "node_modules/", all packages are named and of
-- the SBOM's ecosystem, which is not empty and holds no colon.
pub parse-WellFormed :
    (version : ℤ) (m : Assoc Text LockPackage) (size : ℕ) (p : ParsedSbom) (ref sha id : Text)
    (now : Time)
    → Named m
    → parse none (some (record { lockfile_version = version; packages = some m })) size ≡ inr p
    → WellFormed (ingest p ref sha id now)
unfolding parse ingest
parse-WellFormed (negsuc n) m size p ref sha id now named e = absurd (cc e)
parse-WellFormed (pos n) m size p ref sha id now named e = elim (Bool-cases (n == 3)) [
  | inr other ↦ absurd (cc (rw (parse, other) at e))
  | inl three ↦
      let less = λ (p q : PackageVersion). pair_less (p.name, p.version) (q.name, q.version) in
      let read : ParsedSbom = record {
        ecosystem = bytes "npm";
        packages = sort_by less (packages_of m);
        source_format = bytes "npm-package-lock-v3";
        source_bytes = size;
      } in
      let same : read ≡ p = cc (rw (parse, three) at e) in
      rw (sym same) (record {
        named = λ h. cc h;
        plain = ground arith;
        shared = λ q here. packages_of-Named m q named ((In-sort_by less q (packages_of m)).0 here);
      })
]
