-- ===== src/Api/Lookup.antt =====
-- engine/internal/api/matching.go: the pairs of an IoC and a component that a new SBOM
-- (retroactiveMatch) or a new IoC (forwardMatch) gives.
pub mod Rows
pub mod Forward
pub mod Retroactive
use rampart.Base.{
  ℕ, zero, suc, ◌+◌, ◌-◌, ◌*◌, ◌≤◌, ◌<◌, ◌≡◌, refl, sym, ap, ◌∙◌, ◌≢◌, ◌↔◌, ◌⊎◌, inl, inr, Bool,
  true, false, not, ◌&&◌, ◌||◌, Option, none, some, List, [], ◌∷◌, ◌++◌, map, arith, Text, bytes,
  String, Eq, ◌==◌, eq_iff, eq_refl, eq_false, ne_of_eq_false, Text-eq, ℕ-eq, contains,
  contains_iff, keep_if, In, All, length, take, if◌then◌else◌, ltb, leb, Bool-cases, Option-cases,
}
use rampart.Base.Strings.{cut}
use rampart.Domain.Package.{PackageVersion, Sbom, SbomPackageRef}
use rampart.Domain.Ioc.{Ioc, IocKind, IocPackageVersion, IocPackageRange, IocBodyAnomaly}
use rampart.Matcher.{Semver, evaluate}
use rampart.Store.{Store, StorageError, Result, ok, err}
use rampart.Store.Catalog.{list_sbom_packages, list_iocs}
use rampart.Api.Matching.{MatchPair}

version_key : Text → Option IocPackageVersion → Option (Text × Text)
version_key ecosystem none = none
version_key ecosystem (some b) = some (ecosystem, b.name)

range_key : Text → Option IocPackageRange → Option (Text × Text)
range_key ecosystem none = none
range_key ecosystem (some b) = some (ecosystem, b.name)

-- `idx <= 0 || idx == len(ref)-1`, on the text before and the text after the first colon.
unfoldable pub split_ref : Option (Text × Text) → Option (Text × Text)
split_ref none = none
split_ref (some (head, tail)) = if head == [] || tail == [] then none else some (head, tail)

anomaly_key : Option IocBodyAnomaly → Option (Text × Text)
unfolding split_ref
anomaly_key none = none
anomaly_key (some b) = split_ref (cut b':' b.package_ref)

key_by : IocKind → Ioc → Option (Text × Text)
unfolding version_key range_key anomaly_key
key_by IocKind.package_version i = version_key i.ecosystem i.version_body
key_by IocKind.package_range i = range_key i.ecosystem i.range_body
key_by IocKind.publisher_anomaly i = anomaly_key i.anomaly_body
key_by (IocKind.other k) i = none

-- iocLookupKey; `none` for ok=false.
unfoldable pub ioc_lookup_key : Ioc → Option (Text × Text)
unfolding key_by
ioc_lookup_key i = key_by i.kind i

-- The map `seen` and the slice `out` of matchPackagesAgainstIoC.
pub record Seen : Type 0 where
  pub seen : List Text
  pub out : List Text

-- `domain.SBOM{Ecosystem: ecosystem, Packages: []domain.PackageVersion{p.Package}}`
abbrev pub synthetic : Text → PackageVersion → Sbom
synthetic ecosystem p = record {
  id = [];
  component_ref = [];
  commit_sha = [];
  ecosystem = ecosystem;
  generated_at = 0;
  packages = p ∷ [];
  source_format = [];
  source_bytes = 0;
}

module _ (semver : Semver) where
  -- The body of the loop.
  unfoldable pub collect_row : Ioc → Text → SbomPackageRef → Seen → Seen
  collect_row i ecosystem row acc =
      if contains acc.seen row.component_ref
      then acc
      else if not (evaluate semver i (synthetic ecosystem row.pkg)).matched
      then acc
      else record { seen = row.component_ref ∷ acc.seen; out = acc.out ++ row.component_ref ∷ [] }

  unfoldable pub collect_rows : Ioc → Text → List SbomPackageRef → Seen → Seen
  collect_rows i ecosystem [] acc = acc
  collect_rows i ecosystem (row ∷ rows) acc =
      collect_rows i ecosystem rows (collect_row i ecosystem row acc)

  -- matchPackagesAgainstIoC
  unfoldable pub match_packages_against_ioc : Ioc → Text → List SbomPackageRef → List Text
  match_packages_against_ioc i ecosystem rows =
      (collect_rows i ecosystem rows (record { seen = []; out = [] })).out

  abbrev pub pair_for : Text → Text → MatchPair
  pair_for id ref = record { ioc_id = id; component_ref = ref }

  unfoldable pub forward_rows :
      Ioc → Text → Result (List SbomPackageRef) → Result (List MatchPair × List Text)
  forward_rows i ecosystem (err e) = err e
  forward_rows i ecosystem (ok rows) =
      let refs = match_packages_against_ioc i ecosystem rows in ok (map (pair_for i.id) refs, refs)

  unfoldable pub forward_key :
      Store → Option StorageError → Ioc → Option (Text × Text) → Result (List MatchPair × List Text)
  forward_key s e i none = ok ([], [])
  forward_key s e i (some (ecosystem, name)) =
      forward_rows i ecosystem (list_sbom_packages s e ecosystem name)

  -- forwardMatch
  unfoldable pub forward_match :
      Store → Option StorageError → Ioc → Result (List MatchPair × List Text)
  unfolding forward_key forward_rows
  forward_match s e i = forward_key s e i (ioc_lookup_key i)

  -- The slice `pairs` and the map `matchedIoCs` of retroactiveMatch.
  pub record Matched : Type 0 where
    pub pairs : List MatchPair
    pub matched_iocs : List Text

  -- The body of the loop.
  unfoldable pub match_one : Sbom → Ioc → Matched → Matched
  match_one b i acc =
      if not (evaluate semver i b).matched
      then acc
      else if contains acc.matched_iocs i.id
      then acc
      else record {
        matched_iocs = i.id ∷ acc.matched_iocs;
        pairs = acc.pairs ++ pair_for i.id b.component_ref ∷ [];
      }

  unfoldable pub match_each : Sbom → List Ioc → Matched → Matched
  match_each b [] acc = acc
  match_each b (i ∷ iocs) acc = match_each b iocs (match_one b i acc)

  matched_of : Sbom → Result (List Ioc) → Result (List MatchPair × List Text)
  matched_of b (err e) = err e
  matched_of b (ok iocs) =
      let m = match_each b iocs (record { pairs = []; matched_iocs = [] }) in
      ok (m.pairs, m.matched_iocs)

  -- retroactiveMatch. The ids come from a range over a map, whose order is not fixed; here they
  -- stand in the reverse order of the pairs.
  unfoldable pub retroactive_match :
      Store → Option StorageError → Sbom → Result (List MatchPair × List Text)
  unfolding matched_of
  retroactive_match s e b = matched_of b (list_iocs s e)
