-- ===== src/Matcher.antt =====
-- engine/internal/matcher/matcher.go: which packages of an SBOM an IoC fires on.
-- The semver library (github.com/Masterminds/semver/v3) is a parameter.
pub mod Predicate
use rampart.Base.{
  ℕ, zero, suc, ◌+◌, ◌-◌, ◌*◌, ◌≤◌, ◌<◌, ◌≡◌, refl, sym, ap, ◌∙◌, ◌≢◌, ◌↔◌, ◌⊎◌, inl, inr, Bool,
  true, false, not, ◌&&◌, ◌||◌, Option, none, some, List, [], ◌∷◌, ◌++◌, map, arith, Text, bytes,
  String, Eq, ◌==◌, eq_iff, eq_refl, eq_false, ne_of_eq_false, Text-eq, ℕ-eq, contains,
  contains_iff, keep_if, In, All, length, take, if◌then◌else◌, ltb, leb, Bool-cases, Option-cases,
}
use rampart.Domain.Package.{PackageVersion, Sbom}
use rampart.Domain.Ioc.{Ioc, IocKind, IocPackageVersion, IocPackageRange, IocBodyAnomaly}

-- What the engine calls of the semver library; `none` is a parse error.
pub record Semver : Type 1 where
  pub Version : Type 0
  pub Constraint : Type 0
  pub new_version : Text → Option Version
  pub new_constraint : Text → Option Constraint
  pub check : Constraint → Version → Bool
  pub major : Version → ℕ
  pub minor : Version → ℕ
  pub prerelease : Version → Text
  pub original : Version → Text
  pub equal : Version → Version → Bool

pub record Match : Type 0 where
  pub matched : Bool
  pub packages : List PackageVersion

-- `Match{}`
abbrev pub no_match : Match
no_match = record { matched = false; packages = [] }

-- `Match{Matched: len(hits) > 0, Packages: hits}`
abbrev pub match_of : List PackageVersion → Match
match_of hits = record { matched = ltb 0 (length hits); packages = hits }

-- `p.Ecosystem+":"+p.Name`
abbrev pub package_ref : PackageVersion → Text
package_ref p = p.ecosystem ++ b':' ∷ p.name

abbrev hits_anomaly : Text → PackageVersion → Bool
hits_anomaly target p = package_ref p == target

unfoldable pub evaluate_anomaly_body : Option IocBodyAnomaly → Sbom → Match
evaluate_anomaly_body none sbom = no_match
evaluate_anomaly_body (some body) sbom =
    if body.package_ref == []
    then no_match
    else match_of (keep_if (hits_anomaly body.package_ref) sbom.packages)

abbrev hits_version : IocPackageVersion → PackageVersion → Bool
hits_version target p = p.name == target.name && p.version == target.version

unfoldable pub evaluate_package_version : Option IocPackageVersion → Sbom → Match
evaluate_package_version none sbom = no_match
evaluate_package_version (some target) sbom = match_of (keep_if (hits_version target) sbom.packages)

module _ (semver : Semver) where
  open semver use {Version, Constraint, new_version, new_constraint, check}

  abbrev check_parsed : Constraint → Option Version → Bool
  check_parsed constraint none = false
  check_parsed constraint (some v) = check constraint v

  abbrev hits_range : IocPackageRange → Constraint → PackageVersion → Bool
  hits_range target constraint p =
      if not (p.name == target.name) then false else check_parsed constraint (new_version p.version)

  with_constraint : IocPackageRange → Option Constraint → Sbom → Match
  with_constraint target none sbom = no_match
  with_constraint target (some constraint) sbom =
      match_of (keep_if (hits_range target constraint) sbom.packages)

  unfoldable pub evaluate_package_range : Option IocPackageRange → Sbom → Match
  unfolding with_constraint
  evaluate_package_range none sbom = no_match
  evaluate_package_range (some target) sbom =
      with_constraint target (new_constraint target.constraint) sbom

  -- The `switch ioc.Kind` of Evaluate.
  unfoldable pub evaluate_kind : IocKind → Ioc → Sbom → Match
  evaluate_kind IocKind.package_version ioc sbom = evaluate_package_version ioc.version_body sbom
  evaluate_kind IocKind.package_range ioc sbom = evaluate_package_range ioc.range_body sbom
  evaluate_kind IocKind.publisher_anomaly ioc sbom = evaluate_anomaly_body ioc.anomaly_body sbom
  evaluate_kind (IocKind.other k) ioc sbom = no_match

  -- Evaluate
  unfoldable pub evaluate : Ioc → Sbom → Match
  evaluate ioc sbom =
      if not (sbom.ecosystem == [])
        && not (ioc.ecosystem == [])
        && not (sbom.ecosystem == ioc.ecosystem)
      then no_match
      else evaluate_kind ioc.kind ioc sbom
