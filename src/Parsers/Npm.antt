-- ===== src/Parsers/Npm.antt =====
-- engine/sbom/npm/parser.go and types.go: package-lock.json, from the decoded document on.
pub mod Named
pub mod Strategy
use rampart.Base.{
  ℕ, zero, suc, ◌+◌, ◌-◌, ◌*◌, ◌≤◌, ◌<◌, ◌≡◌, refl, sym, ap, ◌∙◌, ◌≢◌, ◌↔◌, ◌⊎◌, inl, inr, Bool,
  true, false, not, ◌&&◌, ◌||◌, Option, none, some, List, [], ◌∷◌, ◌++◌, map, arith, Text, bytes,
  String, Eq, ◌==◌, eq_iff, eq_refl, eq_false, ne_of_eq_false, Text-eq, ℕ-eq, contains,
  contains_iff, keep_if, In, All, length, take, if◌then◌else◌, ltb, leb, Bool-cases, Option-cases,
}
use mathlib.Core.Option
use Prim.Native.Nat.{◌/◌, ◌%◌}
use rampart.Base.Assoc.{Assoc}
use rampart.Base.Sort.{sort_by}
use rampart.Base.Int.{ℤ, pos, negsuc}
use rampart.Base.Strings.{contains_text, has_prefix, cut}
use rampart.Domain.Package.{PackageVersion, ParsedSbom}
use rampart.Store.{StorageError}
use rampart.Parsers.Lines.{cut_prefix}
use rampart.Parsers.Gomod.{pair_less}

-- LockPackage, less the fields that the parser does not read.
pub record LockPackage : Type 0 where
  pub version : Text
  pub integrity : Text
  pub dev : Bool
  pub optional : Bool
  pub peer : Bool
  pub link : Bool

-- Lockfile; `none` is a nil map.
pub record Lockfile : Type 0 where
  pub lockfile_version : ℤ
  pub packages : Option (Assoc Text LockPackage)

pub data NpmError : Type 0 where
  malformed empty_lockfile : NpmError
  unsupported_version : ℤ → NpmError
  context_done : StorageError → NpmError

abbrev pub marker : Text
marker = bytes "node_modules/"

-- shouldSkip
unfoldable pub should_skip : Text → LockPackage → Bool
should_skip path entry = if path == [] || entry.link then true else not (contains_text path marker)

-- The text after the last occurrence of a separator that is not empty.
unfoldable pub after_last : Text → Text → Option Text
after_last sep [] = none
after_last sep (c ∷ s) =
    let rest = after_last sep s in elim rest [ some t ↦ some t | none ↦ cut_prefix (c ∷ s) sep ]

-- extractName
unfoldable pub extract_name : Text → Text
extract_name path = elim (after_last marker path) [ none ↦ path | some name ↦ name ]

abbrev when : Bool → Text → List Text
when true s = s ∷ []
when false s = []

-- buildScope
unfoldable pub build_scope : LockPackage → List Text
build_scope e =
    when e.dev (bytes "dev") ++ when e.optional (bytes "optional") ++ when e.peer (bytes "peer")

abbrev plain : ℕ → Bool
plain c =
    (leb b'A' c && leb c b'Z')
    || (leb b'a' c && leb c b'z')
    || (leb 48 c && leb c 57)
    || c == b'-'
    || c == b'_'
    || c == b'.'
    || c == b'~'

abbrev hex : ℕ → ℕ
hex n = if ltb n 10 then 48 + n else 55 + n

abbrev escaped : ℕ → Text
escaped c =
    if c == 32
    then b'+' ∷ []
    else if plain c
    then c ∷ []
    else b'%' ∷ hex (c / 16) ∷ hex (c % 16) ∷ []

-- url.QueryEscape
unfoldable pub query_escape : Text → Text
query_escape [] = []
query_escape (c ∷ s) = escaped c ++ query_escape s

-- `slash > 0` is a first part that is not empty.
abbrev scoped_purl : Text → Text → Option (Text × Text) → Text
scoped_purl name version none = bytes "pkg:npm/" ++ name ++ b'@' ∷ version
scoped_purl name version (some ([], pkg)) = bytes "pkg:npm/" ++ name ++ b'@' ∷ version
scoped_purl name version (some (c ∷ ns, pkg)) =
    bytes "pkg:npm/" ++ query_escape (b'@' ∷ c ∷ ns) ++ b'/' ∷ pkg ++ b'@' ∷ version

abbrev scope_of : Option Text → Option (Text × Text)
scope_of none = none
scope_of (some rest) = cut b'/' rest

-- npmPURL of engine/internal/domain/packageversion.go.
unfoldable pub npm_purl : Text → Text → Text
npm_purl name version = scoped_purl name version (scope_of (cut_prefix name (bytes "@")))

abbrev pub pkg_at : Text → LockPackage → PackageVersion
pkg_at path entry = record {
  ecosystem = bytes "npm";
  name = extract_name path;
  version = entry.version;
  purl = npm_purl (extract_name path) entry.version;
  scope = build_scope entry;
  integrity = entry.integrity;
}

-- The loop over the packages of the document.
unfoldable pub packages_of : Assoc Text LockPackage → List PackageVersion
packages_of [] = []
packages_of ((path, entry) ∷ m) =
    let rest = packages_of m in
    if should_skip path entry
    then rest
    else if entry.version == []
    then rest
    else pkg_at path entry ∷ rest

abbrev from_packages : ℕ → Option (Assoc Text LockPackage) → NpmError ⊎ ParsedSbom
from_packages size none = inl empty_lockfile
from_packages size (some m) = inr (record {
  ecosystem = bytes "npm";
  packages = sort_by (λ p q. pair_less (p.name, p.version) (q.name, q.version)) (packages_of m);
  source_format = bytes "npm-package-lock-v3";
  source_bytes = size;
})

abbrev is_three : ℤ → Bool
is_three (pos n) = n == 3
is_three (negsuc n) = false

abbrev from_lockfile : ℕ → Option Lockfile → NpmError ⊎ ParsedSbom
from_lockfile size none = inl malformed
from_lockfile size (some lf) =
    if not (is_three lf.lockfile_version)
    then inl (unsupported_version lf.lockfile_version)
    else from_packages size lf.packages

-- Parse, with what ctx.Err() returns, the decoded document and the length of the content.
unfoldable pub parse : Option StorageError → Option Lockfile → ℕ → NpmError ⊎ ParsedSbom
parse (some e) lf size = inl (context_done e)
parse none lf size = from_lockfile size lf
