-- ===== src/Parsers/Gomod.antt =====
-- engine/sbom/gomod/parser.go and types.go: go.sum and go.mod.
pub mod Chosen
pub mod Parsed
use rampart.Base.{
  ℕ, zero, suc, ◌+◌, ◌-◌, ◌*◌, ◌≤◌, ◌<◌, ◌≡◌, refl, sym, ap, ◌∙◌, ◌≢◌, ◌↔◌, ◌⊎◌, inl, inr, Bool,
  true, false, not, ◌&&◌, ◌||◌, Option, none, some, List, [], ◌∷◌, ◌++◌, map, arith, Text, bytes,
  String, Eq, ◌==◌, eq_iff, eq_refl, eq_false, ne_of_eq_false, Text-eq, ℕ-eq, contains,
  contains_iff, keep_if, In, All, length, take, if◌then◌else◌, ltb, leb, Bool-cases, Option-cases,
}
use rampart.Base.Assoc.{Assoc, lookup, insert, keys}
use rampart.Base.Sort.{sort_by}
use rampart.Base.Strings.{text_lt, trim_space, has_prefix}
use rampart.Domain.Package.{PackageVersion, ParsedSbom}
use rampart.Parsers.Lines.{fields, cut_prefix, cut_suffix, before, split_once, scan}
use rampart.Store.{StorageError, PublisherKey-eq}

-- replaceTarget
pub record ReplaceTarget : Type 0 where
  pub new_path : Text
  pub new_version : Text

-- sumEntry
pub record SumEntry : Type 0 where
  pub module_path : Text
  pub version : Text
  pub hash : Text
  pub is_primary : Bool

-- What ErrMalformedLockfile is wrapped with, and the context's error.
pub data ParseError : Type 0 where
  expected_3_fields : (line got : ℕ) → ParseError
  bad_hash : (line : ℕ) → ParseError
  gosum_scan gomod_scan : ParseError
  context_done : StorageError → ParseError

abbrev suffix : Text
suffix = bytes "/go.mod"

abbrev pub entry_of : Text → Text → Text → Option Text → SumEntry
entry_of path raw hash none = record {
  module_path = path;
  version = raw;
  hash = hash;
  is_primary = true;
}
entry_of path raw hash (some version) = record {
  module_path = path;
  version = version;
  hash = hash;
  is_primary = false;
}

-- The statements of the loop after strings.Fields.
unfoldable pub entry_from : ℕ → List Text → ParseError ⊎ SumEntry
entry_from line (path ∷ raw ∷ hash ∷ []) =
    if not (has_prefix hash (bytes "h1:"))
    then inl (bad_hash line)
    else inr (entry_of path raw hash (cut_suffix raw suffix))
entry_from line parts = inl (expected_3_fields line (length parts))

abbrev pub cons_entry :
    ParseError ⊎ SumEntry → ParseError ⊎ List SumEntry → ParseError ⊎ List SumEntry
cons_entry (inl e) rest = inl e
cons_entry (inr entry) (inl e) = inl e
cons_entry (inr entry) (inr entries) = inr (entry ∷ entries)

-- The loop over the lines, from this line number on; the flag says that the scanner failed.
unfoldable pub gosum_lines : Bool → ℕ → List Text → ParseError ⊎ List SumEntry
gosum_lines long line [] = if long then inl gosum_scan else inr []
gosum_lines long line (raw ∷ lines) =
    let rest = gosum_lines long (line + 1) lines in
    let text_ = trim_space raw in
    if text_ == [] then rest else cons_entry (entry_from (line + 1) (fields text_)) rest

-- parseGosum
unfoldable pub parse_gosum : Text → ParseError ⊎ List SumEntry
parse_gosum content = let (lines, long) = scan content in gosum_lines long 0 lines

-- `isLocal`
abbrev pub is_local : Text → List Text → Bool
is_local new_path rhs =
    has_prefix new_path (bytes ".") || has_prefix new_path (bytes "/") || length rhs == 1

abbrev second_or_empty : List Text → Text
second_or_empty (a ∷ b ∷ rest) = b
second_or_empty rest = []

abbrev directive_of : List Text → List Text → Option (Text × ReplaceTarget)
directive_of (src ∷ lhs) (new_path ∷ rhs) = some (
  src,
  record {
    new_path = new_path;
    new_version =
        if not (is_local new_path (new_path ∷ rhs)) && leb 2 (length (new_path ∷ rhs))
        then second_or_empty (new_path ∷ rhs)
        else [];
  },
)
directive_of lhs rhs = none

abbrev sides : Option (Text × Text) → Option (Text × ReplaceTarget)
sides none = none
sides (some (left, right)) = directive_of (fields left) (fields right)

-- parseReplaceDirective; `none` for ok=false.
unfoldable pub parse_replace_directive : Text → Option (Text × ReplaceTarget)
parse_replace_directive line = sides (split_once (bytes "=>") line)

pub record Replaces : Type 0 where
  pub in_block : Bool
  pub out : Assoc Text ReplaceTarget

abbrev pub set_target : Replaces → Option (Text × ReplaceTarget) → Replaces
set_target r none = r
set_target r (some (src, tgt)) = record r { out = insert src tgt r.out }

abbrev single : Replaces → Option Text → Replaces
single r none = r
single r (some rest) = set_target r (parse_replace_directive (trim_space rest))

-- The body of the loop over the lines of go.mod.
unfoldable pub replace_line : Text → Replaces → Replaces
replace_line raw r =
    let line = trim_space (before (bytes "//") raw) in
    if line == []
    then r
    else if r.in_block
    then (if line == bytes ")"
        then record r { in_block = false }
        else set_target r (parse_replace_directive line))
    else if line == bytes "replace ("
    then record r { in_block = true }
    else single r (cut_prefix line (bytes "replace "))

unfoldable pub replace_lines : List Text → Replaces → Replaces
replace_lines [] r = r
replace_lines (raw ∷ lines) r = replace_lines lines (replace_line raw r)

-- parseGomodReplaces. An empty content has no lines.
unfoldable pub parse_gomod_replaces : Text → ParseError ⊎ Assoc Text ReplaceTarget
parse_gomod_replaces content =
    let (lines, long) = scan content in
    if long
    then inl gomod_scan
    else inr (replace_lines lines (record { in_block = false; out = [] })).out

-- The struct `key`.
abbrev pub Key : Type 0
Key = Text × Text

-- The maps `hashes` and `primary`.
pub record Hashes : Type 0 where
  pub hashes : Assoc Key Text
  pub primary : Assoc Key Bool

abbrev pub is_set_true : Option Bool → Bool
is_set_true none = false
is_set_true (some b) = b

abbrev pub key_of : SumEntry → Key
key_of e = (e.module_path, e.version)

-- The body of the loop over the entries.
unfoldable pub add_entry : SumEntry → Hashes → Hashes
add_entry e h = if is_set_true (lookup (key_of e) h.primary) then h else record {
  hashes = insert (key_of e) e.hash h.hashes;
  primary = insert (key_of e) e.is_primary h.primary;
}

unfoldable pub add_entries : List SumEntry → Hashes → Hashes
add_entries [] h = h
add_entries (e ∷ entries) h = add_entries entries (add_entry e h)

-- CanonicalPURL of engine/internal/domain/packageversion.go, for "gomod".
unfoldable pub golang_purl : Text → Text → Text
golang_purl name version = bytes "pkg:golang/" ++ name ++ b'@' ∷ version

abbrev pub pkg_named : Text → Text → Text → PackageVersion
pkg_named name version hash = record {
  ecosystem = bytes "gomod";
  name = name;
  version = version;
  purl = golang_purl name version;
  scope = [];
  integrity = hash;
}

abbrev pub text_or_empty : Option Text → Text
text_or_empty none = []
text_or_empty (some s) = s

-- The package of one key, by the replacement of its module; a local one drops it.
unfoldable pub replaced : Key → Text → Option ReplaceTarget → List PackageVersion
replaced (name, version) hash none = pkg_named name version hash ∷ []
replaced (name, version) hash (some target) =
    if target.new_version == [] then [] else pkg_named target.new_path target.new_version hash ∷ []

-- The loop over the keys.
unfoldable pub packages_of :
    Assoc Text ReplaceTarget → Assoc Key Text → List Key → List PackageVersion
packages_of replaces hashes [] = []
packages_of replaces hashes (k ∷ ks) =
    replaced k (text_or_empty (lookup k hashes)) (lookup k.0 replaces)
    ++ packages_of replaces hashes ks

abbrev pub pair_less : Text × Text → Text × Text → Bool
pair_less a b = if not (a.0 == b.0) then text_lt a.0 b.0 else text_lt a.1 b.1

abbrev assembled :
    Text → Assoc Text ReplaceTarget → ParseError ⊎ List SumEntry → ParseError ⊎ ParsedSbom
assembled gosum replaces (inl e) = inl e
assembled gosum replaces (inr entries) =
    let h = add_entries entries (record { hashes = []; primary = [] }) in
    inr (record {
      ecosystem = bytes "gomod";
      packages =
          sort_by (λ p q. pair_less (p.name, p.version) (q.name, q.version))
            (packages_of replaces h.hashes (sort_by pair_less (keys h.hashes)));
      source_format = bytes "go-sum-v1";
      source_bytes = length gosum;
    })

abbrev with_replaces : Text → ParseError ⊎ Assoc Text ReplaceTarget → ParseError ⊎ ParsedSbom
with_replaces gosum (inl e) = inl e
with_replaces gosum (inr replaces) = assembled gosum replaces (parse_gosum gosum)

-- Parse, with what ctx.Err() returns.
unfoldable pub parse : Option StorageError → Text → Text → ParseError ⊎ ParsedSbom
parse (some e) gosum gomod = inl (context_done e)
parse none gosum gomod = with_replaces gosum (parse_gomod_replaces gomod)
