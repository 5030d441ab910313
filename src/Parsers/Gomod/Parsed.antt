-- ===== src/Parsers/Gomod/Parsed.antt =====
-- Parse of engine/sbom/gomod/parser.go: which packages it returns, and with which hashes.
use rampart.Base.{
  ◌≡◌, refl, sym, ◌∙◌, ◌≢◌, ◌↔◌, inl, inr, Option, none, some, List, [], ◌∷◌, Text, ◌==◌, eq_iff,
  Text-eq, ℕ-eq, In, In-append, In-append_left, In-append_right, Bool-cases, ne_of_eq_false,
}
use rampart.Base.Assoc.{Assoc, lookup, keys, lookup-In, In-keys}
use rampart.Base.Sort.{sort_by, In-sort_by}
use rampart.Domain.Package.{PackageVersion, ParsedSbom}
use rampart.Store.{PublisherKey-eq}
use rampart.Parsers.Gomod.{
  SumEntry, Key, ReplaceTarget, add_entries, pkg_named, text_or_empty, replaced, packages_of,
  pair_less, parse, parse_gosum, parse_gomod_replaces,
}
use rampart.Parsers.Gomod.Chosen.{first_primary, last_hash, or_else, add_entries-first_primary}

-- The hash of a module's version: that of the first line for its archive, and where there is none
-- that of the last line for its go.mod.
abbrev pub chosen_hash : Key → List SumEntry → Option Text
chosen_hash k entries = or_else (first_primary k entries) (last_hash k entries)

-- The package of a module's version with this hash, by the replacement of the module: without one
-- it is the module itself, with one that has a version it is the replacement with the hash of what it
-- replaces, and a replacement by a local directory shows no package.
pub data Shows (k : Key) (hash : Text) (p : PackageVersion) : Option ReplaceTarget → Type 0 where
  itself : p ≡ pkg_named k.0 k.1 hash → Shows k hash p none
  remote :
      (t : ReplaceTarget)
      → t.new_version ≢ []
      → p ≡ pkg_named t.new_path t.new_version hash
      → Shows k hash p (some t)

replaced-Shows :
    (k : Key) (hash : Text) (p : PackageVersion) (o : Option ReplaceTarget)
    → In p (replaced k hash o) ↔ Shows k hash p o
unfolding replaced
replaced-Shows k hash p none =
    (λ m. elim m [ inl e ↦ itself e | inr never ↦ absurd never ], λ s. inl (of_none s))
  where
    of_none : Shows k hash p none → p ≡ pkg_named k.0 k.1 hash
    of_none (itself e) = e
replaced-Shows k hash p (some t) = elim (Bool-cases (t.new_version == [])) [
  | inl local ↦ rw local (λ m. absurd m, λ s. remote_set s ((eq_iff t.new_version []).0 local))
  | inr away ↦ rw away (
    λ m. elim m [
      | inl e ↦ remote t (ne_of_eq_false t.new_version [] away) e
      | inr never ↦ absurd never
    ],
    λ s. inl (remote_package s),
  )
]
  where
    remote_set : Shows k hash p (some t) → t.new_version ≢ []
    remote_set (remote t set e) = set

    remote_package : Shows k hash p (some t) → p ≡ pkg_named t.new_path t.new_version hash
    remote_package (remote t set e) = e

packages_of_iff :
    (replaces : Assoc Text ReplaceTarget) (hashes : Assoc Key Text) (ks : List Key)
    (p : PackageVersion)
    → In p (packages_of replaces hashes ks)
      ↔ ((k : Key) × In k ks × Shows k (text_or_empty (lookup k hashes)) p (lookup k.0 replaces))
unfolding packages_of
packages_of_iff replaces hashes [] p = (λ m. absurd m, λ (k, m, s). absurd m)
packages_of_iff replaces hashes (k ∷ ks) p =
    let own = replaced k (text_or_empty (lookup k hashes)) (lookup k.0 replaces) in
    let one = replaced-Shows k (text_or_empty (lookup k hashes)) p (lookup k.0 replaces) in
    let more = packages_of_iff replaces hashes ks p in
    (
      λ m. elim (In-append own (packages_of replaces hashes ks) p m) [
        | inl here ↦ (k, inl refl, one.0 here)
        | inr later ↦ let (j, mj, s) = more.0 later in (j, inr mj, s)
      ],
      λ (j, mj, s). elim mj [
        | inl e ↦ In-append_left own (packages_of replaces hashes ks) p (one.1 (rw (sym e) s))
        | inr later ↦ In-append_right own (packages_of replaces hashes ks) p (more.1 (j, later, s))
      ],
    )

keys-lookup : (k : Key) (m : Assoc Key Text) → In k (keys m) → (v : Text) × (lookup k m ≡ some v)
unfolding lookup
keys-lookup k [] h = absurd h
keys-lookup k ((j, w) ∷ m) h = elim (Bool-cases (j == k)) [
  | inl here ↦ (w, rw (lookup, here) refl)
  | inr other ↦ elim h [
    | inl e ↦ absurd (ne_of_eq_false j k other (sym e))
    | inr later ↦ let (v, e) = keys-lookup k m later in (v, rw (lookup, other) e)
  ]
]

-- When go.mod and go.sum can be read Parse succeeds, and its packages are exactly those that the
-- versions in go.sum show. A version has the hash of the first line for its archive, and where there is
-- none that of the last line for its go.mod. A module without a replacement is shown as itself; one that
-- is replaced by a module with a version is shown under the replacement's name and version, with the
-- hash of the version that was replaced; and one that is replaced by a local directory is not shown.
pub parse-Shows :
    (gosum gomod : Text) (replaces : Assoc Text ReplaceTarget) (entries : List SumEntry)
    → parse_gomod_replaces gomod ≡ inr replaces
    → parse_gosum gosum ≡ inr entries
    → (sbom : ParsedSbom) × (parse none gosum gomod ≡ inr sbom)
      × ((p : PackageVersion)
          → In p sbom.packages ↔ (
              (k : Key) × (hash : Text) × (chosen_hash k entries ≡ some hash)
              × Shows k hash p (lookup k.0 replaces)))
unfolding parse
parse-Shows gosum gomod replaces entries em es =
    let hashes = (add_entries entries (record { hashes = []; primary = [] })).hashes in
    let sorted = sort_by pair_less (keys hashes) in
    let chosen = λ (k : Key). add_entries-first_primary k entries in
    rw (em, es)
      (
        _,
        refl,
        λ p.
            let inside =
              In-sort_by
                (λ (a b : PackageVersion). pair_less (a.name, a.version) (b.name, b.version)) p
                (packages_of replaces hashes sorted) in
            let listed = packages_of_iff replaces hashes sorted p in
            (
              λ m.
                  let (k, mk, s) = listed.0 (inside.0 m) in
                  let (hash, e) =
                    keys-lookup k hashes ((In-sort_by pair_less k (keys hashes)).0 mk) in
                  (k, hash, sym (chosen k) ∙ e, rw e at s),
              λ (k, hash, e, s).
                  let hit : lookup k hashes ≡ some hash = chosen k ∙ e in
                  inside.1 (
                    listed.1 (
                      k,
                      (In-sort_by pair_less k (keys hashes)).1
                          (In-keys k hash hashes (lookup-In k hash hashes hit)),
                      rw hit s,
                    )),
            ),
      )
