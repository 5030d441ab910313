-- ===== src/Parsers/Gomod/Chosen.antt =====
-- Parse of engine/sbom/gomod/parser.go: which line of go.sum gives the hash of a module's version.
use rampart.Base.{
  ◌≡◌, refl, sym, ap, ◌∙◌, inl, inr, Bool, true, false, ◌&&◌, Option, none, some, List, [], ◌∷◌,
  Text, ◌==◌, eq_iff, Text-eq, ℕ-eq, if◌then◌else◌, Bool-cases,
}
use rampart.Base.Assoc.{lookup, insert, lookup-insert}
use rampart.Store.{PublisherKey-eq}
use rampart.Parsers.Gomod.{SumEntry, Key, Hashes, is_set_true, key_of, add_entry, add_entries}

-- The hash of the first line for the module's own archive.
abbrev pub first_primary : Key → List SumEntry → Option Text
first_primary k [] = none
first_primary k (e ∷ entries) =
    let rest = first_primary k entries in
    if key_of e == k && e.is_primary then some e.hash else rest

abbrev pub or_else {ℓ} : {A : Type ℓ} → Option A → Option A → Option A
or_else (some a) b = some a
or_else none b = b

-- The hash of the last line of any kind.
abbrev pub last_hash : Key → List SumEntry → Option Text
last_hash k [] = none
last_hash k (e ∷ entries) =
    or_else (last_hash k entries) (if key_of e == k then some e.hash else none)

-- What the loop leaves under a key, from the maps that it starts with.
abbrev expected : Key → List SumEntry → Hashes → Option Text
expected k entries h =
    if is_set_true (lookup k h.primary)
    then lookup k h.hashes
    else or_else (first_primary k entries) (or_else (last_hash k entries) (lookup k h.hashes))

or_else-none : (x : Option Text) → or_else x none ≡ x
or_else-none none = refl
or_else-none (some a) = refl

or_else_assoc : (x y z : Option Text) → or_else (or_else x y) z ≡ or_else x (or_else y z)
or_else_assoc none y z = refl
or_else_assoc (some a) y z = refl

module _ (k : Key) (e : SumEntry) (entries : List SumEntry) (h : Hashes) where
  -- The line is for another key.
  other-expected : (key_of e == k) ≡ false → expected k (e ∷ entries) h ≡ expected k entries h
  other-expected other = rw (other, or_else-none (last_hash k entries)) refl

  -- The line is for this key, whose hash is not that of an archive yet.
  here-expected :
      (key_of e == k) ≡ true
      → is_set_true (lookup k h.primary) ≡ false
      → (b : Bool) → e.is_primary ≡ b
      → expected k (e ∷ entries) h ≡ (
          if b
          then some e.hash
          else or_else (first_primary k entries) (or_else (last_hash k entries) (some e.hash)))
  here-expected here unset true primary = rw (here, unset, primary) refl
  here-expected here unset false primary =
      rw
        (
          here,
          unset,
          primary,
          or_else_assoc (last_hash k entries) (some e.hash) (lookup k h.hashes),
        )
        refl

  abbrev changed : Hashes
  changed = record {
    hashes = insert (key_of e) e.hash h.hashes;
    primary = insert (key_of e) e.is_primary h.primary;
  }

  changed-expected :
      is_set_true (lookup (key_of e) h.primary) ≡ false
      → expected k entries changed ≡ expected k (e ∷ entries) h
  changed-expected unset = elim (Bool-cases (key_of e == k)) [
    | inl here ↦
        let same : key_of e ≡ k = (eq_iff (key_of e) k).0 here in
        let unset' : is_set_true (lookup k h.primary) ≡ false =
          ap (λ j. is_set_true (lookup j h.primary)) (sym same) ∙ unset in
        let this : expected k entries changed ≡ (
            if e.is_primary
            then some e.hash
            else or_else (first_primary k entries) (or_else (last_hash k entries) (some e.hash))) =
          rw
            (
              lookup-insert (key_of e) k e.hash h.hashes,
              lookup-insert (key_of e) k e.is_primary h.primary,
              here,
            )
            refl in
        this ∙ sym (here-expected here unset' e.is_primary refl)
    | inr other ↦
        let this : expected k entries changed ≡ expected k entries h =
          rw
            (
              lookup-insert (key_of e) k e.hash h.hashes,
              lookup-insert (key_of e) k e.is_primary h.primary,
              other,
            )
            refl in
        this ∙ sym (other-expected other)
  ]

  add_entry-expected : expected k entries (add_entry e h) ≡ expected k (e ∷ entries) h
  unfolding add_entry
  add_entry-expected = elim (Bool-cases (is_set_true (lookup (key_of e) h.primary))) [
    | inr unset ↦ rw unset (changed-expected unset)
    | inl set ↦ rw set (elim (Bool-cases (key_of e == k)) [
      | inr other ↦ sym (other-expected other)
      | inl here ↦
          let same : key_of e ≡ k = (eq_iff (key_of e) k).0 here in
          let set' : is_set_true (lookup k h.primary) ≡ true =
            ap (λ j. is_set_true (lookup j h.primary)) (sym same) ∙ set in
          rw set' refl
    ])
  ]

add_entries-expected :
    (k : Key) (entries : List SumEntry) (h : Hashes)
    → lookup k (add_entries entries h).hashes ≡ expected k entries h
unfolding add_entries
add_entries-expected k [] h = by_flag (is_set_true (lookup k h.primary))
  where
    by_flag : (b : Bool) → lookup k h.hashes ≡ (if b then lookup k h.hashes else lookup k h.hashes)
    by_flag true = refl
    by_flag false = refl
add_entries-expected k (e ∷ entries) h =
    add_entries-expected k entries (add_entry e h) ∙ add_entry-expected k e entries h

-- The loop over the entries of go.sum leaves for a module's version the hash of the first line for its
-- archive, and where there is none that of the last line for its go.mod.
pub add_entries-first_primary :
    (k : Key) (entries : List SumEntry)
    → lookup k (add_entries entries (record { hashes = []; primary = [] })).hashes
      ≡ or_else (first_primary k entries) (last_hash k entries)
unfolding lookup
add_entries-first_primary k entries =
    add_entries-expected k entries (record { hashes = []; primary = [] })
    ∙ rw (or_else-none (last_hash k entries)) refl
