-- ===== src/Api/Matching/Index.antt =====
-- The index of open incidents that openIncidentsForMatches builds.
use rampart.Base.{
  ◌≡◌, refl, ◌↔◌, ◌⊎◌, inl, inr, Bool, true, false, ◌||◌, none, some, List, [], ◌∷◌, arith, Text,
  ◌==◌, eq_iff, Text-eq, ℕ-eq, In, Bool-cases,
}
use rampart.Base.Assoc.{Assoc, lookup, insert, lookup-insert}
use rampart.Domain.Incident.{Incident, is_non_terminal}
use rampart.Store.{PublisherKey-eq}
use rampart.Api.Matching.{Key, index_refs, index_one, index_open}

-- The incident is open, for this IoC and component.
abbrev pub Covers : Incident → Key → Type 0
Covers inc k =
    (is_non_terminal inc.state ≡ true)
    × (inc.ioc_id ≡ k.0)
    × In k.1 inc.affected_components_snapshot

abbrev pub has : Key → Assoc Key Incident → Bool
has k m = elim (lookup k m) [ none ↦ false | some inc ↦ true ]

pub has-insert :
    (k j : Key) (inc : Incident) (m : Assoc Key Incident)
    → has j (insert k inc m) ≡ (k == j || has j m)
has-insert k j inc m = ground (arith, lookup-insert k j inc m)

has-index_refs :
    (inc : Incident) (refs : List Text) (m : Assoc Key Incident) (k : Key)
    → (has k (index_refs inc refs m) ≡ true)
      ↔ (((inc.ioc_id ≡ k.0) × In k.1 refs) ⊎ (has k m ≡ true))
unfolding index_refs
has-index_refs inc [] m k = (λ h. inr h, λ h. elim h [ inl f ↦ absurd f.1 | inr g ↦ g ])
has-index_refs inc (r ∷ refs) m k =
    let ih = has-index_refs inc refs (insert (inc.ioc_id, r) inc m) k in
    let step = has-insert (inc.ioc_id, r) k inc m in
    (
      λ h. ground (arith, ih.0 h, step, eq_iff inc.ioc_id k.0, eq_iff r k.1),
      λ h. ih.1 (ground (arith, h, step, eq_iff inc.ioc_id k.0, eq_iff r k.1)),
    )

has-index_one :
    (inc : Incident) (m : Assoc Key Incident) (k : Key)
    → (has k (index_one inc m) ≡ true) ↔ (Covers inc k ⊎ (has k m ≡ true))
unfolding index_one
has-index_one inc m k =
    let refs = has-index_refs inc inc.affected_components_snapshot m k in
    elim (Bool-cases (is_non_terminal inc.state)) [
      | inl live ↦ rw live (
        λ h. elim (refs.0 h) [ inl c ↦ inl (refl, c.0, c.1) | inr g ↦ inr g ],
        λ h. refs.1 (elim h [ inl c ↦ inl (c.1, c.2) | inr g ↦ inr g ]),
      )
      | inr dead ↦ rw dead (λ h. inr h, λ h. elim h [ inl c ↦ absurd (cc (c.0)) | inr g ↦ g ])
    ]

-- The index holds a key exactly when one of the incidents is open for it.
pub has-index_open :
    (incs : List Incident) (m : Assoc Key Incident) (k : Key)
    → (has k (index_open incs m) ≡ true)
      ↔ (((inc : Incident) × In inc incs × Covers inc k) ⊎ (has k m ≡ true))
unfolding index_open
has-index_open [] m k = (λ h. inr h, λ h. elim h [ inl f ↦ absurd f.1 | inr g ↦ g ])
has-index_open (inc ∷ incs) m k =
    let ih = has-index_open incs (index_one inc m) k in
    let one = has-index_one inc m k in
    (
      λ h. elim (ih.0 h) [
        | inl (x, there, c) ↦ inl (x, inr there, c)
        | inr g ↦ elim (one.0 g) [ inl c ↦ inl (inc, inl refl, c) | inr r ↦ inr r ]
      ],
      λ h. ih.1 (elim h [
        | inl (x, there, c) ↦ elim there [
          | inl e ↦ inr (one.1 (inl (rw e at c)))
          | inr t ↦ inl (x, t, c)
        ]
        | inr g ↦ inr (one.1 (inr g))
      ]),
    )
