-- ===== src/Api/Matching/Open.antt =====
-- What the loop of openIncidentsForMatches does to the store, the event bus and its own variables.
use rampart.Base.{
  ℕ, ◌+◌, ◌≤◌, ◌≡◌, refl, ◌↔◌, ◌⊎◌, inl, inr, true, false, some, [], ◌∷◌, ◌++◌, arith, Text-eq,
  ℕ-eq, In, Option-cases,
}
use rampart.Base.Assoc.{lookup, insert, values, keys, keys-insert, In-values-insert}
use rampart.Domain.Incident.{Time, Incident, is_non_terminal}
use rampart.Domain.Event.{incident_opened}
use rampart.Store.{Store, StorageError, PublisherKey-eq}
use rampart.Store.Incidents.{upsert_incident}
use rampart.Api.{Env, World, emit}
use rampart.Api.Matching.{
  MatchPair, Key, Opening, new_incident, after_upsert, open_unless, open_one,
}
use rampart.Api.Matching.Index.{Covers, has}

-- An incident in the store is open for this IoC and component.
abbrev pub Covered : Store → Key → Type 0
Covered s k = (inc : Incident) × In inc (values s.incidents) × Covers inc k

-- ULIDs are unique: none is minted twice, and none that will be minted is in use.
pub record Fresh (env : Env) (w : World) : Type 0 where
  pub unused : (n : ℕ) → w.minted ≤ n → ¬ In (env.new_ulid n) (keys w.store.incidents)
  pub injective : (m n : ℕ) → env.new_ulid m ≡ env.new_ulid n → m ≡ n

-- The index says which pairs the store covers.
abbrev pub Agrees : Opening → Type 0
Agrees o = (k : Key) → (has k o.index ≡ true) ↔ Covered o.world.store k

abbrev pub key_of : MatchPair → Key
key_of p = (p.ioc_id, p.component_ref)

module _ (env : Env) (now : Time) (p : MatchPair) (o : Opening) where
  abbrev pub added : Incident
  added = new_incident (env.new_ulid o.world.minted) now p

  abbrev pub store_after : Store
  store_after = record o.world.store { incidents = insert added.id added o.world.store.incidents }

  -- The two ways in which the body of the loop ends for a new pair.
  abbrev pub stored_world : World
  stored_world = record o.world {
    store = store_after;
    minted = o.world.minted + 1;
    polls = o.world.polls + 1;
  }

  abbrev pub failed_opening : StorageError → Opening
  failed_opening e = record o { error = some e; world = stored_world }

  abbrev pub done_opening : Opening
  done_opening = record o {
    index = insert (key_of p) added o.index;
    opened = o.opened ++ added.id ∷ [];
    world =
        emit (incident_opened added.id added.ioc_id added.affected_components_snapshot now)
          stored_world;
  }

  pub open_one_cases {ℓ} :
      (P : Opening → Type ℓ)
      → (has (key_of p) o.index ≡ true → P o)
      → (has (key_of p) o.index ≡ false → (e : StorageError) → P (failed_opening e))
      → (has (key_of p) o.index ≡ false → P done_opening)
      → P (open_one env now p o)
  unfolding open_one upsert_incident
  open_one_cases P known failed done = elim (Option-cases (lookup (key_of p) o.index)) [
    | inr (inc, hit) ↦ rw (hit, open_one, open_unless) (known (ground (arith, hit)))
    | inl miss ↦ elim (Option-cases (env.ctx_err o.world.polls)) [
      | inl fine ↦
          rw (miss, open_one, open_unless, fine, after_upsert) (done (ground (arith, miss)))
      | inr (e, bad) ↦
          rw (miss, open_one, open_unless, bad, after_upsert) (failed (ground (arith, miss)) e)
    ]
  ]

module _ (env : Env) (now : Time) (p : MatchPair) (o : Opening) (fresh : Fresh env o.world) where
  pub fresh_here : ¬ In (added env now p o).id (keys o.world.store.incidents)
  fresh_here = fresh.unused o.world.minted (omega arith)

  pub new-Covers : (k : Key) → Covers (added env now p o) k ↔ (key_of p ≡ k)
  unfolding is_non_terminal
  new-Covers (i, r) = (λ c. ground arith, λ e. (refl, ground arith, inl (ground arith)))

  pub Covered-store_after :
      (k : Key) → Covered (store_after env now p o) k ↔ ((key_of p ≡ k) ⊎ Covered o.world.store k)
  Covered-store_after k = (
    λ (inc, m, c).
        elim ((In-values-insert (added env now p o).id (added env now p o) inc
            o.world.store.incidents fresh_here).0
          m) [ inl e ↦ inl ((new-Covers k).0 (rw e at c)) | inr old ↦ inr (inc, old, c) ],
    λ h. elim h [
      | inl e ↦ (
        (added env now p o),
        (In-values-insert (added env now p o).id (added env now p o) (added env now p o)
              o.world.store.incidents fresh_here).1
            (inl refl),
        (new-Covers k).1 e,
      )
      | inr (inc, old, c) ↦ (
        inc,
        (In-values-insert (added env now p o).id (added env now p o) inc o.world.store.incidents
              fresh_here).1
            (inr old),
        c,
      )
    ],
  )

  pub Fresh-after :
      (w : World)
      → w.store.incidents ≡ (store_after env now p o).incidents
      → w.minted ≡ o.world.minted + 1
      → Fresh env w
  Fresh-after w es em = record {
    unused = λ n le m.
        elim (keys-insert (added env now p o).id (env.new_ulid n) (added env now p o)
          o.world.store.incidents (rw es at m)) [
            | inl e ↦ absurd (omega (arith, fresh.injective n o.world.minted e))
            | inr old ↦ fresh.unused n (omega arith) old
          ];
    injective = fresh.injective;
  }
