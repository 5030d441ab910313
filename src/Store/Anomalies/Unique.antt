-- ===== src/Store/Anomalies/Unique.antt =====
-- One anomaly per kind, package and time of detection: the table of anomalies and its index.
use rampart.Base.{
  ℕ, ◌+◌, ◌≤◌, ◌≡◌, refl, sym, ap, ◌∙◌, ◌≢◌, inl, inr, Option, none, some, arith, ◌==◌, eq_iff,
  eq_refl, eq_false, Text-eq, ℕ-eq, Bool-cases, Option-cases,
}
use rampart.Base.Assoc.{lookup, lookup-insert, lookup-insert_self}
use rampart.Domain.Incident.{Time}
use rampart.Domain.Publisher.{Anomaly}
use rampart.Store.{Store, StorageError, Result, finish, PublisherKey-eq, DedupKey, DedupKey-eq}
use rampart.Store.Anomalies.{dedup_key, dated, save_new, save_anomaly}

-- The table holds each anomaly under its id, which has been given out, and the index maps exactly
-- the keys of the stored anomalies to their ids.
pub record Table (s : Store) : Type 0 where
  pub given :
      (id : ℕ) (a : Anomaly)
      → lookup id s.anomalies ≡ some a
      → (a.id ≡ id) × (id ≤ s.next_anomaly_id) × (lookup (dedup_key a) s.anomaly_dedup ≡ some id)
  pub indexed :
      (k : DedupKey) (id : ℕ)
      → lookup k s.anomaly_dedup ≡ some id
      → (a : Anomaly) × (lookup id s.anomalies ≡ some a) × (dedup_key a ≡ k)

pub save_anomaly_cases {ℓ} :
    (P : Store × Result ℕ → Type ℓ) (s : Store) (e : Option StorageError) (now : Time) (a : Anomaly)
    → ((id : ℕ) → lookup (dedup_key (dated now a)) s.anomaly_dedup ≡ some id → P (s, finish e id))
    → (lookup (dedup_key (dated now a)) s.anomaly_dedup ≡ none
        → P (save_new s e (dated now a) none))
    → P (save_anomaly s e now a)
unfolding save_anomaly
save_anomaly_cases P s e now a known new =
    elim (Option-cases (lookup (dedup_key (dated now a)) s.anomaly_dedup)) [
      | inl miss ↦ rw miss (new miss)
      | inr (id, hit) ↦ rw hit (known id hit)
    ]

module _ (s : Store) (e : Option StorageError) (a : Anomaly) (t : Table s)
    (miss : lookup (dedup_key a) s.anomaly_dedup ≡ none) where
  next : ℕ
  next = s.next_anomaly_id + 1

  stored : Anomaly
  stored = record a { id = next }

  given_new :
      (id : ℕ) (b : Anomaly)
      → lookup id (save_new s e a none).0.anomalies ≡ some b
      → (b.id ≡ id)
        × (id ≤ next)
        × (lookup (dedup_key b) (save_new s e a none).0.anomaly_dedup ≡ some id)
  unfolding next stored
  given_new id b h = elim (Bool-cases (next == id)) [
    | inl same ↦
        let here : stored ≡ b = cc (rw (lookup-insert next id stored s.anomalies, same) at h) in
        let e_id : next ≡ id = (eq_iff next id).0 same in
        rw (sym here) (
          e_id,
          omega (arith, e_id),
          ground (
            arith,
            e_id,
            lookup-insert (dedup_key a) (dedup_key a) next s.anomaly_dedup,
            eq_refl (dedup_key a),
          ),
        )
    | inr other ↦
        let (eid, le, at_key) =
          t.given id b (rw (lookup-insert next id stored s.anomalies, other) at h) in
        (
          eid,
          omega (arith, le),
          elim (Bool-cases (dedup_key a == dedup_key b)) [
            | inl clash ↦ absurd (cc (miss, at_key, (eq_iff (dedup_key a) (dedup_key b)).0 clash))
            | inr apart ↦
                rw (lookup-insert (dedup_key a) (dedup_key b) next s.anomaly_dedup, apart) at_key
          ],
        )
  ]

  indexed_new :
      (k : DedupKey) (id : ℕ)
      → lookup k (save_new s e a none).0.anomaly_dedup ≡ some id
      → (b : Anomaly) × (lookup id (save_new s e a none).0.anomalies ≡ some b) × (dedup_key b ≡ k)
  unfolding next stored
  indexed_new k id h = elim (Bool-cases (dedup_key a == k)) [
    | inl same ↦
        let e_id : next ≡ id =
          cc (rw (lookup-insert (dedup_key a) k next s.anomaly_dedup, same) at h) in
        (
          stored,
          ground (arith, e_id, lookup-insert next id stored s.anomalies, eq_iff next id),
          (eq_iff (dedup_key a) k).0 same,
        )
    | inr other ↦
        let (b, at_id, ek) =
          t.indexed k id (rw (lookup-insert (dedup_key a) k next s.anomaly_dedup, other) at h) in
        (
          b,
          elim (Bool-cases (next == id)) [
            | inl clash ↦ absurd (omega (arith, (t.given id b at_id).1, (eq_iff next id).0 clash))
            | inr apart ↦ rw (lookup-insert next id stored s.anomalies, apart) at_id
          ],
          ek,
        )
  ]

  Table-save_new : Table (save_new s e a none).0
  unfolding next
  Table-save_new = record { given = given_new; indexed = indexed_new }

-- If the table of anomalies and its index are in step, SaveAnomaly leaves them in step on every path,
-- a cancelled request included.
pub save_anomaly-Table :
    (s : Store) (e : Option StorageError) (now : Time) (a : Anomaly)
    → Table s
    → Table (save_anomaly s e now a).0
save_anomaly-Table s e now a t =
    save_anomaly_cases (λ r. Table r.0) s e now a (λ id hit. t)
      (λ miss. Table-save_new s e (dated now a) t miss)

-- In a table that is in step, two stored anomalies of one kind, package and time are one.
pub Table-unique :
    (s : Store) (i j : ℕ) (a b : Anomaly)
    → Table s
    → lookup i s.anomalies ≡ some a
    → lookup j s.anomalies ≡ some b
    → dedup_key a ≡ dedup_key b
    → i ≡ j
Table-unique s i j a b t ha hb e = cc (((t.given i a ha).2), ((t.given j b hb).2), e)

save_anomaly-known :
    (s : Store) (e : Option StorageError) (now : Time) (a : Anomaly) (id : ℕ)
    → lookup (dedup_key (dated now a)) s.anomaly_dedup ≡ some id
    → save_anomaly s e now a ≡ (s, finish e id)
unfolding save_anomaly
save_anomaly-known s e now a id hit = rw hit refl

dated_at : (now later : Time) (a : Anomaly) → a.detected_at ≢ 0 → dated later a ≡ dated now a
dated_at now later a h = rw (eq_false a.detected_at 0 h) refl

-- Saving an anomaly a second time, its time of detection given, changes nothing and returns the id
-- of the first time.
save_anomaly-again :
    (s : Store) (e : Option StorageError) (now later : Time) (a : Anomaly)
    → a.detected_at ≢ 0
    → let first = save_anomaly s e now a in save_anomaly first.0 e later a ≡ first
save_anomaly-again s e now later a h =
    let same = dated_at now later a h in
    save_anomaly_cases (λ r. save_anomaly r.0 e later a ≡ r) s e now a
      (λ id hit.
        save_anomaly-known s e later a id
          (ap (λ b. lookup (dedup_key b) s.anomaly_dedup) same ∙ hit))
      (λ miss.
        save_anomaly-known (save_new s e (dated now a) none).0 e later a (s.next_anomaly_id + 1) (
          ap (λ b. lookup (dedup_key b) (save_new s e (dated now a) none).0.anomaly_dedup) same
          ∙ lookup-insert_self (dedup_key (dated now a)) (s.next_anomaly_id + 1) s.anomaly_dedup))
