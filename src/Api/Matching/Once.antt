-- ===== src/Api/Matching/Once.antt =====
-- openIncidentsForMatches of engine/internal/api/matching.go as a whole.
use rampart.Base.{
  ◌+◌, ◌≡◌, refl, sym, inl, inr, true, Option, none, some, List, [], ◌∷◌, Text, Text-eq, ℕ-eq, In,
  ltb,
}
use mathlib.Core.List.{append-nil}
use rampart.Base.Assoc.{lookup, values, values-In, In-values}
use rampart.Base.Sort.{In-sort_by, sort_by}
use rampart.Domain.Incident.{Time, Incident}
use rampart.Store.{StorageError, PublisherKey-eq}
use rampart.Api.{Env, World}
use rampart.Api.Matching.{MatchPair, Opening, open_one, open_each, unless_error, index_open}
use rampart.Api.Matching.Index.{has, has-index_open}
use rampart.Api.Matching.Open.{Covered, Fresh, Agrees, key_of, Covered-store_after, open_one_cases}
use rampart.Api.Matching.Unique.{Progress, Progress-step, kept-store_after}

abbrev pub start_of : Env → World → List Incident → Opening
start_of env w existing = record {
  index = index_open existing [];
  opened = [];
  error = none;
  world = record w { clock = w.clock + 1; polls = w.polls + 1 };
}

pub unless_error_cases {ℓ} :
    (P : Opening → Type ℓ) (e : Option StorageError) (stopped rest : Opening)
    → (e ≡ none → P rest)
    → ((x : StorageError) → e ≡ some x → P stopped)
    → P (unless_error e stopped rest)
unless_error_cases P none stopped rest go stop = go refl
unless_error_cases P (some x) stopped rest go stop = stop x refl

module _ (env : Env) (now : Time) (start : Opening) where
  pub each-Progress :
      (ps : List MatchPair) (o : Opening)
      → Progress env start o
      → o.error ≡ none
      → Progress env start (open_each env now ps o)
  unfolding open_each
  each-Progress [] o q going = q
  each-Progress (p ∷ ps) o q going =
      let o' = open_one env now p o in
      let q' = Progress-step env now start o p q going in
      unless_error_cases (Progress env start) o'.error o' (open_each env now ps o')
        (λ fine. each-Progress ps o' q' fine) (λ x bad. q')

  one-kept :
      (p : MatchPair) (o : Opening)
      → Progress env start o
      → (a : Text × Incident) → In a o.world.store.incidents
      → In a (open_one env now p o).world.store.incidents
  one-kept p o q a m =
      open_one_cases env now p o (λ o'. In a o'.world.store.incidents) (λ known. m)
        (λ miss e. kept-store_after env now p o q.fresh a m)
        (λ miss. kept-store_after env now p o q.fresh a m)

  each-kept :
      (ps : List MatchPair) (o : Opening)
      → Progress env start o
      → o.error ≡ none
      → (a : Text × Incident) → In a o.world.store.incidents
      → In a (open_each env now ps o).world.store.incidents
  unfolding open_each
  each-kept [] o q going a m = m
  each-kept (p ∷ ps) o q going a m =
      let o' = open_one env now p o in
      let q' = Progress-step env now start o p q going in
      let m' = one-kept p o q a m in
      unless_error_cases (λ r. In a r.world.store.incidents) o'.error o' (open_each env now ps o')
        (λ fine. each-kept ps o' q' fine a m') (λ x bad. m')

  one-covers :
      (p : MatchPair) (o : Opening)
      → Progress env start o
      → o.error ≡ none
      → (open_one env now p o).error ≡ none
      → Covered (open_one env now p o).world.store (key_of p)
  one-covers p o q going =
      open_one_cases env now p o (λ o'. o'.error ≡ none → Covered o'.world.store (key_of p))
        (λ known fine. (q.agrees going (key_of p)).0 known) (λ miss e fine. absurd (cc fine))
        (λ miss fine. (Covered-store_after env now p o q.fresh (key_of p)).1 (inl refl))

  -- Every pair of the loop is covered at its end, unless an error ended it.
  pub each-covers :
      (ps : List MatchPair) (o : Opening)
      → Progress env start o
      → o.error ≡ none
      → (x : MatchPair) → In x ps
      → (open_each env now ps o).error ≡ none
      → Covered (open_each env now ps o).world.store (key_of x)
  unfolding open_each
  each-covers [] o q going x m = absurd m
  each-covers (p ∷ ps) o q going x m =
      let o' = open_one env now p o in
      let q' = Progress-step env now start o p q going in
      unless_error_cases (λ r. r.error ≡ none → Covered r.world.store (key_of x)) o'.error o'
        (open_each env now ps o')
        (λ fine done. elim m [
          | inl e ↦
              let (inc, there, c) = one-covers p o q going fine in
              let (id, entry) = values-In inc o'.world.store.incidents there in
              (
                inc,
                In-values id inc (open_each env now ps o').world.store.incidents
                    (each-kept ps o' q' fine (id, inc) entry),
                rw e c,
              )
          | inr later ↦ each-covers ps o' q' fine x later done
        ])
        (λ y bad done. absurd (cc (bad, done)))

  -- A loop over pairs that the index already holds does nothing.
  pub each-known :
      (ps : List MatchPair) (o : Opening)
      → o.error ≡ none
      → ((x : MatchPair) → In x ps → has (key_of x) o.index ≡ true)
      → open_each env now ps o ≡ o
  unfolding open_each
  each-known [] o going all = refl
  each-known (p ∷ ps) o going all =
      let same : open_one env now p o ≡ o =
        open_one_cases env now p o (λ o'. o' ≡ o) (λ known. refl)
          (λ miss e. absurd (cc (miss, all p (inl refl))))
          (λ miss. absurd (cc (miss, all p (inl refl)))) in
      rw same (
        unless_error_cases (λ r. r ≡ o) o.error o (open_each env now ps o)
          (λ fine. each-known ps o going (λ x m. all x (inr m))) (λ x bad. refl))

pub Agrees-start :
    (env : Env) (w : World)
    → Agrees
        (start_of env w (sort_by (λ a b. ltb a.opened_at b.opened_at) (values w.store.incidents)))
unfolding lookup
Agrees-start env w k =
    let less = λ (a b : Incident). ltb a.opened_at b.opened_at in
    let incs = values w.store.incidents in
    let index = has-index_open (sort_by less incs) [] k in
    (
      λ h. elim (index.0 h) [
        | inl (inc, m, c) ↦ (inc, (In-sort_by less inc incs).0 m, c)
        | inr never ↦ absurd (cc never)
      ],
      λ (inc, m, c). index.1 (inl (inc, (In-sort_by less inc incs).1 m, c)),
    )

pub start-Progress :
    (env : Env) (w : World)
    → Fresh env w
    → Progress env
        (start_of env w (sort_by (λ a b. ltb a.opened_at b.opened_at) (values w.store.incidents)))
        (start_of env w (sort_by (λ a b. ltb a.opened_at b.opened_at) (values w.store.incidents)))
start-Progress env w fresh = record {
  fresh = record { unused = fresh.unused; injective = fresh.injective };
  agrees = λ fine. Agrees-start env w;
  kept = λ a m. m;
  unique = λ u. u;
  announced = record {
    incidents = [];
    stored = λ inc m. absurd m;
    returned = refl;
    events = sym (append-nil w.outbox);
  };
  complete = λ fine a m. inl m;
}
