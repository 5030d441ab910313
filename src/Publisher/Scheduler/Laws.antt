-- ===== src/Publisher/Scheduler/Laws.antt =====
-- Tick of engine/publisher/scheduler.go: what becomes of every package that is due.
use rampart.Publisher.Scheduler.{TickError, list_failed, cancelled}
use rampart.Publisher.Scheduler.Fates.{
  missing, throttled, is_throttled, failing, history, Accounts, bare, Fate, by_context, all_written,
  if_for, calls_of, polls_of, written_by, fate, fates, by_outcome, one_if, unclaimed, is_saved,
  is_missing, is_throttled, failing, is_failed,
}
use rampart.Base.{
  ℕ, ◌+◌, ◌-◌, ◌≡◌, refl, sym, ap, ◌∙◌, inl, inr, Option, none, some, List, [], ◌∷◌, ◌++◌, arith,
  Text, ◌==◌, eq_iff, Text-eq, ℕ-eq, Bool-cases, Option-cases, map,
}
use mathlib.Core.List.{map-append, append-nil, append_assoc}
use rampart.Base.Assoc.{Assoc, lookup-insert}
use rampart.Domain.Incident.{Time}
use rampart.Domain.Publisher.{PublisherSnapshot}
use rampart.Store.{Store, StorageError, Result, ok, err}
use rampart.Store.Publishers.{list_packages_needing_refresh, save_publisher_snapshot, or_now}
use rampart.Api.{Env, World}
use rampart.Publisher.Scheduler.{
  Ingestion, fetched, not_found, rate_limited, server_failure, other_error, Ingestor, Scheduler,
  Refreshing, after_save, after_ingest, refresh, dispatch, polled, refresh_each, starting,
  tick_listed, tick,
}

same_start :
    (r : Refreshing) (ref : Text)
    → (more : List PublisherSnapshot) × (history r.world.store ref
        ≡ history r.world.store ref ++ more)
      × (map bare more ≡ map bare (all_written ref []))
same_start r ref = ([], sym (append-nil (history r.world.store ref)), refl)

Accounts-nil : (r : Refreshing) → Accounts [] r r
Accounts-nil r = record {
  refreshed = omega arith;
  missing = omega arith;
  throttled = omega arith;
  failed = omega arith;
  histories = same_start r;
  rest = refl;
}

bare_append :
    (xs ys us vs : List PublisherSnapshot)
    → map bare xs ≡ map bare us
    → map bare ys ≡ map bare vs
    → map bare (xs ++ ys) ≡ map bare (us ++ vs)
bare_append xs ys us vs a b = rw (map-append bare xs ys, map-append bare us vs, a, b) refl

Accounts-cons :
    (f : Fate) (fs : List Fate) (r s t : Refreshing)
    → Accounts (f ∷ []) r s
    → Accounts fs s t
    → Accounts (f ∷ fs) r t
Accounts-cons f fs r s t p q = record {
  refreshed = omega (arith, p.refreshed, q.refreshed);
  missing = omega (arith, p.missing, q.missing);
  throttled = omega (arith, p.throttled, q.throttled);
  failed = omega (arith, p.failed, q.failed);
  histories = λ ref.
      let (a, ea, ba) = p.histories ref in
      let (b, eb, bb) = q.histories ref in
      (
        a ++ b,
        eb ∙ ap (λ h. h ++ b) ea ∙ append_assoc (history r.world.store ref) a b,
        bare_append a b (written_by ref f) (all_written ref fs)
            (ba ∙ ap (map bare) (append-nil (written_by ref f))) bb,
      );
  rest =
      q.rest
      ∙ ap
          (λ (x : Store). record x {
            publisher_history = t.world.store.publisher_history;
            next_snapshot_id = t.world.store.next_snapshot_id;
          })
          p.rest;
}

save-history :
    (s : Store) (e : Option StorageError) (now : Time) (snap : PublisherSnapshot) (ref : Text)
    → (more : List PublisherSnapshot) × (history (save_publisher_snapshot s e now snap).0 ref
        ≡ history s ref ++ more)
      × (map bare more ≡ map bare (if_for ref snap ++ []))
unfolding save_publisher_snapshot
save-history s e now snap ref =
    let stored : PublisherSnapshot = record snap {
      id = s.next_snapshot_id + 1;
      snapshot_at = or_now now snap.snapshot_at;
    } in
    let grown = history s snap.package_ref ++ stored ∷ [] in
    elim (Bool-cases (snap.package_ref == ref)) [
      | inl here ↦
          let same : snap.package_ref ≡ ref = (eq_iff snap.package_ref ref).0 here in
          (
            stored ∷ [],
            rw (lookup-insert snap.package_ref ref grown s.publisher_history, here)
                (ap (λ r. history s r ++ stored ∷ []) same),
            rw here refl,
          )
      | inr other ↦ (
        [],
        rw (lookup-insert snap.package_ref ref grown s.publisher_history, other)
            (sym (append-nil (history s ref))),
        rw other refl,
      )
    ]

module _ (env : Env) where
  -- One package is accounted for by its fate.
  abbrev Deals : Fate → Refreshing → Refreshing → Type 0
  Deals f r t =
      Accounts (f ∷ []) r t
      × (t.calls ≡ r.calls + calls_of f)
      × (t.world.polls + 1 ≡ r.world.polls + polls_of f)

  after_save-Deals :
      (snap : PublisherSnapshot) (e : Option StorageError) (r t : Refreshing)
      → t.world.store ≡ (save_publisher_snapshot r.world.store e (env.now r.world.clock) snap).0
      → (t.refreshed ≡ r.refreshed)
        × (t.missing ≡ r.missing)
        × (t.throttled ≡ r.throttled)
        × (t.failed ≡ r.failed)
      → t.calls ≡ r.calls + 1
      → t.world.polls ≡ r.world.polls + 1
      → Deals (by_context snap e) r (after_save env e t)
  unfolding after_save save_publisher_snapshot
  after_save-Deals snap e r t stored (a, b, c, d) calls polls = by_error e stored
    where
      by_error :
          (x : Option StorageError)
          → t.world.store ≡ (save_publisher_snapshot r.world.store x (env.now r.world.clock) snap).0
          → Deals (by_context snap x) r (after_save env x t)
      by_error none same = (
        record {
          refreshed = omega (arith, a);
          missing = omega (arith, b);
          throttled = omega (arith, c);
          failed = omega (arith, d);
          histories =
              λ ref. rw same (save-history r.world.store none (env.now r.world.clock) snap ref);
          rest = rw same refl;
        },
        omega (arith, calls),
        omega (arith, polls),
      )
      by_error (some x) same = (
        record {
          refreshed = omega (arith, a);
          missing = omega (arith, b);
          throttled = omega (arith, c);
          failed = omega (arith, d);
          histories =
              λ ref. rw same (save-history r.world.store (some x) (env.now r.world.clock) snap ref);
          rest = rw same refl;
        },
        omega (arith, calls),
        omega (arith, polls),
      )

  -- A fate that writes nothing.
  quiet-Deals :
      (f : Fate) (r t : Refreshing)
      → ((ref : Text) → written_by ref f ≡ [])
      → t.world.store ≡ r.world.store
      → (t.refreshed ≡ r.refreshed + one_if (is_saved f))
        × (t.missing ≡ r.missing + one_if (is_missing f))
        × (t.throttled ≡ r.throttled + one_if (is_throttled f))
        × (t.failed ≡ r.failed + one_if (is_failed f))
      → t.calls ≡ r.calls + calls_of f
      → t.world.polls + 1 ≡ r.world.polls + polls_of f
      → Deals f r t
  quiet-Deals f r t quiet same (a, b, c, d) calls polls = (
    record {
      refreshed = omega (arith, a);
      missing = omega (arith, b);
      throttled = omega (arith, c);
      failed = omega (arith, d);
      histories = λ ref. rw (same, quiet ref) (same_start r ref);
      rest = rw same refl;
    },
    calls,
    polls,
  )

  refresh-Deals :
      (ref : Text) (ing : Option Ingestor) (r : Refreshing)
      → Deals
          (fate env ing ref r.calls r.world.polls)
          (polled env r)
          (refresh env ref ing (polled env r))
  unfolding refresh after_ingest after_save save_publisher_snapshot
  refresh-Deals ref none r =
      quiet-Deals unclaimed (polled env r) _ (λ k. refl) refl
        (omega arith, omega arith, omega arith, omega arith) (omega arith) (omega arith)
  refresh-Deals ref (some ing) r = by_answer (ing r.calls ref)
    where
      by_answer :
          (i : Ingestion)
          → Deals
              (by_outcome env r.world.polls i)
              (polled env r)
              (after_ingest env i (record (polled env r) { calls = r.calls + 1 }))
      by_answer not_found =
          quiet-Deals missing (polled env r) _ (λ k. refl) refl
            (omega arith, omega arith, omega arith, omega arith) (omega arith) (omega arith)
      by_answer rate_limited =
          quiet-Deals throttled (polled env r) _ (λ k. refl) refl
            (omega arith, omega arith, omega arith, omega arith) (omega arith) (omega arith)
      by_answer server_failure =
          quiet-Deals failing (polled env r) _ (λ k. refl) refl
            (omega arith, omega arith, omega arith, omega arith) (omega arith) (omega arith)
      by_answer other_error =
          quiet-Deals failing (polled env r) _ (λ k. refl) refl
            (omega arith, omega arith, omega arith, omega arith) (omega arith) (omega arith)
      by_answer (fetched snap) =
          after_save-Deals snap (env.ctx_err (r.world.polls + 1)) (polled env r) _ refl
            (refl, refl, refl, refl) refl refl

-- How the loop over the packages ends: with none left, or because a look at the context gave this error.
abbrev pub Ended : Env → Option TickError → List Text → Type 0
Ended env none later = later ≡ []
Ended env (some x) later =
    (n : ℕ) × (e : StorageError) × (env.ctx_err n ≡ some e) × (x ≡ cancelled e)

Accounts-polled :
    (env : Env) (fs : List Fate) (r t : Refreshing) → Accounts fs (polled env r) t → Accounts fs r t
Accounts-polled env fs r t p = record {
  refreshed = p.refreshed;
  missing = p.missing;
  throttled = p.throttled;
  failed = p.failed;
  histories = p.histories;
  rest = p.rest;
}

module _ (env : Env) (ings : Assoc Text Ingestor) where
  abbrev Seen : List Text → Refreshing → Option TickError × Refreshing → Type 0
  Seen refs r (x, t) =
      (seen : List Text) × (later : List Text) × (refs ≡ seen ++ later)
      × Ended env x later
      × Accounts (fates env ings seen r.calls r.world.polls) r t

  Accounts-at :
      (seen : List Text) (c d m n : ℕ) (r t : Refreshing)
      → c ≡ d
      → m ≡ n
      → Accounts (fates env ings seen c m) r t
      → Accounts (fates env ings seen d n) r t
  Accounts-at seen c d m n r t e h p = rw (sym e, sym h) p

  refresh_each-Seen :
      (refs : List Text) (r : Refreshing) → Seen refs r (refresh_each env ings refs r)
  unfolding refresh_each
  refresh_each-Seen [] r = ([], [], refl, refl, Accounts-nil r)
  refresh_each-Seen (ref ∷ refs) r = elim (Option-cases (env.ctx_err r.world.polls)) [
    | inr (e, bad) ↦
        rw (refresh_each, bad)
          (
            [],
            ref ∷ refs,
            refl,
            (r.world.polls, e, bad, refl),
            Accounts-polled env [] r (polled env r) (Accounts-nil (polled env r)),
          )
    | inl fine ↦
        let f = fate env (dispatch ings ref) ref r.calls r.world.polls in
        let s = refresh env ref (dispatch ings ref) (polled env r) in
        let (first, calls, polls) = refresh-Deals env ref (dispatch ings ref) r in
        let (seen, later, parts, ended, more) = refresh_each-Seen refs s in
        let polls' : s.world.polls ≡ r.world.polls + polls_of f = omega (arith, polls) in
        rw (refresh_each, fine)
          (
            ref ∷ seen,
            later,
            ap (λ xs. ref ∷ xs) parts,
            ended,
            Accounts-cons f
                (fates env ings seen (r.calls + calls_of f) (r.world.polls + polls_of f)) r s
                (refresh_each env ings refs s).1 (Accounts-polled env (f ∷ []) r s first)
                (Accounts-at seen s.calls (r.calls + calls_of f) s.world.polls
                  (r.world.polls + polls_of f) s (refresh_each env ings refs s).1 calls polls'
                  more),
          )
  ]

-- The packages that a tick got to, by the error that it returns and the packages that are due.
abbrev pub Reached : Env → Result (List Text) → Option TickError → List Text → Type 0
Reached env (err e) x seen = (x ≡ some (list_failed e)) × (seen ≡ [])
Reached env (ok refs) x seen = (later : List Text) × (refs ≡ seen ++ later) × Ended env x later

module _ (env : Env) where
  tick_listed-Accounts :
      (s : Scheduler) (listed : Result (List Text)) (w : World) (calls : ℕ)
      → (seen : List Text) × Reached env listed (tick_listed env s listed w calls).0 seen
        × Accounts
            (fates env s.ingestors seen calls w.polls)
            (starting env w calls)
            (tick_listed env s listed w calls).1
  unfolding tick_listed
  tick_listed-Accounts s (err e) w calls = ([], (refl, refl), Accounts-nil (starting env w calls))
  tick_listed-Accounts s (ok refs) w calls =
      let (seen, later, parts, ended, all) =
        refresh_each-Seen env s.ingestors refs (starting env w calls) in
      (seen, (later, parts, ended), all)

  -- However a tick of the scheduler ends, the packages that it got to are the first of those that are
  -- due: all of them if it returns no error, none if the listing failed, and as many as a look at the
  -- context allowed if it was cancelled. Each of them is accounted for by its fate, which is what its
  -- ingestor gives at that call and, for a snapshot, what the context says when it is written: the counts
  -- are the numbers of those saved, missing, throttled and failed, where a snapshot whose write reports an
  -- error and a package without an ingestor count as failed; every snapshot fetched, and nothing else, is
  -- added at the end of its package's history, in order, but for the number and time that the storage
  -- sets; and nothing else in the store changes.
  pub tick-Accounts :
      (s : Scheduler) (w : World) (calls : ℕ)
      → (seen : List Text) × Reached env
          (list_packages_needing_refresh w.store
            (env.ctx_err w.polls)
            (env.now w.clock - s.refresh_interval)
            s.batch_size)
          (tick env s w calls).0
          seen
        × Accounts
            (fates env s.ingestors seen calls (w.polls + 1))
            (starting env w calls)
            (tick env s w calls).1
  unfolding tick
  tick-Accounts s w calls =
      let (seen, reached, all) =
        tick_listed-Accounts s
          (list_packages_needing_refresh w.store (env.ctx_err w.polls)
            (env.now w.clock - s.refresh_interval) s.batch_size)
          (record w { clock = w.clock + 1; polls = w.polls + 1 }) calls in
      (
        seen,
        reached,
        record {
          refreshed = all.refreshed;
          missing = all.missing;
          throttled = all.throttled;
          failed = all.failed;
          histories = all.histories;
          rest = all.rest;
        },
      )
