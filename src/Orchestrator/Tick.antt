-- ===== src/Orchestrator/Tick.antt =====
-- Run of engine/anomaly/orchestrator.go: its ticks, and the error that it returns.
use rampart.Base.{ℕ, zero, suc, ◌≡◌, refl, Option, none, some, List, [], ◌∷◌, Text, Text-eq, ℕ-eq}
use rampart.Domain.Incident.{Time}
use rampart.Matcher.{Semver}
use rampart.Store.{StorageError}
use rampart.Api.{Env, World}
use rampart.Api.Matching.Open.{Fresh}
use rampart.Orchestrator.{Orchestrator, Wake, done, ticked, tick, run_loop, run}
use rampart.Orchestrator.Steps.{Advances, still, then_, tick-Advances}

-- The error of the first end of the context among these.
abbrev pub first_done : List Wake → Option StorageError
first_done [] = none
first_done (done e ∷ wakes) = some e
first_done (ticked ∷ wakes) = first_done wakes

-- The wakes up to the first end of the context are ticks.
abbrev pub ticks_before : List Wake → ℕ
ticks_before [] = 0
ticks_before (done e ∷ wakes) = 0
ticks_before (ticked ∷ wakes) = suc (ticks_before wakes)

module _ (semver : Semver) (env : Env) (id_at : Time → Text) (o : Orchestrator) where
  -- The state after so many ticks.
  abbrev pub after_ticks : ℕ → World → World
  after_ticks zero w = w
  after_ticks (suc n) w = after_ticks n (tick semver env id_at o w).1.world

  run_loop-first_done :
      (wakes : List Wake) (w : World)
      → run_loop semver env id_at o wakes w ≡ (first_done wakes, after_ticks (ticks_before wakes) w)
  unfolding run_loop
  run_loop-first_done [] w = refl
  run_loop-first_done (done e ∷ wakes) w = refl
  run_loop-first_done (ticked ∷ wakes) w =
      run_loop-first_done wakes (tick semver env id_at o w).1.world

  -- Run ticks once at its start and once for each tick of its ticker until its context ends, and
  -- returns that end's error and no other: no error of a tick stops it.
  pub run-first_done :
      (wakes : List Wake) (w : World)
      → run semver env id_at o wakes w
        ≡ (first_done wakes, after_ticks (suc (ticks_before wakes)) w)
  unfolding run
  run-first_done wakes w = run_loop-first_done wakes (tick semver env id_at o w).1.world

  after_ticks-Advances : (n : ℕ) (w : World) → Fresh env w → Advances env w (after_ticks n w)
  after_ticks-Advances zero w fresh = still env w w refl refl
  after_ticks-Advances (suc n) w fresh =
      let w' = (tick semver env id_at o w).1.world in
      then_ env w w' (after_ticks n w') fresh (tick-Advances semver env id_at o w fresh)
        (after_ticks-Advances n w')

  -- What holds of a tick holds of a run of any length.
  pub run-Advances :
      (wakes : List Wake) (w : World)
      → Fresh env w
      → Advances env w (run semver env id_at o wakes w).1
  run-Advances wakes w fresh =
      rw (run-first_done wakes w) (after_ticks-Advances (suc (ticks_before wakes)) w fresh)
