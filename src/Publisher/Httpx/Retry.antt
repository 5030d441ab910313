-- ===== src/Publisher/Httpx/Retry.antt =====
-- Get of engine/publisher/internal/httpx/httpx.go: after which attempt it ends, and with what.
use rampart.Base.{
  ℕ, zero, suc, ◌+◌, ◌≤◌, ◌<◌, ◌≡◌, refl, ap, ◌∙◌, inl, inr, Option, none, some, arith, ◌==◌,
  eq_iff, Text-eq, ℕ-eq, Bool-cases, sym,
}
use rampart.Publisher.Httpx.{
  or_default, Client, Network, HttpError, Fetched, failure, Step, returns, retries, attempt_once,
  get_loop, get,
}

-- The number of retries, and one attempt, with the defaults put in.
abbrev pub retries_of : Client → ℕ
retries_of c = or_default 3 c.max_retries

abbrev pub once : Network → Client → ℕ → Step
once net c =
    attempt_once net (or_default 500000000 c.retry_base_delay)
      (or_default 30000000000 c.retry_max_delay)

-- How Get ends at an attempt with a result: the attempt returns it, or is the last one and asks for
-- a retry with this error.
pub data EndsAt (step : Step) (last : Type 0) : Fetched → Type 0 where
  answers : (f : Fetched) → step ≡ returns f → EndsAt step last f
  gives_up : (e : HttpError) → step ≡ retries e → last → EndsAt step last (failure e)

-- The attempts from one on up to another ask for a retry.
abbrev pub Retried : (ℕ → Step) → ℕ → ℕ → Type 0
Retried step from k = (j : ℕ) → from ≤ j → j < k → (e : HttpError) × (step j ≡ retries e)

with_last : {p q : Type 0} {f : Fetched} (s : Step) → (p → q) → EndsAt s p f → EndsAt s q f
with_last s h (answers f e) = answers f e
with_last s h (gives_up x e last) = gives_up x e (h last)

module _ (net : Network) (base_delay max_delay : ℕ) where
  abbrev step_of : ℕ → Step
  step_of = attempt_once net base_delay max_delay

  abbrev Ends : ℕ → ℕ → Option Fetched × ℕ → Type 0
  Ends left attempt r =
      (k : ℕ) × (f : Fetched) × (r ≡ (some f, suc k))
      × (attempt ≤ k)
      × (k < attempt + left)
      × Retried step_of attempt k
      × EndsAt (step_of k) (suc k ≡ attempt + left) f

  step_cases {ℓ} :
      (P : Type ℓ) (j : ℕ)
      → ((r : Fetched) → step_of j ≡ returns r → P)
      → ((e : HttpError) → step_of j ≡ retries e → P)
      → P
  step_cases P j ends again = by_step (step_of j) refl
    where
      by_step : (s : Step) → step_of j ≡ s → P
      by_step (returns r) e = ends r e
      by_step (retries x) e = again x e

  none_between : (attempt : ℕ) → Retried step_of attempt attempt
  none_between attempt j low high = absurd (omega (arith, low, high))

  get_loop-Ends :
      (left attempt : ℕ) (last : Option HttpError)
      → Ends (suc left) attempt (get_loop net base_delay max_delay (suc left) attempt last)
  unfolding get_loop
  get_loop-Ends zero attempt last =
      step_cases (Ends 1 attempt (get_loop net base_delay max_delay 1 attempt last)) attempt
        (λ r e.
          rw (get_loop, e)
            (attempt, r, refl, omega arith, omega arith, none_between attempt, answers r e))
        (λ x e.
          rw (get_loop, e)
            (
              attempt,
              failure x,
              refl,
              omega arith,
              omega arith,
              none_between attempt,
              gives_up x e (omega arith),
            ))
  get_loop-Ends (suc left) attempt last =
      step_cases
        (Ends (suc (suc left)) attempt
          (get_loop net base_delay max_delay (suc (suc left)) attempt last))
        attempt
        (λ r e.
          rw (get_loop, e)
            (attempt, r, refl, omega arith, omega arith, none_between attempt, answers r e))
        (λ x e.
          let (k, f, same, low, high, before, end) = get_loop-Ends left (suc attempt) (some x) in
          rw (get_loop, e)
            (
              k,
              f,
              same,
              omega (arith, low),
              omega (arith, high),
              λ j from to. elim (Bool-cases (attempt == j)) [
                | inl here ↦ (x, ap step_of (sym ((eq_iff attempt j).0 here)) ∙ e)
                | inr later ↦ before j (ground (arith, from, later, eq_iff attempt j)) to
              ],
              with_last (step_of k) (λ h. omega (arith, h)) end,
            ))

-- Whatever the network does, Get ends, and it makes no more attempts than it must and gives up no
-- sooner: there is an attempt, one of the first or of as many retries as the client allows, before which
-- every attempt asked for a retry; Get makes exactly the attempts up to it, and returns what it returns
-- or, if it is the last of the retries and asks for one more, its error.
pub get-Ends :
    (net : Network) (c : Client)
    → (k : ℕ) × (f : Fetched) × (get net c ≡ (some f, suc k))
      × (k ≤ retries_of c)
      × Retried (once net c) 0 k
      × EndsAt (once net c k) (k ≡ retries_of c) f
unfolding get
get-Ends net c =
    let (k, f, same, low, high, before, end) =
      get_loop-Ends net (or_default 500000000 c.retry_base_delay)
        (or_default 30000000000 c.retry_max_delay) (retries_of c) 0 none in
    (k, f, same, omega (arith, high), before, with_last (once net c k) (λ h. omega (arith, h)) end)
