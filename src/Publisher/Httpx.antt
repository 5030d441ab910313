-- ===== src/Publisher/Httpx.antt =====
-- engine/publisher/internal/httpx/httpx.go: Get with its retries. What the network, the rate limiter
-- (golang.org/x/time/rate), the timer and the context do is given by the number of the attempt.
-- A duration is in nanoseconds.
pub mod Delay
pub mod Retry
use rampart.Base.{
  ℕ, zero, suc, ◌+◌, ◌-◌, ◌*◌, ◌≤◌, ◌<◌, ◌≡◌, refl, sym, ap, ◌∙◌, ◌≢◌, ◌↔◌, ◌⊎◌, inl, inr, Bool,
  true, false, not, ◌&&◌, ◌||◌, Option, none, some, List, [], ◌∷◌, ◌++◌, map, arith, Text, bytes,
  String, Eq, ◌==◌, eq_iff, eq_refl, eq_false, ne_of_eq_false, Text-eq, ℕ-eq, contains,
  contains_iff, keep_if, In, All, length, take, if◌then◌else◌, ltb, leb, Bool-cases, Option-cases,
}
use Prim.Native.Nat.{◌%◌, ◌^◌}
use mathlib.Core.Option
use rampart.Base.Int.{ℤ, pos, negsuc, int64, lt_int, whole, half}

-- Client, less the HTTP client, the limiter and the headers.
pub record Client : Type 0 where
  pub max_retries : ℤ
  pub retry_base_delay : ℤ
  pub retry_max_delay : ℤ

-- `if v <= 0 { v = d }`
abbrev pub or_default : ℕ → ℤ → ℕ
or_default d (pos zero) = d
or_default d (pos (suc n)) = suc n
or_default d (negsuc n) = d

-- New, as far as the retries go.
unfoldable pub new_client : Client
new_client = record {
  max_retries = pos 3;
  retry_base_delay = pos 500000000;
  retry_max_delay = pos 30000000000;
}

-- time.Second
abbrev pub second : ℕ
second = 1000000000

-- The digits of a number, most significant first.
unfoldable pub digits_value : Text → ℕ → Option ℕ
digits_value [] n = some n
digits_value (c ∷ s) n =
    let rest = digits_value s (n * 10 + (c - 48)) in if leb 48 c && leb c 57 then rest else none

abbrev in_range : ℕ → Option ℕ → Option ℕ
in_range top none = none
in_range top (some n) = if ltb n top then some n else none

abbrev negated : Option ℕ → Option ℤ
negated none = none
negated (some zero) = some (pos 0)
negated (some (suc n)) = some (negsuc n)

abbrev unsigned : Text → Option ℕ
unsigned [] = none
unsigned (c ∷ s) = digits_value (c ∷ s) 0

-- strconv.Atoi; `none` is an error.
unfoldable pub atoi : Text → Option ℤ
atoi [] = none
atoi (c ∷ s) =
    if c == b'-'
    then negated (in_range (half + 1) (unsigned s))
    else if c == b'+'
    then Option.map pos (in_range half (unsigned s))
    else Option.map pos (in_range half (unsigned (c ∷ s)))

-- backoff: the shift is on int64.
unfoldable pub backoff : ℕ → ℕ → ℕ → ℤ
backoff attempt base_delay max_delay =
    let d = int64 ((base_delay * 2 ^ attempt) % whole) in
    if not (lt_int (pos 0) d) || lt_int (pos max_delay) d then pos max_delay else d

abbrev seconds_or : ℤ → ℕ → Option ℤ → ℤ
seconds_or otherwise max_delay none = otherwise
seconds_or otherwise max_delay (some (negsuc n)) = otherwise
seconds_or otherwise max_delay (some (pos n)) =
    let d = int64 ((n * second) % whole) in if lt_int (pos max_delay) d then pos max_delay else d

-- retryAfterOrBackoff: the product is on int64.
unfoldable pub retry_after_or_backoff : Text → ℕ → ℕ → ℕ → ℤ
retry_after_or_backoff header attempt base_delay max_delay =
    if not (header == [])
    then seconds_or (backoff attempt base_delay max_delay) max_delay (atoi header)
    else backoff attempt base_delay max_delay

-- What HTTP.Do returns: an error, or a response with its body, where `none` is a read error.
pub data Exchange : Type 0 where
  transport : Text → Exchange
  response : (status : ℕ) (retry_after : Text) (body : Option Text) → Exchange

-- What happens at each attempt.
pub record Network : Type 0 where
  pub wait : ℕ → Option Text
  pub build : ℕ → Option Text
  pub exchange : ℕ → Exchange
  -- A timer of sleepFor ends before the context does.
  pub timer_first : ℕ → Bool
  -- ctx.Err() after the exchange.
  pub ctx_err : ℕ → Option Text

pub data HttpError : Type 0 where
  not_found rate_limited : HttpError
  server_failure : ℕ → HttpError
  transport_failure : Text → HttpError
  wait_failed build_failed : Text → HttpError
  read_failed : HttpError
  unexpected_status : ℕ → HttpError
  cancelled : Option Text → HttpError

-- What Get returns.
pub data Fetched : Type 0 where
  body : Text → Fetched
  failure : HttpError → Fetched

-- How an attempt ends: Get returns, or goes on with lastErr set.
pub data Step : Type 0 where
  returns : Fetched → Step
  retries : HttpError → Step

module _ (net : Network) where
  -- sleepFor
  unfoldable pub sleep_for : ℕ → ℤ → Bool
  sleep_for attempt d =
      if not (lt_int (pos 0) d)
      then elim (net.ctx_err attempt) [ none ↦ true | some e ↦ false ]
      else net.timer_first attempt

  -- `if !sleep { return nil, ctx.Err() }; continue`
  abbrev pub after_sleep : ℕ → HttpError → Bool → Step
  after_sleep attempt last true = retries last
  after_sleep attempt last false = returns (failure (cancelled (net.ctx_err attempt)))

  abbrev read_body : Option Text → Step
  read_body none = returns (failure read_failed)
  read_body (some text) = returns (body text)

  -- The switch on the status.
  unfoldable pub by_status : ℕ → ℕ → ℕ → ℕ → Text → Option Text → Step
  by_status attempt base_delay max_delay status header content =
      if status == 200
      then read_body content
      else if status == 404
      then returns (failure not_found)
      else if status == 429
      then after_sleep attempt rate_limited
          (sleep_for attempt (retry_after_or_backoff header attempt base_delay max_delay))
      else if leb 500 status
      then after_sleep attempt (server_failure status)
          (sleep_for attempt (backoff attempt base_delay max_delay))
      else returns (failure (unexpected_status status))

  unfoldable pub after_exchange : ℕ → ℕ → ℕ → Exchange → Step
  after_exchange attempt base_delay max_delay (transport e) =
      after_sleep attempt (transport_failure e)
        (sleep_for attempt (backoff attempt base_delay max_delay))
  after_exchange attempt base_delay max_delay (response status header content) =
      by_status attempt base_delay max_delay status header content

  abbrev after_build : ℕ → ℕ → ℕ → Option Text → Step
  after_build attempt base_delay max_delay (some e) = returns (failure (build_failed e))
  after_build attempt base_delay max_delay none =
      after_exchange attempt base_delay max_delay (net.exchange attempt)

  abbrev after_wait : ℕ → ℕ → ℕ → Option Text → Step
  after_wait attempt base_delay max_delay (some e) = returns (failure (wait_failed e))
  after_wait attempt base_delay max_delay none =
      after_build attempt base_delay max_delay (net.build attempt)

  -- The body of the loop.
  unfoldable pub attempt_once : ℕ → ℕ → ℕ → Step
  attempt_once base_delay max_delay attempt =
      after_wait attempt base_delay max_delay (net.wait attempt)

  -- The loop, with the attempts that are left and lastErr; it also returns how many were made.
  unfoldable pub get_loop : ℕ → ℕ → ℕ → ℕ → Option HttpError → Option Fetched × ℕ
  get_loop base_delay max_delay zero attempt last = (Option.map failure last, attempt)
  get_loop base_delay max_delay (suc left) attempt last =
      elim (attempt_once base_delay max_delay attempt) [
        | returns r ↦ (some r, suc attempt)
        | retries e ↦ get_loop base_delay max_delay left (suc attempt) (some e)
      ]

  -- Get; `none` would be neither a body nor an error.
  unfoldable pub get : Client → Option Fetched × ℕ
  get c =
      get_loop (or_default 500000000 c.retry_base_delay) (or_default 30000000000 c.retry_max_delay)
        (suc (or_default 3 c.max_retries)) 0 none
