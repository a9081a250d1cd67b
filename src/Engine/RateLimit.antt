-- ===== src/Engine/RateLimit.antt =====
-- `RateLimitManager` of app/exchanges/rate_limit.py. The lock lets one call run at a time. Times are
-- microseconds of `monotonic()`, which a sleep moves by its delay and an operation by what it took.
pub mod Settling
mod Tests
use syn_antona.Prelude.{
  ℕ, zero, suc, ◌+◌, ◌-◌, ◌*◌, ◌^◌, ltb, leb, Bool, true, false, ◌&&◌, List, [], ◌∷◌, ◌++◌,
  if◌then◌else◌,
}
use syn_antona.Prelude.Errors.{Error, Result, ok, err}

-- The answer of the operation to one attempt, and how long it took.
pub record Reply {ℓ} (A : Type ℓ) : Type ℓ where
  pub result : Result A
  pub took : ℕ

-- `requests` is when the operation was called, the earliest first.
pub record RateLimitManager : Type 0 where
  pub minimum_interval : ℕ
  pub max_retries : ℕ
  pub last_request_at : ℕ
  pub now : ℕ
  pub requests : List ℕ

-- `except ExchangeError`
abbrev pub is_exchange_error : Error → Bool
is_exchange_error (Error.exchange_error text) = true
is_exchange_error _ = false

-- `min(0.25 * 2**attempt, 4)`
abbrev pub backoff : ℕ → ℕ
backoff attempt = if ltb 4_000_000 (250_000 * 2 ^ attempt) then 4_000_000 else 250_000 * 2 ^ attempt

abbrev pub sleep : ℕ → RateLimitManager → RateLimitManager
sleep delay r = record r { now = r.now + delay }

-- `delay = self.minimum_interval - (monotonic() - self._last_request_at)`, slept if above zero.
abbrev pub wait_turn : RateLimitManager → RateLimitManager
wait_turn r =
    if ltb r.now (r.last_request_at + r.minimum_interval)
    then sleep (r.last_request_at + r.minimum_interval - r.now) r
    else r

abbrev pub requested : ℕ → RateLimitManager → RateLimitManager
requested took r = record r { now = r.now + took; requests = r.requests ++ r.now ∷ [] }

-- `self._last_request_at = monotonic()`
abbrev pub answered : RateLimitManager → RateLimitManager
answered r = record r { last_request_at = r.now }

abbrev pub is_last : ℕ → RateLimitManager → Bool
is_last attempt r = leb attempt r.max_retries && leb r.max_retries attempt

module _ {ℓ} {A : Type ℓ} (operation : ℕ → Reply A) where
  -- The attempts that are left. Any other exception leaves the loop at once.
  unfoldable pub retry : ℕ → ℕ → RateLimitManager → Result A × RateLimitManager
  retry zero attempt r = (err (Error.exchange_error "request retry loop exhausted"), r)
  retry (suc left) attempt r =
      let asked : RateLimitManager = requested (operation attempt).took r in
      let next = retry left (suc attempt) (sleep (backoff attempt) (answered asked)) in
      elim (operation attempt).result [
        | ok a ↦ (ok a, answered asked)
        | err e ↦
            if is_exchange_error e
            then if is_last attempt r then (err e, answered asked) else next
            else (err e, asked)
      ]

  unfoldable pub execute : RateLimitManager → Result A × RateLimitManager
  execute r = retry (suc r.max_retries) 0 (wait_turn r)
