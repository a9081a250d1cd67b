-- ===== src/Engine/RateLimit/Settling.antt =====
-- A call ends with one of its attempts.
use syn_antona.Prelude.{
  ℕ, suc, ◌+◌, ◌≤◌, ◌<◌, leb, length, Bool, true, false, ◌&&◌, List, [], ◌∷◌, ◌++◌, ◌≡◌, ◌⊎◌,
}
use syn_antona.Prelude.Errors.{Result, ok, err}
use syn_antona.Engine.RateLimit.{
  Reply, RateLimitManager, is_exchange_error, backoff, sleep, requested, answered, retry,
}

-- The exchange refused the attempt with an ExchangeError.
abbrev pub is_refused {ℓ} : {A : Type ℓ} → Result A → Bool
is_refused (ok a) = false
is_refused (err e) = is_exchange_error e

-- Each start is at least a quarter of a second after the one before.
abbrev pub apart : ℕ → List ℕ → Bool
apart before [] = true
apart before (t ∷ ts) = leb (before + 250_000) t && apart t ts

-- The call ended with the attempt `k`: those before were answered with an ExchangeError.
pub record Settled {ℓ} {A : Type ℓ} (operation : ℕ → Reply A) (from most first : ℕ)
    (requests : List ℕ) (r : Result A × RateLimitManager) : Type ℓ where
  pub last : ℕ
  pub starts : List ℕ
  pub within : last ≤ most
  pub outcome : r.0 ≡ (operation last).result
  pub ended : (is_refused (operation last).result ≡ false) ⊎ (last ≡ most)
  pub refused : (i : ℕ) → from ≤ i → i < last → is_refused (operation i).result ≡ true
  pub sent : r.1.requests ≡ requests ++ first ∷ starts
  pub count : length starts + from ≡ last
  pub spaced : apart first starts ≡ true

module _ {ℓ} {A : Type ℓ} (operation : ℕ → Reply A) where
  abbrev slept : ℕ → RateLimitManager → RateLimitManager
  slept attempt r = sleep (backoff attempt) (answered (requested (operation attempt).took r))

  -- How the loop goes on after the attempt, when attempts are left.
  abbrev Later : ℕ → ℕ → RateLimitManager → Type ℓ
  Later left attempt r =
      (k : ℕ)
      → suc k ≡ left
      → Settled operation (suc attempt) r.max_retries (slept attempt r).now
          (r.requests ++ r.now ∷ []) (retry operation (suc k) (suc attempt) (slept attempt r))
