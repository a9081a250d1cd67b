-- ===== src/Engine/RateLimit/Tests.antt =====
-- A request that the exchange refuses twice.
use syn_antona.Prelude.{ℕ, ltb, [], ◌∷◌, ◌≡◌, refl, if◌then◌else◌}
use syn_antona.Prelude.Errors.{Error, ok, err}
use syn_antona.Engine.RateLimit.{Reply, RateLimitManager, retry, execute}

abbrev operation : ℕ → Reply ℕ
operation attempt = record {
  result = if ltb attempt 2 then err (Error.exchange_error "rate limited") else ok 7;
  took = 1000;
}

-- Eight requests a second, and the last one ended 25 milliseconds ago.
abbrev manager : RateLimitManager
manager = record {
  minimum_interval = 125_000;
  max_retries = 3;
  last_request_at = 1_000_000;
  now = 1_025_000;
  requests = [];
}

retried : execute operation manager ≡ (
  ok 7,
  record manager {
    last_request_at = 1_878_000;
    now = 1_878_000;
    requests = 1_125_000 ∷ 1_376_000 ∷ 1_877_000 ∷ [];
  },
)
unfolding retry execute
retried = refl
