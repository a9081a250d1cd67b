-- ===== src/Engine/Health.antt =====
-- `ExchangeHealthMonitor` of app/exchanges/health.py: what the last market data, the order errors
-- and the report of the exchange itself say together.
pub mod Errors
use syn_antona.Prelude.{
  ℕ, suc, String, Bool, true, false, not, leb, Option, none, some, List, [], ◌∷◌, ◌++◌, ◌&&◌,
  if◌then◌else◌,
}
use syn_antona.Prelude.Keys.{Key, text_key}
use syn_antona.Prelude.Dict.{Dict, lookup, insert, get_or}
use syn_antona.Decimal.{Decimal, ◌<D◌}
use syn_antona.Risk.Portfolio.{HealthStatus, is_unavailable}
use syn_antona.Engine.Market.{HealthReport, seconds_since}

pub record ExchangeHealthMonitor : Type 0 where
  pub stale_after_seconds : Decimal
  pub max_order_errors : ℕ
  pub last_market_data : Dict String ℕ
  pub order_errors : Dict String ℕ
  pub reports : Dict String HealthReport

unfoldable pub market_data_received : String → ℕ → ExchangeHealthMonitor → ExchangeHealthMonitor
market_data_received exchange timestamp m = record m {
  last_market_data = insert exchange timestamp m.last_market_data;
}

unfoldable pub order_error : String → ExchangeHealthMonitor → ExchangeHealthMonitor
order_error exchange m = record m {
  order_errors = insert exchange (suc (get_or exchange 0 m.order_errors)) m.order_errors;
}

unfoldable pub order_success : String → ExchangeHealthMonitor → ExchangeHealthMonitor
order_success exchange m = record m { order_errors = insert exchange 0 m.order_errors }

abbrev pub is_healthy : HealthStatus → Bool
is_healthy HealthStatus.healthy = true
is_healthy _ = false

-- `HealthStatus.DEGRADED if status is HealthStatus.HEALTHY else status`
abbrev pub degrade : HealthStatus → HealthStatus
degrade status = if is_healthy status then HealthStatus.degraded else status

-- The age of the last market data, when there was any.
abbrev pub data_age : ExchangeHealthMonitor → String → ℕ → Option Decimal
data_age m name now = elim (lookup name m.last_market_data) [
  | none ↦ none
  | some last ↦ some (seconds_since now last)
]

abbrev pub is_stale : ExchangeHealthMonitor → Option Decimal → Bool
is_stale m none = false
is_stale m (some age) = m.stale_after_seconds <D age

-- The status and the reasons so far, after one test of `check`.
abbrev pub after_stale : Bool → HealthStatus × List String → HealthStatus × List String
after_stale stale (status, reasons) =
    if stale then (degrade status, reasons ++ "market data is stale" ∷ []) else (status, reasons)

abbrev pub after_errors : Bool → HealthStatus × List String → HealthStatus × List String
after_errors over (status, reasons) =
    if over
    then (HealthStatus.unavailable, reasons ++ "order error threshold exceeded" ∷ [])
    else (status, reasons)

abbrev pub after_limit : Bool → HealthStatus × List String → HealthStatus × List String
after_limit limited (status, reasons) =
    if limited && is_healthy status
    then (HealthStatus.degraded, reasons ++ "exchange is rate limited" ∷ [])
    else (status, reasons)

-- `check`, on the report that `adapter.health_check()` returned for the exchange of that name.
unfoldable pub judge : String → ℕ → HealthReport → ExchangeHealthMonitor → HealthReport
judge name now report m =
    let age : Option Decimal = data_age m name now in
    let errors : ℕ = get_or name 0 m.order_errors in
    let verdict : HealthStatus × List String = after_limit report.rate_limited (
      after_errors (leb m.max_order_errors errors)
        (after_stale (is_stale m age) (report.status, report.reasons))) in
    record report {
      status = verdict.0;
      market_data_age_seconds = age;
      order_errors = errors;
      reasons = verdict.1;
    }

unfoldable pub check :
    String → ℕ → HealthReport → ExchangeHealthMonitor → HealthReport × ExchangeHealthMonitor
check name now report m =
    let updated : HealthReport = judge name now report m in
    (updated, record m { reports = insert name updated m.reports })

abbrev pub latest : String → ExchangeHealthMonitor → Option HealthReport
latest exchange m = lookup exchange m.reports

unfoldable pub can_open_new_position : String → ExchangeHealthMonitor → Bool
can_open_new_position exchange m = elim (latest exchange m) [
  | none ↦ false
  | some report ↦ not (is_unavailable report.status)
]
