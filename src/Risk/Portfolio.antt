-- ===== src/Risk/Portfolio.antt =====
-- `GlobalPortfolioRiskManager` of app/risk/portfolio.py, and the position of
-- app/exchanges/portfolio.py that it reads. Reasons are the constructors of `Reason`.
pub mod Book
mod Tests
use Prim.Native.String.{slice, len}
use syn_antona.Prelude.{
  ℕ, zero, suc, String, ◌+◌, leb, Bool, true, false, not, Option, none, some, List, [], ◌∷◌, map,
  length, filter, if◌then◌else◌, ◌||◌, ◌&&◌,
}
use syn_antona.Prelude.Keys.{◌==◌, Key, text_key, pair_key}
use syn_antona.Prelude.Dict.{Dict, get_or, values}
use syn_antona.Prelude.Errors.{Result, ok, err, ◌>>=◌}
use syn_antona.Decimal.{
  Decimal, dec, zero_d, ◌+D◌, ◌*D◌, ◌/D◌, ◌≤D◌, ◌<D◌, ◌-D◌, abs_d, neg_d, sum_d,
}

pub data HealthStatus : Type 0 where
  healthy degraded unavailable : HealthStatus

pub record ManagedPosition : Type 0 where
  pub exchange : String
  pub account_id : String
  pub symbol : String
  pub position_id : String
  pub strategy_version : String
  pub side : String
  pub quantity : Decimal
  pub entry_price : Decimal
  pub leverage : Decimal
  pub stop_loss : Decimal
  pub current_price : Decimal

unfoldable pub position_notional : ManagedPosition → Decimal
position_notional p = p.current_price *D p.quantity

unfoldable pub position_open_risk : ManagedPosition → Decimal
position_open_risk p = abs_d (p.entry_price -D p.stop_loss) *D p.quantity

pub record ExchangeRiskLimits : Type 0 where
  pub max_exposure_pct : Decimal
  pub max_positions : ℕ
  pub max_daily_loss_pct : Decimal
  pub max_position_notional : Decimal
  pub max_risk_per_trade_pct : Decimal
  pub max_consecutive_losses : ℕ

abbrev pub default_exchange_limits : ExchangeRiskLimits
default_exchange_limits = record {
  max_exposure_pct = dec 25 2;
  max_positions = 2;
  max_daily_loss_pct = dec 2 2;
  max_position_notional = dec 500 0;
  max_risk_per_trade_pct = dec 5 3;
  max_consecutive_losses = 3;
}

pub record GlobalRiskLimits : Type 0 where
  pub max_total_exposure_pct : Decimal
  pub max_total_leverage : Decimal
  pub max_open_risk_pct : Decimal
  pub max_daily_loss_pct : Decimal
  pub max_correlated_exposure_pct : Decimal

abbrev pub default_global_limits : GlobalRiskLimits
default_global_limits = record {
  max_total_exposure_pct = dec 50 2;
  max_total_leverage = dec 2 0;
  max_open_risk_pct = dec 2 2;
  max_daily_loss_pct = dec 2 2;
  max_correlated_exposure_pct = dec 30 2;
}

pub record ProposedExposure : Type 0 where
  pub exchange : String
  pub account_id : String
  pub symbol : String
  pub side : String
  pub notional : Decimal
  pub leverage : Decimal
  pub open_risk : Decimal

pub data Reason : Type 0 where
  exchange_unavailable equity_not_positive notional_or_risk_not_positive : Reason
  leverage_not_positive position_limit per_trade_risk maximum_positions : Reason
  exchange_exposure exchange_daily_loss global_daily_loss global_exposure : Reason
  global_leverage global_open_risk correlated_limit allow : Reason

-- `approved` is that the reason is `allow`.
pub record PortfolioRiskDecision : Type 0 where
  pub approved : Bool
  pub reason : Reason

abbrev pub refuse : Reason → Result PortfolioRiskDecision
refuse why = ok (record { approved = false; reason = why })

abbrev pub is_unavailable : HealthStatus → Bool
is_unavailable HealthStatus.unavailable = true
is_unavailable _ = false

-- `symbol.split("/")[0]`: the search starts at `i`, and `n` characters are left.
unfoldable pub base_from : ℕ → ℕ → String → String
base_from zero i symbol = symbol
base_from (suc n) i symbol =
    let rest = base_from n (suc i) symbol in
    if slice symbol i (suc i) == "/" then slice symbol 0 i else rest

-- `CORRELATION_GROUPS.get(base, symbol)`
unfoldable pub correlation_group : String → String
correlation_group symbol =
    let base = base_from (len symbol) 0 symbol in
    if (base == "BTC") || (base == "ETH") then "CRYPTO_MAJOR" else symbol

unfoldable pub add_correlated : String → Decimal → List ManagedPosition → Decimal
add_correlated group exposure [] = exposure
add_correlated group exposure (p ∷ ps) =
    add_correlated group
      (if correlation_group p.symbol == group then exposure +D position_notional p else exposure) ps

unfoldable pub correlated_exposure : ProposedExposure → List ManagedPosition → Decimal
correlated_exposure proposal ps =
    add_correlated (correlation_group proposal.symbol) proposal.notional ps

-- `(position.exchange, position.account_id) == account_key`
abbrev pub is_of_account : ProposedExposure → ManagedPosition → Bool
is_of_account q p = (p.exchange == q.exchange) && (p.account_id == q.account_id)

unfoldable pub account_exposure : ProposedExposure → List ManagedPosition → Decimal
account_exposure q ps =
    sum_d zero_d (map position_notional (filter (is_of_account q) ps)) +D q.notional

unfoldable pub total_exposure : ProposedExposure → List ManagedPosition → Decimal
total_exposure q ps = sum_d zero_d (map position_notional ps) +D q.notional

unfoldable pub leveraged_exposure : ProposedExposure → List ManagedPosition → Decimal
leveraged_exposure q ps =
    sum_d zero_d (map (λ p. position_notional p *D p.leverage) ps) +D q.notional *D q.leverage

unfoldable pub total_open_risk : ProposedExposure → List ManagedPosition → Decimal
total_open_risk q ps = sum_d zero_d (map position_open_risk ps) +D q.open_risk

-- The gates after the one on leverage.
unfoldable pub approve_risk :
    ProposedExposure
    → List ManagedPosition
    → Decimal
    → GlobalRiskLimits
    → Result PortfolioRiskDecision
approve_risk q ps total_equity l =
    if total_equity *D l.max_open_risk_pct <D total_open_risk q ps
    then refuse Reason.global_open_risk
    else if total_equity *D l.max_correlated_exposure_pct <D correlated_exposure q ps
    then refuse Reason.correlated_limit
    else ok (record { approved = true; reason = Reason.allow })

-- The gates on the whole portfolio.
unfoldable pub approve_global :
    ProposedExposure
    → List ManagedPosition
    → Decimal
    → Decimal
    → GlobalRiskLimits
    → Result PortfolioRiskDecision
approve_global q ps total_equity daily_pnl l =
    if daily_pnl ≤D neg_d (total_equity *D l.max_daily_loss_pct)
    then refuse Reason.global_daily_loss
    else if total_equity *D l.max_total_exposure_pct <D total_exposure q ps
    then refuse Reason.global_exposure
    else leveraged_exposure q ps /D total_equity >>= (λ ratio.
      if l.max_total_leverage <D ratio
      then refuse Reason.global_leverage
      else approve_risk q ps total_equity l)

-- The gates on the account, and then those on the portfolio.
unfoldable pub approve_account :
    ProposedExposure
    → List ManagedPosition
    → Decimal
    → Decimal
    → ExchangeRiskLimits
    → Result PortfolioRiskDecision
    → Result PortfolioRiskDecision
approve_account q ps equity daily_pnl l rest =
    if l.max_position_notional <D q.notional
    then refuse Reason.position_limit
    else if equity *D l.max_risk_per_trade_pct <D q.open_risk
    then refuse Reason.per_trade_risk
    else if leb l.max_positions (length (filter (is_of_account q) ps))
    then refuse Reason.maximum_positions
    else if equity *D l.max_exposure_pct <D account_exposure q ps
    then refuse Reason.exchange_exposure
    else if daily_pnl ≤D neg_d (equity *D l.max_daily_loss_pct)
    then refuse Reason.exchange_daily_loss
    else rest

abbrev pub account_value : ProposedExposure → Dict (String × String) Decimal → Decimal
account_value q d = get_or (q.exchange, q.account_id) zero_d d

unfoldable pub approve :
    ProposedExposure
    → List ManagedPosition
    → Dict (String × String) Decimal
    → Dict (String × String) Decimal
    → HealthStatus
    → ExchangeRiskLimits
    → GlobalRiskLimits
    → Result PortfolioRiskDecision
approve q ps equity_by_account daily_pnl_by_account health exchange_limits global_limits =
    let account_equity = account_value q equity_by_account in
    let total_equity = sum_d zero_d (values equity_by_account) in
    if is_unavailable health
    then refuse Reason.exchange_unavailable
    else if (account_equity ≤D zero_d) || (total_equity ≤D zero_d)
    then refuse Reason.equity_not_positive
    else if (q.notional ≤D zero_d) || (q.open_risk ≤D zero_d)
    then refuse Reason.notional_or_risk_not_positive
    else if q.leverage ≤D zero_d
    then refuse Reason.leverage_not_positive
    else approve_account q ps account_equity (account_value q daily_pnl_by_account) exchange_limits
        (approve_global q ps total_equity (sum_d zero_d (values daily_pnl_by_account))
          global_limits)
