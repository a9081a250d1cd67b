-- ===== src/Engine/Gates.antt =====
-- The guards of `MultiExchangeTradingEngine.execute`, each block of `if`s in the order of the code.
use syn_antona.Prelude.{
  ℕ, String, Bool, true, false, not, leb, any, Option, none, some, List, ◌||◌, ◌&&◌, if◌then◌else◌,
}
use syn_antona.Prelude.Keys.{text_key, pair_key, ◌==◌}
use syn_antona.Prelude.Dict.{Dict, lookup, get_or}
use syn_antona.Prelude.Errors.{Error, Result, ok, or_raise, raise_if, ◌>>=◌, ◌>>◌}
use syn_antona.Decimal.{Decimal, zero_d, is_zero, ◌-D◌, ◌*D◌, ◌/D◌, ◌≤D◌, ◌<D◌, abs_d}
use syn_antona.Exchange.{OrderRequest, MarketType, OrderSide, is_buy}
use syn_antona.Risk.Portfolio.{
  HealthStatus, ManagedPosition, ExchangeRiskLimits, GlobalRiskLimits, ProposedExposure, Reason,
  approve,
}
use syn_antona.Engine.Market.{Ticker, MarketContext, seconds_since}

pub record ExecutionRiskContext : Type 0 where
  pub equity_by_account : Dict (String × String) Decimal
  pub daily_pnl_by_account : Dict (String × String) Decimal
  pub exchange_limits : ExchangeRiskLimits
  pub global_limits : GlobalRiskLimits
  pub available_by_account : Dict (String × String) Decimal
  pub consecutive_losses_by_account : Dict (String × String) ℕ
  pub cooldown_accounts : List (String × String)
  pub allowed_symbols : Option (List String)
  pub kill_switch_active : Bool
  pub max_market_data_age_seconds : Decimal

abbrev pub forbidden : String → Error
forbidden = Error.permission_error

abbrev pub is_market_type : MarketType → MarketType → Bool
is_market_type MarketType.spot MarketType.spot = true
is_market_type MarketType.futures MarketType.futures = true
is_market_type MarketType.perpetual MarketType.perpetual = true
is_market_type _ _ = false

abbrev pub is_account : Option String → String → Bool
is_account none account_id = false
is_account (some a) account_id = a == account_id

abbrev pub is_listed : Option (List String) → String → Bool
is_listed none symbol = true
is_listed (some symbols) symbol = any (λ s. s == symbol) symbols

abbrev pub account_key : MarketContext → OrderRequest → String × String
account_key market request = (market.exchange, request.account_id)

unfoldable pub check_context : MarketContext → OrderRequest → Result (Unit {0})
check_context market request = do
  raise_if (not (is_account market.account_id request.account_id))
      (forbidden "Market context and order account do not match")
  raise_if (not (market.symbol == request.symbol))
      (forbidden "Market context and order symbol do not match")
  raise_if (not (is_market_type market.market_type request.market_type))
      (forbidden "Market context and order market type do not match")

-- What holds for an order that is not reduce-only, before any market data is looked at.
unfoldable pub check_opening :
    MarketContext → OrderRequest → ExecutionRiskContext → Result (Unit {0})
check_opening market request c = do
  raise_if c.kill_switch_active (forbidden "Emergency kill switch is active")
  raise_if (not (is_listed c.allowed_symbols request.symbol))
      (forbidden "Symbol is not in the server-side allowlist")
  raise_if (any (λ k. k == account_key market request) c.cooldown_accounts)
      (forbidden "Consecutive-loss cooldown is active")
  raise_if
      (leb c.exchange_limits.max_consecutive_losses
        (get_or (account_key market request) 0 c.consecutive_losses_by_account))
      (forbidden "Consecutive-loss protection is active")

unfoldable pub check_ticker : MarketContext → ExecutionRiskContext → ℕ → Result Ticker
check_ticker market c now = do
  ticker ← or_raise market.ticker (forbidden "Fresh exchange ticker is mandatory")
  let age : Decimal = seconds_since now ticker.timestamp
  raise_if ((age <D zero_d) || (c.max_market_data_age_seconds <D age))
      (forbidden "STALE DATA: private order is forbidden")
  ok ticker

-- `if not request.reduce_only:`
abbrev pub unless_reduce_only : OrderRequest → Result (Unit {0}) → Result (Unit {0})
unless_reduce_only request checks = if request.reduce_only then ok tt else checks

-- `request.price or market.ticker.last`: a price of zero counts as none. It is never None, since
-- the ticker is there.
abbrev pub reference_price : OrderRequest → Ticker → Decimal
reference_price request ticker = elim request.price [
  | none ↦ ticker.last
  | some p ↦ if is_zero p then ticker.last else p
]

unfoldable pub check_stop : OrderRequest → Decimal → Decimal → Result (Unit {0})
check_stop request price stop_loss = do
  raise_if (is_buy request.side && (price ≤D stop_loss))
      (forbidden "LONG stop loss must be below entry")
  raise_if (not (is_buy request.side) && (stop_loss ≤D price))
      (forbidden "SHORT stop loss must be above entry")

abbrev pub side_text : OrderSide → String
side_text OrderSide.buy = "BUY"
side_text OrderSide.sell = "SELL"

unfoldable pub proposal_of : MarketContext → OrderRequest → Decimal → Decimal → ProposedExposure
proposal_of market request price stop_loss = record {
  exchange = market.exchange;
  account_id = request.account_id;
  symbol = request.symbol;
  side = side_text request.side;
  notional = price *D request.quantity;
  leverage = request.leverage;
  open_risk = abs_d (price -D stop_loss) *D request.quantity;
}

-- The text of a decision's reason.
unfoldable pub reason_text : Reason → String
reason_text Reason.exchange_unavailable = "Exchange is UNAVAILABLE"
reason_text Reason.equity_not_positive = "Equity must be positive"
reason_text Reason.notional_or_risk_not_positive = "Position notional and risk must be positive"
reason_text Reason.leverage_not_positive = "Leverage must be positive"
reason_text Reason.position_limit = "Hard position notional limit exceeded"
reason_text Reason.per_trade_risk = "Hard per-trade risk limit exceeded"
reason_text Reason.maximum_positions = "Exchange maximum positions reached"
reason_text Reason.exchange_exposure = "Exchange exposure limit exceeded"
reason_text Reason.exchange_daily_loss = "Exchange daily loss limit reached"
reason_text Reason.global_daily_loss = "Global daily loss limit reached"
reason_text Reason.global_exposure = "Global portfolio exposure limit exceeded"
reason_text Reason.global_leverage = "Global leverage limit exceeded"
reason_text Reason.global_open_risk = "Global open risk limit exceeded"
reason_text Reason.correlated_limit = "Correlated exposure limit exceeded"
reason_text Reason.allow = "ALLOW"

abbrev pub check_margin : ProposedExposure → Option Decimal → Result (Unit {0})
check_margin proposal none = ok tt
check_margin proposal (some available) = do
  margin ← proposal.notional /D proposal.leverage
  raise_if (available <D margin) (forbidden "Insufficient available margin")

unfoldable pub check_risk :
    ProposedExposure
    → ExecutionRiskContext
    → HealthStatus
    → List ManagedPosition
    → Result (Unit {0})
check_risk proposal c status positions = do
  decision ←
      approve proposal positions c.equity_by_account c.daily_pnl_by_account status c.exchange_limits
        c.global_limits
  raise_if (not decision.approved) (forbidden (reason_text decision.reason))
  check_margin proposal (lookup (proposal.exchange, proposal.account_id) c.available_by_account)
