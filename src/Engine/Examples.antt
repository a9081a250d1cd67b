-- ===== src/Engine/Examples.antt =====
-- An engine with one account on one exchange, and an order that opens a position.
use syn_antona.Prelude.{true, false, none, some, [], ◌∷◌}
use syn_antona.Prelude.Keys.{text_key}
use syn_antona.Prelude.Errors.{ok}
use syn_antona.Decimal.{Decimal, dec}
use syn_antona.Exchange.{OrderRequest, MarketType}
use syn_antona.Risk.Portfolio.{
  HealthStatus, ManagedPosition, default_exchange_limits, default_global_limits,
}
use syn_antona.Ledger.Examples.{request, order}
use syn_antona.Ledger.Sql as Sql
use syn_antona.Engine.Market.{Ticker, MarketContext, HealthReport}
use syn_antona.Engine.Health.{ExchangeHealthMonitor}
use syn_antona.Engine.Router.{ExchangeAdapter, ExchangeCapabilities}
use syn_antona.Engine.Gates.{ExecutionRiskContext}
use syn_antona.Engine.Execute.{Engine, Replies, Placement}

abbrev pub ticker : Ticker
ticker = record {
  exchange = "bybit";
  symbol = "BTCUSDT";
  bid = dec 49_990 0;
  ask = dec 50_010 0;
  last = dec 50_000 0;
  timestamp = 1_000_000;
}

abbrev pub market : MarketContext
market = record {
  exchange = "bybit";
  account_id = some "main";
  symbol = "BTCUSDT";
  market_type = MarketType.perpetual;
  ticker = some ticker;
  orderbook = none;
  funding_rate = none;
  open_interest = none;
}

abbrev pub report : HealthReport
report = record {
  exchange = "bybit";
  status = HealthStatus.healthy;
  checked_at = 2_000_000;
  latency_ms = dec 40 0;
  websocket_connected = true;
  market_data_age_seconds = none;
  time_drift_ms = none;
  rate_limited = false;
  order_errors = 0;
  reasons = [];
}

abbrev pub monitor : ExchangeHealthMonitor
monitor = record {
  stale_after_seconds = dec 30 0;
  max_order_errors = 3;
  last_market_data = [];
  order_errors = [];
  reports = [];
}

abbrev pub perpetuals : ExchangeCapabilities
perpetuals = record {
  spot = false;
  futures = false;
  perpetual = true;
  short = true;
  leverage = true;
  hedge_mode = false;
  funding = true;
  open_interest = false;
  stop_loss = true;
  take_profit = true;
  trailing_stop = false;
  websocket = true;
}

abbrev pub adapter : ExchangeAdapter
adapter = record { object_id = 7; name = "bybit"; capabilities = perpetuals }

abbrev pub engine : Engine Sql.Rows
engine = record {
  router = (("bybit", "main"), adapter) ∷ [];
  monitor = monitor;
  portfolio = [];
  store = [];
  require_persistent_store = true;
  sent = [];
}

-- 50 dollars, with one dollar at risk.
abbrev pub small : OrderRequest
small = record request { quantity = dec 1 3 }

abbrev pub replies : Replies
replies = record {
  now = 2_000_000;
  checked_at = 2_000_000;
  health = ok report;
  placement = Placement.placed order;
}

abbrev pub limits : ExecutionRiskContext
limits = record {
  equity_by_account = (("bybit", "main"), dec 1000 0) ∷ [];
  daily_pnl_by_account = [];
  exchange_limits = default_exchange_limits;
  global_limits = default_global_limits;
  available_by_account = (("bybit", "main"), dec 500 0) ∷ [];
  consecutive_losses_by_account = [];
  cooldown_accounts = [];
  allowed_symbols = some ("BTCUSDT" ∷ []);
  kill_switch_active = false;
  max_market_data_age_seconds = dec 30 0;
}

abbrev pub stop : Decimal
stop = dec 49_000 0

abbrev pub opened : ManagedPosition
opened = record {
  exchange = "bybit";
  account_id = "main";
  symbol = "BTCUSDT";
  position_id = "p-1";
  strategy_version = "v1";
  side = "LONG";
  quantity = dec 1 3;
  entry_price = dec 50_000 0;
  leverage = dec 2 0;
  stop_loss = dec 49_000 0;
  current_price = dec 50_000 0;
}
