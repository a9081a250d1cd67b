-- ===== src/Engine/Market.antt =====
-- Market data of app/exchanges/models.py. A time is a number of microseconds.
use syn_antona.Prelude.{ℕ, String, Bool, Option, List, if◌then◌else◌}
use syn_antona.Prelude.Int.{sub_ℕ}
use syn_antona.Prelude.Errors.{Result, ok, ◌>>=◌}
use syn_antona.Decimal.{Decimal, dec, zero_d, ◌+D◌, ◌-D◌, ◌/D◌, is_zero}
use syn_antona.Exchange.{MarketType}
use syn_antona.Risk.Portfolio.{HealthStatus}

pub record Ticker : Type 0 where
  pub exchange : String
  pub symbol : String
  pub bid : Decimal
  pub ask : Decimal
  pub last : Decimal
  pub timestamp : ℕ

pub record OrderBook : Type 0 where
  pub exchange : String
  pub symbol : String
  pub bids : List (Decimal × Decimal)
  pub asks : List (Decimal × Decimal)
  pub timestamp : ℕ

pub record MarketContext : Type 0 where
  pub exchange : String
  pub account_id : Option String
  pub symbol : String
  pub market_type : MarketType
  pub ticker : Option Ticker
  pub orderbook : Option OrderBook
  pub funding_rate : Option Decimal
  pub open_interest : Option Decimal

pub record HealthReport : Type 0 where
  pub exchange : String
  pub status : HealthStatus
  pub checked_at : ℕ
  pub latency_ms : Decimal
  pub websocket_connected : Bool
  pub market_data_age_seconds : Option Decimal
  pub time_drift_ms : Option Decimal
  pub rate_limited : Bool
  pub order_errors : ℕ
  pub reasons : List String

pub record FeeSchedule : Type 0 where
  pub maker : Decimal
  pub taker : Decimal
  pub funding_estimate : Decimal

pub record VenueQuote : Type 0 where
  pub exchange : String
  pub account_id : String
  pub ticker : Ticker
  pub available_liquidity : Decimal
  pub estimated_slippage_pct : Decimal
  pub fees : FeeSchedule
  pub funding_rate : Decimal
  pub health : HealthReport

-- `self.spread / midpoint if midpoint else Decimal()`
unfoldable pub spread_pct : Ticker → Result Decimal
spread_pct t =
    (t.ask +D t.bid) /D dec 2 0
    >>= (λ midpoint. if is_zero midpoint then ok zero_d else (t.ask -D t.bid) /D midpoint)

-- `Decimal(str((now - then).total_seconds()))`
abbrev pub seconds_since : ℕ → ℕ → Decimal
seconds_since now then_ = record { coef = sub_ℕ now then_; exp = 6 }
