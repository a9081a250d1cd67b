-- ===== src/Shadow/Records.antt =====
-- The rows of the shadow tables. Times are microseconds; a JSON text is what the code serialises, and
-- is an input where the code is given the data.
use syn_antona.Prelude.{ℕ, String, Bool, Option, List}
use syn_antona.Decimal.{Decimal}
use syn_antona.Domain.{Side}

pub record Candle : Type 0 where
  pub timestamp : ℕ
  pub open_price : Decimal
  pub high : Decimal
  pub low : Decimal
  pub close : Decimal
  pub volume : Decimal

pub record ShadowCandle : Type 0 where
  pub protocol_id : String
  pub exchange : String
  pub symbol : String
  pub candle : Candle
  pub candle_close_time : ℕ
  pub exchange_timestamp : ℕ
  pub received_at : ℕ
  pub data_hash : String
  pub recovered_after_downtime : Bool
  pub recovery_recorded_at : Option ℕ

pub record ShadowQuote : Type 0 where
  pub protocol_id : String
  pub exchange : String
  pub symbol : String
  pub bid : Decimal
  pub ask : Decimal
  pub last : Decimal
  pub spread : Decimal
  pub spread_pct : Decimal
  pub bids : List (Decimal × Decimal)
  pub asks : List (Decimal × Decimal)
  pub exchange_timestamp : ℕ
  pub received_at : ℕ

pub data Decision : Type 0 where
  wait : Decision
  signal : Side → Decision

pub data RiskStatus : Type 0 where
  not_applicable allow reject : RiskStatus

-- The dict that `context_json` holds: whether a live quote was recovered, and the text of the action's.
pub data DecisionContext : Type 0 where
  recovered_after_downtime : DecisionContext
  process_interrupted : Bool → DecisionContext
  waiting : DecisionContext
  of_action : String → DecisionContext

pub record ShadowDecision : Type 0 where
  pub id : String
  pub protocol_id : String
  pub exchange : String
  pub symbol : String
  pub candle_open_time : ℕ
  pub signal_timestamp : ℕ
  pub decision : Decision
  pub signal_score : ℕ
  pub decision_price : Decimal
  pub observed_bid : Option Decimal
  pub observed_ask : Option Decimal
  pub observed_spread : Option Decimal
  pub risk_status : RiskStatus
  pub risk_reason : String
  pub strategy_hash : String
  pub context : DecisionContext

pub data TradeStatus : Type 0 where
  open_trade closed_trade : TradeStatus

-- What is written when a trade is closed.
pub record Closing : Type 0 where
  pub exit_reference : Decimal
  pub exit_price : Decimal
  pub exit_reason : String
  pub exit_fee : Decimal
  pub exit_spread_cost : Decimal
  pub exit_slippage_cost : Decimal
  pub gross_pnl : Decimal
  pub realized_pnl : Decimal
  pub closed_at : ℕ

-- Before the close its columns are null or zero.
pub record ShadowTrade : Type 0 where
  pub id : String
  pub decision_id : String
  pub protocol_id : String
  pub exchange : String
  pub symbol : String
  pub side : Side
  pub signal_timestamp : ℕ
  pub decision_price : Decimal
  pub entry_reference : Decimal
  pub entry_price : Decimal
  pub quantity : Decimal
  pub stop_loss : Decimal
  pub take_profit : Decimal
  pub leverage : Decimal
  pub risk_amount : Decimal
  pub expected_fees : Decimal
  pub entry_fee : Decimal
  pub observed_spread : Decimal
  pub entry_spread_cost : Decimal
  pub entry_slippage_cost : Decimal
  pub strategy_hash : String
  pub status : TradeStatus
  pub opened_at : ℕ
  pub closing : Option Closing

pub record DailySnapshot : Type 0 where
  pub id : ℕ
  pub protocol_id : String
  pub snapshot_date : ℕ
  pub metrics_json : String
  pub updated_at : ℕ
  pub report_sent_at : Option ℕ

pub record CollectorState : Type 0 where
  pub instance_id : String
  pub host : String
  pub pid : ℕ
  pub status : String
  pub started_at : ℕ
  pub heartbeat_at : ℕ
  pub last_db_write_at : ℕ
  pub lease_expires_at : ℕ
  pub restart_count : ℕ
  pub dry_run : Option Bool
  pub live_trading_enabled : Option Bool
  pub controlled_live_enabled : Option Bool
  pub manual_first_order_approved : Option Bool
  pub real_order_execution_enabled : Option Bool
  pub deployment_id : Option String
  pub replica_id : Option String
  pub last_start_cause : Option String
  pub last_error : Option String
  pub updated_at : ℕ

pub record ExchangeHealth : Type 0 where
  pub status : String
  pub reason : String
  pub consecutive_failures : ℕ
  pub last_success_at : Option ℕ
  pub last_failure_at : Option ℕ
  pub last_quote_at : Option ℕ
  pub checked_at : ℕ
  pub updated_at : ℕ

pub record SystemEvent : Type 0 where
  pub id : ℕ
  pub protocol_id : String
  pub event_type : String
  pub exchange : Option String
  pub severity : String
  pub message : String
  pub details_json : String
  pub created_at : ℕ
  pub alerted_at : Option ℕ
