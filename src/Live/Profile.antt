-- ===== src/Live/Profile.antt =====
-- The immutable profile, the risk snapshot and the order preview of controlled live trading.
-- Messages are the constructors of `Reason`; the numbers that some of them print are left out.
use syn_antona.Prelude.{ℕ, String, Bool, true, false, Option, none}
use syn_antona.Decimal.{Decimal, dec}
use syn_antona.Exchange.{OrderSide}

pub record ControlledLiveProfile : Type 0 where
  pub name : String
  pub exchange : String
  pub symbol : String
  pub exchange_symbol : String
  pub market_type : String
  pub signal_threshold : ℕ
  pub leverage : Decimal
  pub max_positions : ℕ
  pub max_trades_per_day : Option ℕ
  pub risk_per_trade_pct : Decimal
  pub daily_max_loss_usdt : Decimal
  pub total_experiment_loss_limit : Decimal
  pub max_consecutive_losses : ℕ
  pub consecutive_loss_stop_until_next_utc_day : Bool
  pub cooldown_minutes : ℕ
  pub minimum_risk_reward : Decimal
  pub max_position_notional : Decimal
  pub first_execution_notional_cap : Decimal
  pub estimated_slippage_per_leg : Decimal
  pub trailing_stop : Bool
  pub config_hash : String

-- config/controlled_live_v1.json, with the hash that the loader insists on.
abbrev pub controlled_live_v1 : ControlledLiveProfile
controlled_live_v1 = record {
  name = "CONTROLLED_LIVE_V1";
  exchange = "bybit";
  symbol = "BTC/USDT";
  exchange_symbol = "BTCUSDT";
  market_type = "USDT_PERPETUAL";
  signal_threshold = 70;
  leverage = dec 10 0;
  max_positions = 3;
  max_trades_per_day = none;
  risk_per_trade_pct = dec 5 2;
  daily_max_loss_usdt = dec 5 0;
  total_experiment_loss_limit = dec 10 0;
  max_consecutive_losses = 2;
  consecutive_loss_stop_until_next_utc_day = true;
  cooldown_minutes = 0;
  minimum_risk_reward = dec 15 1;
  max_position_notional = dec 10 0;
  first_execution_notional_cap = dec 10 0;
  estimated_slippage_per_leg = dec 2 4;
  trailing_stop = false;
  config_hash = "e92b8414d9a1d7fb5d6aa0406d59a6fb0e0408f602635d4a5ec4be99eb231c31";
}

-- BYBIT_TAKER_FEE_RATE
abbrev pub bybit_taker_fee_rate : Decimal
bybit_taker_fee_rate = dec 55 5

pub record FirstInstrumentSelection : Type 0 where
  pub symbol : String
  pub internal_symbol : String
  pub exchange : String
  pub market_type : String
  pub base_profile_hash : String
  pub first_order_notional_cap : Decimal
  pub selection_hash : String

-- Times are microseconds since the epoch.
pub record ControlledRiskSnapshot : Type 0 where
  pub equity : Decimal
  pub available_balance : Decimal
  pub open_positions : ℕ
  pub trades_today : ℕ
  pub daily_realized_pnl : Decimal
  pub consecutive_losses : ℕ
  pub cooldown_until : Option ℕ
  pub starting_day_equity : Option Decimal
  pub experiment_start_equity : Option Decimal
  pub open_planned_risk : Decimal

pub record ManualOrderInputs : Type 0 where
  pub side : OrderSide
  pub reference_price : Decimal
  pub stop_loss : Decimal
  pub take_profit : Decimal

-- MANUAL_SOURCE, FROZEN_SIGNAL_SOURCE and AI_SIGNAL_SOURCE.
pub data Source : Type 0 where
  manual_validation frozen_strategy ai_autonomous : Source

pub data Reason : Type 0 where
  ready_for_admin_review : Reason
  invalid_equity_balance_or_price : Reason
  trailing_stop_must_be_off : Reason
  maximum_positions : Reason
  invalid_open_planned_risk : Reason
  daily_risk_budget : Reason
  experiment_loss_limit : Reason
  consecutive_loss_stop : Reason
  day_loss_stop : Reason
  invalid_stop_or_target : Reason
  minimum_risk_reward : Reason
  leverage_above_instrument : Reason
  minimum_quantity_above_cap : Reason
  minimum_notional : Reason
  notional_cap : Reason
  maximum_planned_loss : Reason
  insufficient_balance : Reason

pub record ManualExecutionPreview : Type 0 where
  pub proposal_id : String
  pub profile_name : String
  pub profile_hash : String
  pub selection_hash : String
  pub source : Source
  pub signal_score : ℕ
  pub symbol : String
  pub side : OrderSide
  pub quantity : Decimal
  pub expected_notional : Decimal
  pub leverage : Decimal
  pub expected_fee : Decimal
  pub estimated_slippage : Decimal
  pub stop_loss : Decimal
  pub take_profit : Decimal
  pub maximum_planned_loss : Decimal
  pub risk_reward_ratio : Decimal
  pub executable : Bool
  pub reason : Reason
  pub taker_fee_rate : Decimal
  pub estimated_spread : Decimal
  pub expected_net_edge : Decimal
