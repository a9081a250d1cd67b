-- ===== src/Domain.antt =====
-- The data model of app/domain/models.py. Times are microseconds since the epoch, ids are texts,
-- and the counts (`open_positions`, `consecutive_losses`) are natural numbers.
use syn_antona.Prelude.{ℕ, String, Bool, true, false, Option}
use syn_antona.Decimal.{Decimal, dec, zero_d}

pub data Side : Type 0 where
  long short : Side

-- `side is Side.LONG`
abbrev pub is_long : Side → Bool
is_long Side.long = true
is_long Side.short = false

pub record RiskProfile : Type 0 where
  pub risk_per_trade_pct : Decimal
  pub max_position_notional : Decimal
  pub max_leverage : Decimal
  pub max_concurrent_positions : ℕ
  pub max_daily_loss_pct : Decimal
  pub min_risk_reward : Decimal
  pub max_consecutive_losses : ℕ
  pub cooldown_minutes : ℕ
  pub max_volatility_pct : Decimal
  pub max_spread_pct : Decimal

abbrev pub default_profile : RiskProfile
default_profile = record {
  risk_per_trade_pct = dec 5 3;
  max_position_notional = dec 500 0;
  max_leverage = dec 2 0;
  max_concurrent_positions = 2;
  max_daily_loss_pct = dec 2 2;
  min_risk_reward = dec 2 0;
  max_consecutive_losses = 3;
  cooldown_minutes = 30;
  max_volatility_pct = dec 4 2;
  max_spread_pct = dec 2 3;
}

pub record TradeIntent : Type 0 where
  pub trade_id : String
  pub user_id : ℕ
  pub symbol : String
  pub side : Side
  pub entry : Decimal
  pub stop_loss : Decimal
  pub take_profit : Decimal
  pub equity : Decimal
  pub daily_realized_pnl : Decimal
  pub open_positions : ℕ
  pub consecutive_losses : ℕ
  pub requested_leverage : Decimal
  pub available_balance : Option Decimal
  pub volatility_pct : Decimal
  pub spread_pct : Decimal
  pub cooldown_active : Bool

pub record RiskDecision : Type 0 where
  pub approved : Bool
  pub reason : String
  pub quantity : Decimal
  pub risk_amount : Decimal

-- `RiskDecision(False, reason)`
abbrev pub rejected : String → RiskDecision
rejected why = record { approved = false; reason = why; quantity = zero_d; risk_amount = zero_d }

pub record Position : Type 0 where
  pub trade_id : String
  pub user_id : ℕ
  pub symbol : String
  pub side : Side
  pub quantity : Decimal
  pub entry_price : Decimal
  pub stop_loss : Decimal
  pub take_profit : Decimal
  pub leverage : Decimal
  pub entry_fee : Decimal
  pub opened_at : ℕ
  pub initial_risk : Decimal
  pub break_even_enabled : Bool
  pub trailing_distance : Option Decimal
  pub high_watermark : Option Decimal
  pub low_watermark : Option Decimal
  pub exchange : String
  pub account_id : Option String
  pub position_id : Option String
  pub strategy_version : String

pub record ClosedPosition : Type 0 where
  pub position : Position
  pub exit_price : Decimal
  pub exit_fee : Decimal
  pub realized_pnl : Decimal
  pub reason : String
  pub closed_at : ℕ
