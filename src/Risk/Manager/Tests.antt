-- ===== src/Risk/Manager/Tests.antt =====
-- Runs of the risk manager.
use syn_antona.Prelude.{◌≡◌, refl, true, false, none}
use syn_antona.Prelude.Errors.{ok}
use syn_antona.Decimal.{dec, zero_d, one_d, ◌<D◌, evaluation}
use syn_antona.Domain.{Side, default_profile, TradeIntent, RiskDecision, rejected}
use syn_antona.Risk.Manager.{
  per_unit_risk, per_unit_reward, balance_quantity, size_position, check_reward, approve,
}
use syn_antona.Risk.Manager.Limits.{IsWithinLimits, HasReward, approve_limits}
use syn_antona.Risk.Manager.Sizes.{IsSized, approve_size}

abbrev intent : TradeIntent
intent = record {
  trade_id = "t-1";
  user_id = 7;
  symbol = "BTC/USDT";
  side = Side.long;
  entry = dec 100 0;
  stop_loss = dec 98 0;
  take_profit = dec 104 0;
  equity = dec 10_000 0;
  daily_realized_pnl = zero_d;
  open_positions = 0;
  consecutive_losses = 0;
  requested_leverage = one_d;
  available_balance = none;
  volatility_pct = zero_d;
  spread_pct = zero_d;
  cooldown_active = false;
}

abbrev approval : RiskDecision
approval = record {
  approved = true;
  reason = "Approved";
  quantity = dec 5_000_000 6;
  risk_amount = dec 5000 2;
}

-- A stop that is two away risks 50, but the notional cap of 500 allows five units only.
approve_example : approve intent default_profile ≡ ok approval
unfolding approve check_reward size_position balance_quantity per_unit_risk per_unit_reward
    evaluation
approve_example = refl

approve_limits_example :
    IsWithinLimits intent default_profile
    × HasReward intent default_profile
    × ((zero_d <D approval.quantity) ≡ true)
approve_limits_example = approve_limits intent default_profile approve_example refl

approve_size_example : IsSized intent default_profile approval
approve_size_example = approve_size intent default_profile approve_example refl

low_reward :
    approve (record intent { take_profit = dec 103 0 }) default_profile
    ≡ ok (rejected "Minimum risk/reward requirement is not met")
unfolding approve check_reward size_position balance_quantity per_unit_risk per_unit_reward
    evaluation
low_reward = refl
