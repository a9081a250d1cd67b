-- ===== src/Risk/Manager.antt =====
-- `RiskManager` of app/risk/manager.py, the authorization point of every paper trade.
pub mod Limits
pub mod Sizes
mod Tests
use syn_antona.Prelude.{ℕ, Bool, true, false, Option, none, some, leb, if◌then◌else◌, ◌||◌}
use syn_antona.Prelude.Errors.{Result, ok, err, ◌>>=◌}
use syn_antona.Decimal.{
  Decimal, zero_d, ◌-D◌, ◌*D◌, ◌/D◌, ◌≤D◌, ◌<D◌, neg_d, min_d, quantize, half_even, down,
}
use syn_antona.Domain.{Side, is_long, RiskProfile, TradeIntent, RiskDecision, rejected}

unfoldable pub per_unit_risk : TradeIntent → Decimal
per_unit_risk intent =
    if is_long intent.side
    then intent.entry -D intent.stop_loss
    else intent.stop_loss -D intent.entry

unfoldable pub per_unit_reward : TradeIntent → Decimal
per_unit_reward intent =
    if is_long intent.side
    then intent.take_profit -D intent.entry
    else intent.entry -D intent.take_profit

-- `balance_quantity`: without a balance, the quantity that the leverage allows.
unfoldable pub balance_quantity : TradeIntent → Decimal → Result Decimal
balance_quantity intent leverage_quantity = elim intent.available_balance [
  | none ↦ ok leverage_quantity
  | some balance ↦ (balance *D intent.requested_leverage) /D intent.entry
]

-- The position size, once every gate has passed.
unfoldable pub size_position : TradeIntent → RiskProfile → Result RiskDecision
size_position intent profile = do
  risk_amount ← quantize (intent.equity *D profile.risk_per_trade_pct) 2 half_even
  risk_quantity ← risk_amount /D per_unit_risk intent
  notional_quantity ← profile.max_position_notional /D intent.entry
  leverage_quantity ← (intent.equity *D intent.requested_leverage) /D intent.entry
  by_balance ← balance_quantity intent leverage_quantity
  quantity ←
      quantize (min_d (min_d (min_d risk_quantity notional_quantity) leverage_quantity) by_balance)
        6 down
  if quantity ≤D zero_d
      then ok (rejected "Calculated position size is zero")
      else ok (record {
        approved = true;
        reason = "Approved";
        quantity = quantity;
        risk_amount = risk_amount;
      })

-- The stop and the target, which stand on the sides that the direction asks for.
unfoldable pub check_reward : TradeIntent → RiskProfile → Result RiskDecision
check_reward intent profile =
    if per_unit_risk intent ≤D zero_d
    then ok (rejected "Stop loss is invalid for trade direction")
    else do
      ratio ← per_unit_reward intent /D per_unit_risk intent
      if ratio <D profile.min_risk_reward
          then ok (rejected "Minimum risk/reward requirement is not met")
          else size_position intent profile

unfoldable pub approve : TradeIntent → RiskProfile → Result RiskDecision
approve intent profile =
    if (intent.equity ≤D zero_d) || (intent.entry ≤D zero_d)
    then ok (rejected "Invalid equity or entry price")
    else if leb profile.max_concurrent_positions intent.open_positions
    then ok (rejected "Maximum simultaneous positions reached")
    else if profile.max_leverage <D intent.requested_leverage
    then ok (rejected "Requested leverage exceeds configured maximum")
    else if leb profile.max_consecutive_losses intent.consecutive_losses
    then ok (rejected "Cooldown required after consecutive losses")
    else if intent.cooldown_active
    then ok (rejected "Cooldown after losses is active")
    else if profile.max_volatility_pct <D intent.volatility_pct
    then ok (rejected "Volatility filter rejected trade")
    else if profile.max_spread_pct <D intent.spread_pct
    then ok (rejected "Spread filter rejected trade")
    else if intent.daily_realized_pnl ≤D neg_d (intent.equity *D profile.max_daily_loss_pct)
    then ok (rejected "Daily loss limit reached; bot must be paused")
    else check_reward intent profile
