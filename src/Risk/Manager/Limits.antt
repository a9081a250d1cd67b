-- ===== src/Risk/Manager/Limits.antt =====
-- What an approval of the risk manager guarantees.
use syn_antona.Prelude.{if◌then◌else◌, ◌<◌, ◌≡◌, refl, true, false, arith}
use syn_antona.Prelude.Errors.{Result, ok, err}
use syn_antona.Decimal.{Decimal, zero_d, ◌*D◌, ◌/D◌, ◌≤D◌, ◌<D◌, neg_d}
use syn_antona.Decimal.Sign.{sub_pos}
use syn_antona.Domain.{is_long, RiskProfile, TradeIntent, RiskDecision}
use syn_antona.Risk.Manager.{per_unit_risk, per_unit_reward, size_position, check_reward, approve}

-- Every gate of the profile, met strictly where the code rejects at equality.
pub record IsWithinLimits (intent : TradeIntent) (profile : RiskProfile) : Type 0 where
  pub equity_positive : (zero_d <D intent.equity) ≡ true
  pub entry_positive : (zero_d <D intent.entry) ≡ true
  pub positions : intent.open_positions < profile.max_concurrent_positions
  pub leverage : (intent.requested_leverage ≤D profile.max_leverage) ≡ true
  pub losses : intent.consecutive_losses < profile.max_consecutive_losses
  pub cooldown : intent.cooldown_active ≡ false
  pub volatility : (intent.volatility_pct ≤D profile.max_volatility_pct) ≡ true
  pub spread : (intent.spread_pct ≤D profile.max_spread_pct) ≡ true
  pub daily_loss :
      (neg_d (intent.equity *D profile.max_daily_loss_pct) <D intent.daily_realized_pnl) ≡ true

-- The stop stands on the losing side, and the reward pays the risk as often as asked.
pub record HasReward (intent : TradeIntent) (profile : RiskProfile) : Type 0 where
  pub stop_side :
      (if is_long intent.side
        then intent.stop_loss <D intent.entry
        else intent.entry <D intent.stop_loss)
      ≡ true
  pub ratio : Decimal
  pub ratio_lem : per_unit_reward intent /D per_unit_risk intent ≡ ok ratio
  pub ratio_least : (profile.min_risk_reward ≤D ratio) ≡ true

stop_side_lem :
    (intent : TradeIntent)
    → (zero_d <D per_unit_risk intent) ≡ true
    → (if is_long intent.side
        then intent.stop_loss <D intent.entry
        else intent.entry <D intent.stop_loss)
      ≡ true
unfolding per_unit_risk
stop_side_lem intent h =
    ground (arith, sub_pos intent.entry intent.stop_loss, sub_pos intent.stop_loss intent.entry)

module _ (intent : TradeIntent) (profile : RiskProfile) {d : RiskDecision} where
  pub approve-check_reward :
      approve intent profile ≡ ok d
      → d.approved ≡ true
      → (check_reward intent profile ≡ ok d) × IsWithinLimits intent profile
  unfolding approve
  approve-check_reward h approved = ground arith

  -- The ratio is at hand once the division has gone through.
  pub check_reward-size_position :
      (q : Result Decimal)
      → per_unit_reward intent /D per_unit_risk intent ≡ q
      → check_reward intent profile ≡ ok d
      → d.approved ≡ true
      → (size_position intent profile ≡ ok d) × HasReward intent profile
  unfolding check_reward
  check_reward-size_position (err e) division h approved = ground arith
  check_reward-size_position (ok r) division h approved = (
    ground arith,
    record {
      stop_side = stop_side_lem intent (ground arith);
      ratio = r;
      ratio_lem = division;
      ratio_least = ground arith;
    },
  )

  pub size_position-positive :
      size_position intent profile ≡ ok d → d.approved ≡ true → (zero_d <D d.quantity) ≡ true
  unfolding size_position
  size_position-positive h approved = ground arith

  -- An approved trade meets every gate of the profile and has a positive size.
  pub approve_limits :
      approve intent profile ≡ ok d
      → d.approved ≡ true
      → IsWithinLimits intent profile × HasReward intent profile × ((zero_d <D d.quantity) ≡ true)
  approve_limits h approved =
      let (checked, within) = approve-check_reward h approved in
      let (sized, reward) = check_reward-size_position _ refl checked approved in
      (within, reward, size_position-positive sized approved)
