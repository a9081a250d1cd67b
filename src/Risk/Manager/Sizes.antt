-- ===== src/Risk/Manager/Sizes.antt =====
-- How large an approved trade may be.
use syn_antona.Prelude.{◌≡◌, refl, if◌then◌else◌, true, arith}
use syn_antona.Prelude.Errors.{ok, >>=-ok}
use syn_antona.Decimal.{Decimal, zero_d, ◌*D◌, ◌/D◌, ◌≤D◌, ◌<D◌, min_d, quantize, half_even, down}
use syn_antona.Decimal.Order.{min_d_bounds, ≤D_trans}
use syn_antona.Decimal.Quantize.{quantize_down_le}
use syn_antona.Domain.{RiskProfile, TradeIntent, RiskDecision, rejected}
use syn_antona.Risk.Manager.{per_unit_risk, balance_quantity, size_position, approve}
use syn_antona.Risk.Manager.Limits.{approve-check_reward, check_reward-size_position}

-- The size is bounded by the risk budget, the notional cap, the leverage and the free balance.
pub record IsSized (intent : TradeIntent) (profile : RiskProfile) (d : RiskDecision) : Type 0 where
  pub by_risk : Decimal
  pub by_notional : Decimal
  pub by_leverage : Decimal
  pub by_balance : Decimal
  pub budget : quantize (intent.equity *D profile.risk_per_trade_pct) 2 half_even ≡ ok d.risk_amount
  pub risk_lem : d.risk_amount /D per_unit_risk intent ≡ ok by_risk
  pub notional_lem : profile.max_position_notional /D intent.entry ≡ ok by_notional
  pub leverage_lem : (intent.equity *D intent.requested_leverage) /D intent.entry ≡ ok by_leverage
  pub balance_lem : balance_quantity intent by_leverage ≡ ok by_balance
  pub le_risk : (d.quantity ≤D by_risk) ≡ true
  pub le_notional : (d.quantity ≤D by_notional) ≡ true
  pub le_leverage : (d.quantity ≤D by_leverage) ≡ true
  pub le_balance : (d.quantity ≤D by_balance) ≡ true

-- A bound of the smallest of four is a bound of each.
le_min_each :
    (q a b c d : Decimal)
    → (q ≤D min_d (min_d (min_d a b) c) d) ≡ true
    → ((q ≤D a) ≡ true) × ((q ≤D b) ≡ true) × ((q ≤D c) ≡ true) × ((q ≤D d) ≡ true)
le_min_each q a b c d h = grind (arith, min_d_bounds, ≤D_trans)

-- The last step of the sizing, once each quantity has been computed.
finish-IsSized :
    (intent : TradeIntent) (profile : RiskProfile) {d : RiskDecision}
    (amount risk notional leverage balance quantity : Decimal)
    → quantize (intent.equity *D profile.risk_per_trade_pct) 2 half_even ≡ ok amount
    → amount /D per_unit_risk intent ≡ ok risk
    → profile.max_position_notional /D intent.entry ≡ ok notional
    → (intent.equity *D intent.requested_leverage) /D intent.entry ≡ ok leverage
    → balance_quantity intent leverage ≡ ok balance
    → quantize (min_d (min_d (min_d risk notional) leverage) balance) 6 down ≡ ok quantity
    → (zero_d <D quantity) ≡ true
    → d.quantity ≡ quantity
    → d.risk_amount ≡ amount
    → IsSized intent profile d
finish-IsSized intent profile amount risk notional leverage balance quantity e₁ e₂ e₃ e₄ e₅ e₆
      positive q a =
    let bounds =
      le_min_each quantity risk notional leverage balance (quantize_down_le _ 6 e₆ positive) in
    record {
      by_risk = risk;
      by_notional = notional;
      by_leverage = leverage;
      by_balance = balance;
      budget = rw a e₁;
      risk_lem = rw a e₂;
      notional_lem = e₃;
      leverage_lem = e₄;
      balance_lem = e₅;
      le_risk = rw q bounds.0;
      le_notional = rw q bounds.1;
      le_leverage = rw q bounds.2;
      le_balance = rw q bounds.3;
    }

-- The last test of the sizing passes for an approval.
last_step :
    (quantity amount : Decimal) {d : RiskDecision}
    → (if quantity ≤D zero_d
        then ok (rejected "Calculated position size is zero")
        else ok (record {
          approved = true;
          reason = "Approved";
          quantity = quantity;
          risk_amount = amount;
        }))
      ≡ ok d
    → d.approved ≡ true
    → ((zero_d <D quantity) ≡ true) × (d.quantity ≡ quantity) × (d.risk_amount ≡ amount)
last_step quantity amount h approved = ground arith

pub size_position-IsSized :
    (intent : TradeIntent) (profile : RiskProfile) {d : RiskDecision}
    → size_position intent profile ≡ ok d
    → d.approved ≡ true
    → IsSized intent profile d
unfolding size_position
size_position-IsSized intent profile {d} h approved =
    let (amount, amount_eq, h₁) =
      >>=-ok (quantize (intent.equity *D profile.risk_per_trade_pct) 2 half_even) _ h in
    let (risk, risk_eq, h₂) = >>=-ok (amount /D per_unit_risk intent) _ h₁ in
    let (notional, notional_eq, h₃) = >>=-ok (profile.max_position_notional /D intent.entry) _ h₂ in
    let (leverage, leverage_eq, h₄) =
      >>=-ok ((intent.equity *D intent.requested_leverage) /D intent.entry) _ h₃ in
    let (balance, balance_eq, h₅) = >>=-ok (balance_quantity intent leverage) _ h₄ in
    let (quantity, quantity_eq, h₆) =
      >>=-ok (quantize (min_d (min_d (min_d risk notional) leverage) balance) 6 down) _ h₅ in
    let (positive, q, a) = last_step quantity amount h₆ approved in
    finish-IsSized intent profile amount risk notional leverage balance quantity amount_eq risk_eq
      notional_eq leverage_eq balance_eq quantity_eq positive q a

-- An approved size is within the risk budget, the notional cap, the leverage and the balance.
pub approve_size :
    (intent : TradeIntent) (profile : RiskProfile) {d : RiskDecision}
    → approve intent profile ≡ ok d
    → d.approved ≡ true
    → IsSized intent profile d
approve_size intent profile h approved =
    let (checked, _) = approve-check_reward intent profile h approved in
    let (sized, _) = check_reward-size_position intent profile _ refl checked approved in
    size_position-IsSized intent profile sized approved
