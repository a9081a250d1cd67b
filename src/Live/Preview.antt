-- ===== src/Live/Preview.antt =====
-- `build_manual_preview` and the budgets that it rests on.
pub mod Budget
pub mod Safety
mod Tests
use syn_antona.Prelude.{
  ℕ, String, Bool, true, false, not, Option, none, some, leb, ltb, if◌then◌else◌, ◌||◌,
}
use syn_antona.Prelude.Errors.{Result, ok, err, ◌>>=◌}
use syn_antona.Decimal.{
  Decimal, zero_d, ◌+D◌, ◌-D◌, ◌*D◌, ◌/D◌, ◌≤D◌, ◌<D◌, neg_d, max_d, min_d, to_integral, down,
}
use syn_antona.Exchange.{OrderSide, is_buy, InstrumentRules}
use syn_antona.Live.Profile.{
  ControlledLiveProfile, bybit_taker_fee_rate, FirstInstrumentSelection, ControlledRiskSnapshot,
  ManualOrderInputs, Source, Reason, ManualExecutionPreview,
}

unfoldable pub realized_daily_loss : Decimal → Decimal
realized_daily_loss daily_realized_pnl = max_d zero_d (neg_d daily_realized_pnl)

unfoldable pub remaining_daily_risk_budget :
    ControlledRiskSnapshot → ControlledLiveProfile → Decimal
remaining_daily_risk_budget risk profile = max_d zero_d (
    (profile.daily_max_loss_usdt -D realized_daily_loss risk.daily_realized_pnl)
    -D risk.open_planned_risk)

unfoldable pub per_unit_risk : ManualOrderInputs → Decimal
per_unit_risk inputs =
    if is_buy inputs.side
    then inputs.reference_price -D inputs.stop_loss
    else inputs.stop_loss -D inputs.reference_price

unfoldable pub per_unit_reward : ManualOrderInputs → Decimal
per_unit_reward inputs =
    if is_buy inputs.side
    then inputs.take_profit -D inputs.reference_price
    else inputs.reference_price -D inputs.take_profit

-- `start is not None and start - equity >= limit`
abbrev pub experiment_lost : Option Decimal → Decimal → Decimal → Bool
experiment_lost none equity limit = false
experiment_lost (some start) equity limit = limit ≤D (start -D equity)

-- `until is not None and now < until`
abbrev pub is_cooling : Option ℕ → ℕ → Bool
is_cooling none now = false
is_cooling (some until) now = ltb now until

unfoldable pub risk_rejection :
    ManualOrderInputs → ControlledRiskSnapshot → ControlledLiveProfile → ℕ → Option Reason
risk_rejection inputs risk profile now =
    if (risk.equity ≤D zero_d)
      || (risk.available_balance <D zero_d)
      || (inputs.reference_price ≤D zero_d)
    then some Reason.invalid_equity_balance_or_price
    else if profile.trailing_stop
    then some Reason.trailing_stop_must_be_off
    else if leb profile.max_positions risk.open_positions
    then some Reason.maximum_positions
    else if risk.open_planned_risk <D zero_d
    then some Reason.invalid_open_planned_risk
    else if remaining_daily_risk_budget risk profile ≤D zero_d
    then some Reason.daily_risk_budget
    else if experiment_lost risk.experiment_start_equity risk.equity
        profile.total_experiment_loss_limit
    then some Reason.experiment_loss_limit
    else if leb profile.max_consecutive_losses risk.consecutive_losses
    then some Reason.consecutive_loss_stop
    else if is_cooling risk.cooldown_until now
    then some Reason.day_loss_stop
    else if (per_unit_risk inputs ≤D zero_d) || (per_unit_reward inputs ≤D zero_d)
    then some Reason.invalid_stop_or_target
    else none

-- `reward / per_unit_risk if per_unit_risk > 0 else Decimal()`
unfoldable pub reward_ratio : ManualOrderInputs → Result Decimal
reward_ratio inputs =
    if zero_d <D per_unit_risk inputs
    then per_unit_reward inputs /D per_unit_risk inputs
    else ok zero_d

-- The reasons that are known before the size.
unfoldable pub early_reason :
    ManualOrderInputs
    → ControlledRiskSnapshot
    → InstrumentRules
    → ControlledLiveProfile
    → ℕ
    → Decimal
    → Option Reason
early_reason inputs risk rules profile now ratio = elim (risk_rejection inputs risk profile now) [
  | some r ↦ some r
  | none ↦
      if ratio <D profile.minimum_risk_reward
      then some Reason.minimum_risk_reward
      else if rules.maximum_leverage <D profile.leverage
      then some Reason.leverage_above_instrument
      else none
]

pub record Sizing : Type 0 where
  pub quantity : Decimal
  pub expected_notional : Decimal
  pub expected_fee : Decimal
  pub estimated_slippage : Decimal
  pub maximum_loss : Decimal

abbrev pub no_sizing : Sizing
no_sizing = record {
  quantity = zero_d;
  expected_notional = zero_d;
  expected_fee = zero_d;
  estimated_slippage = zero_d;
  maximum_loss = zero_d;
}

abbrev pub per_trade_cap : ControlledRiskSnapshot → ControlledLiveProfile → Decimal
per_trade_cap risk profile = risk.equity *D profile.risk_per_trade_pct

unfoldable pub risk_budget : ControlledRiskSnapshot → ControlledLiveProfile → Decimal
risk_budget risk profile =
    min_d (per_trade_cap risk profile) (remaining_daily_risk_budget risk profile)

-- `daily_budget_limited`
abbrev pub is_daily_limited : ControlledRiskSnapshot → ControlledLiveProfile → Bool
is_daily_limited risk profile =
    remaining_daily_risk_budget risk profile <D per_trade_cap risk profile

unfoldable pub notional_cap : FirstInstrumentSelection → ControlledLiveProfile → Decimal
notional_cap instrument profile =
    min_d instrument.first_order_notional_cap profile.max_position_notional

unfoldable pub size_order :
    ManualOrderInputs
    → ControlledRiskSnapshot
    → InstrumentRules
    → ControlledLiveProfile
    → FirstInstrumentSelection
    → Result Sizing
size_order inputs risk rules profile instrument = do
  let legs = inputs.reference_price +D inputs.stop_loss
  let loss_per_unit =
      ((per_unit_risk inputs +D inputs.reference_price *D bybit_taker_fee_rate)
        +D inputs.stop_loss *D bybit_taker_fee_rate)
      +D legs *D profile.estimated_slippage_per_leg
  risk_quantity ← risk_budget risk profile /D loss_per_unit
  cap_quantity ← notional_cap instrument profile /D inputs.reference_price
  steps ← min_d risk_quantity cap_quantity /D rules.quantity_step
  let quantity = to_integral steps down *D rules.quantity_step
  let fee = (quantity *D legs) *D bybit_taker_fee_rate
  let slippage = (quantity *D legs) *D profile.estimated_slippage_per_leg
  ok (record {
    quantity = quantity;
    expected_notional = quantity *D inputs.reference_price;
    expected_fee = fee;
    estimated_slippage = slippage;
    maximum_loss = (quantity *D per_unit_risk inputs +D fee) +D slippage;
  })

-- `expected_notional / leverage + expected_fee > available_balance`
unfoldable pub is_unaffordable :
    Sizing → ControlledRiskSnapshot → ControlledLiveProfile → Result Bool
is_unaffordable s risk profile = do
  margin ← s.expected_notional /D profile.leverage
  ok (risk.available_balance <D (margin +D s.expected_fee))

-- The ladder of reasons once the size is known.
unfoldable pub sizing_reason :
    ControlledRiskSnapshot
    → InstrumentRules
    → ControlledLiveProfile
    → FirstInstrumentSelection
    → Sizing
    → Result (Option Reason)
sizing_reason risk rules profile instrument s =
    if s.quantity <D rules.minimum_quantity
    then ok (
        some (
          if is_daily_limited risk profile
          then Reason.daily_risk_budget
          else Reason.minimum_quantity_above_cap))
    else if s.expected_notional <D rules.minimum_notional
    then ok (
        some (
          if is_daily_limited risk profile
          then Reason.daily_risk_budget
          else Reason.minimum_notional))
    else if notional_cap instrument profile <D s.expected_notional
    then ok (some Reason.notional_cap)
    else if risk_budget risk profile <D s.maximum_loss
    then ok (some Reason.maximum_planned_loss)
    else if profile.daily_max_loss_usdt <D (
        (realized_daily_loss risk.daily_realized_pnl +D risk.open_planned_risk) +D s.maximum_loss)
    then ok (some Reason.daily_risk_budget)
    else do
      unaffordable ← is_unaffordable s risk profile
      ok (if unaffordable then some Reason.insufficient_balance else none)

-- The size and its reason; a reason that is known before leaves the size at zero.
unfoldable pub size_and_reason :
    ManualOrderInputs
    → ControlledRiskSnapshot
    → InstrumentRules
    → ControlledLiveProfile
    → FirstInstrumentSelection
    → Option Reason
    → Result (Sizing × Option Reason)
size_and_reason inputs risk rules profile instrument (some r) = ok (no_sizing, some r)
size_and_reason inputs risk rules profile instrument none =
    if risk_budget risk profile ≤D zero_d then ok (no_sizing, some Reason.daily_risk_budget) else do
      s ← size_order inputs risk rules profile instrument
      r ← sizing_reason risk rules profile instrument s
      ok (s, r)

abbrev pub is_none {ℓ} : {A : Type ℓ} → Option A → Bool
is_none none = true
is_none (some a) = false

abbrev pub reason_or_ready : Option Reason → Reason
reason_or_ready none = Reason.ready_for_admin_review
reason_or_ready (some r) = r

unfoldable pub preview_of :
    ManualOrderInputs
    → ControlledLiveProfile
    → FirstInstrumentSelection
    → String
    → Decimal
    → Sizing
    → Option Reason
    → ManualExecutionPreview
preview_of inputs profile instrument proposal_id ratio s r = record {
  proposal_id = proposal_id;
  profile_name = profile.name;
  profile_hash = profile.config_hash;
  selection_hash = instrument.selection_hash;
  source = Source.manual_validation;
  signal_score = 0;
  symbol = instrument.symbol;
  side = inputs.side;
  quantity = s.quantity;
  expected_notional = s.expected_notional;
  leverage = profile.leverage;
  expected_fee = s.expected_fee;
  estimated_slippage = s.estimated_slippage;
  stop_loss = inputs.stop_loss;
  take_profit = inputs.take_profit;
  maximum_planned_loss = s.maximum_loss;
  risk_reward_ratio = ratio;
  executable = is_none r;
  reason = reason_or_ready r;
  taker_fee_rate = zero_d;
  estimated_spread = zero_d;
  expected_net_edge = zero_d;
}

-- The proposal id and the clock are arguments.
unfoldable pub build_manual_preview :
    ManualOrderInputs
    → ControlledRiskSnapshot
    → InstrumentRules
    → ControlledLiveProfile
    → FirstInstrumentSelection
    → String
    → ℕ
    → Result ManualExecutionPreview
build_manual_preview inputs risk rules profile instrument proposal_id now = do
  ratio ← reward_ratio inputs
  (s, r) ←
      size_and_reason inputs risk rules profile instrument
        (early_reason inputs risk rules profile now ratio)
  ok (preview_of inputs profile instrument proposal_id ratio s r)
