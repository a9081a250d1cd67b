-- ===== src/Live/Preview/Tests.antt =====
-- A preview that may be executed, and the theorems at it.
use syn_antona.Prelude.{◌≡◌, refl, true, none, some}
use syn_antona.Prelude.Errors.{ok}
use syn_antona.Decimal.{dec, zero_d, evaluation}
use syn_antona.Exchange.{OrderSide, InstrumentRules}
use syn_antona.Live.Profile.{
  controlled_live_v1, FirstInstrumentSelection, ControlledRiskSnapshot, ManualOrderInputs, Source,
  Reason, ManualExecutionPreview,
}
use syn_antona.Live.Preview.{
  realized_daily_loss, remaining_daily_risk_budget, per_unit_risk, per_unit_reward, risk_rejection,
  reward_ratio, early_reason, Sizing, risk_budget, notional_cap, size_order, is_unaffordable,
  sizing_reason, size_and_reason, preview_of, build_manual_preview,
}
use syn_antona.Live.Preview.Safety.{MayTrade, Fits, preview_safe}

abbrev inputs : ManualOrderInputs
inputs = record {
  side = OrderSide.buy;
  reference_price = dec 20 0;
  stop_loss = dec 19 0;
  take_profit = dec 22 0;
}

abbrev risk : ControlledRiskSnapshot
risk = record {
  equity = dec 100 0;
  available_balance = dec 50 0;
  open_positions = 0;
  trades_today = 0;
  daily_realized_pnl = zero_d;
  consecutive_losses = 0;
  cooldown_until = none;
  starting_day_equity = none;
  experiment_start_equity = some (dec 100 0);
  open_planned_risk = zero_d;
}

abbrev rules : InstrumentRules
rules = record {
  tick_size = dec 1 2;
  quantity_step = dec 1 2;
  minimum_quantity = dec 1 2;
  minimum_notional = dec 5 0;
  maximum_quantity = none;
  maximum_leverage = dec 25 0;
  price_precision = none;
  quantity_precision = none;
}

abbrev instrument : FirstInstrumentSelection
instrument = record {
  symbol = "XRPUSDT";
  internal_symbol = "XRP/USDT";
  exchange = "bybit";
  market_type = "USDT_PERPETUAL";
  base_profile_hash = controlled_live_v1.config_hash;
  first_order_notional_cap = dec 10 0;
  selection_hash = "selection";
}

-- Half a unit, of which the cap of ten is the bound: the planned loss is about 0.51.
abbrev sizing : Sizing
sizing = record {
  quantity = dec 50 2;
  expected_notional = dec 1000 2;
  expected_fee = dec 107_250 7;
  estimated_slippage = dec 3_900 6;
  maximum_loss = dec 514_625_000_000_000 15;
}

sized : size_order inputs risk rules controlled_live_v1 instrument ≡ ok sizing
unfolding realized_daily_loss remaining_daily_risk_budget per_unit_risk risk_budget notional_cap
    size_order evaluation
sized = refl

abbrev preview : ManualExecutionPreview
preview = record {
  proposal_id = "p-1";
  profile_name = "CONTROLLED_LIVE_V1";
  profile_hash = controlled_live_v1.config_hash;
  selection_hash = "selection";
  source = Source.manual_validation;
  signal_score = 0;
  symbol = "XRPUSDT";
  side = OrderSide.buy;
  quantity = sizing.quantity;
  expected_notional = sizing.expected_notional;
  leverage = dec 10 0;
  expected_fee = sizing.expected_fee;
  estimated_slippage = sizing.estimated_slippage;
  stop_loss = dec 19 0;
  take_profit = dec 22 0;
  maximum_planned_loss = sizing.maximum_loss;
  risk_reward_ratio = dec 2_000_000_000_000_000_000_000_000_000 27;
  executable = true;
  reason = Reason.ready_for_admin_review;
  taker_fee_rate = zero_d;
  estimated_spread = zero_d;
  expected_net_edge = zero_d;
}

built : build_manual_preview inputs risk rules controlled_live_v1 instrument "p-1" 0 ≡ ok preview
unfolding build_manual_preview preview_of size_and_reason sizing_reason is_unaffordable early_reason
    reward_ratio risk_rejection per_unit_reward realized_daily_loss remaining_daily_risk_budget
    per_unit_risk risk_budget notional_cap size_order evaluation
built = refl

preview_safe_example :
    MayTrade inputs risk rules controlled_live_v1 0 preview.risk_reward_ratio
    × ((s : Sizing) × (size_order inputs risk rules controlled_live_v1 instrument ≡ ok s)
        × (preview.quantity ≡ s.quantity)
        × (preview.expected_notional ≡ s.expected_notional)
        × (preview.maximum_planned_loss ≡ s.maximum_loss)
        × Fits risk rules controlled_live_v1 instrument s)
preview_safe_example =
    preview_safe inputs risk rules controlled_live_v1 instrument "p-1" 0 built refl
