-- ===== src/Live/Examples.antt =====
-- A database with one approved proposal, for the tests of controlled live trading.
use Prim.Native.String.{◌++◌ as ◌+s◌}
use syn_antona.Prelude.{true, false, none, some, [], ◌∷◌}
use syn_antona.Decimal.{dec, zero_d}
use syn_antona.Exchange.{OrderSide}
use syn_antona.Live.Profile.{
  controlled_live_v1, FirstInstrumentSelection, Source, Reason, ManualExecutionPreview,
}
use syn_antona.Live.Records.{ProposalStatus, LiveState, Proposal, Database}
use syn_antona.Live.Repository.{Digests}

abbrev pub instrument : FirstInstrumentSelection
instrument = record {
  symbol = "XRPUSDT";
  internal_symbol = "XRP/USDT";
  exchange = "bybit";
  market_type = "USDT_PERPETUAL";
  base_profile_hash = controlled_live_v1.config_hash;
  first_order_notional_cap = dec 10 0;
  selection_hash = "selection";
}

abbrev pub digests : Digests
digests = record {
  proposal_hash = λ v. "hash-" +s v.proposal_id;
  client_order_id = λ k. "client-" +s k;
  scanner_selection_hash = λ s. "scanner-" +s s;
}

abbrev pub preview : ManualExecutionPreview
preview = record {
  proposal_id = "p-1";
  profile_name = controlled_live_v1.name;
  profile_hash = controlled_live_v1.config_hash;
  selection_hash = "selection";
  source = Source.manual_validation;
  signal_score = 0;
  symbol = "XRPUSDT";
  side = OrderSide.buy;
  quantity = dec 25 2;
  expected_notional = dec 5 0;
  leverage = dec 10 0;
  expected_fee = dec 55 4;
  estimated_slippage = dec 2 3;
  stop_loss = dec 19 0;
  take_profit = dec 22 0;
  maximum_planned_loss = dec 26 2;
  risk_reward_ratio = dec 18 1;
  executable = true;
  reason = Reason.ready_for_admin_review;
  taker_fee_rate = dec 55 5;
  estimated_spread = zero_d;
  expected_net_edge = zero_d;
}

abbrev pub live_state : LiveState
live_state = record {
  profile_hash = controlled_live_v1.config_hash;
  first_symbol = "XRPUSDT";
  selection_hash = "selection";
  kill_switch_active = false;
  first_order_in_progress = false;
  first_order_executed = false;
  automatic_execution_enabled = false;
  experiment_start_equity = none;
  starting_day_equity = none;
  starting_day_utc = none;
}

abbrev pub approved : Proposal
approved = record {
  proposal_id = "p-1";
  proposal_hash = "hash-p-1";
  profile_hash = controlled_live_v1.config_hash;
  selection_hash = "selection";
  admin_telegram_id = 7;
  source = Source.manual_validation;
  preview_json = preview;
  status = ProposalStatus.approved;
  client_order_id = "client-p-1";
  exchange_order_id = none;
  position_id = none;
  error_code = none;
  approved_at = some 1;
  submitted_at = none;
  completed_at = none;
}

abbrev pub database : Database
database = record { state = some live_state; proposals = approved ∷ []; orders = [] }
