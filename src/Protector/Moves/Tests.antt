-- ===== src/Protector/Moves/Tests.antt =====
-- A tick that moves the stop, and what holds after more moves.
use syn_antona.Prelude.{◌≡◌, refl, true, none, some, List, [], ◌∷◌, all, any, Bool, false}
use syn_antona.Prelude.Errors.{Error, ok, err}
use syn_antona.Decimal.{dec, zero_d, ◌<D◌, ◌==D◌, evaluation}
use syn_antona.Protector.Costs.{
  PositionSnapshot, pnl_before_costs, estimated_close_cost, net_pnl, initial_risk_usdt,
  round_protective, tightens, raw_stop, stop_for_net_profit,
}
use syn_antona.Protector.Momentum.{atr}
use syn_antona.Protector.Decision.{
  Stage, ratio_or_zero, giveback_of, measure, is_given_back, is_early_exit, decide,
  break_even_candidate, inside_market, conclude, propose, protect_profit, evaluate_protection,
}
use syn_antona.Protector.Store.{
  ProfitState, EventStatus, observe, observe_row, begin_event, new_event, finish_event, confirm_row,
  reconcile_row, reconcile_native_stop, mark_absent_closed,
}
use syn_antona.Protector.Ticker.{
  Request, World, Tick, Protector, move_stop, perform, attempt, follow, on_state, on_position,
  on_ticker,
}
use syn_antona.Protector.Ticker.Kept.{holds_stop}
use syn_antona.Protector.Owners.{
  OpenPosition, Answers, owner_for_symbol, latest_protected, read_position, fill_average,
  text_within, observed,
}
use syn_antona.Protector.Sync.{upsert, load_bars, track, sync_from, sync}
use syn_antona.Live.Examples as Examples
use syn_antona.Live.Examples.{approved, preview}
use syn_antona.Live.Records.{ProposalStatus, OrderStatus, Database}
use syn_antona.Exchange.{OrderSide}
use syn_antona.Prelude.Keys.{text_key}
use syn_antona.Prelude.Dict.{lookup, insert}
use syn_antona.Protector.Moves.{Move, after_all}
use syn_antona.Protector.Moves.Guarded.{IsGuarded, is_of_side}
use syn_antona.Protector.Moves.Stops.{stop_never_loosens}
use syn_antona.Protector.Moves.Owned.{IsUntouched, unowned-IsUntouched}

abbrev position : PositionSnapshot
position = record {
  symbol = "SOLUSDT";
  side = "Buy";
  quantity = dec 1 0;
  entry_price = dec 100 0;
  stop_loss = dec 98 0;
  take_profit = dec 104 0;
  position_idx = 0;
  opened_at = 0;
  entry_client_order_id = "c-1";
  entry_fee_usdt = dec 55 3;
  taker_fee_rate = dec 55 5;
  tick_size = dec 1 2;
}

abbrev row : ProfitState
row = record {
  entry_client_order_id = "c-1";
  position_key = "SOLUSDT:0";
  symbol = "SOLUSDT";
  side = "Buy";
  quantity = dec 1 0;
  entry_price = dec 100 0;
  initial_stop_loss = dec 98 0;
  initial_take_profit = dec 104 0;
  initial_risk_usdt = dec 2 0;
  entry_fee_usdt = dec 55 3;
  estimated_exit_cost_usdt = zero_d;
  current_price = dec 100 0;
  current_net_pnl = zero_d;
  max_favorable_price = dec 100 0;
  max_favorable_excursion_usdt = zero_d;
  max_favorable_r = zero_d;
  confirmed_stop_loss = dec 98 0;
  stage = Stage.initial;
  opened_at = 0;
  closed_at = none;
}

abbrev rising : Tick
rising = record {
  symbol = "SOLUSDT";
  bid = dec 102 0;
  ask = dec 10_201 2;
  slippage = dec 2 4;
  event_id = "e-1";
  now = 1;
  gateway = ok tt;
  notifier = ok tt;
}

abbrev world : World
world = record { store = record { states = row ∷ []; events = [] }; sent = [] }

abbrev protector : Protector
protector = record { world = world; positions = ("SOLUSDT", position) ∷ []; bars = []; quotes = [] }

-- The proposal that opened the position, and the order of the ledger.
abbrev database : Database
database = record Examples.database {
  proposals =
      record approved {
        client_order_id = "c-1";
        status = ProposalStatus.protected;
        preview_json = record preview { symbol = "SOLUSDT"; stop_loss = dec 98 0 };
      }
      ∷ [];
  orders =
      record {
        exchange = "bybit";
        account_id = "account";
        client_order_id = "c-1";
        symbol = "SOLUSDT";
        side = OrderSide.buy;
        quantity = dec 1 0;
        request_hash = "hash";
        status = OrderStatus.filled_protected;
        exchange_order_id = some "o-1";
        exchange_status = none;
        error_code = none;
      }
      ∷ [];
}

abbrev reported : OpenPosition
reported = record {
  symbol = "SOLUSDT";
  side = "Buy";
  avg_price = dec 100 0;
  size = dec 1 0;
  stop_loss = dec 99 0;
  take_profit = dec 104 0;
  position_idx = 0;
}

abbrev answers : Answers
answers = record {
  executions = ok (record { exec_fee = dec 55 3; exec_qty = dec 1 0; exec_price = dec 100 0 } ∷ []);
  fee_rate = ok (dec 55 5);
  instrument = ok (record {
    symbol = "SOLUSDT";
    status = "Trading";
    ask_price = dec 10_001 2;
    minimum_quantity = dec 1 1;
    quantity_step = dec 1 1;
    minimum_notional = dec 5 0;
  });
  ticker = ok (record { tick_size = dec 1 2; bid1_price = dec 100 0; ask1_price = dec 10_001 2 });
  klines = ok [];
}

abbrev moves : List Move
moves =
    Move.quoted 0 1 rising
    ∷ Move.synced database 2 (ok ((reported, answers) ∷ []))
    ∷ Move.synced database 3 (ok [])
    ∷ []

-- The sync takes the stop of the exchange for confirmed, which is tighter, and keeps the position.
synced_lem :
    ((sync database 2 (ok ((reported, answers) ∷ [])) protector).1.positions
      ≡ ("SOLUSDT", record position { opened_at = 0; entry_fee_usdt = dec 55 3 }) ∷ [])
    × ((sync database 2 (ok ((reported, answers) ∷ [])) protector).1.world.store.states
        ≡ record row { confirmed_stop_loss = dec 99 0 } ∷ [])
unfolding evaluation sync sync_from observed owner_for_symbol latest_protected read_position
    fill_average text_within pnl_before_costs estimated_close_cost initial_risk_usdt upsert track
    tightens insert lookup reconcile_native_stop reconcile_row mark_absent_closed load_bars
synced_lem = (refl, refl)

asked :
    (on_ticker rising protector).1.world.sent
    ≡ Request.manage_native_protection "SOLUSDT" (dec 10_013 2) "c-1" ∷ []
unfolding evaluation pnl_before_costs estimated_close_cost net_pnl initial_risk_usdt
    round_protective tightens raw_stop stop_for_net_profit atr ratio_or_zero giveback_of measure
    is_given_back is_early_exit decide break_even_candidate inside_market conclude propose
    protect_profit evaluate_protection observe observe_row begin_event new_event finish_event
    confirm_row move_stop perform attempt follow on_state on_position lookup on_ticker
asked = refl

starts : IsGuarded "c-1" "Buy" (dec 98 0) protector
unfolding holds_stop tightens evaluation
starts = record { stop = refl; sides = (refl, tt) }

same_side : all (is_of_side "c-1" "Buy" (dec 98 0)) moves ≡ true
unfolding is_of_side owner_for_symbol latest_protected
same_side = refl

stop_never_loosens_example : IsGuarded "c-1" "Buy" (dec 98 0) (after_all protector moves)
stop_never_loosens_example =
    stop_never_loosens "c-1" "Buy" (dec 98 0) moves protector same_side starts

-- A position of a symbol that no proposal owns is reported too, and its price moves.
abbrev foreign : List Move
foreign =
    Move.synced database 2
      (ok ((record reported { symbol = "ETHUSDT" }, answers) ∷ (reported, answers) ∷ []))
    ∷ Move.quoted 0 1 (record rising { symbol = "ETHUSDT" })
    ∷ Move.quoted 0 1 rising
    ∷ []

unowned-IsUntouched_example : IsUntouched "ETHUSDT" [] (after_all protector foreign)
unfolding owner_for_symbol latest_protected lookup
unowned-IsUntouched_example =
    unowned-IsUntouched "ETHUSDT" foreign protector (refl, (tt, (tt, tt))) refl

-- When only the notification fails, the stop is confirmed in the row and the event says FAILED.
abbrev unheard : Tick
unheard = record rising { notifier = err (Error.runtime_error "telegram") }

abbrev is_failed : EventStatus → Bool
is_failed EventStatus.failed = true
is_failed _ = false

unheard_fails :
    (any (λ e. is_failed e.status) (on_ticker unheard protector).1.world.store.events ≡ true)
    × (any
          (λ r. r.confirmed_stop_loss ==D dec 10_013 2)
          (on_ticker unheard protector).1.world.store.states
        ≡ true)
unfolding evaluation pnl_before_costs estimated_close_cost net_pnl initial_risk_usdt
    round_protective tightens raw_stop stop_for_net_profit atr ratio_or_zero giveback_of measure
    is_given_back is_early_exit decide break_even_candidate inside_market conclude propose
    protect_profit evaluate_protection observe observe_row begin_event new_event finish_event
    confirm_row move_stop perform attempt follow on_state on_position lookup on_ticker
unheard_fails = (refl, refl)

-- The break-even stop that was asked for does not cover the costs: closing there loses a little.
break_even_loses : (net_pnl position (dec 10_013 2) (dec 2 4) <D zero_d) ≡ true
unfolding evaluation pnl_before_costs estimated_close_cost net_pnl
break_even_loses = refl
