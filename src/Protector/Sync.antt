-- ===== src/Protector/Sync.antt =====
-- `upsert` and `sync` of app/trading/profit_protector.py, and what `run` does with a message of the
-- socket. An exception leaves what was written before it.
use syn_antona.Prelude.{
  ℕ, ◌+◌, leb, String, Bool, not, Option, none, some, List, [], ◌∷◌, ◌++◌, map, any, if◌then◌else◌,
  ◌&&◌, ◌||◌,
}
use syn_antona.Prelude.Keys.{◌==◌, text_key}
use syn_antona.Prelude.Dict.{Dict, insert, get_or}
use syn_antona.Prelude.Errors.{Result, ok, err}
use syn_antona.Prelude.Actions.{Action, ◌>>=◌, ◌>>◌, return, reading, write}
use syn_antona.Prelude.Tables.{update_all}
use syn_antona.Decimal.{Decimal, zero_d}
use syn_antona.Live.Records.{Database}
use syn_antona.Protector.Costs.{PositionSnapshot}
use syn_antona.Protector.Momentum.{ClosedBar, last_n}
use syn_antona.Protector.Decision.{Stage}
use syn_antona.Protector.Store.{
  ProfitState, ProtectionEvent, EventStatus, Store, is_state, is_open, is_unclosed, close_row,
  reconcile_native_stop, mark_absent_closed,
}
use syn_antona.Protector.Ticker.{Tick, on_store, Protector, on_world, bars_of, on_ticker}
use syn_antona.Protector.Owners.{OpenPosition, Answers, Tracked, position_key, or_other, observed}

unfoldable pub new_row : Tracked → ProfitState
new_row t = record {
  entry_client_order_id = t.position.entry_client_order_id;
  position_key = position_key t.position.symbol t.position.position_idx;
  symbol = t.position.symbol;
  side = t.position.side;
  quantity = t.position.quantity;
  entry_price = t.position.entry_price;
  initial_stop_loss = t.position.stop_loss;
  initial_take_profit = t.position.take_profit;
  initial_risk_usdt = t.risk;
  entry_fee_usdt = t.position.entry_fee_usdt;
  estimated_exit_cost_usdt = t.exit_cost;
  current_price = t.price;
  current_net_pnl = zero_d;
  max_favorable_price = t.price;
  max_favorable_excursion_usdt = zero_d;
  max_favorable_r = zero_d;
  confirmed_stop_loss = t.confirmed_stop;
  stage = Stage.initial;
  opened_at = t.position.opened_at;
  closed_at = none;
}

-- Rows of other client orders that are still open under the key of the position.
abbrev pub is_superseded : Tracked → ProfitState → Bool
is_superseded t row =
    (row.position_key == position_key t.position.symbol t.position.position_idx)
    && not (is_state t.position.entry_client_order_id row)
    && is_unclosed row.closed_at

abbrev pub supersede : ProtectionEvent → ProtectionEvent
supersede e = record e { status = EventStatus.superseded }

-- Nothing is written when the row is there.
unfoldable pub upsert : Tracked → ℕ → Store → Store
upsert t now s = if any (is_state t.position.entry_client_order_id) s.states then s else record {
  states = update_all (is_superseded t) (close_row now) s.states ++ new_row t ∷ [];
  events =
      update_all
        (λ e.
          is_open e.status
          && any (λ row. is_superseded t row && is_state e.entry_client_order_id row) s.states)
        supersede s.events;
}

-- `deque(maxlen=64)`
abbrev pub append_bar : ClosedBar → List ClosedBar → List ClosedBar
append_bar bar bars = last_n 64 (bars ++ bar ∷ [])

abbrev pub put_bars : String → List ClosedBar → Protector → Protector
put_bars symbol bars v = record v { bars = insert symbol bars v.bars }

abbrev pub append_bars : List ClosedBar → List ClosedBar → List ClosedBar
append_bars [] kept = kept
append_bars (bar ∷ bars) kept = append_bars bars (append_bar bar kept)

-- The answer is given the latest bar first; `rows` has them in the order of time.
unfoldable pub load_bars : String → Result (List ClosedBar) → Action Protector (Unit {0})
load_bars symbol (err e) w = (err e, w)
load_bars symbol (ok rows) w = (ok tt, put_bars symbol (append_bars rows []) w)

abbrev pub fill_bars : String → Result (List ClosedBar) → Action Protector (Unit {0})
fill_bars symbol klines w = elim (bars_of symbol w) [
  | [] ↦ load_bars symbol klines w
  | bar ∷ bars ↦ (ok tt, w)
]

-- What is written for one position.
unfoldable pub track : Option Tracked → Answers → ℕ → Action Protector (Unit {0})
track none answers now = return tt
track (some t) answers now = do
  on_world (on_store (upsert t now))
  on_world (
      on_store (
        reconcile_native_stop t.position.entry_client_order_id t.position.side t.confirmed_stop
          now))
  fill_bars t.position.symbol answers.klines

abbrev pub keep_position :
    Option Tracked → Dict String PositionSnapshot → Dict String PositionSnapshot
keep_position none current = current
keep_position (some t) current = insert t.position.symbol t.position current

abbrev pub keys : Dict String PositionSnapshot → List String
keys = map (λ entry. entry.0)

unfoldable pub sync_from :
    Database
    → ℕ
    → List (OpenPosition × Answers)
    → Dict String PositionSnapshot
    → Action Protector (Unit {0})
sync_from db now [] current =
    write (λ v. record v { positions = current })
    >> on_world (on_store (mark_absent_closed (keys current) now))
sync_from db now ((raw, answers) ∷ rest) current = do
  found ← reading (λ w. observed db raw answers)
  track found answers now
  sync_from db now rest (keep_position found current)

-- What `read_open_positions` answers, with the answers about each position.
unfoldable pub sync :
    Database → ℕ → Result (List (OpenPosition × Answers)) → Action Protector (Unit {0})
sync db now (err e) w = (err e, w)
sync db now (ok raws) w = sync_from db now raws [] w

-- A message with a quote: a missing price keeps the old one. `message_ms` is zero when the message has
-- no time, and an old message only moves the quote.
unfoldable pub on_ticker_message : ℕ → ℕ → Tick → Action Protector (Unit {0})
on_ticker_message message_ms now_ms t v =
    let (old_bid, old_ask) = get_or t.symbol (zero_d, zero_d) v.quotes in
    let bid : Decimal = or_other t.bid old_bid in
    let ask : Decimal = or_other t.ask old_ask in
    let quoted : Protector = record v { quotes = insert t.symbol (bid, ask) v.quotes } in
    if leb message_ms 0 || leb now_ms (message_ms + 30_000)
    then on_ticker (record t { bid = bid; ask = ask }) quoted
    else (ok tt, quoted)

abbrev pub is_same_bar : ClosedBar → List ClosedBar → Bool
is_same_bar bar bars =
    any (λ b. leb b.opened_at_ms bar.opened_at_ms && leb bar.opened_at_ms b.opened_at_ms)
      (last_n 1 bars)

-- A message with bars, each with its `confirm`.
unfoldable pub on_kline_message : String → List (Bool × ClosedBar) → Protector → Protector
on_kline_message symbol [] v = v
on_kline_message symbol ((confirm, bar) ∷ rest) v =
    let bars : List ClosedBar = bars_of symbol v in
    on_kline_message symbol rest
      (if confirm && not (is_same_bar bar bars) then put_bars symbol (append_bar bar bars) v else v)
