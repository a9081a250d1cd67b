-- ===== src/Shadow/Engine/Tests.antt =====
-- An hour that closes after the lock, with a signal to buy at 100 on bybit.
use syn_antona.Prelude.{ℕ, Option, ◌≤◌, none, some, List, [], ◌∷◌, ◌≡◌, refl, arith}
use syn_antona.Prelude.Keys.{text_key, ◌==◌}
use syn_antona.Prelude.Tables.{find}
use syn_antona.Prelude.Errors.{Error, ok, err}
use syn_antona.Decimal.{dec, zero_d, evaluation}
use syn_antona.Domain.{Side}
use syn_antona.Risk.Manager.{
  per_unit_risk, per_unit_reward, balance_quantity, size_position, check_reward, approve,
}
use syn_antona.Shadow.Records.{Candle, ShadowTrade, TradeStatus, Closing}
use syn_antona.Shadow.Repository.{
  Journal, Texts, add_decision, repair_all, orphans, repair_orphan_decisions, interrupted_decision,
}
use syn_antona.Shadow.Repository.Trades.{open_trade, open_trades, closed_trades}
use syn_antona.Shadow.Repository.Rules as Rules
use syn_antona.Shadow.Repository.Rules.{Call, IsTidy, rows_apart}
use syn_antona.Shadow.Repository.Rules.Repair.{Grows, repair_leaves_none}
use syn_antona.Shadow.Orders.{
  StrategyAction, OrderOutcome, protocol, floor_quantity, entry_price, selected, losing_streak,
  intent_of, trade_of, size_order, price_order, shadow_order,
}
use syn_antona.Shadow.Market.{
  LiveMarketSnapshot, CostProfile, midpoint, snapshot_spread, snapshot_spread_pct, spot_profile,
}
use syn_antona.Shadow.Orders.Sound.{IsApproved, order_sound}
use syn_antona.Shadow.Engine.{Replies, candle_row, process_exchanges}
use syn_antona.Shadow.Reports.{daily_activity, count_by_decision}
use syn_antona.Shadow.Metrics.{
  shadow_metrics, winning, losing, profit_factor, max_drawdown, drawdown_from,
}
use syn_antona.Shadow.Engine.Summary.{cycle}
use syn_antona.Shadow.Engine.Summary.Saved.{IsReported, cycle_returns}
use syn_antona.Shadow.Engine.OneOpen.{open_count, one_open, closed_for_good}

abbrev candle : Candle
candle = record {
  timestamp = 3_600_000_000;
  open_price = dec 99 0;
  high = dec 101 0;
  low = dec 98 0;
  close = dec 100 0;
  volume = dec 5 0;
}

abbrev snapshot : LiveMarketSnapshot
snapshot = record {
  exchange = "bybit";
  symbol = "BTCUSDT";
  bid = dec 9995 2;
  ask = dec 10005 2;
  last = dec 100 0;
  exchange_timestamp = 7_200_000_000;
  received_at = 7_200_000_001;
  bids = (dec 9995 2, dec 3 0) ∷ [];
  asks = (dec 10005 2, dec 2 0) ∷ [];
  constraints = record {
    quantity_step = dec 1 2;
    minimum_quantity = dec 1 2;
    minimum_notional = dec 5 0;
    price_step = dec 1 2;
  };
}

abbrev action : StrategyAction
action = record {
  side = Side.long;
  stop_loss = dec 98 0;
  take_profit = dec 106 0;
  signal_score = 80;
  volatility_pct = dec 1 2;
  context_json = "{}";
}

abbrev empty : Journal
empty = record { quotes = []; candles = []; decisions = []; trades = []; events = [] }

abbrev texts : Texts
texts = record {
  decision_id = λ p e s t. s;
  candle_hash = λ e s c. s;
  opened_json = λ t. t.id;
  closed_json = λ t c. t.id;
}

abbrev replies : Replies
replies = record {
  exchange = "bybit";
  symbol = "BTCUSDT";
  snapshot = ok snapshot;
  closed_at = 7_200_000_003;
  close_notice = ok tt;
  candles = ok (
      record {
        candle = candle;
        action = ok (some action);
        written_at = 7_200_000_004;
        notice = ok tt;
      }
      ∷ []);
}

unfoldable shadow_evaluation : Unit {0}
unfolding evaluation approve check_reward size_position balance_quantity per_unit_risk
    per_unit_reward midpoint snapshot_spread snapshot_spread_pct spot_profile floor_quantity
    selected losing_streak intent_of trade_of size_order price_order shadow_order open_trade
    closed_trades
shadow_evaluation = tt

abbrev profile : CostProfile
profile = record { taker_fee = dec 1 3; slippage = dec 20 5 }

abbrev trade : ShadowTrade
trade =
    trade_of snapshot action "BTCUSDT" "hash" candle profile
      (entry_price snapshot Side.long profile) (dec 240 2)
      (dec 1_000_000_000_000_000_000_000_000_000 25)

-- The notional cap of 500 allows no more than 4.99 of them, and the risk budget 2.40.
ordered :
    shadow_order snapshot action "BTCUSDT" "hash" candle empty ≡ ok (OrderOutcome.ordered trade)
unfolding shadow_evaluation
ordered = refl

order_sound_example : IsApproved snapshot action "BTCUSDT" "hash" candle trade empty
order_sound_example = order_sound snapshot action "BTCUSDT" "hash" candle trade empty ordered

abbrev unreachable : Replies
unreachable = record replies { snapshot = err (Error.exchange_error "TimeoutError") }

one_open_example :
    open_count protocol "bybit" "BTCUSDT"
      (process_exchanges texts "hash" 3_600_000_000 (replies ∷ replies ∷ []) empty).1.trades
    ≤ 1
one_open_example =
    one_open texts "hash" 3_600_000_000 (replies ∷ replies ∷ []) empty protocol "bybit" "BTCUSDT"
      (omega arith)

abbrev closing : Closing
closing = record {
  exit_reference = dec 98 0;
  exit_price = dec 98 0;
  exit_reason = "STOP_LOSS";
  exit_fee = dec 2 1;
  exit_spread_cost = zero_d;
  exit_slippage_cost = zero_d;
  gross_pnl = zero_d;
  realized_pnl = zero_d;
  closed_at = 7_200_000_002;
}

abbrev closed : ShadowTrade
closed = record trade { status = TradeStatus.closed_trade; closing = some closing }

closed_for_good_example :
    find
      (λ t. t.id == "shadow-BTCUSDT")
      (process_exchanges texts "hash" 3_600_000_000
        (replies ∷ [])
        (record empty { trades = closed ∷ [] })).1.trades
    ≡ some closed
unfolding trade_of
closed_for_good_example =
    closed_for_good texts "hash" 3_600_000_000 (replies ∷ [])
      (record empty { trades = closed ∷ [] }) "shadow-BTCUSDT" closed refl refl

-- A candle whose decision was not written.
abbrev orphaned : Journal
orphaned = record empty { candles = candle_row texts "hash" 0 snapshot candle ∷ [] }

abbrev repaired : Journal
repaired = record orphaned {
  decisions =
      interrupted_decision texts (candle_row texts "hash" 0 snapshot candle) none "hash" ∷ [];
}

repairs : repair_orphan_decisions texts protocol "hash" orphaned ≡ (ok 1, repaired)
unfolding repair_orphan_decisions repair_all orphans add_decision
repairs = refl

repair_leaves_none_example :
    (orphans protocol repaired ≡ [])
    × (repaired.candles ≡ orphaned.candles)
    × Grows orphaned repaired
repair_leaves_none_example = repair_leaves_none texts protocol "hash" orphaned repairs

abbrev calls : List Call
calls =
    Call.candle_saved (candle_row texts "hash" 0 snapshot candle)
    ∷ Call.repaired protocol "hash"
    ∷ Call.candle_recovered protocol "bybit" "BTCUSDT" candle "hash" "hash" 9_000_000_000
    ∷ Call.trade_closed "shadow-BTCUSDT" closing 9_000_000_000
    ∷ []

rows_apart_example : IsTidy (Rules.after_all texts calls empty)
rows_apart_example =
    rows_apart texts calls empty (record { candles = refl; decisions = refl; trades = refl })

-- The first report of the second day, over a symbol whose market raises.
cycle_returns_example :
    IsReported
      (λ m. "{}")
      90_000_000_000
      (replies ∷ unreachable ∷ [])
      (process_exchanges texts "hash" 3_600_000_000 (replies ∷ unreachable ∷ []) empty).1
      (cycle texts
        (λ m. "{}")
        "hash"
        3_600_000_000
        90_000_000_000
        90_000_000_001
        (replies ∷ unreachable ∷ [])
        (empty, []))
cycle_returns_example =
    cycle_returns texts (λ m. "{}") "hash" 3_600_000_000 90_000_000_000 90_000_000_001
      (replies ∷ unreachable ∷ []) empty []

-- The trade of the first day, on that day and on the next.
abbrev closed_trades_of : ℕ → Option ℕ
closed_trades_of start =
    elim (daily_activity protocol start (record empty { trades = closed ∷ [] })) [
      | err e ↦ none
      | ok a ↦ some a.closed_trades
    ]

daily : (closed_trades_of 0 ≡ some 1) × (closed_trades_of 86_400_000_000 ≡ some 0)
unfolding evaluation daily_activity count_by_decision shadow_metrics winning losing profit_factor
    max_drawdown drawdown_from open_trades trade_of
daily = (refl, refl)
