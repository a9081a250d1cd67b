-- ===== src/Shadow/Orders.antt =====
-- The paper orders of `ProspectiveShadowEngine` in app/shadow/engine.py: what an action of the
-- strategy becomes.
pub mod Sound
use syn_antona.Shadow.Exits.{closing_of, exit_reason, exit_side}
use syn_antona.Shadow.Market.{
  CostProfile, InstrumentConstraints, LiveMarketSnapshot, adverse, impact_per_leg, midpoint,
  snapshot_spread, snapshot_spread_pct, spot_profile,
}
use Prim.Native.String.{◌++◌ as ◌+s◌}
use syn_antona.Prelude.{
  ℕ, suc, ltb, leb, ◌+◌, ◌*◌, ◌/◌, String, Bool, true, false, not, ◌&&◌, ◌||◌, Option, none, some,
  List, [], ◌∷◌, ◌++◌, map, filter, if◌then◌else◌,
}
use syn_antona.Prelude.Keys.{Key, text_key, ◌==◌}
use syn_antona.Prelude.Errors.{Error, Result, ok, err, ◌>>=◌, ◌>>◌, raise_if}
use syn_antona.Decimal.{
  Decimal, down, dec, zero_d, one_d, is_zero, ◌+D◌, ◌-D◌, ◌*D◌, ◌/D◌, ◌≤D◌, ◌<D◌, abs_d, neg_d,
  sum_d, to_integral,
}
use syn_antona.Domain.{Side, is_long, TradeIntent, RiskDecision, RiskProfile, default_profile}
use syn_antona.Risk.Manager.{approve}
use syn_antona.Shadow.Records.{Candle, TradeStatus, Closing, ShadowTrade}
use syn_antona.Shadow.Watch.{same_id}
use syn_antona.Shadow.Repository.{Journal, hour}
use syn_antona.Shadow.Repository.Trades.{open_trade, closed_trades}
use syn_antona.Shadow.Metrics.{realized_pnl}

-- What the strategy answers for a candle.
pub record StrategyAction : Type 0 where
  pub side : Side
  pub stop_loss : Decimal
  pub take_profit : Decimal
  pub signal_score : ℕ
  pub volatility_pct : Decimal
  pub context_json : String

unfoldable pub floor_quantity : Decimal → Decimal → Result Decimal
floor_quantity quantity step =
    raise_if (step ≤D zero_d) (Error.value_error "Quantity step must be positive")
    >> (quantity /D step >>= (λ q. ok (to_integral q down *D step)))

abbrev pub protocol : String
protocol = "PHASE4I_PROSPECTIVE_LOCK"

-- The side of the book that an order of the direction takes, and what it pays after costs.
abbrev pub entry_top : LiveMarketSnapshot → Side → Decimal
entry_top s side = if is_long side then s.ask else s.bid

abbrev pub entry_price : LiveMarketSnapshot → Side → CostProfile → Decimal
entry_price s side p =
    entry_top s side *D (if is_long side then one_d +D adverse p else one_d -D adverse p)

-- The closed trades of the exchange and the symbol.
unfoldable pub selected : LiveMarketSnapshot → Journal → List ShadowTrade
selected s j =
    filter (λ t. (t.exchange == s.exchange) && (t.symbol == s.symbol)) (closed_trades protocol j)

abbrev pub closed_at : ShadowTrade → Option ℕ
closed_at t = elim t.closing [ none ↦ none | some c ↦ some c.closed_at ]

-- The day of a time.
abbrev pub day_of : ℕ → ℕ
day_of t = t / 86_400_000_000

abbrev pub is_closed_on : ℕ → ShadowTrade → Bool
is_closed_on day t = elim (closed_at t) [ none ↦ false | some at ↦ same_id (day_of at) day ]

abbrev pub is_loss : ShadowTrade → Bool
is_loss t = realized_pnl t <D zero_d

-- The loop over `reversed(selected)`: the losses since the last trade that was none, and the time of
-- the latest. The trades come in the order of time, so that a later one starts the count again when
-- it is no loss.
unfoldable pub losing_streak : ℕ → Option ℕ → List ShadowTrade → ℕ × Option ℕ
losing_streak n last [] = (n, last)
losing_streak n last (t ∷ ts) =
    losing_streak (if is_loss t then suc n else 0) (if is_loss t then closed_at t else none) ts

abbrev pub cooldown_time : ℕ
cooldown_time = default_profile.cooldown_minutes * 60_000_000

abbrev pub is_cooling : ℕ → Option ℕ → Bool
is_cooling now none = false
is_cooling now (some last) = ltb now (last + cooldown_time)

unfoldable pub intent_of :
    LiveMarketSnapshot
    → StrategyAction
    → String
    → Decimal
    → Decimal
    → List ShadowTrade
    → TradeIntent
intent_of s a decision_id entry spread_pct ts =
    let balance : Decimal = dec 1000 0 +D sum_d zero_d (map realized_pnl ts) in
    let streak : ℕ × Option ℕ = losing_streak 0 none ts in
    record {
      trade_id = decision_id;
      user_id = 0;
      symbol = s.symbol;
      side = a.side;
      entry = entry;
      stop_loss = a.stop_loss;
      take_profit = a.take_profit;
      equity = balance;
      daily_realized_pnl =
          sum_d zero_d (map realized_pnl (filter (is_closed_on (day_of s.received_at)) ts));
      open_positions = 0;
      consecutive_losses = streak.0;
      requested_leverage = one_d;
      available_balance = some balance;
      volatility_pct = a.volatility_pct;
      spread_pct = spread_pct;
      cooldown_active = is_cooling s.received_at streak.1;
    }

-- A trade, or the reason that there is none.
pub data OrderOutcome : Type 0 where
  refused : String → OrderOutcome
  ordered : ShadowTrade → OrderOutcome

unfoldable pub trade_of :
    LiveMarketSnapshot
    → StrategyAction
    → String
    → String
    → Candle
    → CostProfile
    → Decimal
    → Decimal
    → Decimal
    → ShadowTrade
trade_of s a decision_id strategy_hash candle p entry quantity mid =
    let entry_fee : Decimal = entry *D quantity *D p.taker_fee in
    record {
      id = "shadow-" +s decision_id;
      decision_id = decision_id;
      protocol_id = protocol;
      exchange = s.exchange;
      symbol = s.symbol;
      side = a.side;
      signal_timestamp = candle.timestamp + hour;
      decision_price = candle.close;
      entry_reference = mid;
      entry_price = entry;
      quantity = quantity;
      stop_loss = a.stop_loss;
      take_profit = a.take_profit;
      leverage = one_d;
      risk_amount = abs_d (entry -D a.stop_loss) *D quantity;
      expected_fees = entry_fee +D a.take_profit *D quantity *D p.taker_fee;
      entry_fee = entry_fee;
      observed_spread = snapshot_spread s;
      entry_spread_cost = abs_d (entry_top s a.side -D mid) *D quantity;
      entry_slippage_cost = abs_d (entry -D entry_top s a.side) *D quantity;
      strategy_hash = strategy_hash;
      status = TradeStatus.open_trade;
      opened_at = s.received_at;
      closing = none;
    }

-- What follows an approval: the quantity in whole steps, and the exchange's minimums.
unfoldable pub size_order :
    LiveMarketSnapshot
    → StrategyAction
    → String
    → String
    → Candle
    → CostProfile
    → Decimal
    → Decimal
    → Result OrderOutcome
size_order s a decision_id strategy_hash candle p entry approved =
    floor_quantity approved s.constraints.quantity_step >>= (λ quantity.
      if (quantity <D s.constraints.minimum_quantity)
        || (entry *D quantity <D s.constraints.minimum_notional)
      then ok (OrderOutcome.refused "Exchange minimum order/precision rejected shadow quantity")
      else midpoint s >>= (λ mid. ok (
          OrderOutcome.ordered
            (trade_of s a decision_id strategy_hash candle p entry quantity mid))))

unfoldable pub price_order :
    LiveMarketSnapshot → StrategyAction → String → String → Candle → Journal → Result OrderOutcome
price_order s a decision_id strategy_hash candle j = spot_profile s.exchange >>= (λ p.
    snapshot_spread_pct s >>= (λ spread_pct.
      approve (intent_of s a decision_id (entry_price s a.side p) spread_pct (selected s j))
        default_profile
      >>= (λ approval.
          if not approval.approved
          then ok (OrderOutcome.refused approval.reason)
          else size_order s a decision_id strategy_hash candle p (entry_price s a.side p)
              approval.quantity)))

-- `_shadow_order`
unfoldable pub shadow_order :
    LiveMarketSnapshot → StrategyAction → String → String → Candle → Journal → Result OrderOutcome
shadow_order s a decision_id strategy_hash candle j =
    elim (open_trade protocol s.exchange s.symbol j) [
      | some t ↦ ok (OrderOutcome.refused "Existing shadow position for exchange/asset")
      | none ↦ price_order s a decision_id strategy_hash candle j
    ]
