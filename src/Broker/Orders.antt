-- ===== src/Broker/Orders.antt =====
-- The operations of `PaperBroker` that change it. The clock is the argument `now`.
use syn_antona.Prelude.{
  ℕ, String, true, false, not, Option, none, some, List, [], ◌∷◌, if◌then◌else◌,
}
use syn_antona.Prelude.Keys.{text_key}
use syn_antona.Prelude.Dict.{lookup, contains, insert, erase, values}
use syn_antona.Prelude.Errors.{Error, or_raise}
use syn_antona.Prelude.Actions.{Action, ◌>>=◌, ◌>>◌, return, reading, write, raise_when}
use syn_antona.Decimal.{
  Decimal, zero_d, ◌+D◌, ◌-D◌, ◌*D◌, ◌/D◌, ◌≤D◌, ◌<D◌, neg_d, abs_d, quantize, half_even,
}
use syn_antona.Domain.{is_long, RiskProfile, TradeIntent, RiskDecision, Position, ClosedPosition}
use syn_antona.Risk.Manager.{approve}
use syn_antona.Broker.Account.{PaperBroker, PaperAccount, was_executed, account, fill_price}

-- The intent with the account's own equity and balance.
abbrev pub complete_intent : TradeIntent → PaperAccount → TradeIntent
complete_intent intent current = record intent {
  equity = current.equity;
  available_balance = some current.available_balance;
}

abbrev pub new_position : TradeIntent → RiskDecision → Decimal → Decimal → ℕ → Position
new_position intent approval entry fee now = record {
  trade_id = intent.trade_id;
  user_id = intent.user_id;
  symbol = intent.symbol;
  side = intent.side;
  quantity = approval.quantity;
  entry_price = entry;
  stop_loss = intent.stop_loss;
  take_profit = intent.take_profit;
  leverage = intent.requested_leverage;
  entry_fee = fee;
  opened_at = now;
  initial_risk = abs_d (entry -D intent.stop_loss);
  break_even_enabled = true;
  trailing_distance = none;
  high_watermark = some entry;
  low_watermark = some entry;
  exchange = "paper";
  account_id = none;
  position_id = none;
  strategy_version = "unknown";
}

abbrev pub record_open : Position → PaperBroker → PaperBroker
record_open p b = record b {
  balance = b.balance -D p.entry_fee;
  positions = insert p.trade_id p b.positions;
  executed_trade_ids = p.trade_id ∷ b.executed_trade_ids;
  last_prices = insert p.symbol p.entry_price b.last_prices;
}

unfoldable pub open_market : TradeIntent → RiskProfile → ℕ → Action PaperBroker Position
open_market intent profile now = do
  raise_when (was_executed intent.trade_id) (Error.duplicate_trade intent.trade_id)
  current ← reading account
  approval ← reading (λ b. approve (complete_intent intent current) profile)
  raise_when (λ b. not approval.approved) (Error.permission_error approval.reason)
  entry ← reading (λ b. fill_price b intent.entry intent.side true)
  margin ← reading (λ b. (entry *D approval.quantity) /D intent.requested_leverage)
  fee ← reading (λ b. quantize ((entry *D approval.quantity) *D b.fee_rate) 2 half_even)
  raise_when (λ b. current.available_balance <D (margin +D fee))
      (Error.permission_error "Insufficient available balance for margin and commission")
  let position = new_position intent approval entry fee now
  write (record_open position)
  return position

unfoldable pub mark_price : String → Decimal → Action PaperBroker (Unit {0})
mark_price symbol price = do
  raise_when (λ b. price ≤D zero_d) (Error.value_error "Market price must be positive")
  write (λ b. record b { last_prices = insert symbol price b.last_prices })

abbrev pub record_close : Position → Decimal → Decimal → Decimal → PaperBroker → PaperBroker
record_close p exit_price gross_pnl exit_fee b = record b {
  balance = b.balance +D (gross_pnl -D exit_fee);
  last_prices = insert p.symbol exit_price b.last_prices;
}

-- The position is taken out first; an exception of the arithmetic after that leaves it out.
unfoldable pub close_market : String → Decimal → String → ℕ → Action PaperBroker ClosedPosition
close_market trade_id price reason now = do
  p ← reading (λ b. or_raise (lookup trade_id b.positions) (Error.key_error trade_id))
  write (λ b. record b { positions = erase trade_id b.positions })
  exit_price ← reading (λ b. fill_price b price p.side false)
  let long_pnl = (exit_price -D p.entry_price) *D p.quantity
  let gross_pnl = if is_long p.side then long_pnl else neg_d long_pnl
  exit_fee ← reading (λ b. quantize ((exit_price *D p.quantity) *D b.fee_rate) 2 half_even)
  write (record_close p exit_price gross_pnl exit_fee)
  return (record {
    position = p;
    exit_price = exit_price;
    exit_fee = exit_fee;
    realized_pnl = (gross_pnl -D p.entry_fee) -D exit_fee;
    reason = reason;
    closed_at = now;
  })

unfoldable pub replace_position : Position → Action PaperBroker (Unit {0})
replace_position p = do
  raise_when (λ b. not (contains p.trade_id b.positions)) (Error.key_error p.trade_id)
  write (λ b. record b { positions = insert p.trade_id p b.positions })

-- The comprehension of `close_all`, over the positions as they stood at the call.
unfoldable pub close_each :
    (String → Option Decimal)
    → String
    → ℕ
    → List Position
    → Action PaperBroker (List ClosedPosition)
close_each price_of reason now [] = return []
close_each price_of reason now (p ∷ ps) =
    let rest = close_each price_of reason now ps in
    do
      price ← reading (λ b. or_raise (price_of p.symbol) (Error.key_error p.symbol))
      closed ← close_market p.trade_id price reason now
      others ← rest
      return (closed ∷ others)

unfoldable pub close_all :
    (String → Option Decimal) → String → ℕ → Action PaperBroker (List ClosedPosition)
close_all price_of reason now b = close_each price_of reason now (values b.positions) b
