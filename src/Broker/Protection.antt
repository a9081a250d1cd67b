-- ===== src/Broker/Protection.antt =====
-- `PositionManager` of app/trading/positions.py: protective exits, break-even and trailing stops.
pub mod Stops
mod Rounds
pub mod Sweep
mod Tests
use syn_antona.Prelude.{
  ℕ, String, Bool, true, false, not, Option, none, some, List, [], ◌∷◌, if◌then◌else◌, ◌&&◌,
}
use syn_antona.Prelude.Keys.{◌==◌, text_key}
use syn_antona.Prelude.Dict.{values}
use syn_antona.Prelude.Actions.{Action, ◌>>=◌, ◌>>◌, return}
use syn_antona.Decimal.{Decimal, ◌+D◌, ◌-D◌, ◌≤D◌, ◌<D◌, max_d, min_d, is_zero}
use syn_antona.Domain.{Side, is_long, Position, ClosedPosition}
use syn_antona.Broker.Account.{PaperBroker}
use syn_antona.Broker.Orders.{mark_price, close_market, replace_position}

unfoldable pub stop_hit : Position → Decimal → Bool
stop_hit p price = if is_long p.side then price ≤D p.stop_loss else p.stop_loss ≤D price

unfoldable pub target_hit : Position → Decimal → Bool
target_hit p price = if is_long p.side then p.take_profit ≤D price else price ≤D p.take_profit

-- Stop and target of one candle: the stop comes first.
unfoldable pub resolve_candle_exit :
    Side → Decimal → Decimal → Decimal → Decimal → Option (Decimal × String)
resolve_candle_exit side stop_loss take_profit high low =
    let stop = if is_long side then low ≤D stop_loss else stop_loss ≤D high in
    let target = if is_long side then take_profit ≤D high else low ≤D take_profit in
    if stop
    then some (stop_loss, "STOP_LOSS")
    else if target
    then some (take_profit, "TAKE_PROFIT")
    else none

-- `watermark or price`: a missing or zero watermark gives way.
abbrev pub or_else : Option Decimal → Decimal → Decimal
or_else none d = d
or_else (some x) d = if is_zero x then d else x

-- Break-even: the stop once the price has gone one risk unit in favour.
unfoldable pub break_even_stop : Position → Decimal → Decimal
break_even_stop p price =
    let reached =
      if is_long p.side
      then (p.entry_price +D p.initial_risk) ≤D price
      else price ≤D (p.entry_price -D p.initial_risk) in
    if p.break_even_enabled && reached
    then (if is_long p.side
        then max_d p.stop_loss p.entry_price
        else min_d p.stop_loss p.entry_price)
    else p.stop_loss

-- A distance that is missing or zero does not trail.
unfoldable pub trailing_stop : Position → Decimal → Decimal → Decimal → Decimal
trailing_stop p high low stop = elim p.trailing_distance [
  | none ↦ stop
  | some d ↦
      if is_zero d
      then stop
      else if is_long p.side
      then max_d stop (high -D d)
      else min_d stop (low +D d)
]

-- The position that `_advance_protection` writes back.
unfoldable pub advanced : Position → Decimal → Position
advanced p price =
    let high = max_d (or_else p.high_watermark p.entry_price) price in
    let low = min_d (or_else p.low_watermark p.entry_price) price in
    record p {
      high_watermark = some high;
      low_watermark = some low;
      stop_loss = trailing_stop p high low (break_even_stop p price);
    }

unfoldable pub on_position :
    String → Decimal → ℕ → Position → Action PaperBroker (Option ClosedPosition)
on_position symbol price now p =
    if not (p.symbol == symbol)
    then return none
    else if stop_hit p price
    then (do closed ← close_market p.trade_id p.stop_loss "STOP_LOSS" now; return (some closed))
    else if target_hit p price
    then (do closed ← close_market p.trade_id p.take_profit "TAKE_PROFIT" now; return (some closed))
    else (do replace_position (advanced p price); return none)

abbrev pub prepend {ℓ} : {A : Type ℓ} → Option A → List A → List A
prepend none xs = xs
prepend (some x) xs = x ∷ xs

-- The loop of `on_price`, over the positions as they stood at the call.
unfoldable pub on_each :
    String → Decimal → ℕ → List Position → Action PaperBroker (List ClosedPosition)
on_each symbol price now [] = return []
on_each symbol price now (p ∷ ps) =
    let rest = on_each symbol price now ps in
    do closed ← on_position symbol price now p; others ← rest; return (prepend closed others)

abbrev pub on_all : String → Decimal → ℕ → Action PaperBroker (List ClosedPosition)
on_all symbol price now b = on_each symbol price now (values b.positions) b

unfoldable pub on_price : String → Decimal → ℕ → Action PaperBroker (List ClosedPosition)
on_price symbol price now = do mark_price symbol price; on_all symbol price now
