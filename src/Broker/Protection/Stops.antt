-- ===== src/Broker/Protection/Stops.antt =====
-- Protective exits, and stops that only tighten.
use syn_antona.Prelude.{◌≡◌, refl, true, false, Option, none, some, arith, String}
use syn_antona.Decimal.{Decimal, ◌≤D◌, ◌-D◌, ◌+D◌}
use syn_antona.Decimal.Order.{max_d_bounds, min_d_bounds, ≤D_refl, ≤D_trans}
use syn_antona.Domain.{Side, Position}
use syn_antona.Broker.Protection.{
  stop_hit, target_hit, resolve_candle_exit, break_even_stop, trailing_stop, advanced,
}

-- `tighter` is no farther from the market than `stop`.
abbrev pub IsNoLooser : Side → Decimal → Decimal → Type 0
IsNoLooser Side.long stop tighter = (stop ≤D tighter) ≡ true
IsNoLooser Side.short stop tighter = (tighter ≤D stop) ≡ true

IsNoLooser-trans :
    (s : Side) (a b c : Decimal) → IsNoLooser s a b → IsNoLooser s b c → IsNoLooser s a c
IsNoLooser-trans Side.long a b c h g = ≤D_trans a b c h g
IsNoLooser-trans Side.short a b c h g = ≤D_trans c b a g h

break_even-IsNoLooser :
    (p : Position) (price : Decimal) → IsNoLooser p.side p.stop_loss (break_even_stop p price)
unfolding break_even_stop
break_even-IsNoLooser p price = ground (
  arith,
  ≤D_refl p.stop_loss,
  max_d_bounds p.stop_loss p.entry_price,
  min_d_bounds p.stop_loss p.entry_price,
)

trailing-IsNoLooser :
    (p : Position) (high low stop : Decimal)
    → IsNoLooser p.side stop (trailing_stop p high low stop)
unfolding trailing_stop
trailing-IsNoLooser p high low stop = go p.trailing_distance refl
  where
    go :
        (distance : Option Decimal)
        → p.trailing_distance ≡ distance
        → IsNoLooser p.side stop (trailing_stop p high low stop)
    go none e = ground (arith, ≤D_refl stop)
    go (some d) e =
        ground (arith, ≤D_refl stop, max_d_bounds stop (high -D d), min_d_bounds stop (low +D d))

-- `price` has gone one risk unit of the position in its favour.
abbrev pub HasReachedR : Side → Position → Decimal → Type 0
HasReachedR Side.long p price = ((p.entry_price +D p.initial_risk) ≤D price) ≡ true
HasReachedR Side.short p price = (price ≤D (p.entry_price -D p.initial_risk)) ≡ true

break_even_reached :
    (p : Position) (price : Decimal)
    → p.break_even_enabled ≡ true
    → HasReachedR p.side p price
    → IsNoLooser p.side p.entry_price (break_even_stop p price)
unfolding break_even_stop
break_even_reached p price enabled reached =
    ground (arith, max_d_bounds p.stop_loss p.entry_price, min_d_bounds p.stop_loss p.entry_price)

-- A price that closes nothing never moves the stop away from the market; once it has gone one
-- risk unit in favour of a position with break-even, the stop is no looser than the entry.
pub advanced_stop :
    (p : Position) (price : Decimal)
    → IsNoLooser p.side p.stop_loss (advanced p price).stop_loss
      × (p.break_even_enabled ≡ true
          → HasReachedR p.side p price
          → IsNoLooser p.side p.entry_price (advanced p price).stop_loss)
unfolding advanced
advanced_stop p price =
    let trailed = trailing-IsNoLooser p _ _ (break_even_stop p price) in
    (
      IsNoLooser-trans p.side p.stop_loss (break_even_stop p price) _
          (break_even-IsNoLooser p price) trailed,
      λ enabled reached.
          IsNoLooser-trans p.side p.entry_price (break_even_stop p price) _
            (break_even_reached p price enabled reached) trailed,
    )

-- The exit that the candle with these extremes gives a position.
abbrev pub candle_exit : Position → Decimal → Decimal → Option (Decimal × String)
candle_exit p high low = resolve_candle_exit p.side p.stop_loss p.take_profit high low

module _ (p : Position) (high low price : Decimal) where
  -- If any price of the candle hits the stop, the candle closes at the stop, also where another
  -- price of it hits the target; if none of them closes the position, the candle does not.
  pub candle_stop_first :
      (low ≤D price) ≡ true
      → (price ≤D high) ≡ true
      → (stop_hit p price ≡ true → candle_exit p high low ≡ some (p.stop_loss, "STOP_LOSS"))
        × (candle_exit p high low ≡ none
            → (stop_hit p price ≡ false) × (target_hit p price ≡ false))
  unfolding resolve_candle_exit stop_hit target_hit
  candle_stop_first below above = (
    ground (arith, ≤D_trans low price p.stop_loss, ≤D_trans p.stop_loss price high),
    λ quiet. ground (
      arith,
      ≤D_trans low price p.stop_loss,
      ≤D_trans p.stop_loss price high,
      ≤D_trans p.take_profit price high,
      ≤D_trans low price p.take_profit,
    ),
  )
