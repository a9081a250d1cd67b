-- ===== src/Shadow/Exits.antt =====
-- When and how `_track_position` of app/shadow/engine.py closes a position.
use syn_antona.Shadow.Market.{CostProfile, LiveMarketSnapshot, adverse}
use syn_antona.Prelude.{String, Option, none, some, if◌then◌else◌}
use syn_antona.Prelude.Keys.{text_key}
use syn_antona.Decimal.{Decimal, one_d, ◌+D◌, ◌-D◌, ◌*D◌, ◌≤D◌, abs_d, neg_d}
use syn_antona.Domain.{Side, is_long}
use syn_antona.Shadow.Records.{Closing, ShadowTrade}

-- The price at which a position of the direction can be closed.
abbrev pub exit_side : LiveMarketSnapshot → Side → Decimal
exit_side s side = if is_long side then s.bid else s.ask

unfoldable pub exit_reason : ShadowTrade → Decimal → Option String
exit_reason t reference =
    if is_long t.side
    then if reference ≤D t.stop_loss
      then some "STOP_LOSS"
      else if t.take_profit ≤D reference
      then some "TAKE_PROFIT"
      else none
    else if t.stop_loss ≤D reference
    then some "STOP_LOSS"
    else if reference ≤D t.take_profit
    then some "TAKE_PROFIT"
    else none

-- The values of `_track_position`, for a position that is closed for the reason.
unfoldable pub closing_of :
    LiveMarketSnapshot → ShadowTrade → String → CostProfile → Decimal → Closing
closing_of s t reason p mid =
    let reference : Decimal = exit_side s t.side in
    let price : Decimal =
      reference *D (if is_long t.side then one_d -D adverse p else one_d +D adverse p) in
    let gross : Decimal =
      (mid -D t.entry_reference) *D t.quantity *D (if is_long t.side then one_d else neg_d one_d) in
    let exit_fee : Decimal = price *D t.quantity *D p.taker_fee in
    let exit_spread : Decimal = abs_d (reference -D mid) *D t.quantity in
    let exit_slippage : Decimal = abs_d (price -D reference) *D t.quantity in
    record {
      exit_reference = mid;
      exit_price = price;
      exit_reason = reason;
      exit_fee = exit_fee;
      exit_spread_cost = exit_spread;
      exit_slippage_cost = exit_slippage;
      gross_pnl = gross;
      realized_pnl =
          gross
          -D (t.entry_fee +D exit_fee)
          -D (t.entry_spread_cost +D exit_spread)
          -D (t.entry_slippage_cost +D exit_slippage);
      closed_at = s.received_at;
    }
