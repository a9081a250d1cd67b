-- ===== src/Protector/Costs.antt =====
-- Profit and costs of a position: the functions of app/trading/profit_protector.py before `atr`, and
-- the stops that they lead to. `D(...)` and the reading of exchange rows are left out.
use syn_antona.Prelude.{ℕ, String, Bool, if◌then◌else◌}
use syn_antona.Prelude.Keys.{◌==◌, text_key}
use syn_antona.Prelude.Errors.{Result, ok, ◌>>=◌}
use syn_antona.Decimal.{
  Decimal, zero_d, one_d, floor, ceiling, ◌+D◌, ◌-D◌, ◌*D◌, ◌/D◌, ◌≤D◌, ◌<D◌, neg_d, abs_d,
  to_integral,
}

-- Times are microseconds since the epoch.
pub record PositionSnapshot : Type 0 where
  pub symbol : String
  pub side : String
  pub quantity : Decimal
  pub entry_price : Decimal
  pub stop_loss : Decimal
  pub take_profit : Decimal
  pub position_idx : ℕ
  pub opened_at : ℕ
  pub entry_client_order_id : String
  pub entry_fee_usdt : Decimal
  pub taker_fee_rate : Decimal
  pub tick_size : Decimal

-- `side == "Buy"`: every other side is treated as a sale.
abbrev pub is_long : String → Bool
is_long side = side == "Buy"

unfoldable pub pnl_before_costs : String → Decimal → Decimal → Decimal → Decimal
pnl_before_costs side entry exit_price quantity =
    ((exit_price -D entry) *D quantity) *D (if is_long side then one_d else neg_d one_d)

unfoldable pub estimated_close_cost : Decimal → Decimal → Decimal → Decimal → Decimal
estimated_close_cost exit_price quantity taker_fee_rate slippage_per_leg =
    (exit_price *D quantity) *D (taker_fee_rate +D slippage_per_leg)

-- `net_pnl` of a position, whose arguments the caller reads off it.
unfoldable pub net_pnl : PositionSnapshot → Decimal → Decimal → Decimal
net_pnl p executable_exit slippage_per_leg =
    (pnl_before_costs p.side p.entry_price executable_exit p.quantity -D p.entry_fee_usdt)
    -D estimated_close_cost executable_exit p.quantity p.taker_fee_rate slippage_per_leg

unfoldable pub initial_risk_usdt : PositionSnapshot → Decimal → Decimal
initial_risk_usdt p slippage_per_leg =
    ((abs_d (p.entry_price -D p.stop_loss) *D p.quantity) +D p.entry_fee_usdt)
    +D estimated_close_cost p.stop_loss p.quantity p.taker_fee_rate slippage_per_leg

unfoldable pub round_protective : Decimal → Decimal → String → Result Decimal
round_protective value tick side = if tick ≤D zero_d then ok value else do
  ticks ← value /D tick
  ok (to_integral ticks (if is_long side then floor else ceiling) *D tick)

unfoldable pub tightens : String → Decimal → Decimal → Bool
tightens side proposed confirmed =
    if is_long side then confirmed <D proposed else proposed <D confirmed

-- The price before it is rounded to the tick.
unfoldable pub raw_stop : PositionSnapshot → Decimal → Decimal → Result Decimal
raw_stop p desired_profit slippage_per_leg =
    let q = p.quantity in
    let rate = p.taker_fee_rate +D slippage_per_leg in
    if is_long p.side
    then ((desired_profit +D p.entry_fee_usdt) +D q *D p.entry_price) /D (q *D (one_d -D rate))
    else ((q *D p.entry_price -D desired_profit) -D p.entry_fee_usdt) /D (q *D (one_d +D rate))

unfoldable pub stop_for_net_profit : PositionSnapshot → Decimal → Decimal → Result Decimal
stop_for_net_profit p desired_profit slippage_per_leg = do
  raw ← raw_stop p desired_profit slippage_per_leg
  round_protective raw p.tick_size p.side
