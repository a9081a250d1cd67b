-- ===== src/Shadow/Metrics.antt =====
-- `shadow_metrics` of app/shadow/repository.py: what a list of closed trades came to.
pub mod Drawdown
pub mod Total
use syn_antona.Prelude.{
  ℕ, String, Bool, true, false, not, Option, none, some, List, [], ◌∷◌, length, map, filter,
  if◌then◌else◌, ◌*◌,
}
use syn_antona.Prelude.Errors.{Result, ok, err, ◌>>=◌}
use syn_antona.Decimal.{Decimal, dec, zero_d, ◌+D◌, ◌-D◌, ◌/D◌, ◌<D◌, max_d, abs_d, sum_d}
use syn_antona.Shadow.Records.{ShadowTrade, Closing}

-- The columns of a trade that is not closed are zero, and its realised result too.
abbrev pub realized_pnl : ShadowTrade → Decimal
realized_pnl t = elim t.closing [ none ↦ zero_d | some c ↦ c.realized_pnl ]

abbrev pub gross_pnl : ShadowTrade → Decimal
gross_pnl t = elim t.closing [ none ↦ zero_d | some c ↦ c.gross_pnl ]

abbrev pub trade_fees : ShadowTrade → Decimal
trade_fees t = elim t.closing [ none ↦ t.entry_fee +D zero_d | some c ↦ t.entry_fee +D c.exit_fee ]

abbrev pub trade_spread_cost : ShadowTrade → Decimal
trade_spread_cost t = elim t.closing [
  | none ↦ t.entry_spread_cost +D zero_d
  | some c ↦ t.entry_spread_cost +D c.exit_spread_cost
]

abbrev pub trade_slippage : ShadowTrade → Decimal
trade_slippage t = elim t.closing [
  | none ↦ t.entry_slippage_cost +D zero_d
  | some c ↦ t.entry_slippage_cost +D c.exit_slippage_cost
]

-- Decimal("Infinity") stands for the profit factor of wins without losses.
pub data ProfitFactor : Type 0 where
  finite : Decimal → ProfitFactor
  infinity : ProfitFactor

pub record ShadowMetrics : Type 0 where
  pub trades : ℕ
  pub wins : ℕ
  pub losses : ℕ
  pub win_rate : Decimal
  pub gross_pnl : Decimal
  pub fees : Decimal
  pub spread_cost : Decimal
  pub slippage : Decimal
  pub net_pnl : Decimal
  pub net_pf : ProfitFactor
  pub expectancy : Decimal
  pub max_drawdown : Decimal

-- The loop over the results: the peak, the equity and the drawdown so far.
unfoldable pub drawdown_from : Decimal → Decimal → Decimal → List Decimal → Decimal
drawdown_from peak equity deepest [] = deepest
drawdown_from peak equity deepest (value ∷ pnls) =
    let equity' : Decimal = equity +D value in
    let peak' : Decimal = max_d peak equity' in
    drawdown_from peak' equity' (max_d deepest (peak' -D equity')) pnls

unfoldable pub max_drawdown : List Decimal → Decimal
max_drawdown pnls = drawdown_from (dec 1000 0) (dec 1000 0) zero_d pnls

-- A quotient by the number of trades, and zero when there are none.
abbrev pub per_trade : Decimal → List Decimal → Result Decimal
per_trade total [] = ok zero_d
per_trade total (v ∷ pnls) = total /D dec (length (v ∷ pnls)) 0

unfoldable pub profit_factor : List Decimal → List Decimal → Result ProfitFactor
profit_factor [] [] = ok (ProfitFactor.finite zero_d)
profit_factor (w ∷ wins) [] = ok ProfitFactor.infinity
profit_factor wins (l ∷ losses) =
    sum_d zero_d wins /D abs_d (sum_d zero_d (l ∷ losses)) >>= (λ q. ok (ProfitFactor.finite q))

unfoldable pub winning : List Decimal → List Decimal
winning = filter (λ v. zero_d <D v)

unfoldable pub losing : List Decimal → List Decimal
losing = filter (λ v. v <D zero_d)

unfoldable pub shadow_metrics : List ShadowTrade → Result ShadowMetrics
shadow_metrics ts =
    let pnls : List Decimal = map realized_pnl ts in
    let net : Decimal = sum_d zero_d pnls in
    per_trade (dec (length (winning pnls) * 100) 0) pnls >>= (λ win_rate.
      profit_factor (winning pnls) (losing pnls) >>= (λ net_pf.
        per_trade net pnls >>= (λ expectancy. ok (record {
          trades = length ts;
          wins = length (winning pnls);
          losses = length (losing pnls);
          win_rate = win_rate;
          gross_pnl = sum_d zero_d (map gross_pnl ts);
          fees = sum_d zero_d (map trade_fees ts);
          spread_cost = sum_d zero_d (map trade_spread_cost ts);
          slippage = sum_d zero_d (map trade_slippage ts);
          net_pnl = net;
          net_pf = net_pf;
          expectancy = expectancy;
          max_drawdown = max_drawdown pnls;
        }))))
