-- ===== src/Shadow/Metrics/Drawdown.antt =====
-- The largest drop of the equity.
use syn_antona.Prelude.{◌+◌, ◌*◌, ◌≤◌, true, List, [], ◌∷◌, ◌++◌, length, map, ◌≡◌, refl, arith}
use syn_antona.Prelude.Errors.{Result, ok, err}
use syn_antona.Decimal.{Decimal, dec, zero_d, ◌+D◌, ◌-D◌, ◌≤D◌, max_d, sum_d}
use syn_antona.Decimal.Order.{≤D_refl, ≤D_trans, <D→≤D, max_d_bounds}
use syn_antona.Shadow.Records.{ShadowTrade}
use syn_antona.Shadow.Metrics.{
  drawdown_from, max_drawdown, winning, losing, realized_pnl, shadow_metrics, ShadowMetrics,
  per_trade, profit_factor, ProfitFactor,
}

-- The equity after some of the results.
abbrev pub equity_after : Decimal → List Decimal → Decimal
equity_after equity [] = equity
equity_after equity (v ∷ pnls) = equity_after (equity +D v) pnls

-- The highest equity so far.
abbrev pub peak_after : Decimal → Decimal → List Decimal → Decimal
peak_after peak equity [] = peak
peak_after peak equity (v ∷ pnls) = peak_after (max_d peak (equity +D v)) (equity +D v) pnls

drawdown_from-kept :
    (peak equity deepest : Decimal) (pnls : List Decimal)
    → (deepest ≤D drawdown_from peak equity deepest pnls) ≡ true
unfolding drawdown_from
drawdown_from-kept peak equity deepest [] = ≤D_refl deepest
drawdown_from-kept peak equity deepest (v ∷ pnls) =
    let equity' : Decimal = equity +D v in
    let peak' : Decimal = max_d peak equity' in
    ≤D_trans deepest (max_d deepest (peak' -D equity')) _
      (max_d_bounds deepest (peak' -D equity')).0
      (drawdown_from-kept peak' equity' (max_d deepest (peak' -D equity')) pnls)

-- Once some results are in, the rest starts from the peak and the equity that they lead to.
drawdown-drop :
    (peak equity deepest : Decimal) (first : List Decimal) (v : Decimal) (rest : List Decimal)
    → ((peak_after peak equity (first ++ v ∷ []) -D equity_after equity (first ++ v ∷ []))
        ≤D drawdown_from peak equity deepest (first ++ v ∷ rest))
      ≡ true
unfolding drawdown_from
drawdown-drop peak equity deepest [] v rest =
    let equity' : Decimal = equity +D v in
    let peak' : Decimal = max_d peak equity' in
    ≤D_trans (peak' -D equity') (max_d deepest (peak' -D equity')) _
      (max_d_bounds deepest (peak' -D equity')).1
      (drawdown_from-kept peak' equity' (max_d deepest (peak' -D equity')) rest)
drawdown-drop peak equity deepest (x ∷ first) v rest =
    let equity' : Decimal = equity +D x in
    let peak' : Decimal = max_d peak equity' in
    drawdown-drop peak' equity' (max_d deepest (peak' -D equity')) first v rest

-- A value is not both above and below zero.
counts-le : (pnls : List Decimal) → length (winning pnls) + length (losing pnls) ≤ length pnls
unfolding winning losing
counts-le [] = ground arith
counts-le (v ∷ pnls) =
    let rest = counts-le pnls in let apart = <D→≤D zero_d v in ground (arith, rest, apart)

length-map : (ts : List ShadowTrade) → length (map realized_pnl ts) ≡ length ts
length-map [] = refl
length-map (t ∷ ts) = let rest = length-map ts in ground (arith, rest)

metrics-fields :
    (ts : List ShadowTrade) {m : ShadowMetrics}
    → shadow_metrics ts ≡ ok m
    → (m.trades ≡ length ts)
      × (m.wins ≡ length (winning (map realized_pnl ts)))
      × (m.losses ≡ length (losing (map realized_pnl ts)))
      × (m.max_drawdown ≡ max_drawdown (map realized_pnl ts))
unfolding shadow_metrics
metrics-fields ts {m} h =
    go (per_trade (dec (length (winning (map realized_pnl ts)) * 100) 0) (map realized_pnl ts))
      (profit_factor (winning (map realized_pnl ts)) (losing (map realized_pnl ts)))
      (per_trade (sum_d zero_d (map realized_pnl ts)) (map realized_pnl ts)) refl refl refl
  where
    go :
        (rate : Result Decimal) (pf : Result ProfitFactor) (each : Result Decimal)
        → per_trade (dec (length (winning (map realized_pnl ts)) * 100) 0) (map realized_pnl ts)
          ≡ rate
        → profit_factor (winning (map realized_pnl ts)) (losing (map realized_pnl ts)) ≡ pf
        → per_trade (sum_d zero_d (map realized_pnl ts)) (map realized_pnl ts) ≡ each
        → (m.trades ≡ length ts)
          × (m.wins ≡ length (winning (map realized_pnl ts)))
          × (m.losses ≡ length (losing (map realized_pnl ts)))
          × (m.max_drawdown ≡ max_drawdown (map realized_pnl ts))
    go (ok rate) (ok pf) (ok each) e f g = (
      ground (arith, h, e, f, g),
      ground (arith, h, e, f, g),
      ground (arith, h, e, f, g),
      ground (arith, h, e, f, g),
    )
    go (err x) pf each e f g = ground (arith, h, e)
    go (ok rate) (err x) each e f g = ground (arith, h, e, f)
    go (ok rate) (ok pf) (err x) e f g = ground (arith, h, e, f, g)

-- In the metrics of closed trades, wins and losses together are no more than the trades, the
-- drawdown is not below zero, and after any trade the equity is no further below its peak so far
-- than the drawdown.
pub metrics_bounds :
    (ts : List ShadowTrade) (first rest : List Decimal) (v : Decimal) {m : ShadowMetrics}
    → shadow_metrics ts ≡ ok m
    → map realized_pnl ts ≡ first ++ v ∷ rest
    → (m.wins + m.losses ≤ m.trades)
      × ((zero_d ≤D m.max_drawdown) ≡ true)
      × (((peak_after (dec 1000 0) (dec 1000 0) (first ++ v ∷ [])
              -D equity_after (dec 1000 0) (first ++ v ∷ []))
            ≤D m.max_drawdown)
          ≡ true)
unfolding max_drawdown
metrics_bounds ts first rest v h split =
    let (trades, wins, losses, deepest) = metrics-fields ts h in
    let counts = counts-le (map realized_pnl ts) in
    let size = length-map ts in
    (
      omega (arith, trades, wins, losses, counts, size),
      rw deepest (drawdown_from-kept (dec 1000 0) (dec 1000 0) zero_d (map realized_pnl ts)),
      rw deepest (rw split (drawdown-drop (dec 1000 0) (dec 1000 0) zero_d first v rest)),
    )
