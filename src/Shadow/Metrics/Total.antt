-- ===== src/Shadow/Metrics/Total.antt =====
-- The metrics of any trades are defined: no divisor is zero.
use syn_antona.Prelude.{
  ◌*◌, true, List, [], ◌∷◌, length, map, filter, ◌≡◌, refl, arith, All, Bool-cases, inl, inr,
}
use syn_antona.Prelude.Errors.{ok, >>=-defined}
use syn_antona.Decimal.{Decimal, dec, zero_d, ◌<D◌, abs_d, sum_d}
use syn_antona.Decimal.Nonzero.{abs-nonzero, losses-negative, quotient-defined}
use syn_antona.Shadow.Records.{ShadowTrade}
use syn_antona.Shadow.Metrics.{
  winning, losing, realized_pnl, shadow_metrics, ShadowMetrics, per_trade, profit_factor,
  ProfitFactor,
}

losing-All : (pnls : List Decimal) → All (λ y. (y <D zero_d) ≡ true) (losing pnls)
unfolding losing
losing-All [] = tt
losing-All (v ∷ pnls) = elim (Bool-cases (v <D zero_d)) [
  | inl loss ↦ rw (loss, filter) (loss, losing-All pnls)
  | inr other ↦ rw (other, filter) (losing-All pnls)
]

per_trade-defined :
    (total : Decimal) (pnls : List Decimal) → (q : Decimal) × (per_trade total pnls ≡ ok q)
per_trade-defined total [] = (zero_d, refl)
per_trade-defined total (v ∷ pnls) =
    quotient-defined total (dec (length (v ∷ pnls)) 0) (omega arith)

profit_factor-defined :
    (wins losses : List Decimal)
    → All (λ y. (y <D zero_d) ≡ true) losses
    → (f : ProfitFactor) × (profit_factor wins losses ≡ ok f)
unfolding profit_factor
profit_factor-defined [] [] all = (ProfitFactor.finite zero_d, refl)
profit_factor-defined (w ∷ wins) [] all = (ProfitFactor.infinity, refl)
profit_factor-defined wins (l ∷ losses) all =
    >>=-defined _ _
      (quotient-defined (sum_d zero_d wins) (abs_d (sum_d zero_d (l ∷ losses)))
        (abs-nonzero _ (losses-negative l losses all)))
      (λ q. (ProfitFactor.finite q, refl))

pub metrics-defined : (ts : List ShadowTrade) → (m : ShadowMetrics) × (shadow_metrics ts ≡ ok m)
unfolding shadow_metrics
metrics-defined ts =
    let pnls : List Decimal = map realized_pnl ts in
    >>=-defined _ _ (per_trade-defined (dec (length (winning pnls) * 100) 0) pnls) (λ win_rate.
      >>=-defined _ _ (profit_factor-defined (winning pnls) (losing pnls) (losing-All pnls))
        (λ net_pf.
          >>=-defined _ _ (per_trade-defined (sum_d zero_d pnls) pnls) (λ expectancy. (_, refl))))
