-- ===== src/Live/Preview/Budget.antt =====
-- The loss allowance of a day.
use syn_antona.Prelude.{◌≡◌, true, arith, ap, sym, ◌∙◌}
use syn_antona.Decimal.{Decimal, zero_d, ◌-D◌, ◌≤D◌, max_d}
use syn_antona.Decimal.Order.{max_d_bounds, ≤D_refl}
use syn_antona.Decimal.Sign.{neg_nonpos}
use syn_antona.Live.Profile.{ControlledLiveProfile, ControlledRiskSnapshot}
use syn_antona.Live.Preview.{realized_daily_loss, remaining_daily_risk_budget}

no_loss : (pnl : Decimal) → (zero_d ≤D pnl) ≡ true → realized_daily_loss pnl ≡ zero_d
unfolding realized_daily_loss max_d
no_loss pnl h = ground (arith, neg_nonpos pnl h)

-- What is left of the day's allowance after a profit of any size is what is left after none, and
-- the allowance is never negative.
pub profit_never_expands :
    (risk : ControlledRiskSnapshot) (profile : ControlledLiveProfile) (pnl : Decimal)
    → (zero_d ≤D pnl) ≡ true
    → (remaining_daily_risk_budget (record risk { daily_realized_pnl = pnl }) profile
        ≡ remaining_daily_risk_budget (record risk { daily_realized_pnl = zero_d }) profile)
      × ((zero_d ≤D remaining_daily_risk_budget risk profile) ≡ true)
unfolding remaining_daily_risk_budget
profit_never_expands risk profile pnl h = (
  ap
      (λ (loss : Decimal).
        max_d zero_d ((profile.daily_max_loss_usdt -D loss) -D risk.open_planned_risk))
      (no_loss pnl h ∙ sym (no_loss zero_d (≤D_refl zero_d))),
  (max_d_bounds zero_d _).0,
)
