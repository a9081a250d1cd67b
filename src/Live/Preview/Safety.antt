-- ===== src/Live/Preview/Safety.antt =====
-- What an executable preview guarantees.
use syn_antona.Prelude.{
  ℕ, String, ◌<◌, ◌≡◌, refl, Bool, true, false, Option, none, some, arith, inl, inr, Bool-cases,
}
use syn_antona.Prelude.Errors.{Result, ok, err, ◌>>=◌, >>=-ok, ok_injective}
use syn_antona.Decimal.{Decimal, zero_d, ◌+D◌, ◌≤D◌, ◌<D◌, min_d}
use syn_antona.Decimal.Order.{min_d_bounds, ≤D_trans}
use syn_antona.Exchange.{InstrumentRules}
use syn_antona.Live.Profile.{
  ControlledLiveProfile, FirstInstrumentSelection, ControlledRiskSnapshot, ManualOrderInputs,
  Reason, ManualExecutionPreview,
}
use syn_antona.Live.Preview.{
  realized_daily_loss, remaining_daily_risk_budget, per_unit_risk, per_unit_reward, experiment_lost,
  is_cooling, risk_rejection, early_reason, Sizing, per_trade_cap, risk_budget, notional_cap,
  is_unaffordable, sizing_reason, size_and_reason, size_order, preview_of, build_manual_preview,
  reward_ratio,
}

-- The account may take the trade.
pub record MayTrade (inputs : ManualOrderInputs) (risk : ControlledRiskSnapshot)
    (rules : InstrumentRules) (profile : ControlledLiveProfile) (now : ℕ) (ratio : Decimal)
    : Type 0 where
  pub equity_positive : (zero_d <D risk.equity) ≡ true
  pub price_positive : (zero_d <D inputs.reference_price) ≡ true
  pub no_trailing : profile.trailing_stop ≡ false
  pub positions : risk.open_positions < profile.max_positions
  pub open_risk : (zero_d ≤D risk.open_planned_risk) ≡ true
  pub budget_left : (zero_d <D remaining_daily_risk_budget risk profile) ≡ true
  pub experiment :
      experiment_lost risk.experiment_start_equity risk.equity profile.total_experiment_loss_limit
      ≡ false
  pub losses : risk.consecutive_losses < profile.max_consecutive_losses
  pub cooled : is_cooling risk.cooldown_until now ≡ false
  pub reward : (profile.minimum_risk_reward ≤D ratio) ≡ true
  pub leverage : (profile.leverage ≤D rules.maximum_leverage) ≡ true
  pub stop_side : (zero_d <D per_unit_risk inputs) ≡ true
  pub target_side : (zero_d <D per_unit_reward inputs) ≡ true

-- The order that is sized fits the instrument, the caps, the day and the balance.
pub record Fits (risk : ControlledRiskSnapshot) (rules : InstrumentRules)
    (profile : ControlledLiveProfile) (instrument : FirstInstrumentSelection) (s : Sizing)
    : Type 0 where
  pub quantity_least : (rules.minimum_quantity ≤D s.quantity) ≡ true
  pub notional_least : (rules.minimum_notional ≤D s.expected_notional) ≡ true
  pub first_cap : (s.expected_notional ≤D instrument.first_order_notional_cap) ≡ true
  pub profile_cap : (s.expected_notional ≤D profile.max_position_notional) ≡ true
  pub loss_per_trade : (s.maximum_loss ≤D per_trade_cap risk profile) ≡ true
  pub loss_left_today : (s.maximum_loss ≤D remaining_daily_risk_budget risk profile) ≡ true
  pub loss_of_day :
      (((realized_daily_loss risk.daily_realized_pnl +D risk.open_planned_risk) +D s.maximum_loss)
        ≤D profile.daily_max_loss_usdt)
      ≡ true
  pub affordable : is_unaffordable s risk profile ≡ ok false

-- A block that ends with no reason has sized the order and found none.
sized_accepted :
    (q : Result Sizing) (reason_of : Sizing → Result (Option Reason)) (s : Sizing)
    → (q >>= λ t. reason_of t >>= λ r. let pair : Sizing × Option Reason = (t, r) in ok pair)
      ≡ ok (s, none)
    → (q ≡ ok s) × (reason_of s ≡ ok none)
sized_accepted (err e) reason_of s h = ground arith
sized_accepted (ok t) reason_of s h = ground arith

module _ (inputs : ManualOrderInputs) (risk : ControlledRiskSnapshot) (rules : InstrumentRules)
    (profile : ControlledLiveProfile) (instrument : FirstInstrumentSelection) where
  early_reason-MayTrade :
      (now : ℕ) (ratio : Decimal)
      → early_reason inputs risk rules profile now ratio ≡ none
      → MayTrade inputs risk rules profile now ratio
  unfolding early_reason risk_rejection
  early_reason-MayTrade now ratio h = ground arith

  sizing_reason-Fits :
      (s : Sizing) (u : Result Bool)
      → is_unaffordable s risk profile ≡ u
      → sizing_reason risk rules profile instrument s ≡ ok none
      → Fits risk rules profile instrument s
  unfolding sizing_reason risk_budget notional_cap
  sizing_reason-Fits s (err e) call h = ground arith
  sizing_reason-Fits s (ok b) call h =
      let cap = per_trade_cap risk profile in
      let left = remaining_daily_risk_budget risk profile in
      let first = instrument.first_order_notional_cap in
      let overall = profile.max_position_notional in
      ground (
        arith,
        min_d_bounds cap left,
        min_d_bounds first overall,
        ≤D_trans s.maximum_loss (min_d cap left) cap,
        ≤D_trans s.maximum_loss (min_d cap left) left,
        ≤D_trans s.expected_notional (min_d first overall) first,
        ≤D_trans s.expected_notional (min_d first overall) overall,
      )

  -- A size without a reason against it comes from the sizing.
  size_and_reason-Fits :
      (early : Option Reason) (s : Sizing)
      → size_and_reason inputs risk rules profile instrument early ≡ ok (s, none)
      → (early ≡ none)
        × (size_order inputs risk rules profile instrument ≡ ok s)
        × Fits risk rules profile instrument s
  unfolding size_and_reason
  size_and_reason-Fits (some r) s h = ground arith
  size_and_reason-Fits none s h = elim (Bool-cases (risk_budget risk profile ≤D zero_d)) [
    | inl spent ↦ cc (rw spent at h)
    | inr left ↦
        let (sized, accepted) =
          sized_accepted (size_order inputs risk rules profile instrument)
            (sizing_reason risk rules profile instrument) s (rw left at h) in
        (refl, sized, sizing_reason-Fits s _ refl accepted)
  ]

  finish_safe :
      (id : String) (now : ℕ) (ratio : Decimal) (s : Sizing) (r : Option Reason)
      {p : ManualExecutionPreview}
      → size_and_reason inputs risk rules profile instrument
          (early_reason inputs risk rules profile now ratio)
        ≡ ok (s, r)
      → preview_of inputs profile instrument id ratio s r ≡ p
      → p.executable ≡ true
      → MayTrade inputs risk rules profile now p.risk_reward_ratio
        × ((s : Sizing) × (size_order inputs risk rules profile instrument ≡ ok s)
            × (p.quantity ≡ s.quantity)
            × (p.expected_notional ≡ s.expected_notional)
            × (p.maximum_planned_loss ≡ s.maximum_loss)
            × Fits risk rules profile instrument s)
  unfolding preview_of
  finish_safe id now ratio s (some r) sized built executable = ground arith
  finish_safe id now ratio s none sized built executable =
      let (early, ordered, fits) = size_and_reason-Fits _ s sized in
      (
        rw (← built) (early_reason-MayTrade now ratio early),
        (s, ordered, rw (← built), rw (← built), rw (← built), fits),
      )

  -- An executable preview is allowed by the account and the day, and its order fits the
  -- instrument, the caps and the balance.
  pub preview_safe :
      (id : String) (now : ℕ) {p : ManualExecutionPreview}
      → build_manual_preview inputs risk rules profile instrument id now ≡ ok p
      → p.executable ≡ true
      → MayTrade inputs risk rules profile now p.risk_reward_ratio
        × ((s : Sizing) × (size_order inputs risk rules profile instrument ≡ ok s)
            × (p.quantity ≡ s.quantity)
            × (p.expected_notional ≡ s.expected_notional)
            × (p.maximum_planned_loss ≡ s.maximum_loss)
            × Fits risk rules profile instrument s)
  unfolding build_manual_preview
  preview_safe id now {p} h executable =
      let (ratio, ratio_eq, h₁) = >>=-ok (reward_ratio inputs) _ h in
      let (sized, sized_eq, h₂) =
        >>=-ok
          (size_and_reason inputs risk rules profile instrument
            (early_reason inputs risk rules profile now ratio))
          _ h₁ in
      finish_safe id now ratio sized.0 sized.1 sized_eq (ok_injective h₂) executable
