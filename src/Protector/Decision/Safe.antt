-- ===== src/Protector/Decision/Safe.antt =====
-- What a decision of the profit protector may ask for.
use mathlib.Core.Path.{subst}
use syn_antona.Prelude.{
  ◌≡◌, refl, ◌∙◌, Bool, true, false, not, Option, none, some, List, arith, if◌then◌else◌, ◌&&◌,
  ◌||◌,
}
use syn_antona.Prelude.Errors.{Result, ok, err, >>=-ok, ok_injective}
use syn_antona.Decimal.{Decimal, dec, ◌+D◌, ◌-D◌, ◌≤D◌, max_d}
use syn_antona.Decimal.Order.{max_d_bounds, min_d_bounds}
use syn_antona.Protector.Costs.{PositionSnapshot, is_long, net_pnl, estimated_close_cost, tightens}
use syn_antona.Protector.Momentum.{ClosedBar}
use syn_antona.Protector.Decision.{
  ProtectionAction, Stage, Reason, ProtectionDecision, Measures, measure, is_given_back,
  is_early_exit, decide, Candidate, inside_market, conclude, propose, mfe_candidate, lock_candidate,
  break_even_candidate, lock_atr, is_initial, protect_profit, evaluate_protection,
}

-- The stop is a tick or more from the price at which the position can be closed.
unfoldable pub stays_inside : PositionSnapshot → Decimal → Decimal → Decimal → Bool
stays_inside p bid ask stop =
    if is_long p.side then stop ≤D (bid -D p.tick_size) else (ask +D p.tick_size) ≤D stop

-- A stop that is asked for tightens the confirmed one, and stays inside the market.
unfoldable pub is_safe_stop : PositionSnapshot → Decimal → Decimal → Decimal → Option Decimal → Bool
is_safe_stop p bid ask confirmed_stop none = true
is_safe_stop p bid ask confirmed_stop (some stop) =
    tightens p.side stop confirmed_stop && stays_inside p bid ask stop

-- The costs of the entry and of a close now, and two cents.
abbrev pub profit_floor : PositionSnapshot → Decimal → Decimal → Decimal → Decimal
profit_floor p bid ask slippage =
    (p.entry_fee_usdt
      +D estimated_close_cost (if is_long p.side then bid else ask) p.quantity p.taker_fee_rate
          slippage)
    +D dec 2 2

abbrev pub is_early : ProtectionAction → Bool
is_early ProtectionAction.early_profit_exit = true
is_early _ = false

-- A position is given up early only with the floor in hand.
abbrev pub exits_in_profit : Decimal → ProtectionAction → Decimal → Bool
exits_in_profit floor_profit action current = not (is_early action) || (floor_profit ≤D current)

module _ (p : PositionSnapshot) (bid ask confirmed_stop : Decimal) where
  inside_market-stays_inside :
      (stop : Decimal) → stays_inside p bid ask (inside_market p bid ask stop) ≡ true
  unfolding stays_inside inside_market
  inside_market-stays_inside stop =
      ground (arith, min_d_bounds stop (bid -D p.tick_size), max_d_bounds stop (ask +D p.tick_size))

  conclude-safe :
      (m : Measures) (c : Candidate)
      → is_safe_stop p bid ask confirmed_stop (conclude p m bid ask confirmed_stop c).stop_loss
        ≡ true
  unfolding is_safe_stop conclude decide
  conclude-safe m c = ground (arith, inside_market-stays_inside c.stop)

  -- What holds of every decision that was taken from the measures.
  record IsSound (m : Measures) (d : ProtectionDecision) : Type 0 where
    safe_stop : is_safe_stop p bid ask confirmed_stop d.stop_loss ≡ true
    in_profit : exits_in_profit m.meaningful_profit_floor d.action m.current ≡ true
    same_mfe : d.max_favorable_excursion_usdt ≡ m.mfe
    same_current : d.current_net_pnl ≡ m.current

  conclude-in_profit :
      (m : Measures) (c : Candidate)
      → is_early c.action ≡ false
      → exits_in_profit m.meaningful_profit_floor
          (conclude p m bid ask confirmed_stop c).action
          m.current
        ≡ true
  unfolding conclude decide
  conclude-in_profit m c late = ground arith

  conclude-IsSound :
      (m : Measures) (c : Candidate)
      → is_early c.action ≡ false
      → IsSound m (conclude p m bid ask confirmed_stop c)
  unfolding conclude decide
  conclude-IsSound m c late = record {
    safe_stop = conclude-safe m c;
    in_profit = conclude-in_profit m c late;
    same_mfe = ground arith;
    same_current = ground arith;
  }

  propose-IsSound :
      (m : Measures) (candidate : Result Candidate) {d : ProtectionDecision}
      → propose p m bid ask confirmed_stop candidate ≡ ok d
      → ((c : Candidate) → candidate ≡ ok c → is_early c.action ≡ false)
      → IsSound m d
  unfolding propose
  propose-IsSound m (ok c) h late =
      subst (IsSound m) (ok_injective h) (conclude-IsSound m c (late c refl))
  propose-IsSound m (err e) h late = ground arith

  module _ (m : Measures) (slippage : Decimal) where
    mfe_candidate-late :
        (c : Candidate) → mfe_candidate p m slippage ≡ ok c → is_early c.action ≡ false
    unfolding mfe_candidate
    mfe_candidate-late c h = ground arith

    lock_candidate-late :
        (stage : Stage) (a : Decimal) (c : Candidate)
        → lock_candidate p m stage a slippage ≡ ok c
        → is_early c.action ≡ false
    unfolding lock_candidate
    lock_candidate-late stage a c h = ground arith

    break_even_candidate-late :
        (c : Candidate) → break_even_candidate p slippage ≡ ok c → is_early c.action ≡ false
    unfolding break_even_candidate
    break_even_candidate-late c h = ground arith

    waiting-IsSound :
        (stage : Stage)
        → IsSound m (
            if is_initial stage && (m.watch_floor ≤D m.current)
            then decide m ProtectionAction.profit_watch none Reason.watched
            else decide m ProtectionAction.nothing none Reason.threshold_not_reached)
    unfolding decide is_safe_stop
    waiting-IsSound stage = record {
      safe_stop = ground arith;
      in_profit = ground arith;
      same_mfe = ground arith;
      same_current = ground arith;
    }

    early-IsSound :
        (bars : List ClosedBar)
        → is_early_exit p m bars ≡ ok true
        → IsSound m (decide m ProtectionAction.early_profit_exit none Reason.adverse_momentum)
    unfolding decide is_safe_stop is_early_exit is_given_back
    early-IsSound bars h = record {
      safe_stop = refl;
      in_profit = ground arith;
      same_mfe = refl;
      same_current = refl;
    }

    protect_profit-IsSound :
        (stage : Stage) {d : ProtectionDecision}
        → protect_profit p m bid ask confirmed_stop stage slippage ≡ ok d
        → IsSound m d
    unfolding protect_profit
    protect_profit-IsSound stage {d} h =
        first (is_given_back m (dec 35 2)) (lock_atr m) (dec 5 1 ≤D m.current_r) h
      where
        first :
            (given : Bool) (o : Option Decimal) (half : Bool)
            → (if given
                then propose p m bid ask confirmed_stop (mfe_candidate p m slippage)
                else elim o [
                  | some a ↦
                      propose p m bid ask confirmed_stop (lock_candidate p m stage a slippage)
                  | none ↦
                      if half
                      then propose p m bid ask confirmed_stop (break_even_candidate p slippage)
                      else ok (
                          if is_initial stage && (m.watch_floor ≤D m.current)
                          then decide m ProtectionAction.profit_watch none Reason.watched
                          else decide m ProtectionAction.nothing none Reason.threshold_not_reached)
                ])
              ≡ ok d
            → IsSound m d
        first true o half g = propose-IsSound m (mfe_candidate p m slippage) g mfe_candidate-late
        first false (some a) half g =
            propose-IsSound m (lock_candidate p m stage a slippage) g (lock_candidate-late stage a)
        first false none true g =
            propose-IsSound m (break_even_candidate p slippage) g break_even_candidate-late
        first false none false g = subst (IsSound m) (ok_injective g) (waiting-IsSound stage)

  module _ (previous_mfe : Decimal) (stage : Stage) (bars : List ClosedBar)
      (slippage : Decimal) where
    measured :
        {m : Measures}
        → measure p bid ask previous_mfe bars slippage ≡ ok m
        → (m.mfe ≡ max_d previous_mfe m.current)
          × (m.meaningful_profit_floor ≡ profit_floor p bid ask slippage)
          × (m.current ≡ net_pnl p (if is_long p.side then bid else ask) slippage)
    unfolding measure
    measured {m} h = (ground arith, ground arith, ground arith)

    -- The stop that a decision asks for tightens the confirmed stop and stays a tick inside the
    -- market; a position is given up early only with its costs and two cents in hand; and the best
    -- profit that is remembered is no less than the one before and the one now.
    pub evaluate_sound :
        {d : ProtectionDecision}
        → evaluate_protection p bid ask confirmed_stop previous_mfe stage bars slippage ≡ ok d
        → (is_safe_stop p bid ask confirmed_stop d.stop_loss ≡ true)
          × (exits_in_profit (profit_floor p bid ask slippage) d.action d.current_net_pnl ≡ true)
          × ((previous_mfe ≤D d.max_favorable_excursion_usdt) ≡ true)
          × ((d.current_net_pnl ≤D d.max_favorable_excursion_usdt) ≡ true)
          × (d.current_net_pnl ≡ net_pnl p (if is_long p.side then bid else ask) slippage)
    unfolding evaluate_protection
    evaluate_sound {d} h =
        let (m, m_eq, h₁) = >>=-ok (measure p bid ask previous_mfe bars slippage) _ h in
        let (early, early_eq, h₂) = >>=-ok (is_early_exit p m bars) _ h₁ in
        finish m (measured m_eq) (sound m early early_eq h₂)
      where
        sound :
            (m : Measures) (early : Bool)
            → is_early_exit p m bars ≡ ok early
            → elim early as (λ _. Result ProtectionDecision) [
              | true ↦ ok (decide m ProtectionAction.early_profit_exit none Reason.adverse_momentum)
              | false ↦ protect_profit p m bid ask confirmed_stop stage slippage
            ]
              ≡ ok d
            → IsSound m d
        sound m true e g = subst (IsSound m) (ok_injective g) (early-IsSound m slippage bars e)
        sound m false e g = protect_profit-IsSound m slippage stage g

        finish :
            (m : Measures)
            → (m.mfe ≡ max_d previous_mfe m.current)
              × (m.meaningful_profit_floor ≡ profit_floor p bid ask slippage)
              × (m.current ≡ net_pnl p (if is_long p.side then bid else ask) slippage)
            → IsSound m d
            → (is_safe_stop p bid ask confirmed_stop d.stop_loss ≡ true)
              × (exits_in_profit (profit_floor p bid ask slippage) d.action d.current_net_pnl
                  ≡ true)
              × ((previous_mfe ≤D d.max_favorable_excursion_usdt) ≡ true)
              × ((d.current_net_pnl ≤D d.max_favorable_excursion_usdt) ≡ true)
              × (d.current_net_pnl ≡ net_pnl p (if is_long p.side then bid else ask) slippage)
        finish m (mfe_eq, floor_eq, current_eq) s = (
          s.safe_stop,
          rw (← floor_eq, s.same_current) s.in_profit,
          rw (s.same_mfe, mfe_eq) (max_d_bounds previous_mfe m.current).0,
          rw (s.same_mfe, s.same_current, mfe_eq) (max_d_bounds previous_mfe m.current).1,
          s.same_current ∙ current_eq,
        )
