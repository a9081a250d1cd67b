-- ===== src/Protector/Decision/Tests.antt =====
-- A position that reached half of its risk in profit.
use syn_antona.Prelude.{◌≡◌, refl, true, none, some, []}
use syn_antona.Prelude.Errors.{ok, err}
use syn_antona.Decimal.{dec, zero_d, ◌≤D◌, evaluation}
use syn_antona.Protector.Costs.{
  PositionSnapshot, pnl_before_costs, estimated_close_cost, net_pnl, initial_risk_usdt,
  round_protective, tightens, raw_stop, stop_for_net_profit,
}
use syn_antona.Protector.Momentum.{atr}
use syn_antona.Protector.Decision.{
  ProtectionAction, Stage, Reason, ProtectionDecision, ratio_or_zero, giveback_of, measure,
  is_given_back, is_early_exit, decide, break_even_candidate, inside_market, conclude, propose,
  protect_profit, evaluate_protection,
}
use syn_antona.Protector.Decision.Safe.{is_safe_stop, exits_in_profit, profit_floor, evaluate_sound}

abbrev position : PositionSnapshot
position = record {
  symbol = "SOLUSDT";
  side = "Buy";
  quantity = dec 1 0;
  entry_price = dec 100 0;
  stop_loss = dec 98 0;
  take_profit = dec 104 0;
  position_idx = 0;
  opened_at = 0;
  entry_client_order_id = "c-1";
  entry_fee_usdt = dec 55 3;
  taker_fee_rate = dec 55 5;
  tick_size = dec 1 2;
}

abbrev waiting : ProtectionDecision
waiting = record {
  action = ProtectionAction.nothing;
  stop_loss = none;
  reason = Reason.threshold_not_reached;
  current_net_pnl = zero_d;
  current_r = zero_d;
  max_favorable_excursion_usdt = zero_d;
  max_favorable_r = zero_d;
  giveback_pct = zero_d;
}

abbrev decision : ProtectionDecision
decision =
    elim (evaluate_protection position (dec 102 0) (dec 10_201 2) (dec 98 0) zero_d Stage.initial []
      (dec 2 4)) [ ok d ↦ d | err e ↦ waiting ]

decided :
    evaluate_protection position
      (dec 102 0)
      (dec 10_201 2)
      (dec 98 0)
      zero_d
      Stage.initial
      []
      (dec 2 4)
    ≡ ok decision
unfolding evaluation pnl_before_costs estimated_close_cost net_pnl initial_risk_usdt
    round_protective tightens raw_stop stop_for_net_profit atr ratio_or_zero giveback_of measure
    is_given_back is_early_exit decide break_even_candidate inside_market conclude propose
    protect_profit evaluate_protection
decided = refl

decided_stop :
    (decision.action ≡ ProtectionAction.break_even) × (decision.stop_loss ≡ some (dec 10_013 2))
unfolding evaluation pnl_before_costs estimated_close_cost net_pnl initial_risk_usdt
    round_protective tightens raw_stop stop_for_net_profit atr ratio_or_zero giveback_of measure
    is_given_back is_early_exit decide break_even_candidate inside_market conclude propose
    protect_profit evaluate_protection
decided_stop = (refl, refl)

evaluate_sound_example :
    (is_safe_stop position (dec 102 0) (dec 10_201 2) (dec 98 0) decision.stop_loss ≡ true)
    × (exits_in_profit
          (profit_floor position (dec 102 0) (dec 10_201 2) (dec 2 4))
          decision.action
          decision.current_net_pnl
        ≡ true)
    × ((zero_d ≤D decision.max_favorable_excursion_usdt) ≡ true)
    × ((decision.current_net_pnl ≤D decision.max_favorable_excursion_usdt) ≡ true)
    × (decision.current_net_pnl ≡ net_pnl position (dec 102 0) (dec 2 4))
evaluate_sound_example =
    evaluate_sound position (dec 102 0) (dec 10_201 2) (dec 98 0) zero_d Stage.initial [] (dec 2 4)
      decided
