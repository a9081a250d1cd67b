-- ===== src/Protector/Ticker/Tightening.antt =====
-- The confirmed stop of a position, through the ticks of all positions.
use mathlib.Core.Path.{subst}
use syn_antona.Prelude.{
  String, ◌≡◌, refl, Bool, true, false, Option, none, some, List, arith, if◌then◌else◌, ◌||◌, any,
  Bool-cases, inl, inr,
}
use syn_antona.Prelude.Keys.{◌==◌, text_key, ==_iff, ==_self}
use syn_antona.Prelude.Errors.{Result, ok, err}
use syn_antona.Prelude.Actions.{◌>>=◌, return}
use syn_antona.Prelude.Tables.{find, is_found-append}
use syn_antona.Decimal.{Decimal, zero_d, ◌≤D◌, ◌<D◌}
use syn_antona.Protector.Costs.{PositionSnapshot, is_long, tightens}
use syn_antona.Protector.Momentum.{ClosedBar}
use syn_antona.Protector.Decision.{ProtectionDecision, evaluate_protection}
use syn_antona.Protector.Decision.Safe.{is_safe_stop, evaluate_sound}
use syn_antona.Protector.Store.{ProfitState, is_state, is_event, observe, new_event, begin_event}
use syn_antona.Protector.Ticker.{
  World, Tick, attempt, begin, is_nothing, follow, on_state, on_position,
}
use syn_antona.Protector.Ticker.Kept.{
  tightens_trans, holds_stop, agrees, is_own, IsKept, is_good_stop, observe-holds_stop,
  holds_stop-open, attempt-IsKept,
}

module _ (c side : String) (c₀ : Decimal) where
  module _ (p : PositionSnapshot) (t : Tick) where
    begin-holds_stop :
        (d : ProtectionDecision) (w : World)
        → holds_stop c side c₀ w ≡ true
        → holds_stop c side c₀ (begin p t d w).1 ≡ true
    unfolding begin_event holds_stop
    begin-holds_stop d w h = ground arith

    begin-IsKept :
        (d : ProtectionDecision) (w : World)
        → holds_stop c side c₀ w ≡ true
        → (begin p t d w).0 ≡ ok true
        → IsKept c side c₀ p t (begin p t d w).1
    unfolding begin_event new_event
    begin-IsKept d w h started =
        let fresh : any (is_event t.event_id) w.store.events ≡ false = ground arith in
        let appended =
          is_found-append (is_event t.event_id) (is_own c side c₀ p t) w.store.events
            (new_event t.event_id p.entry_client_order_id d p.take_profit t.now) fresh
            (==_self t.event_id) (==_self p.entry_client_order_id) in
        record { stop = begin-holds_stop d w h; own = ground (arith, appended) }

    begun-holds_stop :
        (d : ProtectionDecision) (x : Result Bool × World)
        → is_good_stop c side c₀ p t d.stop_loss ≡ true
        → holds_stop c side c₀ x.1 ≡ true
        → (x.0 ≡ ok true → IsKept c side c₀ p t x.1)
        → holds_stop c side c₀
            (elim x.0 as (λ _. Result (Unit {0}) × World) [
              | err e ↦ (err e, x.1)
              | ok started ↦ (if started then attempt p t d else return tt) x.1
            ]).1
          ≡ true
    begun-holds_stop d (err e, w) good h kept = h
    begun-holds_stop d (ok true, w) good h kept =
        (attempt-IsKept c side c₀ p t d w good (kept refl)).stop
    begun-holds_stop d (ok false, w) good h kept = h

    follow-holds_stop :
        (d : ProtectionDecision) (w : World)
        → is_good_stop c side c₀ p t d.stop_loss ≡ true
        → holds_stop c side c₀ w ≡ true
        → holds_stop c side c₀ (follow p t d w).1 ≡ true
    unfolding follow
    follow-holds_stop d w good h = split (is_nothing d.action)
      where
        price : Decimal
        price = if is_long p.side then t.bid else t.ask

        seen : World
        seen = record w { store = observe p.entry_client_order_id price d w.store }

        h' : holds_stop c side c₀ seen ≡ true
        h' = observe-holds_stop c side c₀ p t price d w h

        split :
            (b : Bool)
            → holds_stop c side c₀
                (((if b then return false else begin p t d)
                    >>= (λ started. if started then attempt p t d else return tt))
                  seen).1
              ≡ true
        split true = h'
        split false =
            begun-holds_stop d (begin p t d seen) good (begin-holds_stop d seen h')
              (λ started. begin-IsKept d seen h' started)

    -- The decision on the row that stands under the client order of the position.
    decision-is_good_stop :
        (bars : List ClosedBar) (row : ProfitState) (w : World) {d : ProtectionDecision}
        → agrees c side c₀ p ≡ true
        → holds_stop c side c₀ w ≡ true
        → find (is_state p.entry_client_order_id) w.store.states ≡ some row
        → evaluate_protection p t.bid t.ask row.confirmed_stop_loss row.max_favorable_excursion_usdt
            row.stage bars t.slippage
          ≡ ok d
        → is_good_stop c side c₀ p t d.stop_loss ≡ true
    unfolding is_safe_stop holds_stop
    decision-is_good_stop bars row w {d} same h found decided =
        good d.stop_loss
          (evaluate_sound p t.bid t.ask row.confirmed_stop_loss row.max_favorable_excursion_usdt
            row.stage bars t.slippage decided).0
      where
        kept : p.entry_client_order_id ≡ c → tightens side c₀ row.confirmed_stop_loss ≡ false
        kept e =
            let found' : find (is_state c) w.store.states ≡ some row =
              subst (λ k. find (is_state k) w.store.states ≡ some row) e found in
            ground (arith, found', holds_stop-open c side c₀ p t w h)

        good :
            (o : Option Decimal)
            → is_safe_stop p t.bid t.ask row.confirmed_stop_loss o ≡ true
            → is_good_stop c side c₀ p t o ≡ true
        good none safe = refl
        good (some s) safe = elim (Bool-cases (p.entry_client_order_id == c)) [
          | inl own ↦
              let e : p.entry_client_order_id ≡ c = (==_iff p.entry_client_order_id c).0 own in
              let same_side : p.side ≡ side = ground (arith, own, same, ==_iff p.side side) in
              let tighter : tightens p.side s row.confirmed_stop_loss ≡ true =
                ground (arith, safe) in
              let tighter' : tightens side s row.confirmed_stop_loss ≡ true =
                subst (λ k. tightens k s row.confirmed_stop_loss ≡ true) same_side tighter in
              ground (arith, tightens_trans side c₀ row.confirmed_stop_loss s (kept e) tighter')
          | inr other ↦ ground (arith, other)
        ]

    on_state-holds_stop :
        (bars : List ClosedBar) (row : ProfitState) (w : World)
        → agrees c side c₀ p ≡ true
        → holds_stop c side c₀ w ≡ true
        → find (is_state p.entry_client_order_id) w.store.states ≡ some row
        → holds_stop c side c₀ (on_state p bars t row w).1 ≡ true
    unfolding on_state
    on_state-holds_stop bars row w same h found = split (evaluated row) refl
      where
        evaluated : ProfitState → Result ProtectionDecision
        evaluated r =
            evaluate_protection p t.bid t.ask r.confirmed_stop_loss r.max_favorable_excursion_usdt
              r.stage bars t.slippage

        split :
            (x : Result ProtectionDecision)
            → evaluated row ≡ x
            → holds_stop c side c₀
                (elim x as (λ _. Result (Unit {0}) × World) [
                  | err e ↦ (err e, w)
                  | ok d ↦ follow p t d w
                ]).1
              ≡ true
        split (ok d) e = follow-holds_stop d w (decision-is_good_stop bars row w same h found e) h
        split (err e) g = h

    pub on_position-holds_stop :
        (bars : List ClosedBar) (w : World)
        → agrees c side c₀ p ≡ true
        → holds_stop c side c₀ w ≡ true
        → holds_stop c side c₀ (on_position p bars t w).1 ≡ true
    unfolding on_position
    on_position-holds_stop bars w same h =
        split ((t.bid ≤D zero_d) || (t.ask ≤D zero_d) || (t.ask <D t.bid))
          (find (is_state p.entry_client_order_id) w.store.states) refl
      where
        outcome : Bool → Option ProfitState → Result (Unit {0}) × World
        outcome b o =
            if b
            then (ok tt, w)
            else elim o [ none ↦ (ok tt, w) | some row ↦ on_state p bars t row w ]

        split :
            (b : Bool) (o : Option ProfitState)
            → find (is_state p.entry_client_order_id) w.store.states ≡ o
            → holds_stop c side c₀ (outcome b o).1 ≡ true
        split true o e = h
        split false none e = h
        split false (some row) e = on_state-holds_stop bars row w same h e
