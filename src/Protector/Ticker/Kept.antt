-- ===== src/Protector/Ticker/Kept.antt =====
-- A stop that is no looser than another, through what a tick does to the store.
use syn_antona.Prelude.{
  String, ◌≡◌, refl, Bool, true, false, not, Option, none, some, arith, ◌||◌, Option-cases, inl,
  inr,
}
use syn_antona.Prelude.Keys.{◌==◌, text_key, ==_iff}
use syn_antona.Prelude.Errors.{Result, ok, err}
use syn_antona.Prelude.Actions.{Action, ◌>>◌, reading, raise}
use syn_antona.Prelude.Actions.Preserve.{
  Preserves, Preserves-write, Preserves-reading, Preserves->>=, preserve_rules,
}
use syn_antona.Prelude.Tables.{find, is_found, is_found-update_first}
use syn_antona.Decimal.{Decimal}
use syn_antona.Decimal.Order.{≤D_trans, ≤D_total}
use syn_antona.Protector.Costs.{PositionSnapshot, tightens}
use syn_antona.Protector.Decision.{ProtectionAction, ProtectionDecision}
use syn_antona.Protector.Store.{
  ProfitState, ProtectionEvent, EventStatus, is_state, is_event, observe_row, observe, settle_event,
  confirm_row, finish_event,
}
use syn_antona.Protector.Ticker.{
  World, Tick, Request, send, on_store, status_after, confirm, move_stop, perform, attempt,
}

-- What tightens a stop that is no looser is itself no looser.
pub tightens_trans :
    (side : String) (c₀ r s : Decimal)
    → tightens side c₀ r ≡ false
    → tightens side s r ≡ true
    → tightens side c₀ s ≡ false
unfolding tightens
tightens_trans side c₀ r s kept tighter = ground (
  arith,
  ≤D_trans c₀ r s,
  ≤D_total s r,
  ≤D_trans s r c₀,
  ≤D_total r s,
  ≤D_total c₀ r,
  ≤D_total r c₀,
)

module _ (c side : String) (c₀ : Decimal) where
  -- The row does not have a stop that `c₀` would tighten.
  abbrev pub is_kept : ProfitState → Bool
  is_kept row = not (tightens side c₀ row.confirmed_stop_loss)

  -- The row of the client order `c` is there, and no looser than `c₀`.
  unfoldable pub holds_stop : World → Bool
  holds_stop w = is_found (is_state c) is_kept w.store.states

  -- A position under the same client order is of the same side.
  abbrev pub agrees : PositionSnapshot → Bool
  agrees p = not (p.entry_client_order_id == c) || (p.side == side)

  module _ (p : PositionSnapshot) (t : Tick) where
    abbrev pub is_own : ProtectionEvent → Bool
    is_own e = e.entry_client_order_id == p.entry_client_order_id

    pub record IsKept (w : World) : Type 0 where
      pub stop : holds_stop w ≡ true
      pub own : is_found (is_event t.event_id) is_own w.store.events ≡ true

    -- A stop that may be confirmed.
    abbrev pub is_good_stop : Option Decimal → Bool
    is_good_stop none = true
    is_good_stop (some s) = not (p.entry_client_order_id == c) || not (tightens side c₀ s)

    pub observe-holds_stop :
        (price : Decimal) (d : ProtectionDecision) (w : World)
        → holds_stop w ≡ true
        → holds_stop (record w { store = observe p.entry_client_order_id price d w.store }) ≡ true
    unfolding holds_stop observe observe_row
    observe-holds_stop price d w h =
        is_found-update_first (is_state c) is_kept (is_state p.entry_client_order_id)
          (observe_row price d) w.store.states (λ x. ground arith) (λ x a b g. ground arith) h

    confirm_row-kept :
        (action : ProtectionAction) (stop : Option Decimal) (owner : String) (x : ProfitState)
        → is_good_stop stop ≡ true
        → (owner == p.entry_client_order_id) ≡ true
        → is_state owner x ≡ true
        → is_state c x ≡ true
        → is_kept x ≡ true
        → is_kept (confirm_row action stop x) ≡ true
    unfolding confirm_row
    confirm_row-kept action none owner x good mine a b g = g
    confirm_row-kept action (some s) owner x good mine a b g = ground (
      arith,
      ==_iff owner p.entry_client_order_id,
      ==_iff x.entry_client_order_id owner,
      ==_iff x.entry_client_order_id c,
      ==_iff p.entry_client_order_id c,
    )

    confirm_row-is_state :
        (action : ProtectionAction) (stop : Option Decimal) (x : ProfitState)
        → is_state c (confirm_row action stop x) ≡ is_state c x
    unfolding confirm_row
    confirm_row-is_state action none x = refl
    confirm_row-is_state action (some s) x = refl

    pub holds_stop-open :
        (w : World) → holds_stop w ≡ true → is_found (is_state c) is_kept w.store.states ≡ true
    unfolding holds_stop
    holds_stop-open w h = h

    finish-holds_stop :
        (status : EventStatus) (stop : Option Decimal) (w : World)
        → is_good_stop stop ≡ true
        → IsKept w
        → holds_stop (record w { store = finish_event t.event_id status stop t.now w.store }) ≡ true
    unfolding holds_stop finish_event
    finish-holds_stop status stop w good k =
        elim (Option-cases (find (is_event t.event_id) w.store.events)) [
          | inl absent ↦ ground (arith, absent, k.own)
          | inr (e, found) ↦
              let mine : is_own e ≡ true = ground (arith, found, k.own) in
              let changed =
                is_found-update_first (is_state c) is_kept (is_state e.entry_client_order_id)
                  (confirm_row e.action stop) w.store.states (confirm_row-is_state e.action stop)
                  (λ x a b g.
                    confirm_row-kept e.action stop e.entry_client_order_id x good mine a b g)
                  (holds_stop-open w k.stop) in
              ground (arith, changed, found, holds_stop-open w k.stop)
        ]

    finish-own :
        (status : EventStatus) (stop : Option Decimal) (w : World)
        → IsKept w
        → is_found
            (is_event t.event_id)
            is_own
            (finish_event t.event_id status stop t.now w.store).events
          ≡ true
    unfolding finish_event
    finish-own status stop w k =
        let changed =
          is_found-update_first (is_event t.event_id) is_own (is_event t.event_id)
            (settle_event status t.now) w.store.events (λ x. refl) (λ x a b g. g) k.own in
        ground (arith, changed, k.own)

    confirm-Preserves :
        (status : EventStatus) (stop : Option Decimal)
        → is_good_stop stop ≡ true
        → Preserves IsKept (on_store (finish_event t.event_id status stop t.now))
    confirm-Preserves status stop good = Preserves-write _ (λ w k. record {
      stop = finish-holds_stop status stop w good k;
      own = finish-own status stop w k;
    })

    send-Preserves : (r : Request) → Preserves IsKept (send r)
    unfolding holds_stop
    send-Preserves r = Preserves-write _ (λ w k. record { stop = k.stop; own = k.own })

    -- A request whose answer confirms it.
    answered-Preserves :
        (r : Request) (stop : Option Decimal)
        → is_good_stop stop ≡ true
        → Preserves IsKept (send r >> (reading (λ w. t.gateway) >> confirm t stop))
    answered-Preserves r stop good =
        Preserves->>= (send r) (λ _. reading (λ w. t.gateway) >> confirm t stop) (send-Preserves r)
          (λ _.
            Preserves->>= (reading (λ w. t.gateway)) (λ _. confirm t stop) (Preserves-reading _)
              (λ _. confirm-Preserves EventStatus.confirmed stop good))

    move_stop-Preserves :
        (stop : Option Decimal) → is_good_stop stop ≡ true → Preserves IsKept (move_stop p t stop)
    unfolding move_stop
    move_stop-Preserves none good = record { holds = λ w k. k }
    move_stop-Preserves (some s) good =
        answered-Preserves (Request.manage_native_protection t.symbol s p.entry_client_order_id)
          (some s) good

    perform-Preserves :
        (action : ProtectionAction) (stop : Option Decimal)
        → is_good_stop stop ≡ true
        → Preserves IsKept (perform p t action stop)
    unfolding perform
    perform-Preserves ProtectionAction.profit_watch stop good =
        confirm-Preserves EventStatus.confirmed none refl
    perform-Preserves ProtectionAction.early_profit_exit stop good =
        answered-Preserves
          (Request.protective_reduce_only_close t.symbol p.quantity p.entry_client_order_id) none
          refl
    perform-Preserves ProtectionAction.nothing stop good = move_stop-Preserves stop good
    perform-Preserves ProtectionAction.break_even stop good = move_stop-Preserves stop good
    perform-Preserves ProtectionAction.profit_lock stop good = move_stop-Preserves stop good
    perform-Preserves ProtectionAction.trailing_update stop good = move_stop-Preserves stop good
    perform-Preserves ProtectionAction.mfe_profit_protect stop good = move_stop-Preserves stop good

    pub attempt-IsKept :
        (d : ProtectionDecision) (w : World)
        → is_good_stop d.stop_loss ≡ true
        → IsKept w
        → IsKept (attempt p t d w).1
    unfolding attempt
    attempt-IsKept d w good k = split (body w) (performed.holds w k)
      where
        body : Action World (Unit {0})
        body = perform p t d.action d.stop_loss >> reading (λ v. t.notifier)

        performed : Preserves IsKept body
        performed =
            let first = perform-Preserves d.action d.stop_loss good in
            search (preserve_rules, first) depth 6

        split :
            (x : Result (Unit {0}) × World)
            → IsKept x.1
            → IsKept
                (elim x.0 as (λ _. Result (Unit {0}) × World) [
                  | ok u ↦ (ok tt, x.1)
                  | err e ↦
                      (on_store (finish_event t.event_id (status_after e) none t.now) >> raise e)
                        x.1
                ]).1
        split (ok u, w') h = h
        split (err e, w') h = (confirm-Preserves (status_after e) none refl).holds w' h
