-- ===== src/Protector/Ticker/Reported.antt =====
-- The confirmed stop of a position, through the stops that the exchange reports and the positions
-- that are gone.
use mathlib.Core.Path.{subst}
use syn_antona.Prelude.{
  sym, ◌∙◌, ℕ, String, ◌≡◌, refl, Bool, true, false, not, List, arith, if◌then◌else◌, ◌||◌, any,
  filter,
}
use syn_antona.Prelude.Keys.{◌==◌, text_key, ==_iff}
use syn_antona.Prelude.Tables.{
  update_first, update_all, is_found, is_found-update_first, is_found-update_all,
}
use syn_antona.Decimal.{Decimal, zero_d, ◌≤D◌}
use syn_antona.Protector.Costs.{tightens}
use syn_antona.Protector.Store.{
  ProfitState, ProtectionEvent, EventStatus, Store, is_state, settle_event, reconcile_row,
  reconcile_native_stop, mark_absent_closed, is_absent, close_row, awaits, last_stage,
}
use syn_antona.Protector.Ticker.{World}
use syn_antona.Protector.Ticker.Kept.{tightens_trans, is_kept, holds_stop}

module _ (c side : String) (c₀ : Decimal) where
  reconcile_row-kept :
      (client_id side' : String) (native_stop : Decimal) (es : List ProtectionEvent)
      (x : ProfitState)
      → (not (client_id == c) || (side' == side)) ≡ true
      → is_state client_id x ≡ true
      → is_state c x ≡ true
      → (is_kept c side c₀) x ≡ true
      → (is_kept c side c₀) (reconcile_row side' native_stop es x) ≡ true
  unfolding reconcile_row
  reconcile_row-kept client_id side' native_stop es x same a b g =
      let e : client_id ≡ c =
        sym ((==_iff x.entry_client_order_id client_id).0 a)
        ∙ (==_iff x.entry_client_order_id c).0 b in
      let own : (client_id == c) ≡ true = (==_iff client_id c).1 e in
      let same_side : side' ≡ side = ground (arith, own, same, ==_iff side' side) in
      let trans = tightens_trans side c₀ x.confirmed_stop_loss native_stop in
      subst
        (λ k.
          (tightens k native_stop x.confirmed_stop_loss ≡ true
            → tightens side c₀ native_stop ≡ false)
          → (is_kept c side c₀) (
              if tightens k native_stop x.confirmed_stop_loss
              then record x { stage = last_stage x.stage es; confirmed_stop_loss = native_stop }
              else record x { stage = last_stage x.stage es })
            ≡ true)
        (sym same_side) (λ f. ground (arith, f, g))
        (λ tighter.
          trans (ground (arith, g))
            (subst (λ k. tightens k native_stop x.confirmed_stop_loss ≡ true) same_side tighter))

  reconcile_row-is_state :
      (side' : String) (native_stop : Decimal) (es : List ProtectionEvent) (x : ProfitState)
      → is_state c (reconcile_row side' native_stop es x) ≡ is_state c x
  unfolding reconcile_row
  reconcile_row-is_state side' native_stop es x = ground arith

  pub reconcile-holds_stop :
      (client_id side' : String) (native_stop : Decimal) (now : ℕ) (w : World)
      → (not (client_id == c) || (side' == side)) ≡ true
      → holds_stop c side c₀ w ≡ true
      → holds_stop c side c₀
          (record w { store = reconcile_native_stop client_id side' native_stop now w.store })
        ≡ true
  unfolding reconcile_native_stop holds_stop
  reconcile-holds_stop client_id side' native_stop now w same h =
      let es : List ProtectionEvent = filter (awaits client_id native_stop) w.store.events in
      let changed =
        is_found-update_first (is_state c) (is_kept c side c₀) (is_state client_id)
          (reconcile_row side' native_stop es) w.store.states
          (reconcile_row-is_state side' native_stop es)
          (λ x a b g. reconcile_row-kept client_id side' native_stop es x same a b g) h in
      split (not (any (is_state client_id) w.store.states) || (native_stop ≤D zero_d)) changed
    where
      reconciled : Bool → Store
      reconciled b = if b then w.store else record {
        states =
            update_first (is_state client_id)
              (reconcile_row side' native_stop
                (filter (awaits client_id native_stop) w.store.events))
              w.store.states;
        events =
            update_all (awaits client_id native_stop) (settle_event EventStatus.confirmed now)
              w.store.events;
      }

      split :
          (b : Bool)
          → is_found (is_state c) (is_kept c side c₀) (reconciled false).states ≡ true
          → is_found (is_state c) (is_kept c side c₀) (reconciled b).states ≡ true
      split true g = h
      split false g = g

  pub absent-holds_stop :
      (symbols : List String) (now : ℕ) (w : World)
      → holds_stop c side c₀ w ≡ true
      → holds_stop c side c₀ (record w { store = mark_absent_closed symbols now w.store }) ≡ true
  unfolding mark_absent_closed holds_stop
  absent-holds_stop symbols now w h =
      is_found-update_all (is_state c) (is_kept c side c₀) (is_absent symbols) (close_row now)
        w.store.states (λ x. refl) (λ x g. g) h
