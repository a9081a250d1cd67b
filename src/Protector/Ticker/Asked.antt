-- ===== src/Protector/Ticker/Asked.antt =====
-- The requests about a symbol: a tick of another position makes none.
use syn_antona.Prelude.{
  String, ◌≡◌, ◌∙◌, Bool, true, false, Option, none, some, List, [], ◌∷◌, ◌++◌, filter,
  if◌then◌else◌, arith, ◌||◌,
}
use syn_antona.Prelude.Keys.{◌==◌, text_key}
use syn_antona.Prelude.Errors.{Error, Result, ok, err}
use syn_antona.Prelude.Actions.{◌>>◌, return, reading, raise}
use syn_antona.Prelude.Actions.Preserve.{
  Preserves, Preserves-write, Preserves-reading, Preserves-return, Preserves->>=, Preserves-if,
}
use syn_antona.Prelude.Tables.{find}
use syn_antona.Decimal.{Decimal, zero_d, ◌≤D◌, ◌<D◌}
use syn_antona.Protector.Costs.{PositionSnapshot, is_long}
use syn_antona.Protector.Momentum.{ClosedBar}
use syn_antona.Protector.Decision.{ProtectionAction, ProtectionDecision, evaluate_protection}
use syn_antona.Protector.Store.{ProfitState, EventStatus, Store, is_state, observe, finish_event}
use syn_antona.Protector.Ticker.{
  Request, World, Tick, on_store, send, status_after, confirm, move_stop, perform, attempt, begin,
  is_nothing, follow, on_state, on_position,
}

abbrev pub is_about : String → Request → Bool
is_about symbol (Request.protective_reduce_only_close s quantity client) = s == symbol
is_about symbol (Request.manage_native_protection s stop client) = s == symbol

-- The requests about the symbol that were sent.
abbrev pub asked : String → World → List Request
asked symbol w = filter (is_about symbol) w.sent

filter-other :
    {A : Type 0} (test : A → Bool) (xs : List A) (x : A)
    → test x ≡ false
    → filter test (xs ++ x ∷ []) ≡ filter test xs
filter-other test [] x h = ground arith
filter-other test (y ∷ xs) x h = let rest = filter-other test xs x h in ground (arith, rest)

module _ (symbol : String) (before : List Request) where
  -- No request about the symbol is made.
  abbrev pub IsSilent : World → Type 0
  IsSilent w = asked symbol w ≡ before

  on_store-IsSilent : (f : Store → Store) → Preserves IsSilent (on_store f)
  on_store-IsSilent f = Preserves-write (λ w. record w { store = f w.store }) (λ w h. h)

  send-IsSilent : (r : Request) → is_about symbol r ≡ false → Preserves IsSilent (send r)
  send-IsSilent r other =
      Preserves-write (λ w. record w { sent = w.sent ++ r ∷ [] })
        (λ w h. filter-other (is_about symbol) w.sent r other ∙ h)

  raise-IsSilent : {A : Type 0} (e : Error) → Preserves IsSilent (raise {A = A} e)
  raise-IsSilent e = record { holds = λ w h. h }

  module _ (p : PositionSnapshot) (t : Tick) (other : (t.symbol == symbol) ≡ false) where
    confirm-IsSilent : (stop : Option Decimal) → Preserves IsSilent (confirm t stop)
    confirm-IsSilent stop =
        on_store-IsSilent (finish_event t.event_id EventStatus.confirmed stop t.now)

    asks-IsSilent :
        (r : Request) (stop : Option Decimal)
        → is_about symbol r ≡ false
        → Preserves IsSilent (send r >> (reading (λ w. t.gateway) >> confirm t stop))
    asks-IsSilent r stop about = Preserves->>= (send r) _ (send-IsSilent r about) (λ _.
        Preserves->>= (reading (λ w. t.gateway)) _ (Preserves-reading (λ w. t.gateway))
          (λ _. confirm-IsSilent stop))

    move_stop-IsSilent : (stop : Option Decimal) → Preserves IsSilent (move_stop p t stop)
    unfolding move_stop
    move_stop-IsSilent none = raise-IsSilent _
    move_stop-IsSilent (some stop) =
        asks-IsSilent (Request.manage_native_protection t.symbol stop p.entry_client_order_id)
          (some stop) other

    perform-IsSilent :
        (action : ProtectionAction) (stop : Option Decimal)
        → Preserves IsSilent (perform p t action stop)
    unfolding perform
    perform-IsSilent ProtectionAction.profit_watch stop = confirm-IsSilent none
    perform-IsSilent ProtectionAction.early_profit_exit stop =
        asks-IsSilent
          (Request.protective_reduce_only_close t.symbol p.quantity p.entry_client_order_id) none
          other
    perform-IsSilent ProtectionAction.nothing stop = move_stop-IsSilent stop
    perform-IsSilent ProtectionAction.break_even stop = move_stop-IsSilent stop
    perform-IsSilent ProtectionAction.profit_lock stop = move_stop-IsSilent stop
    perform-IsSilent ProtectionAction.trailing_update stop = move_stop-IsSilent stop
    perform-IsSilent ProtectionAction.mfe_profit_protect stop = move_stop-IsSilent stop

    attempt-IsSilent : (d : ProtectionDecision) → Preserves IsSilent (attempt p t d)
    unfolding attempt
    attempt-IsSilent d = record {
      holds = λ w h. noted ((perform p t d.action d.stop_loss >> reading (λ v. t.notifier)) w) (
          (Preserves->>= (perform p t d.action d.stop_loss) _
              (perform-IsSilent d.action d.stop_loss)
              (λ _. Preserves-reading (λ v. t.notifier))).holds
            w h);
    }
      where
        noted :
            (x : Result (Unit {0}) × World)
            → IsSilent x.1
            → IsSilent
                (elim x.0 as (λ _. Result (Unit {0}) × World) [
                  | ok u ↦ (ok tt, x.1)
                  | err e ↦
                      (on_store (finish_event t.event_id (status_after e) none t.now) >> raise e)
                        x.1
                ]).1
        noted (ok u, w) h = h
        noted (err e, w) h = h

    follow-IsSilent : (d : ProtectionDecision) → Preserves IsSilent (follow p t d)
    unfolding follow
    follow-IsSilent d =
        Preserves->>=
          (on_store (observe p.entry_client_order_id (if is_long p.side then t.bid else t.ask) d)) _
          (on_store-IsSilent _)
          (λ _.
            Preserves->>= (if is_nothing d.action then return false else begin p t d) _
              (Preserves-if (is_nothing d.action) (return false) (begin p t d)
                (Preserves-return false) (record { holds = λ w h. h }))
              (λ started.
                Preserves-if started (attempt p t d) (return tt) (attempt-IsSilent d)
                  (Preserves-return tt)))

    pub on_position-IsSilent : (bars : List ClosedBar) → Preserves IsSilent (on_position p bars t)
    unfolding on_position on_state
    on_position-IsSilent bars = record {
      holds = λ w h.
          known ((t.bid ≤D zero_d) || (t.ask ≤D zero_d) || (t.ask <D t.bid))
            (find (is_state p.entry_client_order_id) w.store.states) w h;
    }
      where
        known :
            (b : Bool) (o : Option ProfitState) (w : World)
            → IsSilent w
            → IsSilent
                (if b then (ok tt, w) else elim o as (λ _. Result (Unit {0}) × World) [
                  | none ↦ (ok tt, w)
                  | some row ↦ on_state p bars t row w
                ]).1
        known true o w h = h
        known false none w h = h
        known false (some row) w h =
            (Preserves->>= (reading (λ v. evaluated row)) (follow p t)
                (Preserves-reading (λ v. evaluated row)) follow-IsSilent).holds
              w h
          where
            evaluated : ProfitState → Result ProtectionDecision
            evaluated r =
                evaluate_protection p t.bid t.ask r.confirmed_stop_loss
                  r.max_favorable_excursion_usdt r.stage bars t.slippage
