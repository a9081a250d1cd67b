-- ===== src/Protector/Ticker.antt =====
-- `LocalPositionProfitProtector.on_ticker` of app/trading/profit_protector.py. What the gateway and the
-- notifier answer is an input; what is asked of the gateway is recorded in order.
pub mod Kept
pub mod Tightening
pub mod Reported
pub mod Asked
use syn_antona.Prelude.{
  ℕ, String, Bool, true, false, not, Option, none, some, List, [], ◌∷◌, ◌++◌, if◌then◌else◌, ◌||◌,
}
use syn_antona.Prelude.Keys.{text_key}
use syn_antona.Prelude.Dict.{Dict, lookup, get_or}
use syn_antona.Prelude.Errors.{Error, Result, ok, err}
use syn_antona.Prelude.Actions.{Action, ◌>>=◌, ◌>>◌, return, reading, raise, write}
use syn_antona.Prelude.Tables.{find}
use syn_antona.Decimal.{Decimal, zero_d, ◌≤D◌, ◌<D◌}
use syn_antona.Protector.Costs.{PositionSnapshot, is_long}
use syn_antona.Protector.Momentum.{ClosedBar}
use syn_antona.Protector.Decision.{ProtectionAction, ProtectionDecision, evaluate_protection}
use syn_antona.Protector.Store.{
  ProfitState, EventStatus, Store, is_state, observe, begin_event, finish_event,
}

-- The calls of the gateway that change a position: the symbol, the quantity or the stop, and the client
-- order id.
pub data Request : Type 0 where
  protective_reduce_only_close : String → Decimal → String → Request
  manage_native_protection : String → Decimal → String → Request

pub record World : Type 0 where
  pub store : Store
  pub sent : List Request

-- What one tick meets: the symbol and its quotes, an id and the clock, and the answers.
pub record Tick : Type 0 where
  pub symbol : String
  pub bid : Decimal
  pub ask : Decimal
  pub slippage : Decimal
  pub event_id : String
  pub now : ℕ
  pub gateway : Result (Unit {0})
  pub notifier : Result (Unit {0})

abbrev pub on_store : (Store → Store) → Action World (Unit {0})
on_store f = write (λ w. record w { store = f w.store })

abbrev pub send : Request → Action World (Unit {0})
send request = write (λ w. record w { sent = w.sent ++ request ∷ [] })

-- `except OrderOutcomeUnknown: ... except Exception: ...`
abbrev pub status_after : Error → EventStatus
status_after Error.order_outcome_unknown = EventStatus.unknown
status_after _ = EventStatus.failed

abbrev pub confirm : Tick → Option Decimal → Action World (Unit {0})
confirm t stop = on_store (finish_event t.event_id EventStatus.confirmed stop t.now)

-- A stop that is asked of the exchange, with the assertion that there is one.
unfoldable pub move_stop : PositionSnapshot → Tick → Option Decimal → Action World (Unit {0})
move_stop p t none = raise (Error.runtime_error "AssertionError")
move_stop p t (some stop) = do
  send (Request.manage_native_protection t.symbol stop p.entry_client_order_id)
  reading (λ w. t.gateway)
  confirm t (some stop)

-- The body of the `try` before the notification.
unfoldable pub perform :
    PositionSnapshot → Tick → ProtectionAction → Option Decimal → Action World (Unit {0})
perform p t ProtectionAction.profit_watch stop = confirm t none
perform p t ProtectionAction.early_profit_exit stop = do
  send (Request.protective_reduce_only_close t.symbol p.quantity p.entry_client_order_id)
  reading (λ w. t.gateway)
  confirm t none
perform p t _ stop = move_stop p t stop

-- An exception of the body, or of the notifier, is noted in the event and raised again.
unfoldable pub attempt : PositionSnapshot → Tick → ProtectionDecision → Action World (Unit {0})
attempt p t d w =
    let (r, w') = (perform p t d.action d.stop_loss >> reading (λ v. t.notifier)) w in
    elim r [
      | ok u ↦ (ok tt, w')
      | err e ↦ (on_store (finish_event t.event_id (status_after e) none t.now) >> raise e) w'
    ]

abbrev pub begin : PositionSnapshot → Tick → ProtectionDecision → Action World Bool
begin p t d w =
    let (r, store') =
      begin_event t.event_id p.entry_client_order_id d p.take_profit t.now w.store in
    (r, record w { store = store' })

abbrev pub is_nothing : ProtectionAction → Bool
is_nothing ProtectionAction.nothing = true
is_nothing _ = false

-- From the decision on.
unfoldable pub follow : PositionSnapshot → Tick → ProtectionDecision → Action World (Unit {0})
follow p t d = do
  on_store (observe p.entry_client_order_id (if is_long p.side then t.bid else t.ask) d)
  started ← (if is_nothing d.action then return false else begin p t d)
  if started then attempt p t d else return tt

-- With a row of the store.
unfoldable pub on_state :
    PositionSnapshot → List ClosedBar → Tick → ProfitState → Action World (Unit {0})
on_state p bars t row = do
  d ← reading (λ w.
      evaluate_protection p t.bid t.ask row.confirmed_stop_loss row.max_favorable_excursion_usdt
        row.stage bars t.slippage)
  follow p t d

-- With the position and the bars of the symbol.
unfoldable pub on_position : PositionSnapshot → List ClosedBar → Tick → Action World (Unit {0})
on_position p bars t w =
    if (t.bid ≤D zero_d) || (t.ask ≤D zero_d) || (t.ask <D t.bid)
    then (ok tt, w)
    else elim (find (is_state p.entry_client_order_id) w.store.states) [
      | none ↦ (ok tt, w)
      | some row ↦ on_state p bars t row w
    ]

-- The protector: the rows and what was sent, and by symbol the positions of the last sync, the closed
-- bars in the order of time, and the quotes.
pub record Protector : Type 0 where
  pub world : World
  pub positions : Dict String PositionSnapshot
  pub bars : Dict String (List ClosedBar)
  pub quotes : Dict String (Decimal × Decimal)

abbrev pub on_world : Action World (Unit {0}) → Action Protector (Unit {0})
on_world call v = let (r, w) = call v.world in (r, record v { world = w })

abbrev pub bars_of : String → Protector → List ClosedBar
bars_of symbol v = get_or symbol [] v.bars

unfoldable pub on_ticker : Tick → Action Protector (Unit {0})
on_ticker t v = elim (lookup t.symbol v.positions) [
  | none ↦ (ok tt, v)
  | some p ↦ on_world (on_position p (bars_of t.symbol v) t) v
]
