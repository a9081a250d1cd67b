-- ===== src/Protector/Store.antt =====
-- `PositionProfitRepository` of app/trading/profit_protector.py, each method one transaction. The
-- rows are those of app/db.py, without `last_observed_at` and `updated_at`.
use syn_antona.Prelude.{
  ℕ, String, Bool, true, false, not, Option, none, some, List, [], ◌∷◌, ◌++◌, any, filter,
  if◌then◌else◌, ◌&&◌, ◌||◌,
}
use syn_antona.Prelude.Keys.{◌==◌, text_key}
use syn_antona.Prelude.Errors.{Error, Result, ok, err}
use syn_antona.Prelude.Tables.{find, update_first, update_all}
use syn_antona.Decimal.{Decimal, zero_d, ◌≤D◌, ◌<D◌, ◌==D◌, max_d}
use syn_antona.Protector.Costs.{tightens}
use syn_antona.Protector.Decision.{ProtectionAction, Stage, Reason, ProtectionDecision}

-- PositionProfitStateRecord
pub record ProfitState : Type 0 where
  pub entry_client_order_id : String
  pub position_key : String
  pub symbol : String
  pub side : String
  pub quantity : Decimal
  pub entry_price : Decimal
  pub initial_stop_loss : Decimal
  pub initial_take_profit : Decimal
  pub initial_risk_usdt : Decimal
  pub entry_fee_usdt : Decimal
  pub estimated_exit_cost_usdt : Decimal
  pub current_price : Decimal
  pub current_net_pnl : Decimal
  pub max_favorable_price : Decimal
  pub max_favorable_excursion_usdt : Decimal
  pub max_favorable_r : Decimal
  pub confirmed_stop_loss : Decimal
  pub stage : Stage
  pub opened_at : ℕ
  pub closed_at : Option ℕ

pub data EventStatus : Type 0 where
  pending confirmed unknown failed superseded : EventStatus

-- PositionProtectionEventRecord
pub record ProtectionEvent : Type 0 where
  pub event_id : String
  pub entry_client_order_id : String
  pub action : ProtectionAction
  pub requested_stop_loss : Option Decimal
  pub preserved_take_profit : Decimal
  pub status : EventStatus
  pub reason : Reason
  pub requested_at : ℕ
  pub confirmed_at : Option ℕ

pub record Store : Type 0 where
  pub states : List ProfitState
  pub events : List ProtectionEvent

abbrev pub is_state : String → ProfitState → Bool
is_state k row = row.entry_client_order_id == k

abbrev pub is_event : String → ProtectionEvent → Bool
is_event k e = e.event_id == k

abbrev pub is_open : EventStatus → Bool
is_open EventStatus.pending = true
is_open EventStatus.unknown = true
is_open _ = false

abbrev pub is_confirmed : EventStatus → Bool
is_confirmed EventStatus.confirmed = true
is_confirmed _ = false

abbrev pub same_action : ProtectionAction → ProtectionAction → Bool
same_action ProtectionAction.nothing ProtectionAction.nothing = true
same_action ProtectionAction.profit_watch ProtectionAction.profit_watch = true
same_action ProtectionAction.break_even ProtectionAction.break_even = true
same_action ProtectionAction.profit_lock ProtectionAction.profit_lock = true
same_action ProtectionAction.trailing_update ProtectionAction.trailing_update = true
same_action ProtectionAction.mfe_profit_protect ProtectionAction.mfe_profit_protect = true
same_action ProtectionAction.early_profit_exit ProtectionAction.early_profit_exit = true
same_action _ _ = false

-- `requested_stop_loss == stop`, where the query asks for NULL if `stop` is None.
abbrev pub same_stop : Option Decimal → Option Decimal → Bool
same_stop none none = true
same_stop (some a) (some b) = a ==D b
same_stop _ _ = false

unfoldable pub observe_row : Decimal → ProtectionDecision → ProfitState → ProfitState
observe_row price d row =
    let seen : ProfitState = record row {
      current_price = price;
      current_net_pnl = d.current_net_pnl;
    } in
    if row.max_favorable_r <D d.max_favorable_r
    then record seen {
      max_favorable_r = d.max_favorable_r;
      max_favorable_excursion_usdt = max_d row.max_favorable_excursion_usdt d.current_net_pnl;
      max_favorable_price = price;
    }
    else seen

-- A missing row is left alone: `update_first` changes nothing then.
unfoldable pub observe : String → Decimal → ProtectionDecision → Store → Store
observe client_id price d s = record s {
  states = update_first (is_state client_id) (observe_row price d) s.states;
}

-- The unique constraint of the events, which `begin_event` asks about first.
abbrev pub same_request : String → ProtectionDecision → ProtectionEvent → Bool
same_request client_id d e =
    (e.entry_client_order_id == client_id)
    && same_action e.action d.action
    && same_stop e.requested_stop_loss d.stop_loss

unfoldable pub new_event : String → String → ProtectionDecision → Decimal → ℕ → ProtectionEvent
new_event event_id client_id d take_profit now = record {
  event_id = event_id;
  entry_client_order_id = client_id;
  action = d.action;
  requested_stop_loss = d.stop_loss;
  preserved_take_profit = take_profit;
  status = EventStatus.pending;
  reason = d.reason;
  requested_at = now;
  confirmed_at = none;
}

-- False when the request was made before; an id that is taken violates the primary key.
unfoldable pub begin_event :
    String → String → ProtectionDecision → Decimal → ℕ → Store → Result Bool × Store
begin_event event_id client_id d take_profit now s =
    if any (same_request client_id d) s.events
    then (ok false, s)
    else if any (is_event event_id) s.events
    then (err Error.integrity_error, s)
    else (
      ok true,
      record s { events = s.events ++ new_event event_id client_id d take_profit now ∷ [] },
    )

abbrev pub settle_event : EventStatus → ℕ → ProtectionEvent → ProtectionEvent
settle_event status now e = record e {
  status = status;
  confirmed_at = if is_confirmed status then some now else none;
}

-- A confirmed request moves the stage, and the stop if one is given.
unfoldable pub confirm_row : ProtectionAction → Option Decimal → ProfitState → ProfitState
confirm_row action none row = record row { stage = Stage.reached action }
confirm_row action (some stop) row = record row {
  stage = Stage.reached action;
  confirmed_stop_loss = stop;
}

unfoldable pub finish_event : String → EventStatus → Option Decimal → ℕ → Store → Store
finish_event event_id status stop_loss now s = elim (find (is_event event_id) s.events) [
  | none ↦ s
  | some e ↦
      let events' : List ProtectionEvent =
        update_first (is_event event_id) (settle_event status now) s.events in
      let states' : List ProfitState =
        update_first (is_state e.entry_client_order_id) (confirm_row e.action stop_loss) s.states in
      if is_confirmed status
      then record { states = states'; events = events' }
      else record s { events = events' }
]

-- `previous.closed_at = now`, and so for every row that a query returns.
abbrev pub close_row : ℕ → ProfitState → ProfitState
close_row now row = record row { closed_at = some now }

abbrev pub is_unclosed : Option ℕ → Bool
is_unclosed none = true
is_unclosed (some t) = false

abbrev pub is_absent : List String → ProfitState → Bool
is_absent open_symbols row =
    is_unclosed row.closed_at && not (any (λ s. s == row.symbol) open_symbols)

-- The early exits of the rows that are closed are taken for confirmed.
unfoldable pub mark_absent_closed : List String → ℕ → Store → Store
mark_absent_closed open_symbols now s =
    let exits : ProtectionEvent → Bool = λ e.
      same_action e.action ProtectionAction.early_profit_exit
      && is_open e.status
      && any (λ row. is_absent open_symbols row && is_state e.entry_client_order_id row) s.states in
    record {
      states = update_all (is_absent open_symbols) (close_row now) s.states;
      events = update_all exits (settle_event EventStatus.confirmed now) s.events;
    }

-- `state.stage = event.action`, for one event after the other.
abbrev pub last_stage : Stage → List ProtectionEvent → Stage
last_stage stage [] = stage
last_stage stage (e ∷ es) = last_stage (Stage.reached e.action) es

unfoldable pub reconcile_row : String → Decimal → List ProtectionEvent → ProfitState → ProfitState
reconcile_row side native_stop matched row =
    let staged : ProfitState = record row { stage = last_stage row.stage matched } in
    if tightens side native_stop row.confirmed_stop_loss
    then record staged { confirmed_stop_loss = native_stop }
    else staged

-- The open events of a client order that asked for this stop.
abbrev pub awaits : String → Decimal → ProtectionEvent → Bool
awaits client_id native_stop e =
    (e.entry_client_order_id == client_id)
    && same_stop e.requested_stop_loss (some native_stop)
    && is_open e.status

-- A missing row returns before the events are read.
unfoldable pub reconcile_native_stop : String → String → Decimal → ℕ → Store → Store
reconcile_native_stop client_id side native_stop now s =
    if not (any (is_state client_id) s.states) || (native_stop ≤D zero_d) then s else record {
      states =
          update_first (is_state client_id)
            (reconcile_row side native_stop (filter (awaits client_id native_stop) s.events))
            s.states;
      events =
          update_all (awaits client_id native_stop) (settle_event EventStatus.confirmed now)
            s.events;
    }
