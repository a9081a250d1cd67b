-- ===== src/Live/Execution.antt =====
-- `ManualExecutionService`: one order from the arming gates to its protection. What the gateway
-- answers is an input; what is sent to it is recorded in order.
pub mod Ended
pub mod Ending
mod Tests
use syn_antona.Prelude.{
  ℕ, String, Bool, true, false, not, Option, none, some, List, [], ◌∷◌, ◌++◌, if◌then◌else◌, ◌||◌,
  ◌&&◌, any, leb,
}
use syn_antona.Prelude.Keys.{◌==◌, text_key}
use syn_antona.Prelude.Errors.{Error, Result, ok, err}
use syn_antona.Prelude.Actions.{Action, ◌>>=◌, ◌>>◌, return, reading, raise, write, raise_when}
use syn_antona.Decimal.{Decimal, dec, zero_d, ◌*D◌, ◌≤D◌, ◌<D◌, max_d, is_multiple}
use syn_antona.Live.Profile.{
  ControlledLiveProfile, FirstInstrumentSelection, Source, ManualExecutionPreview,
  controlled_live_v1,
}
use syn_antona.Live.Records.{Database}
use syn_antona.Live.Repository.{Digests, is_allowed, blocked, verify_selection}
use syn_antona.Live.Claims.{claim_submission}
use syn_antona.Live.Outcomes.{
  LiveFill, Outcome, filled_outcome, protected_outcome, emergency_closed_outcome, unknown_outcome,
  rejected_outcome, update_execution,
}

pub record ArmingGates : Type 0 where
  pub live_trading_enabled : Bool
  pub controlled_live_enabled : Bool
  pub manual_first_order_approved : Bool
  pub first_symbol : Option String

pub record CurrentInstrumentState : Type 0 where
  pub symbol : String
  pub status : String
  pub ask_price : Decimal
  pub minimum_quantity : Decimal
  pub quantity_step : Decimal
  pub minimum_notional : Decimal

-- The calls of the gateway that change the account.
pub data Request : Type 0 where
  submit_market : ManualExecutionPreview → Request
  install_native_protection : LiveFill → Decimal → Decimal → Request
  emergency_close_reduce_only : LiveFill → String → Request
  cancel_pending_orders : String → Request

-- How `submit_market` ends: a fill, `OrderRejected`, or an exception of the named type.
pub data Submission : Type 0 where
  filled : LiveFill → Submission
  rejected : Submission
  failed : String → Submission

-- What the gateway answers in one execution. A call that raises names the type of its exception.
pub record Replies : Type 0 where
  pub current : Result CurrentInstrumentState
  pub dry_run : Bool
  pub prepared : Result (Unit {0})
  pub submission : Submission
  pub protection : Option String
  pub close : Option String

-- The database, and the requests that were sent.
pub record World : Type 0 where
  pub db : Database
  pub sent : List Request

abbrev pub on_database : {A : Type 0} → Action Database A → Action World A
on_database call w = let (r, db') = call w.db in (r, record w { db = db' })

abbrev pub send : Request → Action World (Unit {0})
send request = write (λ w. record w { sent = w.sent ++ request ∷ [] })

abbrev pub multi_symbol_gate_value : String
multi_symbol_gate_value = "MULTI_SYMBOL_SCANNER"

unfoldable pub is_armed : ArmingGates → Bool
is_armed g = g.live_trading_enabled && g.controlled_live_enabled && g.manual_first_order_approved

-- `self.first_symbol == expected_symbol`, or the multi symbol value and a scanner symbol.
unfoldable pub authorizes : ArmingGates → String → Bool
authorizes g expected_symbol = elim g.first_symbol [
  | none ↦ false
  | some s ↦ (s == expected_symbol) || (s == multi_symbol_gate_value) && is_allowed expected_symbol
]

unfoldable pub require_all : ArmingGates → String → Action World (Unit {0})
require_all g expected_symbol = do
  raise_when (λ w. not (is_armed g)) (blocked "Order submission gates are disabled")
  raise_when (λ w. not (authorizes g expected_symbol))
      (blocked "CONTROLLED_LIVE_V1_FIRST_SYMBOL does not authorize this proposal")

-- `max(minimum_notional, minimum_quantity * ask_price)`
abbrev pub actual_minimum : CurrentInstrumentState → Decimal
actual_minimum c = max_d c.minimum_notional (c.minimum_quantity *D c.ask_price)

unfoldable pub validate_current_instrument :
    ManualExecutionPreview → CurrentInstrumentState → Action World (Unit {0})
validate_current_instrument preview current = do
  raise_when (λ w. not (current.symbol == preview.symbol) || not (current.status == "Trading"))
      (blocked "Selected USDT perpetual is not currently available")
  raise_when (λ w. current.quantity_step ≤D zero_d)
      (blocked "Quantity no longer matches the current instrument step")
  multiple ← reading (λ w. is_multiple preview.quantity current.quantity_step)
  raise_when (λ w. not multiple) (blocked "Quantity no longer matches the current instrument step")
  raise_when (λ w. preview.quantity <D current.minimum_quantity)
      (blocked "Quantity is below the current instrument minimum")
  raise_when (λ w. actual_minimum current <D dec 5 0 || dec 10 0 <D actual_minimum current)
      (blocked "Current minimum order notional is outside the immutable $5-$10 range")
  raise_when
      (λ w. controlled_live_v1.max_position_notional <D preview.quantity *D current.ask_price)
      (blocked "Current ask price exceeds the first-order notional cap")

abbrev pub require_admin : List ℕ → ℕ → Action World (Unit {0})
require_admin admin_ids admin_id =
    raise_when (λ w. not (any (λ a. leb a admin_id && leb admin_id a) admin_ids))
      (blocked "ADMIN_TELEGRAM_IDS authorization required")

abbrev pub is_autonomous : Source → Bool
is_autonomous Source.ai_autonomous = true
is_autonomous _ = false

abbrev pub is_frozen : Source → Bool
is_frozen Source.frozen_strategy = true
is_frozen _ = false

module _ (profile : ControlledLiveProfile) (instrument : FirstInstrumentSelection)
    (digests : Digests) where
  abbrev pub mark : ManualExecutionPreview → Outcome → ℕ → Action World (Unit {0})
  mark preview outcome now =
      on_database (update_execution profile instrument digests preview outcome now)

  -- `if preview.source == FROZEN_SIGNAL_SOURCE: self.repository._verify_selection(...)`
  abbrev pub check_frozen : ManualExecutionPreview → Action World (Unit {0})
  check_frozen preview =
      if is_frozen preview.source
      then reading
          (λ w. verify_selection profile instrument digests preview.symbol preview.selection_hash)
      else return tt

  -- What comes before the order is claimed: nothing is written and nothing is sent.
  unfoldable pub admit :
      List ℕ → ℕ → ManualExecutionPreview → ArmingGates → Replies → Action World (Unit {0})
  admit admin_ids admin_id preview gates replies = do
    require_admin admin_ids admin_id
    require_all gates preview.symbol
    raise_when (λ w. is_autonomous preview.source)
        (blocked
          "Strategy and AI cannot submit directly; only an admin-approved frozen signal may execute")
    check_frozen preview
    current ← reading (λ w. replies.current)
    validate_current_instrument preview current
    reading (λ w. if replies.dry_run then replies.prepared else ok tt)
    raise_when (λ w. replies.dry_run)
        (blocked "DRY_RUN signed and validated the request; mutating HTTP was not sent")

  -- What follows the request for the native stop and target: its exception, if it raised, and the
  -- exception of the emergency close, if that raised too.
  unfoldable pub settle_protection :
      ManualExecutionPreview → ℕ → LiveFill → Option String → Option String → Action World LiveFill
  settle_protection preview now fill none close_error = do
    mark preview protected_outcome now
    return fill
  settle_protection preview now fill (some protection_error) none = do
    send (Request.emergency_close_reduce_only fill preview.symbol)
    mark preview (emergency_closed_outcome protection_error) now
    raise
        (Error.protection_failure "Native SL/TP failed; position was emergency-closed reduce-only")
  settle_protection preview now fill (some protection_error) (some close_error) = do
    send (Request.emergency_close_reduce_only fill preview.symbol)
    mark preview (unknown_outcome close_error) now
    raise (Error.protection_failure "UNPROTECTED POSITION: emergency reduce-only close failed")

  unfoldable pub protect : ManualExecutionPreview → Replies → ℕ → LiveFill → Action World LiveFill
  protect preview replies now fill = do
    mark preview (filled_outcome fill) now
    send (Request.install_native_protection fill preview.stop_loss preview.take_profit)
    settle_protection preview now fill replies.protection replies.close

  abbrev pub refuse_empty : ManualExecutionPreview → ℕ → Action World LiveFill
  refuse_empty preview now = do
    mark preview (unknown_outcome "RuntimeError") now
    raise (Error.reconciliation_required "No fill confirmed; reconciliation required")

  unfoldable pub settle_submission :
      ManualExecutionPreview → Replies → ℕ → Submission → Action World LiveFill
  settle_submission preview replies now Submission.rejected = do
    mark preview (rejected_outcome "OrderRejected") now
    raise Error.order_rejected
  settle_submission preview replies now (Submission.failed error) = do
    mark preview (unknown_outcome error) now
    raise (Error.reconciliation_required "Order outcome is unknown; automatic retry is forbidden")
  settle_submission preview replies now (Submission.filled fill) =
      if fill.filled_quantity ≤D zero_d
      then refuse_empty preview now
      else protect preview replies now fill

  unfoldable pub submit : ManualExecutionPreview → Replies → ℕ → Action World LiveFill
  submit preview replies now = do
    send (Request.submit_market preview)
    settle_submission preview replies now replies.submission

  unfoldable pub execute_first_order :
      List ℕ
      → ℕ
      → ManualExecutionPreview
      → String
      → ArmingGates
      → Replies
      → ℕ
      → Action World LiveFill
  execute_first_order admin_ids admin_id preview account_id gates replies now = do
    admit admin_ids admin_id preview gates replies
    on_database (claim_submission profile instrument digests preview account_id now)
    submit preview replies now
