-- ===== src/Live/Outcomes.antt =====
-- The methods of `ControlledLiveRepository` that record what became of an order, and the kill switch.
-- `update_execution` takes what its callers pass by keyword as one record.
pub mod Tracked
use syn_antona.Prelude.{
  ℕ, String, Bool, true, false, not, Option, none, some, List, [], ◌∷◌, ◌++◌, if◌then◌else◌, ◌||◌,
  ◌&&◌, any,
}
use syn_antona.Prelude.Keys.{◌==◌, text_key}
use syn_antona.Prelude.Errors.{Error, Result, ok, err, or_raise}
use syn_antona.Prelude.Actions.{Action, ◌>>=◌, ◌>>◌, return, reading, write, raise_when}
use syn_antona.Decimal.{Decimal}
use syn_antona.Live.Profile.{
  ControlledLiveProfile, FirstInstrumentSelection, Source, ManualExecutionPreview,
}
use syn_antona.Live.Records.{
  ProposalStatus, OrderStatus, LiveState, Proposal, ExecutionOrder, Database,
}
use syn_antona.Prelude.Tables.{find, update_first, find-update_first, find-test, find-append}
use syn_antona.Live.Repository.{
  Digests, is_order, or_keep, verify_hash, existing_state, put_state, put_proposal, get_proposal,
}
use syn_antona.Live.Claims.{is_ai, client_order_id}

pub record LiveFill : Type 0 where
  pub order_id : String
  pub position_id : String
  pub filled_quantity : Decimal
  pub average_price : Decimal
  pub fee : Decimal

-- What becomes of the one-order lock of the state row.
pub data Lock : Type 0 where
  keep_lock finish_first_order release_first_order : Lock

pub record Outcome : Type 0 where
  pub proposal_status : ProposalStatus
  pub ledger_status : OrderStatus
  pub exchange_order_id : Option String
  pub position_id : Option String
  pub exchange_status : Option String
  pub error_code : Option String
  pub lock : Lock

abbrev pub plain_outcome : ProposalStatus → OrderStatus → Outcome
plain_outcome proposal_status ledger_status = record {
  proposal_status = proposal_status;
  ledger_status = ledger_status;
  exchange_order_id = none;
  position_id = none;
  exchange_status = none;
  error_code = none;
  lock = Lock.keep_lock;
}

abbrev pub filled_outcome : LiveFill → Outcome
filled_outcome fill =
    record (plain_outcome ProposalStatus.filled_unprotected OrderStatus.submitted) {
      exchange_order_id = some fill.order_id;
      position_id = some fill.position_id;
      exchange_status = some "FILLED";
    }

abbrev pub protected_outcome : Outcome
protected_outcome = record (plain_outcome ProposalStatus.protected OrderStatus.filled_protected) {
  lock = Lock.finish_first_order;
}

abbrev pub emergency_closed_outcome : String → Outcome
emergency_closed_outcome error =
    record (plain_outcome ProposalStatus.emergency_closed OrderStatus.emergency_closed) {
      error_code = some error;
      lock = Lock.finish_first_order;
    }

abbrev pub unknown_outcome : String → Outcome
unknown_outcome error = record (plain_outcome ProposalStatus.unknown OrderStatus.unknown) {
  error_code = some error;
}

abbrev pub rejected_outcome : String → Outcome
rejected_outcome error = record (plain_outcome ProposalStatus.rejected OrderStatus.rejected) {
  error_code = some error;
  lock = Lock.release_first_order;
}

abbrev pub is_finish : Lock → Bool
is_finish Lock.finish_first_order = true
is_finish _ = false

abbrev pub settle_lock : Lock → LiveState → LiveState
settle_lock Lock.keep_lock s = s
settle_lock Lock.finish_first_order s = record s {
  first_order_in_progress = false;
  first_order_executed = true;
}
settle_lock Lock.release_first_order s = record s { first_order_in_progress = false }

abbrev pub settle_proposal : Outcome → ℕ → Proposal → Proposal
settle_proposal o now p = record p {
  status = o.proposal_status;
  exchange_order_id = or_keep o.exchange_order_id p.exchange_order_id;
  position_id = or_keep o.position_id p.position_id;
  error_code = o.error_code;
  completed_at = if is_finish o.lock then some now else p.completed_at;
}

abbrev pub settle_order : Outcome → ExecutionOrder → ExecutionOrder
settle_order o row = record row {
  status = o.ledger_status;
  exchange_order_id = or_keep o.exchange_order_id row.exchange_order_id;
  exchange_status = or_keep o.exchange_status row.exchange_status;
  error_code = o.error_code;
}

-- `proposal_status in {"PROTECTED", "EMERGENCY_CLOSED", "REJECTED"}`
abbrev pub is_final : ProposalStatus → Bool
is_final ProposalStatus.protected = true
is_final ProposalStatus.emergency_closed = true
is_final ProposalStatus.rejected = true
is_final _ = false

abbrev pub settle_ai_proposal : Outcome → ℕ → Proposal → Proposal
settle_ai_proposal o now p = record p {
  status = o.proposal_status;
  exchange_order_id = or_keep o.exchange_order_id p.exchange_order_id;
  position_id = or_keep o.position_id p.position_id;
  error_code = o.error_code;
  completed_at = if is_final o.proposal_status then some now else p.completed_at;
}

module _ (profile : ControlledLiveProfile) (instrument : FirstInstrumentSelection)
    (digests : Digests) where
  unfoldable pub update_execution :
      ManualExecutionPreview → Outcome → ℕ → Action Database (Unit {0})
  update_execution preview o now = do
    p ← reading (λ db.
        or_raise (get_proposal preview.proposal_id db)
          (Error.runtime_error "Controlled execution persistence is incomplete"))
    row ← reading (λ db.
        or_raise (find (is_order (client_order_id profile instrument digests preview)) db.orders)
          (Error.runtime_error "Controlled execution persistence is incomplete"))
    s ← reading (λ db.
        or_raise db.state (Error.runtime_error "Controlled execution persistence is incomplete"))
    write (λ db. put_state (settle_lock o.lock s) (
        put_proposal (settle_proposal o now p) (record db {
          orders =
              update_first (is_order (client_order_id profile instrument digests preview))
                (settle_order o) db.orders;
        })))

  -- A missing state row is created with the switch already on.
  unfoldable pub activate_kill_switch : Action Database (Unit {0})
  activate_kill_switch = do
    s ← reading (λ db. ok (existing_state profile instrument digests db))
    reading (λ db. verify_hash profile instrument digests s.profile_hash)
    write (put_state (record s { kill_switch_active = true }))

  -- `_update_ai_execution`; the `lock` of the outcome is not used.
  unfoldable pub update_ai_execution :
      ManualExecutionPreview → Outcome → ℕ → Action Database (Unit {0})
  update_ai_execution preview o now = do
    p ← reading (λ db.
        or_raise (get_proposal preview.proposal_id db)
          (Error.runtime_error "AI execution persistence is incomplete"))
    row ← reading (λ db.
        or_raise (find (is_order (client_order_id profile instrument digests preview)) db.orders)
          (Error.runtime_error "AI execution persistence is incomplete"))
    raise_when (λ db. not (is_ai p.source))
        (Error.runtime_error "AI execution persistence is incomplete")
    write (λ db. put_proposal (settle_ai_proposal o now p) (record db {
      orders =
          update_first (is_order (client_order_id profile instrument digests preview))
            (settle_order o) db.orders;
    }))
