-- ===== src/Live/Locks.antt =====
-- The one-order lock and the kill switch of the state row.
pub mod Steps
pub mod Final
mod Tests
use syn_antona.Prelude.{
  ℕ, String, ◌≡◌, refl, Bool, true, false, not, Option, none, some, List, [], ◌∷◌, arith, all, ◌&&◌,
}
use syn_antona.Prelude.Errors.{Error, Result, ok, err}
use syn_antona.Prelude.Actions.{Action, write}
use syn_antona.Prelude.Actions.Preserve.{Preserves, Preserves-write, preserve_rules}
use syn_antona.Decimal.{Decimal}
use syn_antona.Live.Profile.{
  ControlledLiveProfile, FirstInstrumentSelection, ManualExecutionPreview,
}
use syn_antona.Live.Records.{Database, LiveState}
use syn_antona.Live.Repository.{
  Digests, verify_hash, verify_selection, check_owner, state, refresh_loss_baselines,
  enable_automatic_execution, save_preview, approve, cancel,
}
use syn_antona.Live.Claims.{claim_submission, check_claim, claim_ai_submission, check_ai_claim}
use syn_antona.Live.Outcomes.{
  Outcome, Lock, update_execution, update_ai_execution, activate_kill_switch,
}
use syn_antona.Live.Calls.{Call, after, after_all}

-- What stops an order: the kill switch, or an order that is in progress.
pub data Flag : Type 0 where
  kill_switch order_in_progress : Flag

unfoldable pub is_set : Flag → Database → Bool
is_set flag db = elim db.state [
  | none ↦ false
  | some s ↦ elim flag [
    | kill_switch ↦ s.kill_switch_active
    | order_in_progress ↦ s.first_order_in_progress
  ]
]

abbrev pub keeps_lock : Lock → Bool
keeps_lock Lock.keep_lock = true
keeps_lock _ = false

-- Only the outcome of an order may lift a flag, and only the lock of the order.
unfoldable pub keeps : Flag → Call → Bool
keeps Flag.order_in_progress (Call.update preview o now) = keeps_lock o.lock
keeps _ _ = true
