-- ===== src/Live/Calls.antt =====
-- Any sequence of calls of `ControlledLiveRepository`, each of them one transaction.
use syn_antona.Prelude.{ℕ, String, List, [], ◌∷◌}
use syn_antona.Decimal.{Decimal}
use syn_antona.Live.Profile.{
  ControlledLiveProfile, FirstInstrumentSelection, ManualExecutionPreview,
}
use syn_antona.Live.Records.{Database}
use syn_antona.Live.Repository.{
  Digests, state, refresh_loss_baselines, enable_automatic_execution, save_preview, approve, cancel,
}
use syn_antona.Live.Claims.{claim_submission, claim_ai_submission}
use syn_antona.Live.Outcomes.{Outcome, update_execution, update_ai_execution, activate_kill_switch}

pub data Call : Type 0 where
  read_state : Call
  refresh : Decimal → Decimal → ℕ → Call
  enable : Call
  save : ManualExecutionPreview → ℕ → Call
  approve_hash : String → ℕ → ℕ → Call
  cancel_id : String → ℕ → ℕ → Call
  claim : ManualExecutionPreview → String → ℕ → Call
  update : ManualExecutionPreview → Outcome → ℕ → Call
  claim_ai : ManualExecutionPreview → String → ℕ → Call
  update_ai : ManualExecutionPreview → Outcome → ℕ → Call
  kill : Call

module _ (profile : ControlledLiveProfile) (instrument : FirstInstrumentSelection)
    (digests : Digests) where
  unfoldable pub after : Database → Call → Database
  after db Call.read_state = (state profile instrument digests db).1
  after db (Call.refresh equity pnl day) =
      (refresh_loss_baselines profile instrument digests equity pnl day db).1
  after db Call.enable = (enable_automatic_execution profile instrument digests db).1
  after db (Call.save preview admin) = (save_preview profile instrument digests preview admin db).1
  after db (Call.approve_hash hash admin now) =
      (approve profile instrument digests hash admin now db).1
  after db (Call.cancel_id k admin now) = (cancel profile instrument digests k admin now db).1
  after db (Call.claim preview account now) =
      (claim_submission profile instrument digests preview account now db).1
  after db (Call.update preview o now) =
      (update_execution profile instrument digests preview o now db).1
  after db (Call.claim_ai preview account now) =
      (claim_ai_submission profile instrument digests preview account now db).1
  after db (Call.update_ai preview o now) =
      (update_ai_execution profile instrument digests preview o now db).1
  after db Call.kill = (activate_kill_switch profile instrument digests db).1

  unfoldable pub after_all : Database → List Call → Database
  after_all db [] = db
  after_all db (c ∷ cs) = after_all (after db c) cs
