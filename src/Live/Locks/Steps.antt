-- ===== src/Live/Locks/Steps.antt =====
-- What each transaction does to the flags of the state row.
use syn_antona.Prelude.{ℕ, String, ◌≡◌, refl, Bool, true, false, arith}
use syn_antona.Prelude.Errors.{Error, Result, ok, err}
use syn_antona.Decimal.{Decimal}
use syn_antona.Live.Profile.{
  ControlledLiveProfile, FirstInstrumentSelection, ManualExecutionPreview,
}
use syn_antona.Live.Records.{Database}
use syn_antona.Live.Repository.{
  Digests, check_owner, state, refresh_loss_baselines, enable_automatic_execution, save_preview,
  approve, cancel,
}
use syn_antona.Live.Claims.{claim_submission, check_claim, claim_ai_submission, check_ai_claim}
use syn_antona.Live.Outcomes.{Outcome, update_execution, update_ai_execution, activate_kill_switch}
use syn_antona.Live.Calls.{Call}
use syn_antona.Live.Locks.{Flag, is_set, keeps}

abbrev is_err {ℓ} : {A : Type ℓ} → Result A → Bool
is_err (ok a) = false
is_err (err e) = true

refused {ℓ} : {A : Type ℓ} (r : Result A) → is_err r ≡ true → (e : Error) × (r ≡ err e)
refused (ok a) h = ground arith
refused (err e) h = (e, refl)

module _ (profile : ControlledLiveProfile) (instrument : FirstInstrumentSelection)
    (digests : Digests) where
  check_claim-is_err :
      (flag : Flag) (v : ManualExecutionPreview) (account : String) (db : Database)
      → is_set flag db ≡ true
      → is_err (check_claim profile instrument digests v account db) ≡ true
  unfolding is_set check_claim
  check_claim-is_err Flag.kill_switch v account db set = ground arith
  check_claim-is_err Flag.order_in_progress v account db set = ground arith

  check_ai_claim-is_err :
      (v : ManualExecutionPreview) (account : String) (db : Database)
      → is_set Flag.kill_switch db ≡ true
      → is_err (check_ai_claim profile instrument digests v account db) ≡ true
  unfolding is_set check_ai_claim
  check_ai_claim-is_err v account db set = ground arith

  pub state-is_set :
      (flag : Flag) (db : Database)
      → is_set flag db ≡ true
      → is_set flag (state profile instrument digests db).1 ≡ true
  unfolding is_set state
  state-is_set Flag.kill_switch db set = ground arith
  state-is_set Flag.order_in_progress db set = ground arith

  pub refresh_loss_baselines-is_set :
      (flag : Flag) (equity pnl : Decimal) (day : ℕ) (db : Database)
      → is_set flag db ≡ true
      → is_set flag (refresh_loss_baselines profile instrument digests equity pnl day db).1 ≡ true
  unfolding is_set refresh_loss_baselines
  refresh_loss_baselines-is_set Flag.kill_switch equity pnl day db set = ground arith
  refresh_loss_baselines-is_set Flag.order_in_progress equity pnl day db set = ground arith

  pub enable_automatic_execution-is_set :
      (flag : Flag) (db : Database)
      → is_set flag db ≡ true
      → is_set flag (enable_automatic_execution profile instrument digests db).1 ≡ true
  unfolding is_set enable_automatic_execution
  enable_automatic_execution-is_set Flag.kill_switch db set = ground arith
  enable_automatic_execution-is_set Flag.order_in_progress db set = ground arith

  pub save_preview-is_set :
      (flag : Flag) (v : ManualExecutionPreview) (admin : ℕ) (db : Database)
      → is_set flag db ≡ true
      → is_set flag (save_preview profile instrument digests v admin db).1 ≡ true
  unfolding is_set save_preview
  save_preview-is_set Flag.kill_switch v admin db set = ground arith
  save_preview-is_set Flag.order_in_progress v admin db set = ground arith

  pub approve-is_set :
      (flag : Flag) (hash : String) (admin now : ℕ) (db : Database)
      → is_set flag db ≡ true
      → is_set flag (approve profile instrument digests hash admin now db).1 ≡ true
  unfolding is_set approve check_owner
  approve-is_set Flag.kill_switch hash admin now db set = ground arith
  approve-is_set Flag.order_in_progress hash admin now db set = ground arith

  pub cancel-is_set :
      (flag : Flag) (k : String) (admin now : ℕ) (db : Database)
      → is_set flag db ≡ true
      → is_set flag (cancel profile instrument digests k admin now db).1 ≡ true
  unfolding is_set cancel check_owner
  cancel-is_set Flag.kill_switch k admin now db set = ground arith
  cancel-is_set Flag.order_in_progress k admin now db set = ground arith

  pub claim_submission-refused :
      (flag : Flag) (v : ManualExecutionPreview) (account : String) (now : ℕ) (db : Database)
      → is_set flag db ≡ true
      → (e : Error) × (claim_submission profile instrument digests v account now db ≡ (err e, db))
  unfolding claim_submission
  claim_submission-refused flag v account now db set =
      let (e, raised) =
        refused (check_claim profile instrument digests v account db)
          (check_claim-is_err flag v account db set) in
      (e, rw (claim_submission, raised) refl)

  pub claim_ai_submission-refused :
      (v : ManualExecutionPreview) (account : String) (now : ℕ) (db : Database)
      → is_set Flag.kill_switch db ≡ true
      → (e : Error) × (claim_ai_submission profile instrument digests v account now db
          ≡ (err e, db))
  unfolding claim_ai_submission
  claim_ai_submission-refused v account now db set =
      let (e, raised) =
        refused (check_ai_claim profile instrument digests v account db)
          (check_ai_claim-is_err v account db set) in
      (e, rw (claim_ai_submission, raised) refl)

  pub claim_submission-is_set :
      (flag : Flag) (v : ManualExecutionPreview) (account : String) (now : ℕ) (db : Database)
      → is_set flag db ≡ true
      → is_set flag (claim_submission profile instrument digests v account now db).1 ≡ true
  claim_submission-is_set flag v account now db set =
      let (e, same) = claim_submission-refused flag v account now db set in rw same set

  pub claim_ai_submission-is_set :
      (flag : Flag) (v : ManualExecutionPreview) (account : String) (now : ℕ) (db : Database)
      → is_set flag db ≡ true
      → is_set flag (claim_ai_submission profile instrument digests v account now db).1 ≡ true
  unfolding claim_ai_submission is_set
  claim_ai_submission-is_set Flag.kill_switch v account now db set = ground arith
  claim_ai_submission-is_set Flag.order_in_progress v account now db set = ground arith

  pub update_ai_execution-is_set :
      (flag : Flag) (v : ManualExecutionPreview) (o : Outcome) (now : ℕ) (db : Database)
      → is_set flag db ≡ true
      → is_set flag (update_ai_execution profile instrument digests v o now db).1 ≡ true
  unfolding is_set update_ai_execution
  update_ai_execution-is_set Flag.kill_switch v o now db set = ground arith
  update_ai_execution-is_set Flag.order_in_progress v o now db set = ground arith

  pub activate_kill_switch-is_set :
      (flag : Flag) (db : Database)
      → is_set flag db ≡ true
      → is_set flag (activate_kill_switch profile instrument digests db).1 ≡ true
  unfolding is_set activate_kill_switch
  activate_kill_switch-is_set Flag.kill_switch db set = ground arith
  activate_kill_switch-is_set Flag.order_in_progress db set = ground arith

  pub update_execution-is_set :
      (flag : Flag) (v : ManualExecutionPreview) (o : Outcome) (now : ℕ) (db : Database)
      → keeps flag (Call.update v o now) ≡ true
      → is_set flag db ≡ true
      → is_set flag (update_execution profile instrument digests v o now db).1 ≡ true
  unfolding is_set update_execution keeps
  update_execution-is_set Flag.kill_switch v o now db kept set = ground arith
  update_execution-is_set Flag.order_in_progress v o now db kept set = ground arith

  pub claim-locks :
      (v : ManualExecutionPreview) (account : String) (now : ℕ) (db : Database) {db' : Database}
      → claim_submission profile instrument digests v account now db ≡ (ok tt, db')
      → is_set Flag.order_in_progress db' ≡ true
  unfolding claim_submission is_set
  claim-locks v account now db h = ground arith

  pub activate-kills :
      (db : Database) {db' : Database}
      → activate_kill_switch profile instrument digests db ≡ (ok tt, db')
      → is_set Flag.kill_switch db' ≡ true
  unfolding activate_kill_switch is_set
  activate-kills db h = ground arith
