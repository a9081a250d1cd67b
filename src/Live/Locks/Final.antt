-- ===== src/Live/Locks/Final.antt =====
-- What the flags promise of any sequence of transactions.
use syn_antona.Prelude.{ℕ, String, ◌≡◌, refl, true, List, [], ◌∷◌, arith, all, all-cons}
use syn_antona.Prelude.Errors.{Error, ok, err}
use syn_antona.Live.Profile.{
  ControlledLiveProfile, FirstInstrumentSelection, ManualExecutionPreview,
}
use syn_antona.Live.Records.{Database}
use syn_antona.Live.Repository.{Digests}
use syn_antona.Live.Claims.{claim_submission, claim_ai_submission}
use syn_antona.Live.Outcomes.{activate_kill_switch}
use syn_antona.Live.Calls.{Call, after, after_all}
use syn_antona.Live.Locks.{Flag, is_set, keeps}
use syn_antona.Live.Locks.Steps.{
  state-is_set, refresh_loss_baselines-is_set, enable_automatic_execution-is_set,
  save_preview-is_set, approve-is_set, cancel-is_set, claim_submission-refused,
  claim_ai_submission-refused, claim_submission-is_set, claim_ai_submission-is_set,
  update_ai_execution-is_set, activate_kill_switch-is_set, update_execution-is_set, claim-locks,
  activate-kills,
}

module _ (profile : ControlledLiveProfile) (instrument : FirstInstrumentSelection)
    (digests : Digests) where
  after-is_set :
      (flag : Flag) (db : Database) (c : Call)
      → keeps flag c ≡ true
      → is_set flag db ≡ true
      → is_set flag (after profile instrument digests db c) ≡ true
  unfolding after
  after-is_set flag db Call.read_state k set = state-is_set profile instrument digests flag db set
  after-is_set flag db (Call.refresh equity pnl day) k set =
      refresh_loss_baselines-is_set profile instrument digests flag equity pnl day db set
  after-is_set flag db Call.enable k set =
      enable_automatic_execution-is_set profile instrument digests flag db set
  after-is_set flag db (Call.save v admin) k set =
      save_preview-is_set profile instrument digests flag v admin db set
  after-is_set flag db (Call.approve_hash h admin now) k set =
      approve-is_set profile instrument digests flag h admin now db set
  after-is_set flag db (Call.cancel_id i admin now) k set =
      cancel-is_set profile instrument digests flag i admin now db set
  after-is_set flag db (Call.claim v account now) k set =
      claim_submission-is_set profile instrument digests flag v account now db set
  after-is_set flag db (Call.update v o now) k set =
      update_execution-is_set profile instrument digests flag v o now db k set
  after-is_set flag db (Call.claim_ai v account now) k set =
      claim_ai_submission-is_set profile instrument digests flag v account now db set
  after-is_set flag db (Call.update_ai v o now) k set =
      update_ai_execution-is_set profile instrument digests flag v o now db set
  after-is_set flag db Call.kill k set =
      activate_kill_switch-is_set profile instrument digests flag db set

  after_all-is_set :
      (flag : Flag) (cs : List Call) (db : Database)
      → all (keeps flag) cs ≡ true
      → is_set flag db ≡ true
      → is_set flag (after_all profile instrument digests db cs) ≡ true
  unfolding after_all
  after_all-is_set flag [] db k set = set
  after_all-is_set flag (c ∷ cs) db k set =
      after_all-is_set flag cs (after profile instrument digests db c)
        (all-cons (keeps flag) c cs k).1
        (after-is_set flag db c (all-cons (keeps flag) c cs k).0 set)

  all-killed : (cs : List Call) → all (keeps Flag.kill_switch) cs ≡ true
  unfolding keeps
  all-killed [] = refl
  all-killed (c ∷ cs) = let rest = all-killed cs in ground arith

  -- While the outcome of a claimed order is open, no second order is claimed: once a claim returned,
  -- after any transactions of which none finishes or releases the order, every claim raises and
  -- changes nothing.
  pub second_claim_refused :
      (v v' : ManualExecutionPreview) (account account' : String) (now now' : ℕ) (cs : List Call)
      (db : Database) {db' : Database}
      → claim_submission profile instrument digests v account now db ≡ (ok tt, db')
      → all (keeps Flag.order_in_progress) cs ≡ true
      → (e : Error) × (claim_submission profile instrument digests v' account' now'
            (after_all profile instrument digests db' cs)
          ≡ (err e, after_all profile instrument digests db' cs))
  second_claim_refused v v' account account' now now' cs db {db'} claimed pending =
      claim_submission-refused profile instrument digests Flag.order_in_progress v' account' now'
        (after_all profile instrument digests db' cs)
        (after_all-is_set Flag.order_in_progress cs db' pending
          (claim-locks profile instrument digests v account now db claimed))

  -- The kill switch is final: once it was activated, after any transactions at all, the claims of
  -- both sources raise and change nothing.
  pub killed_for_good :
      (v : ManualExecutionPreview) (account : String) (now : ℕ) (cs : List Call) (db : Database)
      {db' : Database}
      → activate_kill_switch profile instrument digests db ≡ (ok tt, db')
      → ((e : Error) × (claim_submission profile instrument digests v account now
              (after_all profile instrument digests db' cs)
            ≡ (err e, after_all profile instrument digests db' cs)))
        × ((e : Error) × (claim_ai_submission profile instrument digests v account now
                (after_all profile instrument digests db' cs)
              ≡ (err e, after_all profile instrument digests db' cs)))
  killed_for_good v account now cs db {db'} killed =
      let last : Database = after_all profile instrument digests db' cs in
      let still : is_set Flag.kill_switch last ≡ true =
        after_all-is_set Flag.kill_switch cs db' (all-killed cs)
          (activate-kills profile instrument digests db killed) in
      (
        claim_submission-refused profile instrument digests Flag.kill_switch v account now last
            still,
        claim_ai_submission-refused profile instrument digests v account now last still,
      )
