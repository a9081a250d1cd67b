-- ===== src/Live/Execution/Ended.antt =====
-- The ways an execution can end.
use mathlib.Core.List.{append_assoc}
use syn_antona.Prelude.{ap, ℕ, String, ◌≡◌, refl, Bool, true, false, List, [], ◌∷◌, ◌++◌, ◌∙◌}
use syn_antona.Prelude.Errors.{Error, Result, ok, err}
use syn_antona.Prelude.Actions.{Action, ◌>>=◌, after-ok}
use syn_antona.Decimal.{zero_d, ◌<D◌}
use syn_antona.Live.Profile.{
  ControlledLiveProfile, FirstInstrumentSelection, ManualExecutionPreview,
}
use syn_antona.Live.Records.{ProposalStatus, OrderStatus, Database}
use syn_antona.Live.Repository.{Digests}
use syn_antona.Live.Outcomes.{LiveFill, Outcome}
use syn_antona.Live.Outcomes.Tracked.{IsTracked, lock_after, update-IsTracked}
use syn_antona.Live.Execution.{Request, World, mark}

-- The ways an execution ends that began with the requests `sent`.
pub data Ended (k : String) (v : ManualExecutionPreview) (w : World)
    : Result LiveFill → World → Type 0 where
  -- Before the claim, or by the claim: nothing is written and nothing is sent.
  refused : (e : Error) → Ended k v w (err e) w
  rejected :
      {w' : World}
      → IsTracked k v ProposalStatus.rejected OrderStatus.rejected false w'.db
      → w'.sent ≡ w.sent ++ Request.submit_market v ∷ []
      → Ended k v w (err Error.order_rejected) w'
  unknown :
      (why : String) {w' : World}
      → IsTracked k v ProposalStatus.unknown OrderStatus.unknown true w'.db
      → w'.sent ≡ w.sent ++ Request.submit_market v ∷ []
      → Ended k v w (err (Error.reconciliation_required why)) w'
  protected :
      (fill : LiveFill) {w' : World}
      → (zero_d <D fill.filled_quantity) ≡ true
      → IsTracked k v ProposalStatus.protected OrderStatus.filled_protected false w'.db
      → w'.sent
        ≡ w.sent
          ++ Request.submit_market v
            ∷ Request.install_native_protection fill v.stop_loss v.take_profit
            ∷ []
      → Ended k v w (ok fill) w'
  closed :
      (fill : LiveFill) (why : String) {w' : World}
      → IsTracked k v ProposalStatus.emergency_closed OrderStatus.emergency_closed false w'.db
      → w'.sent
        ≡ w.sent
          ++ Request.submit_market v
            ∷ Request.install_native_protection fill v.stop_loss v.take_profit
            ∷ Request.emergency_close_reduce_only fill v.symbol
            ∷ []
      → Ended k v w (err (Error.protection_failure why)) w'
  unprotected :
      (fill : LiveFill) (why : String) {w' : World}
      → IsTracked k v ProposalStatus.unknown OrderStatus.unknown true w'.db
      → w'.sent
        ≡ w.sent
          ++ Request.submit_market v
            ∷ Request.install_native_protection fill v.stop_loss v.take_profit
            ∷ Request.emergency_close_reduce_only fill v.symbol
            ∷ []
      → Ended k v w (err (Error.protection_failure why)) w'

-- One more request after `zs`.
pub longer :
    {A : Type 0} (ys zs : List A) (x : A) {xs : List A}
    → xs ≡ ys ++ zs
    → xs ++ x ∷ [] ≡ ys ++ (zs ++ x ∷ [])
longer ys zs x h = ap (λ l. l ++ x ∷ []) h ∙ append_assoc ys zs (x ∷ [])

module _ (profile : ControlledLiveProfile) (instrument : FirstInstrumentSelection)
    (digests : Digests) where
  mark-IsTracked :
      (v : ManualExecutionPreview) (o : Outcome) (now : ℕ) (w : World) {status : ProposalStatus}
      {row_status : OrderStatus} {locked : Bool}
      → IsTracked (digests.client_order_id v.proposal_id) v status row_status locked w.db
      → (db' : Database) × (mark profile instrument digests v o now w
          ≡ (ok tt, record w { db = db' }))
        × IsTracked
            (digests.client_order_id v.proposal_id)
            v
            o.proposal_status
            o.ledger_status
            (lock_after o.lock locked)
            db'
  mark-IsTracked v o now w t =
      let (db', same, t') = update-IsTracked profile instrument digests v o now w.db t in
      (db', rw same refl, t')

  abbrev pub EndsFrom : ManualExecutionPreview → World → Result LiveFill × World → Type 0
  EndsFrom v w₀ x = Ended (digests.client_order_id v.proposal_id) v w₀ x.0 x.1

  -- A block that records an outcome ends as its rest does.
  pub mark-Ends :
      (v : ManualExecutionPreview) (o : Outcome) (now : ℕ) (w₀ w : World)
      (next : Unit {0} → Action World LiveFill) {status : ProposalStatus} {row_status : OrderStatus}
      → IsTracked (digests.client_order_id v.proposal_id) v status row_status true w.db
      → ((db' : Database)
          → IsTracked
              (digests.client_order_id v.proposal_id)
              v
              o.proposal_status
              o.ledger_status
              (lock_after o.lock true)
              db'
          → EndsFrom v w₀ (next tt (record w { db = db' })))
      → EndsFrom v w₀ ((mark profile instrument digests v o now >>= next) w)
  mark-Ends v o now w₀ w next t rest =
      let (db', same, t') = mark-IsTracked v o now w t in
      after-ok (EndsFrom v w₀) (mark profile instrument digests v o now) next same (rest db' t')
