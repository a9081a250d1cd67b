-- ===== src/Live/Execution/Ending.antt =====
-- Where an execution leaves the order, the lock and the account, on every branch.
use mathlib.Core.Path.{subst}
use syn_antona.Prelude.{
  ap, sym, ℕ, String, ◌≡◌, refl, Bool, true, false, not, Option, none, some, List, [], ◌∷◌, ◌++◌,
  inl, inr, ◌∙◌, if◌then◌else◌,
}
use syn_antona.Prelude.Errors.{Error, Result, ok, err}
use syn_antona.Prelude.Actions.{Action, ◌>>=◌, ◌>>◌, return, raise, after-ok, after-err}
use syn_antona.Prelude.Actions.Preserve.{Preserves, preserve_rules}
use syn_antona.Decimal.{zero_d, ◌≤D◌, ◌<D◌}
use syn_antona.Live.Profile.{
  ControlledLiveProfile, FirstInstrumentSelection, ManualExecutionPreview,
}
use syn_antona.Live.Records.{ProposalStatus, OrderStatus}
use syn_antona.Live.Repository.{Digests}
use syn_antona.Live.Claims.{claim_submission}
use syn_antona.Live.Outcomes.{
  LiveFill, filled_outcome, protected_outcome, emergency_closed_outcome, unknown_outcome,
  rejected_outcome,
}
use syn_antona.Live.Outcomes.Tracked.{IsTracked, claim-cases}
use syn_antona.Live.Execution.{
  ArmingGates, Request, Submission, Replies, World, require_all, validate_current_instrument,
  refuse_empty, on_database, send, admit, settle_protection, protect, settle_submission, submit,
  execute_first_order,
}
use syn_antona.Live.Execution.Ended.{
  longer, EndsFrom, mark-Ends, refused, rejected, unknown, protected, closed, unprotected,
}

module _ (profile : ControlledLiveProfile) (instrument : FirstInstrumentSelection)
    (digests : Digests) where
  admit-Preserves :
      (w₀ : World) (admins : List ℕ) (admin : ℕ) (v : ManualExecutionPreview) (g : ArmingGates)
      (r : Replies)
      → Preserves (λ w. w ≡ w₀) (admit profile instrument digests admins admin v g r)
  unfolding admit require_all validate_current_instrument
  admit-Preserves w₀ admins admin v g r = search preserve_rules depth 40

  settle_protection-Ended :
      (v : ManualExecutionPreview) (now : ℕ) (fill : LiveFill) (protection close : Option String)
      (w₀ w : World) {status : ProposalStatus} {row_status : OrderStatus}
      → (zero_d <D fill.filled_quantity) ≡ true
      → IsTracked (digests.client_order_id v.proposal_id) v status row_status true w.db
      → w.sent
        ≡ w₀.sent
          ++ Request.submit_market v
            ∷ Request.install_native_protection fill v.stop_loss v.take_profit
            ∷ []
      → EndsFrom profile instrument digests v w₀
          (settle_protection profile instrument digests v now fill protection close w)
  unfolding settle_protection
  settle_protection-Ended v now fill none close w₀ w positive t sent =
      mark-Ends profile instrument digests v protected_outcome now w₀ w (λ _. return fill) t
        (λ db' t'. protected fill {w' = record w { db = db' }} positive t' sent)
  settle_protection-Ended v now fill (some why) none w₀ w positive t sent =
      let w₁ : World = record w {
        sent = w.sent ++ Request.emergency_close_reduce_only fill v.symbol ∷ [];
      } in
      let e : Error =
        Error.protection_failure "Native SL/TP failed; position was emergency-closed reduce-only" in
      mark-Ends profile instrument digests v (emergency_closed_outcome why) now w₀ w₁ (λ _. raise e)
        t
        (λ db' t'.
          closed fill "Native SL/TP failed; position was emergency-closed reduce-only"
            {w' = record w₁ { db = db' }} t'
            (longer w₀.sent
              (Request.submit_market v
                ∷ Request.install_native_protection fill v.stop_loss v.take_profit
                ∷ [])
              (Request.emergency_close_reduce_only fill v.symbol) sent))
  settle_protection-Ended v now fill (some why) (some close_error) w₀ w positive t sent =
      let w₁ : World = record w {
        sent = w.sent ++ Request.emergency_close_reduce_only fill v.symbol ∷ [];
      } in
      let e : Error =
        Error.protection_failure "UNPROTECTED POSITION: emergency reduce-only close failed" in
      mark-Ends profile instrument digests v (unknown_outcome close_error) now w₀ w₁ (λ _. raise e)
        t
        (λ db' t'.
          unprotected fill "UNPROTECTED POSITION: emergency reduce-only close failed"
            {w' = record w₁ { db = db' }} t'
            (longer w₀.sent
              (Request.submit_market v
                ∷ Request.install_native_protection fill v.stop_loss v.take_profit
                ∷ [])
              (Request.emergency_close_reduce_only fill v.symbol) sent))

  protect-Ended :
      (v : ManualExecutionPreview) (r : Replies) (now : ℕ) (fill : LiveFill) (w₀ w : World)
      {status : ProposalStatus} {row_status : OrderStatus}
      → (zero_d <D fill.filled_quantity) ≡ true
      → IsTracked (digests.client_order_id v.proposal_id) v status row_status true w.db
      → w.sent ≡ w₀.sent ++ Request.submit_market v ∷ []
      → EndsFrom profile instrument digests v w₀ (protect profile instrument digests v r now fill w)
  unfolding protect
  protect-Ended v r now fill w₀ w positive t sent =
      mark-Ends profile instrument digests v (filled_outcome fill) now w₀ w
        (λ _.
          send (Request.install_native_protection fill v.stop_loss v.take_profit)
          >> settle_protection profile instrument digests v now fill r.protection r.close)
        t
        (λ db' t'.
          settle_protection-Ended v now fill r.protection r.close w₀
            (record w {
              db = db';
              sent =
                  w.sent ++ Request.install_native_protection fill v.stop_loss v.take_profit ∷ [];
            })
            positive t'
            (longer w₀.sent (Request.submit_market v ∷ [])
              (Request.install_native_protection fill v.stop_loss v.take_profit) sent))

  settle_submission-Ended :
      (v : ManualExecutionPreview) (r : Replies) (now : ℕ) (submission : Submission) (w₀ w : World)
      {status : ProposalStatus} {row_status : OrderStatus}
      → IsTracked (digests.client_order_id v.proposal_id) v status row_status true w.db
      → w.sent ≡ w₀.sent ++ Request.submit_market v ∷ []
      → EndsFrom profile instrument digests v w₀
          (settle_submission profile instrument digests v r now submission w)
  unfolding settle_submission
  settle_submission-Ended v r now Submission.rejected w₀ w t sent =
      mark-Ends profile instrument digests v (rejected_outcome "OrderRejected") now w₀ w
        (λ _. raise Error.order_rejected) t
        (λ db' t'. rejected {w' = record w { db = db' }} t' sent)
  settle_submission-Ended v r now (Submission.failed error) w₀ w t sent =
      mark-Ends profile instrument digests v (unknown_outcome error) now w₀ w
        (λ _.
          raise (
            Error.reconciliation_required "Order outcome is unknown; automatic retry is forbidden"))
        t
        (λ db' t'.
          unknown "Order outcome is unknown; automatic retry is forbidden"
            {w' = record w { db = db' }} t' sent)
  settle_submission-Ended v r now (Submission.filled fill) w₀ w t sent =
      split (fill.filled_quantity ≤D zero_d) refl
    where
      split :
          (b : Bool)
          → (fill.filled_quantity ≤D zero_d) ≡ b
          → EndsFrom profile instrument digests v w₀ (
              (if b
                  then refuse_empty profile instrument digests v now
                  else protect profile instrument digests v r now fill)
                w)
      split true e =
          mark-Ends profile instrument digests v (unknown_outcome "RuntimeError") now w₀ w
            (λ _.
              raise (Error.reconciliation_required "No fill confirmed; reconciliation required"))
            t
            (λ db' t'.
              unknown "No fill confirmed; reconciliation required" {w' = record w { db = db' }} t'
                sent)
      split false e = protect-Ended v r now fill w₀ w (ap not e) t sent

  -- Every way an execution can end, whatever the gateway answers: either nothing was sent and nothing
  -- written; or exactly one order was sent, and it was rejected and the lock released, or its outcome
  -- is unknown and the lock is kept, or it was filled and then either protected, or closed at once, or
  -- left unknown with the lock kept. It returns only if the order is filled and protected.
  pub execute_ended :
      (admins : List ℕ) (admin : ℕ) (v : ManualExecutionPreview) (account : String)
      (g : ArmingGates) (r : Replies) (now : ℕ) (w : World)
      → EndsFrom profile instrument digests v w
          (execute_first_order profile instrument digests admins admin v account g r now w)
  unfolding execute_first_order submit
  execute_ended admins admin v account g r now w =
      split (admit profile instrument digests admins admin v g r w) refl
    where
      kept : (admit profile instrument digests admins admin v g r w).1 ≡ w
      kept = (admit-Preserves w admins admin v g r).holds w refl

      rest : Unit {0} → Action World LiveFill
      rest _ =
          on_database (claim_submission profile instrument digests v account now)
          >> submit profile instrument digests v r now

      after_claim : EndsFrom profile instrument digests v w (rest tt w)
      after_claim = elim (claim-cases profile instrument digests v account now w.db) [
        | inl (e, raised) ↦
            after-err (EndsFrom profile instrument digests v w)
              (on_database (claim_submission profile instrument digests v account now))
              (λ _. submit profile instrument digests v r now) (rw raised refl) (refused e)
        | inr (db', row_status, claimed, t) ↦
            after-ok (EndsFrom profile instrument digests v w)
              (on_database (claim_submission profile instrument digests v account now))
              (λ _. submit profile instrument digests v r now) (rw claimed refl)
              (settle_submission-Ended v r now r.submission w
                (record w { db = db'; sent = w.sent ++ Request.submit_market v ∷ [] }) t refl)
      ]

      split :
          (x : Result (Unit {0}) × World)
          → admit profile instrument digests admins admin v g r w ≡ x
          → EndsFrom profile instrument digests v w
              ((admit profile instrument digests admins admin v g r >>= rest) w)
      split (ok tt, w') same =
          after-ok (EndsFrom profile instrument digests v w)
            (admit profile instrument digests admins admin v g r) rest same
            (subst (λ u. EndsFrom profile instrument digests v w (rest tt u))
              (sym kept ∙ ap (λ y. y.1) same) after_claim)
      split (err e, w') same =
          after-err (EndsFrom profile instrument digests v w)
            (admit profile instrument digests admins admin v g r) rest same
            (subst (λ u. EndsFrom profile instrument digests v w (err e, u))
              (sym kept ∙ ap (λ y. y.1) same) (refused e))
