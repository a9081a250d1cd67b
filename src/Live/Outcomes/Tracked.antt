-- ===== src/Live/Outcomes/Tracked.antt =====
-- Where an order stands in the database: its proposal, its row and the lock, and what recording an
-- outcome does to them.
use syn_antona.Prelude.{
  ℕ, String, ◌≡◌, refl, Bool, true, false, some, List, [], ◌∷◌, arith, inl, inr, ◌⊎◌,
}
use syn_antona.Prelude.Keys.{text_key, ==_self, ==_iff}
use syn_antona.Prelude.Errors.{Error, Result, ok, err}
use syn_antona.Live.Profile.{
  ControlledLiveProfile, FirstInstrumentSelection, ManualExecutionPreview,
}
use syn_antona.Live.Records.{
  ProposalStatus, OrderStatus, LiveState, Proposal, ExecutionOrder, Database,
}
use syn_antona.Prelude.Tables.{find, update_first, find-update_first, find-test, find-append}
use syn_antona.Live.Repository.{
  Digests, is_order, is_proposal, get_proposal, put_state, put_proposal,
}
use syn_antona.Live.Claims.{check_claim, claim_submission, claimed, new_order}
use syn_antona.Live.Outcomes.{
  Lock, Outcome, settle_lock, settle_proposal, settle_order, update_execution,
}

-- The lock after an outcome.
abbrev pub lock_after : Lock → Bool → Bool
lock_after Lock.keep_lock b = b
lock_after _ b = false

-- The order of a preview: its client order id is `k`.
pub record IsTracked (k : String) (v : ManualExecutionPreview) (status : ProposalStatus)
    (row_status : OrderStatus) (locked : Bool) (db : Database) : Type 0 where
  pub proposal : Proposal
  pub has_proposal : get_proposal v.proposal_id db ≡ some proposal
  pub proposal_status : proposal.status ≡ status
  pub order : ExecutionOrder
  pub has_order : find (is_order k) db.orders ≡ some order
  pub order_status : order.status ≡ row_status
  pub state : LiveState
  pub has_state : db.state ≡ some state
  pub has_lock : state.first_order_in_progress ≡ locked

-- The row of a proposal that was found, changed under its id.
put-found :
    (k : String) (p q : Proposal) (ps : List Proposal)
    → find (is_proposal k) ps ≡ some p
    → q.proposal_id ≡ p.proposal_id
    → find (is_proposal k) (update_first (is_proposal q.proposal_id) (λ x. q) ps) ≡ some q
put-found k p q [] h same = ground arith
put-found k p q (x ∷ ps) h same =
    let rest = put-found k p q ps in
    ground (
      arith,
      rest,
      find-test (is_proposal k) (x ∷ ps) h,
      ==_iff p.proposal_id k,
      ==_iff x.proposal_id k,
      ==_iff x.proposal_id q.proposal_id,
      ==_iff q.proposal_id k,
    )

module _ (profile : ControlledLiveProfile) (instrument : FirstInstrumentSelection)
    (digests : Digests) where
  -- An order that is tracked is recorded without an exception, and is tracked with its outcome.
  pub update-IsTracked :
      (v : ManualExecutionPreview) (o : Outcome) (now : ℕ) (db : Database) {status : ProposalStatus}
      {row_status : OrderStatus} {locked : Bool}
      → IsTracked (digests.client_order_id v.proposal_id) v status row_status locked db
      → (db' : Database) × (update_execution profile instrument digests v o now db ≡ (ok tt, db'))
        × IsTracked
            (digests.client_order_id v.proposal_id)
            v
            o.proposal_status
            o.ledger_status
            (lock_after o.lock locked)
            db'
  unfolding update_execution
  update-IsTracked v o now db {locked = locked} t =
      let k : String = digests.client_order_id v.proposal_id in
      let q : Proposal = settle_proposal o now t.proposal in
      let db' : Database = put_state (settle_lock o.lock t.state) (
        put_proposal q
          (record db { orders = update_first (is_order k) (settle_order o) db.orders })) in
      (
        db',
        ground (arith, t.has_proposal, t.has_order, t.has_state),
        record {
          proposal = q;
          has_proposal = put-found v.proposal_id t.proposal q db.proposals t.has_proposal refl;
          proposal_status = refl;
          order = settle_order o t.order;
          has_order =
              find-update_first (is_order k) (settle_order o) db.orders (λ y. refl) t.has_order;
          order_status = refl;
          state = settle_lock o.lock t.state;
          has_state = refl;
          has_lock = settled o.lock t.state t.has_lock;
        },
      )
    where
      settled :
          (l : Lock) (s : LiveState)
          → s.first_order_in_progress ≡ locked
          → (settle_lock l s).first_order_in_progress ≡ lock_after l locked
      settled Lock.keep_lock s h = h
      settled Lock.finish_first_order s h = refl
      settled Lock.release_first_order s h = refl

  pub check_claim-found :
      (v : ManualExecutionPreview) (account : String) (db : Database) {p : Proposal} {s : LiveState}
      {symbol : String}
      → check_claim profile instrument digests v account db ≡ ok (p, s, symbol)
      → get_proposal v.proposal_id db ≡ some p
  unfolding check_claim
  check_claim-found v account db h = ground arith

  claimed-IsTracked :
      (v : ManualExecutionPreview) (account : String) (now : ℕ) (db : Database) (p : Proposal)
      (s : LiveState) (symbol : String)
      → get_proposal v.proposal_id db ≡ some p
      → (row_status : OrderStatus) × IsTracked
          (digests.client_order_id v.proposal_id)
          v
          ProposalStatus.submitting
          row_status
          true
          (claimed profile instrument digests v account now (p, s, symbol) db)
  claimed-IsTracked v account now db p s symbol found =
      let k : String = digests.client_order_id v.proposal_id in
      let row : ExecutionOrder = new_order profile instrument digests v account symbol in
      let (order, last) = find-append (is_order k) db.orders row (==_self k) in
      let q : Proposal = record p { status = ProposalStatus.submitting; submitted_at = some now } in
      (
        order.status,
        record {
          proposal = q;
          has_proposal = put-found v.proposal_id p q db.proposals found refl;
          proposal_status = refl;
          order = order;
          has_order = last;
          order_status = refl;
          state = record s { first_order_in_progress = true };
          has_state = refl;
          has_lock = refl;
        },
      )

  -- A claim that returned tracks the order, and one that raised changed nothing.
  pub claim-cases :
      (v : ManualExecutionPreview) (account : String) (now : ℕ) (db : Database)
      → ((e : Error) × (claim_submission profile instrument digests v account now db ≡ (err e, db)))
        ⊎ ((db' : Database) × (row_status : OrderStatus) × (claim_submission profile instrument
                digests v account now db
              ≡ (ok tt, db'))
            × IsTracked
                (digests.client_order_id v.proposal_id)
                v
                ProposalStatus.submitting
                row_status
                true
                db')
  unfolding claim_submission
  claim-cases v account now db = split (check_claim profile instrument digests v account db) refl
    where
      split :
          (r : Result (Proposal × LiveState × String))
          → check_claim profile instrument digests v account db ≡ r
          → ((e : Error) × (claim_submission profile instrument digests v account now db
                ≡ (err e, db)))
            ⊎ ((db' : Database) × (row_status : OrderStatus) × (claim_submission profile instrument
                    digests v account now db
                  ≡ (ok tt, db'))
                × IsTracked
                    (digests.client_order_id v.proposal_id)
                    v
                    ProposalStatus.submitting
                    row_status
                    true
                    db')
      split (err e) same = inl (e, rw (claim_submission, same) refl)
      split (ok (p, s, symbol)) same =
          let (row_status, t) =
            claimed-IsTracked v account now db p s symbol (check_claim-found v account db same) in
          inr (
            claimed profile instrument digests v account now (p, s, symbol) db,
            row_status,
            rw (claim_submission, same) refl,
            t,
          )
