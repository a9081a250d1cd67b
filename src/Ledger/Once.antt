-- ===== src/Ledger/Once.antt =====
-- A key is claimed once, whatever comes in between.
use syn_antona.Prelude.{String, true, not, List, ◌∷◌, ◌++◌, ◌≡◌, ap, ◌∙◌, all}
use syn_antona.Prelude.Keys.{text_key, triple_key}
use syn_antona.Prelude.Errors.{Error, ok, err}
use syn_antona.Exchange.{OrderRequest}
use syn_antona.Live.Records.{OrderStatus}
use syn_antona.Ledger.Attempt.{OrderAttempt, existing_error}
use syn_antona.Ledger.Spec.{Call}
use syn_antona.Ledger.Sql.{Rows, claim, answer}
use syn_antona.Ledger.Sql.Refine.{view}
use syn_antona.Ledger.Keeps.{
  after, submits, after-hash, after-unknown, claim-hash, claim-refused, existing_error_self, hashed,
  after-append, mark-unknown,
}

module _ (h : OrderRequest → String) (exchange : String) (r : OrderRequest) (rows : Rows) where
  -- Once a claim returned, and whatever calls came since, a claim with the same exchange, account
  -- and client order id changes nothing and is refused with the error that an existing attempt of
  -- the first request's hash gives.
  pub claimed_once :
      (again : OrderRequest) (cs : List Call) {a : OrderAttempt} {rows1 : Rows}
      → claim h exchange r rows ≡ (ok a, rows1)
      → again.account_id ≡ r.account_id
      → again.client_order_id ≡ r.client_order_id
      → (status : OrderStatus) × (claim h exchange again (after h cs rows1)
          ≡ (err (existing_error (h r) status (h again)), after h cs rows1))
  claimed_once again cs {a} {rows1} claimed account id =
      let (k, e, _, held) = claim-hash h exchange r rows claimed in
      let key : String × String × String = (exchange, r.account_id, k) in
      let (status, stored) =
        hashed (view (after h cs rows1) key) (h r) (after-hash h cs rows1 key (h r) held) in
      (
        status,
        claim-refused h exchange again (after h cs rows1) k
            (record { request_hash = h r; status = status }) (rw id e) (rw account stored),
      )

  -- Once a claim returned and its outcome was marked unknown, whatever calls came in between, the
  -- same request is refused with OrderOutcomeUnknown and changes nothing, until an order of its
  -- exchange, account and client order id is marked.
  pub unknown_blocks :
      (cs1 cs2 : List Call) (code : String) {a : OrderAttempt} {rows1 : Rows}
      → claim h exchange r rows ≡ (ok a, rows1)
      → all (λ c. not (submits (exchange, r.account_id, a.client_order_id) c)) cs2 ≡ true
      → claim h exchange r (after h (cs1 ++ Call.mark_unknown exchange r code ∷ cs2) rows1) ≡ (
        err Error.order_outcome_unknown,
        after h (cs1 ++ Call.mark_unknown exchange r code ∷ cs2) rows1,
      )
  unknown_blocks cs1 cs2 code {a} {rows1} claimed quiet =
      let (k, e, given, held) = claim-hash h exchange r rows claimed in
      let key : String × String × String = (exchange, r.account_id, k) in
      let marked =
        mark-unknown h exchange r code (after h cs1 rows1) k (h r) e
          (after-hash h cs1 rows1 key (h r) held) in
      let stored =
        after-unknown h cs2 (answer h (Call.mark_unknown exchange r code) (after h cs1 rows1)).1 key
          (h r) (rw given at quiet) marked in
      rw (after-append h cs1 (Call.mark_unknown exchange r code) cs2 rows1) (
        claim-refused h exchange r
          (after h cs2 (answer h (Call.mark_unknown exchange r code) (after h cs1 rows1)).1) k
          (record { request_hash = h r; status = OrderStatus.unknown }) e stored
        ∙ ap
            (λ (x : Error). (
              err x,
              after h cs2 (answer h (Call.mark_unknown exchange r code) (after h cs1 rows1)).1,
            ))
            (existing_error_self (h r)))
