-- ===== src/Ledger/Memory/Refine.antt =====
-- The in-memory store answers as the map does.
use syn_antona.Prelude.{String, Option, none, some, ◌≡◌, refl, arith}
use syn_antona.Prelude.Keys.{triple_key, ==_comm}
use syn_antona.Prelude.Dict.{lookup, lookup-insert}
use syn_antona.Exchange.{OrderRequest}
use syn_antona.Live.Records.{OrderStatus}
use syn_antona.Ledger.Attempt.{OrderAttempt, required_id, existing_error}
use syn_antona.Ledger.Memory.{
  Memory, claim, claim_at, mark_order, mark_unknown, replace_at, replace_attempt, new_attempt,
  submitted_attempt, unknown_attempt, answer,
}
use syn_antona.Ledger.Spec.{Entry, Book, Call, step, answer_of, claim_key, mark_key}
use syn_antona.Ledger.Simulation.{Agree, Same, with_id-Same, required_id-raised}

abbrev pub entry_of : Option OrderAttempt → Option Entry
entry_of none = none
entry_of (some a) = some (record { request_hash = a.request_hash; status = a.status })

abbrev pub view : Memory → Book
view m j = entry_of (lookup j m)

claim_at-Same :
    (h : OrderRequest → String) (exchange : String) (request : OrderRequest) (k : String)
    (m : Memory) (book : Book)
    → Agree view m book
    → Same view
        (answer_of (claim_at h exchange request k m))
        (claim_key (exchange, request.account_id, k) (h request) book)
unfolding claim_at claim_key existing_error
claim_at-Same h exchange request k m book agree =
    let key : String × String × String = (exchange, request.account_id, k) in
    (
      ground (arith, agree key),
      λ j. ground (
        arith,
        agree key,
        agree j,
        ==_comm key j,
        lookup-insert key j (new_attempt h exchange request k) m,
      ),
    )

replace_at-Same :
    (exchange : String) (request : OrderRequest) (change : OrderAttempt → OrderAttempt)
    (status : OrderStatus) (k : String) (m : Memory) (book : Book)
    → ((a : OrderAttempt)
        → entry_of (some (change a))
          ≡ some (record { request_hash = a.request_hash; status = status }))
    → Agree view m book
    → Same view
        (answer_of (replace_at exchange request change k m))
        (mark_key (exchange, request.account_id, k) status book)
unfolding replace_at mark_key
replace_at-Same exchange request change status k m book keeps agree = go (lookup key m) refl
  where
    key : String × String × String
    key = (exchange, request.account_id, k)

    go :
        (found : Option OrderAttempt)
        → lookup key m ≡ found
        → Same view (answer_of (replace_at exchange request change k m)) (mark_key key status book)
    go none e = (ground (arith, agree key), λ j. ground (arith, agree key, agree j))
    go (some a) e = (
      ground (arith, agree key),
      λ j.
          ground
            (arith, agree key, agree j, ==_comm key j, keeps a, lookup-insert key j (change a) m),
    )

pub answer-Same :
    (h : OrderRequest → String) (c : Call) (m : Memory) (book : Book)
    → Agree view m book
    → Same view (answer h c m) (step h c book)
unfolding answer step claim mark_order mark_unknown replace_attempt
answer-Same h (Call.claim exchange request) m book agree =
    with_id-Same view (required_id request.client_order_id) (claim_at h exchange request)
      (λ k. claim_key (exchange, request.account_id, k) (h request)) m book
      (required_id-raised request.client_order_id) agree
      (λ k. claim_at-Same h exchange request k m book agree)
answer-Same h (Call.mark_order exchange request order) m book agree =
    with_id-Same view (required_id request.client_order_id)
      (replace_at exchange request (submitted_attempt order))
      (λ k. mark_key (exchange, request.account_id, k) OrderStatus.submitted) m book
      (required_id-raised request.client_order_id) agree
      (λ k.
        replace_at-Same exchange request (submitted_attempt order) OrderStatus.submitted k m book
          (λ a. refl) agree)
answer-Same h (Call.mark_unknown exchange request error_code) m book agree =
    with_id-Same view (required_id request.client_order_id)
      (replace_at exchange request unknown_attempt)
      (λ k. mark_key (exchange, request.account_id, k) OrderStatus.unknown) m book
      (required_id-raised request.client_order_id) agree
      (λ k.
        replace_at-Same exchange request unknown_attempt OrderStatus.unknown k m book (λ a. refl)
          agree)
