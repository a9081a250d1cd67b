-- ===== src/Ledger/Sql/Refine.antt =====
-- The store of rows answers as the map does.
use syn_antona.Prelude.{String, Option, none, some, [], ◌∷◌, ◌++◌, ◌≡◌, refl, arith, if◌then◌else◌}
use syn_antona.Prelude.Keys.{text_key, triple_key, ◌==◌, ==_iff}
use syn_antona.Prelude.Tables.{find, update_first}
use syn_antona.Exchange.{OrderRequest}
use syn_antona.Live.Records.{OrderStatus, ExecutionOrder}
use syn_antona.Ledger.Attempt.{existing_error, required_id}
use syn_antona.Ledger.Sql.{
  Rows, is_row, claim, claim_at, mark_order, mark_unknown, update_at, update, new_row,
  submitted_row, unknown_row, answer,
}
use syn_antona.Ledger.Spec.{Entry, Book, Call, step, answer_of, claim_key, mark_key}
use syn_antona.Ledger.Simulation.{Agree, Same, with_id-Same, required_id-raised}

abbrev pub key_of : ExecutionOrder → String × String × String
key_of row = (row.exchange, row.account_id, row.client_order_id)

-- A query for a key finds the rows of that key.
is_row-key_of :
    (j : String × String × String) (row : ExecutionOrder) → is_row j row ≡ (key_of row == j)
is_row-key_of (a, b, c) row = refl

abbrev pub entry_of : Option ExecutionOrder → Option Entry
entry_of none = none
entry_of (some a) = some (record { request_hash = a.request_hash; status = a.status })

abbrev pub view : Rows → Book
view rows j = entry_of (find (is_row j) rows)

-- What a query finds after a new row was added, and after the first row of a key was changed.
pub view-append :
    (j : String × String × String) (rows : Rows) (row : ExecutionOrder)
    → view rows (key_of row) ≡ none
    → view (rows ++ row ∷ []) j ≡ (if key_of row == j then entry_of (some row) else view rows j)
view-append j [] row fresh = ground (arith, is_row-key_of j row)
view-append j (r ∷ rows) row fresh =
    let rest = view-append j rows row in
    ground (
      arith,
      rest,
      is_row-key_of j r,
      is_row-key_of (key_of row) r,
      is_row-key_of j row,
      ==_iff (key_of r) j,
      ==_iff (key_of r) (key_of row),
      ==_iff (key_of row) j,
    )

view-update_first :
    (key j : String × String × String) (rows : Rows) (change : ExecutionOrder → ExecutionOrder)
    {row : ExecutionOrder}
    → ((r : ExecutionOrder) → key_of (change r) ≡ key_of r)
    → find (is_row key) rows ≡ some row
    → view (update_first (is_row key) change rows) j
      ≡ (if key == j then entry_of (some (change row)) else view rows j)
view-update_first key j [] change keeps found = ground arith
view-update_first key j (r ∷ rows) change {row} keeps found =
    let rest = view-update_first key j rows change {row = row} keeps in
    ground (
      arith,
      rest,
      keeps r,
      is_row-key_of j r,
      is_row-key_of j (change r),
      is_row-key_of key r,
      ==_iff (key_of r) j,
      ==_iff (key_of r) key,
      ==_iff key j,
    )

claim_at-Same :
    (h : OrderRequest → String) (exchange : String) (request : OrderRequest) (k : String)
    (rows : Rows) (book : Book)
    → Agree view rows book
    → Same view
        (answer_of (claim_at h exchange request k rows))
        (claim_key (exchange, request.account_id, k) (h request) book)
unfolding claim_at claim_key existing_error new_row
claim_at-Same h exchange request k rows book agree =
    let key : String × String × String = (exchange, request.account_id, k) in
    (
      ground (arith, agree key),
      λ j. ground (arith, agree key, agree j, view-append j rows (new_row h exchange request k)),
    )

update_at-Same :
    (exchange : String) (request : OrderRequest) (change : ExecutionOrder → ExecutionOrder)
    (status : OrderStatus) (k : String) (rows : Rows) (book : Book)
    → ((r : ExecutionOrder) → key_of (change r) ≡ key_of r)
    → ((r : ExecutionOrder)
        → entry_of (some (change r))
          ≡ some (record { request_hash = r.request_hash; status = status }))
    → Agree view rows book
    → Same view
        (answer_of (update_at exchange request change k rows))
        (mark_key (exchange, request.account_id, k) status book)
unfolding update_at mark_key
update_at-Same exchange request change status k rows book keeps changes agree =
    go (find (is_row key) rows) refl
  where
    key : String × String × String
    key = (exchange, request.account_id, k)

    go :
        (found : Option ExecutionOrder)
        → find (is_row key) rows ≡ found
        → Same view
            (answer_of (update_at exchange request change k rows))
            (mark_key key status book)
    go none e = (ground (arith, agree key), λ j. ground (arith, agree key, agree j))
    go (some r) e = (
      ground (arith, agree key),
      λ j.
          ground
            (arith, agree key, agree j, changes r, view-update_first key j rows change keeps e),
    )

pub answer-Same :
    (h : OrderRequest → String) (c : Call) (rows : Rows) (book : Book)
    → Agree view rows book
    → Same view (answer h c rows) (step h c book)
unfolding answer step claim mark_order mark_unknown update
answer-Same h (Call.claim exchange request) rows book agree =
    with_id-Same view (required_id request.client_order_id) (claim_at h exchange request)
      (λ k. claim_key (exchange, request.account_id, k) (h request)) rows book
      (required_id-raised request.client_order_id) agree
      (λ k. claim_at-Same h exchange request k rows book agree)
answer-Same h (Call.mark_order exchange request order) rows book agree =
    with_id-Same view (required_id request.client_order_id)
      (update_at exchange request (submitted_row order))
      (λ k. mark_key (exchange, request.account_id, k) OrderStatus.submitted) rows book
      (required_id-raised request.client_order_id) agree
      (λ k.
        update_at-Same exchange request (submitted_row order) OrderStatus.submitted k rows book
          (λ r. refl) (λ r. refl) agree)
answer-Same h (Call.mark_unknown exchange request error_code) rows book agree =
    with_id-Same view (required_id request.client_order_id)
      (update_at exchange request (unknown_row error_code))
      (λ k. mark_key (exchange, request.account_id, k) OrderStatus.unknown) rows book
      (required_id-raised request.client_order_id) agree
      (λ k.
        update_at-Same exchange request (unknown_row error_code) OrderStatus.unknown k rows book
          (λ r. refl) (λ r. refl) agree)
