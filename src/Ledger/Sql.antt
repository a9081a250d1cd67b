-- ===== src/Ledger/Sql.antt =====
-- `SqlExecutionOrderStore`: the rows of the execution orders, each method one transaction that no
-- other interrupts. Race has what two interleaved claims do.
pub mod Refine
use Prim.Native.String.{slice}
use syn_antona.Prelude.{
  String, Bool, true, false, not, Option, none, some, List, [], ◌∷◌, ◌++◌, if◌then◌else◌,
}
use syn_antona.Prelude.Errors.{Error, Result, ok, err, or_raise}
use syn_antona.Prelude.Tables.{find, update_first}
use syn_antona.Prelude.Actions.{Action, ◌>>=◌, ◌>>◌, return, reading, write}
use syn_antona.Exchange.{OrderRequest, ExchangeOrder}
use syn_antona.Live.Records.{OrderStatus, ExecutionOrder, same_order}
use syn_antona.Ledger.Spec.{Call, Outcome, answer_of}
use syn_antona.Ledger.Attempt.{OrderAttempt, required_client_order_id, existing_error}

abbrev pub Rows : Type 0
Rows = List ExecutionOrder

abbrev pub is_row : String × String × String → ExecutionOrder → Bool
is_row (exchange, account_id, k) = same_order exchange account_id k

abbrev pub attempt_of : ExecutionOrder → OrderAttempt
attempt_of row = record {
  exchange = row.exchange;
  account_id = row.account_id;
  client_order_id = row.client_order_id;
  request_hash = row.request_hash;
  status = row.status;
  exchange_order_id = row.exchange_order_id;
}

-- `if existing: _raise_existing(_attempt(existing), digest)`
abbrev pub refuse_row : Option ExecutionOrder → String → Result (Unit {0})
refuse_row none digest = ok tt
refuse_row (some row) digest = err (existing_error row.request_hash row.status digest)

unfoldable pub new_row : (OrderRequest → String) → String → OrderRequest → String → ExecutionOrder
new_row request_hash exchange request k = record {
  exchange = exchange;
  account_id = request.account_id;
  client_order_id = k;
  symbol = request.symbol;
  side = request.side;
  quantity = request.quantity;
  request_hash = request_hash request;
  status = OrderStatus.pending;
  exchange_order_id = none;
  exchange_status = none;
  error_code = none;
}

unfoldable pub claim_at :
    (OrderRequest → String) → String → OrderRequest → String → Action Rows OrderAttempt
claim_at request_hash exchange request k = do
  reading (λ rows.
      refuse_row (find (is_row (exchange, request.account_id, k)) rows) (request_hash request))
  write (λ rows. rows ++ new_row request_hash exchange request k ∷ [])
  return (attempt_of (new_row request_hash exchange request k))

unfoldable pub claim : (OrderRequest → String) → String → OrderRequest → Action Rows OrderAttempt
claim request_hash exchange request = do
  k ← reading (λ rows. required_client_order_id request)
  claim_at request_hash exchange request k

-- `_update`, with the assignments as a function of the row.
unfoldable pub update_at :
    String → OrderRequest → (ExecutionOrder → ExecutionOrder) → String → Action Rows (Unit {0})
update_at exchange request change k = do
  row ← reading (λ rows.
      or_raise (find (is_row (exchange, request.account_id, k)) rows)
        (Error.runtime_error "Execution ledger claim is missing"))
  write (update_first (is_row (exchange, request.account_id, k)) change)

unfoldable pub update :
    String → OrderRequest → (ExecutionOrder → ExecutionOrder) → Action Rows (Unit {0})
update exchange request change = do
  k ← reading (λ rows. required_client_order_id request)
  update_at exchange request change k

abbrev pub submitted_row : ExchangeOrder → ExecutionOrder → ExecutionOrder
submitted_row order row = record row {
  status = OrderStatus.submitted;
  exchange_order_id = some order.order_id;
  exchange_status = some order.status;
  error_code = none;
}

-- `error_code[:64]`
abbrev pub unknown_row : String → ExecutionOrder → ExecutionOrder
unknown_row error_code row = record row {
  status = OrderStatus.unknown;
  error_code = some (slice error_code 0 64);
}

unfoldable pub mark_order : String → OrderRequest → ExchangeOrder → Action Rows (Unit {0})
mark_order exchange request order = update exchange request (submitted_row order)

unfoldable pub mark_unknown : String → OrderRequest → String → Action Rows (Unit {0})
mark_unknown exchange request error_code = update exchange request (unknown_row error_code)

-- A call of the store.
unfoldable pub answer : (OrderRequest → String) → Call → Rows → Outcome × Rows
answer request_hash (Call.claim exchange request) rows =
    answer_of (claim request_hash exchange request rows)
answer request_hash (Call.mark_order exchange request order) rows =
    answer_of (mark_order exchange request order rows)
answer request_hash (Call.mark_unknown exchange request error_code) rows =
    answer_of (mark_unknown exchange request error_code rows)
