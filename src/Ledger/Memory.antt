-- ===== src/Ledger/Memory.antt =====
-- `InMemoryExecutionOrderStore`: a dict from exchange, account and client order id to the attempt.
pub mod Refine
use syn_antona.Prelude.{String, Bool, true, false, not, Option, none, some, List, [], ◌∷◌}
use syn_antona.Prelude.Keys.{Key, triple_key}
use syn_antona.Prelude.Dict.{Dict, lookup, insert}
use syn_antona.Prelude.Errors.{Error, Result, ok, err, or_raise}
use syn_antona.Prelude.Actions.{Action, ◌>>=◌, ◌>>◌, return, reading, write}
use syn_antona.Exchange.{OrderRequest, ExchangeOrder}
use syn_antona.Live.Records.{OrderStatus}
use syn_antona.Ledger.Spec.{Call, Outcome, answer_of}
use syn_antona.Ledger.Attempt.{OrderAttempt, required_client_order_id, existing_error}

abbrev pub Memory : Type 0
Memory = Dict (String × String × String) OrderAttempt

-- `if existing: _raise_existing(existing, digest)`
abbrev pub refuse_attempt : Option OrderAttempt → String → Result (Unit {0})
refuse_attempt none digest = ok tt
refuse_attempt (some a) digest = err (existing_error a.request_hash a.status digest)

abbrev pub new_attempt : (OrderRequest → String) → String → OrderRequest → String → OrderAttempt
new_attempt request_hash exchange request k = record {
  exchange = exchange;
  account_id = request.account_id;
  client_order_id = k;
  request_hash = request_hash request;
  status = OrderStatus.pending;
  exchange_order_id = none;
}

unfoldable pub claim_at :
    (OrderRequest → String) → String → OrderRequest → String → Action Memory OrderAttempt
claim_at request_hash exchange request k = do
  let key : String × String × String = (exchange, request.account_id, k)
  reading (λ m. refuse_attempt (lookup key m) (request_hash request))
  write (insert key (new_attempt request_hash exchange request k))
  return (new_attempt request_hash exchange request k)

-- `_key` is read first: the client order id is all that it can miss.
unfoldable pub claim : (OrderRequest → String) → String → OrderRequest → Action Memory OrderAttempt
claim request_hash exchange request = do
  k ← reading (λ m. required_client_order_id request)
  claim_at request_hash exchange request k

-- The two marks read `self._attempts[key]` and put a new attempt in its place.
unfoldable pub replace_at :
    String → OrderRequest → (OrderAttempt → OrderAttempt) → String → Action Memory (Unit {0})
replace_at exchange request change k = do
  let key : String × String × String = (exchange, request.account_id, k)
  prior ← reading (λ m. or_raise (lookup key m) (Error.key_error k))
  write (insert key (change prior))

unfoldable pub replace_attempt :
    String → OrderRequest → (OrderAttempt → OrderAttempt) → Action Memory (Unit {0})
replace_attempt exchange request change = do
  k ← reading (λ m. required_client_order_id request)
  replace_at exchange request change k

abbrev pub submitted_attempt : ExchangeOrder → OrderAttempt → OrderAttempt
submitted_attempt order prior = record prior {
  status = OrderStatus.submitted;
  exchange_order_id = some order.order_id;
}

-- The id that the exchange gave is not kept.
abbrev pub unknown_attempt : OrderAttempt → OrderAttempt
unknown_attempt prior = record prior { status = OrderStatus.unknown; exchange_order_id = none }

unfoldable pub mark_order : String → OrderRequest → ExchangeOrder → Action Memory (Unit {0})
mark_order exchange request order = replace_attempt exchange request (submitted_attempt order)

-- The error code is not kept.
unfoldable pub mark_unknown : String → OrderRequest → String → Action Memory (Unit {0})
mark_unknown exchange request error_code = replace_attempt exchange request unknown_attempt

-- A call of the store.
unfoldable pub answer : (OrderRequest → String) → Call → Memory → Outcome × Memory
answer request_hash (Call.claim exchange request) m =
    answer_of (claim request_hash exchange request m)
answer request_hash (Call.mark_order exchange request order) m =
    answer_of (mark_order exchange request order m)
answer request_hash (Call.mark_unknown exchange request error_code) m =
    answer_of (mark_unknown exchange request error_code m)
