-- ===== src/Ledger/Spec.antt =====
-- What a ledger promises: a partial map from keys to the hash of the claimed request and its status.
use syn_antona.Prelude.{String, Option, none, some, List, [], ◌∷◌, if◌then◌else◌}
use syn_antona.Prelude.Keys.{◌==◌, triple_key}
use syn_antona.Prelude.Errors.{Error, Result, ok, err}
use syn_antona.Exchange.{OrderRequest, ExchangeOrder}
use syn_antona.Live.Records.{OrderStatus}
use syn_antona.Ledger.Attempt.{required_client_order_id, existing_error}

pub record Entry : Type 0 where
  pub request_hash : String
  pub status : OrderStatus

abbrev pub Book : Type 0
Book = String × String × String → Option Entry

abbrev pub empty_book : Book
empty_book key = none

pub data Call : Type 0 where
  claim : String → OrderRequest → Call
  mark_order : String → OrderRequest → ExchangeOrder → Call
  mark_unknown : String → OrderRequest → String → Call

-- The two stores name a missing claim by exceptions of their own.
pub data Outcome : Type 0 where
  returned missing : Outcome
  raised : Error → Outcome

abbrev pub put : String × String × String → Entry → Book → Book
put key e book j = if key == j then some e else book j

-- A claim of a free key takes it, and a claim of a key that is taken is refused.
unfoldable pub claim_key : String × String × String → String → Book → Outcome × Book
claim_key key digest book = elim (book key) [
  | none ↦ (
    Outcome.returned,
    put key (record { request_hash = digest; status = OrderStatus.pending }) book,
  )
  | some e ↦ (Outcome.raised (existing_error e.request_hash e.status digest), book)
]

-- Only the status of a claimed key moves.
unfoldable pub mark_key : String × String × String → OrderStatus → Book → Outcome × Book
mark_key key status book = elim (book key) [
  | none ↦ (Outcome.missing, book)
  | some e ↦ (Outcome.returned, put key (record e { status = status }) book)
]

-- A request without a client order id is refused.
abbrev pub with_id : Result String → (String → Book → Outcome × Book) → Book → Outcome × Book
with_id (err e) next book = (Outcome.raised e, book)
with_id (ok k) next book = next k book

unfoldable pub step : (OrderRequest → String) → Call → Book → Outcome × Book
step request_hash (claim exchange request) =
    with_id (required_client_order_id request)
      (λ k. claim_key (exchange, request.account_id, k) (request_hash request))
step request_hash (mark_order exchange request order) =
    with_id (required_client_order_id request)
      (λ k. mark_key (exchange, request.account_id, k) OrderStatus.submitted)
step request_hash (mark_unknown exchange request error_code) =
    with_id (required_client_order_id request)
      (λ k. mark_key (exchange, request.account_id, k) OrderStatus.unknown)

-- The outcomes of a sequence of calls.
unfoldable pub outcomes {ℓ} : {S : Type ℓ} → (Call → S → Outcome × S) → List Call → S → List Outcome
outcomes answer [] s = []
outcomes answer (c ∷ cs) s = (answer c s).0 ∷ outcomes answer cs (answer c s).1

-- What a store answers is the outcome of its method.
abbrev pub outcome_of {ℓ} : {A : Type ℓ} → Result A → Outcome
outcome_of (ok a) = Outcome.returned
outcome_of (err (Error.key_error k)) = Outcome.missing
outcome_of (err (Error.runtime_error text)) = Outcome.missing
outcome_of (err e) = Outcome.raised e

abbrev pub answer_of {ℓ κ} : {S : Type ℓ} {A : Type κ} → Result A × S → Outcome × S
answer_of (r, s) = (outcome_of r, s)
