-- ===== src/Ledger/Attempt.antt =====
-- An attempt of the ledger, and what an attempt that exists answers to a claim.
use syn_antona.Prelude.{String, Bool, true, false, not, Option, none, some, if◌then◌else◌}
use syn_antona.Prelude.Keys.{◌==◌, text_key}
use syn_antona.Prelude.Errors.{Error, Result, ok, err}
use syn_antona.Exchange.{OrderRequest}
use syn_antona.Live.Records.{OrderStatus}

pub record OrderAttempt : Type 0 where
  pub exchange : String
  pub account_id : String
  pub client_order_id : String
  pub request_hash : String
  pub status : OrderStatus
  pub exchange_order_id : Option String

-- `if not request.client_order_id: raise PermissionError(...)`
unfoldable pub required_id : Option String → Result String
required_id none = err (Error.permission_error "A deterministic client_order_id is mandatory")
required_id (some k) =
    if k == ""
    then err (Error.permission_error "A deterministic client_order_id is mandatory")
    else ok k

abbrev pub required_client_order_id : OrderRequest → Result String
required_client_order_id r = required_id r.client_order_id

abbrev pub is_unknown : OrderStatus → Bool
is_unknown OrderStatus.unknown = true
is_unknown _ = false

-- `_raise_existing`, on the hash and the status that it reads.
unfoldable pub existing_error : String → OrderStatus → String → Error
existing_error request_hash status digest =
    if not (request_hash == digest)
    then Error.client_order_id_collision
    else if is_unknown status
    then Error.order_outcome_unknown
    else Error.duplicate_order
