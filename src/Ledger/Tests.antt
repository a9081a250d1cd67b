-- ===== src/Ledger/Tests.antt =====
-- A retry of an order whose outcome is unknown, and three workers that race for two keys.
use syn_antona.Prelude.{◌≡◌, ◌≤◌, ◌+◌, refl, none, some, [], ◌∷◌, ◌++◌, List}
use syn_antona.Prelude.Errors.{Error, err}
use syn_antona.Exchange.{OrderRequest}
use syn_antona.Live.Records.{OrderStatus}
use syn_antona.Ledger.Examples.{request, order, by_symbol}
use syn_antona.Ledger.Attempt.{required_id, existing_error}
use syn_antona.Ledger.Spec.{Call, Outcome, empty_book, step, outcomes}
use syn_antona.Ledger.Memory as Memory
use syn_antona.Ledger.Sql as Sql
use syn_antona.Ledger.Refine.{stores_refine}
use syn_antona.Ledger.Keeps.{after}
use syn_antona.Ledger.Once.{claimed_once, unknown_blocks}
use syn_antona.Ledger.Race.{Phase, Worker, interleave, advance, turn, look, commit, owners}
use syn_antona.Ledger.Race.Exclusive.{taken, one_owner}
use syn_antona.Ledger.Race.Progress.{key_gets_owner}

abbrev calls : List Call
calls =
    Call.claim "bybit" request
    ∷ Call.mark_unknown "bybit" request "TimeoutError"
    ∷ Call.claim "bybit" request
    ∷ Call.mark_order "bybit" (record request { client_order_id = some "c-2" }) order
    ∷ Call.mark_order "bybit" request order
    ∷ Call.claim "bybit" (record request { symbol = "ETHUSDT" })
    ∷ Call.claim "bybit" (record request { client_order_id = none })
    ∷ []

calls-outcomes :
    outcomes (Sql.answer by_symbol) calls []
    ≡ Outcome.returned
      ∷ Outcome.returned
      ∷ Outcome.raised Error.order_outcome_unknown
      ∷ Outcome.missing
      ∷ Outcome.returned
      ∷ Outcome.raised Error.client_order_id_collision
      ∷ Outcome.raised (Error.permission_error "A deterministic client_order_id is mandatory")
      ∷ []
unfolding outcomes Sql.answer Sql.claim Sql.claim_at Sql.mark_order Sql.mark_unknown Sql.update
    Sql.update_at Sql.new_row required_id existing_error
calls-outcomes = refl

stores_refine_example :
    (outcomes (Memory.answer by_symbol) calls [] ≡ outcomes (step by_symbol) calls empty_book)
    × (outcomes (Sql.answer by_symbol) calls [] ≡ outcomes (step by_symbol) calls empty_book)
stores_refine_example = stores_refine by_symbol calls

abbrev taken_row : Sql.Rows
taken_row = Sql.new_row by_symbol "bybit" request "c-1" ∷ []

claimed_once_example :
    (status : OrderStatus) × (Sql.claim by_symbol "bybit"
        (record request { symbol = "ETHUSDT" })
        (after by_symbol calls taken_row)
      ≡ (err (existing_error "BTCUSDT" status "ETHUSDT"), after by_symbol calls taken_row))
unfolding Sql.claim Sql.claim_at Sql.new_row required_id existing_error
claimed_once_example =
    claimed_once by_symbol "bybit" request [] (record request { symbol = "ETHUSDT" }) calls refl
      refl refl

abbrev late : List Call
late =
    Call.claim "bybit" request
    ∷ Call.mark_order "bybit" (record request { client_order_id = some "c-2" }) order
    ∷ []

unknown_blocks_example :
    Sql.claim by_symbol "bybit" request
      (after by_symbol (calls ++ Call.mark_unknown "bybit" request "TimeoutError" ∷ late) taken_row)
    ≡ (
      err Error.order_outcome_unknown,
      after by_symbol (calls ++ Call.mark_unknown "bybit" request "TimeoutError" ∷ late) taken_row,
    )
unfolding Sql.claim Sql.claim_at Sql.new_row required_id existing_error
unknown_blocks_example =
    unknown_blocks by_symbol "bybit" request [] calls late "TimeoutError" refl refl

abbrev worker : OrderRequest → Worker
worker r = record { exchange = "bybit"; request = r; phase = Phase.waiting }

abbrev workers : List Worker
workers =
    worker request ∷ worker request ∷ worker (record request { client_order_id = some "c-2" }) ∷ []

-- Both workers of the key look before either commits, and the first to commit has it.
race_outcome :
    owners ("bybit", "main", "c-1") (interleave by_symbol (0 ∷ 1 ∷ 2 ∷ 1 ∷ 0 ∷ 2 ∷ []) workers []).0
    ≡ 1
unfolding interleave advance turn look commit Sql.new_row required_id existing_error
race_outcome = refl

one_owner_example :
    (owners
          ("bybit", "main", "c-1")
          (interleave by_symbol (0 ∷ 1 ∷ 2 ∷ 1 ∷ 0 ∷ 2 ∷ []) workers []).0
        + taken ("bybit", "main", "c-1") []
      ≡ taken
          ("bybit", "main", "c-1")
          (interleave by_symbol (0 ∷ 1 ∷ 2 ∷ 1 ∷ 0 ∷ 2 ∷ []) workers []).1)
    × (owners
          ("bybit", "main", "c-1")
          (interleave by_symbol (0 ∷ 1 ∷ 2 ∷ 1 ∷ 0 ∷ 2 ∷ []) workers []).0
        ≤ 1)
one_owner_example =
    one_owner by_symbol ("bybit", "main", "c-1") (0 ∷ 1 ∷ 2 ∷ 1 ∷ 0 ∷ 2 ∷ []) workers [] refl

key_gets_owner_example :
    owners ("bybit", "main", "c-1") (interleave by_symbol (0 ∷ 1 ∷ 2 ∷ 1 ∷ 0 ∷ 2 ∷ []) workers []).0
    ≡ 1
unfolding required_id
key_gets_owner_example =
    key_gets_owner by_symbol ("bybit", "main", "c-1") 1 (0 ∷ []) (2 ∷ []) (0 ∷ 2 ∷ []) workers []
      refl refl refl refl
