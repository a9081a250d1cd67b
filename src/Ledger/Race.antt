-- ===== src/Ledger/Race.antt =====
-- Interleaved claims of `SqlExecutionOrderStore`: a worker looks for the row in one step and commits
-- its own in another, and others may come in between. The unique constraint on exchange, account and
-- client order id refuses the second commit.
pub mod Exclusive
pub mod Progress
use syn_antona.Prelude.{
  ℕ, zero, suc, ◌+◌, ◌≤◌, String, Bool, true, false, not, ◌&&◌, Option, none, some, List, [], ◌∷◌,
  ◌++◌, ◌≡◌, refl, arith, any, if◌then◌else◌,
}
use syn_antona.Prelude.Keys.{Key, triple_key, ◌==◌, ==_iff}
use syn_antona.Prelude.Tables.{find}
use syn_antona.Prelude.Errors.{Error, Result, ok, err}
use syn_antona.Exchange.{OrderRequest}
use syn_antona.Live.Records.{ExecutionOrder}
use syn_antona.Ledger.Attempt.{OrderAttempt, required_client_order_id, existing_error}
use syn_antona.Ledger.Sql.{Rows, is_row, attempt_of, new_row}

pub data Phase : Type 0 where
  waiting : Phase
  -- The query found no row, and the new one is not committed yet.
  looked : String → Phase
  returned : OrderAttempt → Phase
  raised : Error → Phase

pub record Worker : Type 0 where
  pub exchange : String
  pub request : OrderRequest
  pub phase : Phase

-- `if existing: _raise_existing(...)`, or what comes next.
abbrev pub existing_or : String → Phase → Option ExecutionOrder → Phase
existing_or digest next none = next
existing_or digest next (some row) =
    Phase.raised (existing_error row.request_hash row.status digest)

-- The request without an id, and the first query.
unfoldable pub look : (OrderRequest → String) → Worker → Rows → Phase
look request_hash w rows = elim (required_client_order_id w.request) [
  | err e ↦ Phase.raised e
  | ok k ↦
      existing_or (request_hash w.request) (Phase.looked k)
        (find (is_row (w.exchange, w.request.account_id, k)) rows)
]

-- `session.commit()`: a row whose key stands already is refused, the query is made again, and when
-- it finds nothing the integrity error goes on.
unfoldable pub commit : (OrderRequest → String) → Worker → String → Rows → Phase × Rows
commit request_hash w k rows =
    if any (is_row (w.exchange, w.request.account_id, k)) rows
    then (
      existing_or (request_hash w.request) (Phase.raised Error.integrity_error)
          (find (is_row (w.exchange, w.request.account_id, k)) rows),
      rows,
    )
    else (
      Phase.returned (attempt_of (new_row request_hash w.exchange w.request k)),
      rows ++ new_row request_hash w.exchange w.request k ∷ [],
    )

-- The next step of one worker.
unfoldable pub turn : (OrderRequest → String) → Worker → Phase → Rows → Phase × Rows
turn request_hash w Phase.waiting rows = (look request_hash w rows, rows)
turn request_hash w (Phase.looked k) rows = commit request_hash w k rows
turn request_hash w (Phase.returned a) rows = (Phase.returned a, rows)
turn request_hash w (Phase.raised e) rows = (Phase.raised e, rows)

-- A turn of the worker at a place; a place without a worker changes nothing.
unfoldable pub advance : (OrderRequest → String) → ℕ → List Worker → Rows → List Worker × Rows
advance request_hash n [] rows = ([], rows)
advance request_hash zero (w ∷ ws) rows =
    let (phase, rows') = turn request_hash w w.phase rows in
    (record w { phase = phase } ∷ ws, rows')
advance request_hash (suc n) (w ∷ ws) rows =
    let (ws', rows') = advance request_hash n ws rows in (w ∷ ws', rows')

-- The turns in the order of a schedule.
unfoldable pub interleave :
    (OrderRequest → String) → List ℕ → List Worker → Rows → List Worker × Rows
interleave request_hash [] ws rows = (ws, rows)
interleave request_hash (n ∷ schedule) ws rows =
    let (ws', rows') = advance request_hash n ws rows in interleave request_hash schedule ws' rows'

-- The worker holds the attempt of the key.
abbrev pub owns : String × String × String → Worker → Bool
owns key w = elim w.phase [
  | Phase.returned a ↦ (a.exchange, a.account_id, a.client_order_id) == key
  | _ ↦ false
]

abbrev pub owners : String × String × String → List Worker → ℕ
owners key [] = 0
owners key (w ∷ ws) = if owns key w then suc (owners key ws) else owners key ws
