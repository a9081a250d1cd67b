-- ===== src/Ledger/Store.antt =====
-- The protocol `ExecutionOrderStore`, which the clients of a store use, the contract that they rely
-- on, and the two stores that keep it.
use syn_antona.Prelude.{String, Bool, true, false}
use syn_antona.Prelude.Actions.{Action}
use syn_antona.Exchange.{OrderRequest, ExchangeOrder}
use syn_antona.Ledger.Attempt.{OrderAttempt}
use syn_antona.Ledger.Spec.{Book, Call, Outcome, step, answer_of}
use syn_antona.Ledger.Simulation.{Agree, Same}
use syn_antona.Ledger.Memory.{Memory}
use syn_antona.Ledger.Memory as Memory
use syn_antona.Ledger.Memory.Refine as MemoryRefine
use syn_antona.Ledger.Sql.{Rows}
use syn_antona.Ledger.Sql as Sql
use syn_antona.Ledger.Sql.Refine as SqlRefine

pub record ExecutionOrderStore (S : Type 0) : Type 0 where
  pub persistent : Bool
  pub claim : String → OrderRequest → Action S OrderAttempt
  pub mark_order : String → OrderRequest → ExchangeOrder → Action S (Unit {0})
  pub mark_unknown : String → OrderRequest → String → Action S (Unit {0})

-- A call of any store.
abbrev pub answer_by : {S : Type 0} → ExecutionOrderStore S → Call → S → Outcome × S
answer_by store (Call.claim exchange request) s = answer_of (store.claim exchange request s)
answer_by store (Call.mark_order exchange request order) s =
    answer_of (store.mark_order exchange request order s)
answer_by store (Call.mark_unknown exchange request error_code) s =
    answer_of (store.mark_unknown exchange request error_code s)

-- The store, whose entries `view` shows, answers as the map of the specification does.
pub record IsLedger {S : Type 0} (store : ExecutionOrderStore S) (view : S → Book)
    (request_hash : OrderRequest → String) : Type 0 where
  pub same :
      (c : Call) (s : S) (book : Book)
      → Agree view s book
      → Same view (answer_by store c s) (step request_hash c book)

module _ (request_hash : OrderRequest → String) where
  abbrev pub memory_store : ExecutionOrderStore Memory
  memory_store = record {
    persistent = false;
    claim = Memory.claim request_hash;
    mark_order = Memory.mark_order;
    mark_unknown = Memory.mark_unknown;
  }

  abbrev pub sql_store : ExecutionOrderStore Rows
  sql_store = record {
    persistent = true;
    claim = Sql.claim request_hash;
    mark_order = Sql.mark_order;
    mark_unknown = Sql.mark_unknown;
  }

  memory_store-Same :
      (c : Call) (m : Memory) (book : Book)
      → Agree MemoryRefine.view m book
      → Same MemoryRefine.view (answer_by memory_store c m) (step request_hash c book)
  unfolding Memory.answer
  memory_store-Same (Call.claim e r) = MemoryRefine.answer-Same request_hash (Call.claim e r)
  memory_store-Same (Call.mark_order e r o) =
      MemoryRefine.answer-Same request_hash (Call.mark_order e r o)
  memory_store-Same (Call.mark_unknown e r x) =
      MemoryRefine.answer-Same request_hash (Call.mark_unknown e r x)

  sql_store-Same :
      (c : Call) (rows : Rows) (book : Book)
      → Agree SqlRefine.view rows book
      → Same SqlRefine.view (answer_by sql_store c rows) (step request_hash c book)
  unfolding Sql.answer
  sql_store-Same (Call.claim e r) = SqlRefine.answer-Same request_hash (Call.claim e r)
  sql_store-Same (Call.mark_order e r o) =
      SqlRefine.answer-Same request_hash (Call.mark_order e r o)
  sql_store-Same (Call.mark_unknown e r x) =
      SqlRefine.answer-Same request_hash (Call.mark_unknown e r x)

  pub memory_store-IsLedger : IsLedger memory_store MemoryRefine.view request_hash
  memory_store-IsLedger = record { same = memory_store-Same }

  pub sql_store-IsLedger : IsLedger sql_store SqlRefine.view request_hash
  sql_store-IsLedger = record { same = sql_store-Same }
