-- ===== src/Ledger/Refine.antt =====
-- Both stores refine the specification.
use syn_antona.Prelude.{String, List, [], ◌≡◌, refl}
use syn_antona.Exchange.{OrderRequest}
use syn_antona.Ledger.Spec.{Call, empty_book, step, outcomes}
use syn_antona.Ledger.Simulation.{outcomes-Agree}
use syn_antona.Ledger.Memory.{Memory}
use syn_antona.Ledger.Memory as Memory
use syn_antona.Ledger.Memory.Refine as MemoryRefine
use syn_antona.Ledger.Sql as Sql
use syn_antona.Ledger.Sql.Refine as SqlRefine

-- A fresh store in memory and a fresh store of rows answer every sequence of calls, each call made
-- to its end before the next, as the partial map of the specification does: each call returns, is
-- refused with the same exception, or finds no claim, exactly when it does so in the map.
pub stores_refine :
    (request_hash : OrderRequest → String) (cs : List Call)
    → (outcomes (Memory.answer request_hash) cs [] ≡ outcomes (step request_hash) cs empty_book)
      × (outcomes (Sql.answer request_hash) cs [] ≡ outcomes (step request_hash) cs empty_book)
unfolding syn_antona.Prelude.Dict.lookup
stores_refine h cs = (
  outcomes-Agree MemoryRefine.view h (Memory.answer h) (MemoryRefine.answer-Same h) cs [] empty_book
      (λ j. refl),
  outcomes-Agree SqlRefine.view h (Sql.answer h) (SqlRefine.answer-Same h) cs [] empty_book
      (λ j. refl),
)
