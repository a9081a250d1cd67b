-- ===== src/Ledger/Simulation.antt =====
-- When a store whose entries are seen by `view` answers every sequence of calls as the map does.
use syn_antona.Prelude.{String, Option, none, some, List, [], ◌∷◌, ◌≡◌, refl, arith}
use syn_antona.Prelude.Errors.{Error, Result, ok, err}
use syn_antona.Prelude.Actions.{Action, reading, ◌>>=◌}
use syn_antona.Exchange.{OrderRequest}
use syn_antona.Ledger.Attempt.{required_id}
use syn_antona.Ledger.Spec.{Book, Call, Outcome, step, outcomes, outcome_of, answer_of, with_id}

-- A client order id that is missing is no missing claim.
pub required_id-raised :
    (id : Option String) (e : Error)
    → required_id id ≡ err e
    → outcome_of {A = String} (err e) ≡ Outcome.raised e
unfolding required_id
required_id-raised none e h = ground arith
required_id-raised (some k) e h = ground arith

module _ {S : Type 0} (view : S → Book) where
  -- The store and the map hold the same entry for every key.
  abbrev pub Agree : S → Book → Type 0
  Agree s book = (j : String × String × String) → view s j ≡ book j

  abbrev pub Same : Outcome × S → Outcome × Book → Type 0
  Same a b = (a.0 ≡ b.0) × Agree a.1 b.1

  -- Both begin with the client order id, and go on with it.
  pub with_id-Same :
      {A : Type 0} (id : Result String) (next : String → Action S A)
      (promised : String → Book → Outcome × Book) (s : S) (book : Book)
      → ((e : Error) → id ≡ err e → outcome_of {A = String} (err e) ≡ Outcome.raised e)
      → Agree s book
      → ((k : String) → Same (answer_of (next k s)) (promised k book))
      → Same (answer_of ((reading (λ t. id) >>= next) s)) (with_id id promised book)
  with_id-Same (ok k) next promised s book raised agree same = same k
  with_id-Same (err e) next promised s book raised agree same = (raised e refl, agree)

  pub outcomes-Agree :
      (request_hash : OrderRequest → String) (answer : Call → S → Outcome × S)
      → ((c : Call) (s : S) (book : Book)
          → Agree s book
          → Same (answer c s) (step request_hash c book))
      → (cs : List Call) (s : S) (book : Book) → Agree s book
      → outcomes answer cs s ≡ outcomes (step request_hash) cs book
  unfolding outcomes
  outcomes-Agree request_hash answer same [] s book agree = refl
  outcomes-Agree request_hash answer same (c ∷ cs) s book agree =
      let (o, after) = same c s book agree in
      let rest =
        outcomes-Agree request_hash answer same cs (answer c s).1 (step request_hash c book).1
          after in
      cc
