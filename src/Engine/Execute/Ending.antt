-- ===== src/Engine/Execute/Ending.antt =====
-- How an execution ends, on every branch.
use mathlib.Core.Path.{subst}
use syn_antona.Prelude.{String, none, some, [], ◌∷◌, ◌++◌, ◌≡◌, refl, sym, ap, ◌∙◌}
use syn_antona.Prelude.Keys.{triple_key}
use syn_antona.Prelude.Errors.{Error, Result, ok, err}
use syn_antona.Prelude.Actions.{after-ok, after-err}
use syn_antona.Decimal.{Decimal}
use syn_antona.Exchange.{OrderRequest, ExchangeOrder}
use syn_antona.Live.Records.{OrderStatus}
use syn_antona.Ledger.Attempt.{OrderAttempt, required_id}
use syn_antona.Ledger.Spec.{Book, Call, step, outcome_of}
use syn_antona.Ledger.Simulation.{Same}
use syn_antona.Ledger.Store.{ExecutionOrderStore, IsLedger, answer_by}
use syn_antona.Engine.Market.{MarketContext}
use syn_antona.Engine.Gates.{ExecutionRiskContext}
use syn_antona.Engine.Execute.{Engine, Replies, Placement, admit, settle, place, execute}
use syn_antona.Engine.Execute.Sent.{admit-keeps}
use syn_antona.Engine.Execute.Marks.{
  claimed-free, claim-refused, marked-order, marked-unknown, not_returned, returned-pair, place-err,
  place-ok, settle-placed, settle-failed,
}

-- What the ledger holds for the request after the order was sent: it was free before.
pub record IsMarked (h : OrderRequest → String) (exchange : String) (r : OrderRequest)
    (status : OrderStatus) (before after : Book) : Type 0 where
  pub id : String
  pub required : required_id r.client_order_id ≡ ok id
  pub free : before (exchange, r.account_id, id) ≡ none
  pub marked :
      after (exchange, r.account_id, id) ≡ some (record { request_hash = h r; status = status })

-- The ways an execution ends: which orders were sent, and what the ledger holds for the request.
pub data Ended {S : Type 0} (view : S → Book) (h : OrderRequest → String) (exchange : String)
    (r : OrderRequest) (e : Engine S) : Result ExchangeOrder → Engine S → Type 0 where
  -- By a guard, by the health check or by the claim: nothing is sent, and the ledger is what it was.
  refused :
      (x : Error) {e' : Engine S}
      → e'.sent ≡ e.sent
      → ((j : String × String × String) → view e'.store j ≡ view e.store j)
      → Ended view h exchange r e (err x) e'
  unknown :
      {e' : Engine S}
      → e'.sent ≡ e.sent ++ (exchange, r) ∷ []
      → IsMarked h exchange r OrderStatus.unknown (view e.store) (view e'.store)
      → Ended view h exchange r e (err Error.order_outcome_unknown) e'
  submitted :
      (order : ExchangeOrder) {e' : Engine S}
      → e'.sent ≡ e.sent ++ (exchange, r) ∷ []
      → IsMarked h exchange r OrderStatus.submitted (view e.store) (view e'.store)
      → Ended view h exchange r e (ok order) e'

module _ {S : Type 0} (store : ExecutionOrderStore S) (view : S → Book) (h : OrderRequest → String)
    (law : IsLedger store view h) (exchange : String) (r : OrderRequest) where
  settle-Ended :
      (p : Placement) (start e : Engine S) (id : String)
      → required_id r.client_order_id ≡ ok id
      → view start.store (exchange, r.account_id, id) ≡ none
      → view e.store (exchange, r.account_id, id)
        ≡ some (record { request_hash = h r; status = OrderStatus.pending })
      → e.sent ≡ start.sent ++ (exchange, r) ∷ []
      → Ended view h exchange r start
          (settle store exchange r p e).0
          (settle store exchange r p e).1
  settle-Ended (Placement.placed order) start e id required free held sent =
      let (done, kept) =
        law.same (Call.mark_order exchange r order) e.store (view e.store) (λ j. refl) in
      let (done', stored) =
        marked-order h exchange r order (view e.store) id
          (record { request_hash = h r; status = OrderStatus.pending }) required held in
      let (t, answered) =
        returned-pair (store.mark_order exchange r order e.store) (done ∙ done') in
      subst (λ c. Ended view h exchange r start c.0 c.1)
        (sym (settle-placed store exchange r order e answered))
        (Ended.submitted order sent (record {
          id = id;
          required = required;
          free = free;
          marked = kept (exchange, r.account_id, id) ∙ stored;
        }))
  settle-Ended (Placement.failed code) start e id required free held sent =
      let (done, kept) =
        law.same (Call.mark_unknown exchange r code) e.store (view e.store) (λ j. refl) in
      let (done', stored) =
        marked-unknown h exchange r code (view e.store) id
          (record { request_hash = h r; status = OrderStatus.pending }) required held in
      let (t, answered) =
        returned-pair (store.mark_unknown exchange r code e.store) (done ∙ done') in
      subst (λ c. Ended view h exchange r start c.0 c.1)
        (sym (settle-failed store exchange r code e answered))
        (Ended.unknown sent (record {
          id = id;
          required = required;
          free = free;
          marked = kept (exchange, r.account_id, id) ∙ stored;
        }))

  place-Ended :
      (p : Placement) (e : Engine S)
      → Ended view h exchange r e (place store exchange r p e).0 (place store exchange r p e).1
  place-Ended p e = go (store.claim exchange r e.store) refl
    where
      claimed :
          Same view
            (answer_by store (Call.claim exchange r) e.store)
            (step h (Call.claim exchange r) (view e.store))
      claimed = law.same (Call.claim exchange r) e.store (view e.store) (λ j. refl)

      go :
          (c : Result OrderAttempt × S)
          → store.claim exchange r e.store ≡ c
          → Ended view h exchange r e (place store exchange r p e).0 (place store exchange r p e).1
      go (ok a, s) same =
          let (id, required, free, held) =
            claimed-free h exchange r (view e.store)
              (sym claimed.0 ∙ ap (λ c. outcome_of c.0) same) in
          subst (λ c. Ended view h exchange r e c.0 c.1) (sym (place-ok store exchange r p e same))
            (settle-Ended p e (record e { store = s; sent = e.sent ++ (exchange, r) ∷ [] }) id
              required free
              (ap (λ c. view c.1 (exchange, r.account_id, id)) (sym same)
                ∙ claimed.1 (exchange, r.account_id, id)
                ∙ held)
              refl)
      go (err x, s) same =
          subst (λ c. Ended view h exchange r e c.0 c.1) (sym (place-err store exchange r p e same))
            (Ended.refused x refl (λ j.
              ap (λ c. view c.1 j) (sym same)
              ∙ claimed.1 j
              ∙ claim-refused h exchange r (view e.store)
                  (λ done. not_returned x (ap (λ c. outcome_of c.0) (sym same) ∙ claimed.0 ∙ done))
                  j))

-- The guards leave the ledger and the orders alone.
Ended_from :
    {S : Type 0} (view : S → Book) (h : OrderRequest → String) (exchange : String)
    (r : OrderRequest) (e mid : Engine S) {result : Result ExchangeOrder} {e' : Engine S}
    → mid.store ≡ e.store
    → mid.sent ≡ e.sent
    → Ended view h exchange r mid result e'
    → Ended view h exchange r e result e'
Ended_from view h exchange r e mid stored sent (Ended.refused x quiet kept) =
    Ended.refused x (quiet ∙ sent) (λ j. kept j ∙ ap (λ s. view s j) stored)
Ended_from view h exchange r e mid stored sent (Ended.unknown one m) =
    Ended.unknown (one ∙ ap (λ l. l ++ (exchange, r) ∷ []) sent) (record {
      id = m.id;
      required = m.required;
      free = ap (λ s. view s (exchange, r.account_id, m.id)) (sym stored) ∙ m.free;
      marked = m.marked;
    })
Ended_from view h exchange r e mid stored sent (Ended.submitted order one m) =
    Ended.submitted order (one ∙ ap (λ l. l ++ (exchange, r) ∷ []) sent) (record {
      id = m.id;
      required = m.required;
      free = ap (λ s. view s (exchange, r.account_id, m.id)) (sym stored) ∙ m.free;
      marked = m.marked;
    })

-- With an order store that keeps the contract of the ledger, an execution ends in one of three
-- ways, whatever the exchange answers. It raised, nothing was sent, and the ledger answers for
-- every key as before; or one order was sent under a key that was free, and the ledger has it as
-- unknown and OrderOutcomeUnknown was raised; or one order was sent under a key that was free, the
-- ledger has it as submitted and the order was returned.
pub execution_ended :
    {S : Type 0} (store : ExecutionOrderStore S) (view : S → Book) (h : OrderRequest → String)
    (replies : Replies) (market : MarketContext) (request : OrderRequest) (stop_loss : Decimal)
    (c : ExecutionRiskContext) (e : Engine S)
    → IsLedger store view h
    → Ended view h market.exchange request e
        (execute store replies market request stop_loss c e).0
        (execute store replies market request stop_loss c e).1
unfolding execute
execution_ended {S} store view h replies market request stop_loss c e law =
    go (admit store replies market request stop_loss c e) refl
      (admit-keeps store replies market request stop_loss c e)
  where
    go :
        (a : Result (Unit {0}) × Engine S)
        → admit store replies market request stop_loss c e ≡ a
        → (a.1.store ≡ e.store) × (a.1.sent ≡ e.sent)
        → Ended view h market.exchange request e
            (execute store replies market request stop_loss c e).0
            (execute store replies market request stop_loss c e).1
    go (ok tt, mid) same (stored, sent) =
        after-ok (λ r. Ended view h market.exchange request e r.0 r.1)
          (admit store replies market request stop_loss c)
          (λ _. place store market.exchange request replies.placement) same
          (Ended_from view h market.exchange request e mid stored sent
            (place-Ended store view h law market.exchange request replies.placement mid))
    go (err x, mid) same (stored, sent) =
        after-err (λ r. Ended view h market.exchange request e r.0 r.1)
          (admit store replies market request stop_loss c)
          (λ _. place store market.exchange request replies.placement) same
          (Ended.refused x sent (λ j. ap (λ s. view s j) stored))
