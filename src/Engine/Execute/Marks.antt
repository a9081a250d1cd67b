-- ===== src/Engine/Execute/Marks.antt =====
-- What a claim and a mark do to the key of their request, and what the engine makes of the answers.
use syn_antona.Prelude.{String, none, some, [], ◌∷◌, ◌++◌, ◌≡◌, ◌≢◌, refl, arith}
use syn_antona.Prelude.Keys.{triple_key, ==_iff}
use syn_antona.Prelude.Errors.{Error, Result, ok, err}
use syn_antona.Exchange.{OrderRequest, ExchangeOrder}
use syn_antona.Live.Records.{OrderStatus}
use syn_antona.Ledger.Attempt.{OrderAttempt, required_id}
use syn_antona.Ledger.Spec.{Entry, Book, Call, Outcome, step, claim_key, mark_key, outcome_of}
use syn_antona.Ledger.Store.{ExecutionOrderStore}
use syn_antona.Engine.Execute.{Engine, Placement, settle, place}
use syn_antona.Engine.Execute.Sent.{outcome_of-returned}

-- A claim in the map, by its outcome.
pub claimed-free :
    (h : OrderRequest → String) (exchange : String) (r : OrderRequest) (book : Book)
    → (step h (Call.claim exchange r) book).0 ≡ Outcome.returned
    → (id : String) × (required_id r.client_order_id ≡ ok id)
      × (book (exchange, r.account_id, id) ≡ none)
      × ((step h (Call.claim exchange r) book).1 (exchange, r.account_id, id)
          ≡ some (record { request_hash = h r; status = OrderStatus.pending }))
unfolding step claim_key
claimed-free h exchange r book done = go (required_id r.client_order_id) refl
  where
    go :
        (id : Result String)
        → required_id r.client_order_id ≡ id
        → (id : String) × (required_id r.client_order_id ≡ ok id)
          × (book (exchange, r.account_id, id) ≡ none)
          × ((step h (Call.claim exchange r) book).1 (exchange, r.account_id, id)
              ≡ some (record { request_hash = h r; status = OrderStatus.pending }))
    go (err x) e = ground arith
    go (ok k) e =
        let key : String × String × String = (exchange, r.account_id, k) in
        (k, e, ground (arith, ==_iff key key), ground (arith, ==_iff key key))

pub claim-refused :
    (h : OrderRequest → String) (exchange : String) (r : OrderRequest) (book : Book)
    → (step h (Call.claim exchange r) book).0 ≢ Outcome.returned
    → (j : String × String × String) → (step h (Call.claim exchange r) book).1 j ≡ book j
unfolding step claim_key
claim-refused h exchange r book failed j = go (required_id r.client_order_id) refl
  where
    go :
        (id : Result String)
        → required_id r.client_order_id ≡ id
        → (step h (Call.claim exchange r) book).1 j ≡ book j
    go (err x) e = ground arith
    go (ok k) e = ground (arith, failed)

-- A mark in the map, of a key that is claimed.
pub marked-order :
    (h : OrderRequest → String) (exchange : String) (r : OrderRequest) (order : ExchangeOrder)
    (book : Book) (id : String) (d : Entry)
    → required_id r.client_order_id ≡ ok id
    → book (exchange, r.account_id, id) ≡ some d
    → ((step h (Call.mark_order exchange r order) book).0 ≡ Outcome.returned)
      × ((step h (Call.mark_order exchange r order) book).1 (exchange, r.account_id, id)
          ≡ some (record { request_hash = d.request_hash; status = OrderStatus.submitted }))
unfolding step mark_key
marked-order h exchange r order book id d required held =
    let key : String × String × String = (exchange, r.account_id, id) in
    ground (arith, ==_iff key key)

pub marked-unknown :
    (h : OrderRequest → String) (exchange : String) (r : OrderRequest) (code : String) (book : Book)
    (id : String) (d : Entry)
    → required_id r.client_order_id ≡ ok id
    → book (exchange, r.account_id, id) ≡ some d
    → ((step h (Call.mark_unknown exchange r code) book).0 ≡ Outcome.returned)
      × ((step h (Call.mark_unknown exchange r code) book).1 (exchange, r.account_id, id)
          ≡ some (record { request_hash = d.request_hash; status = OrderStatus.unknown }))
unfolding step mark_key
marked-unknown h exchange r code book id d required held =
    let key : String × String × String = (exchange, r.account_id, id) in
    ground (arith, ==_iff key key)

module _ {S : Type 0} (store : ExecutionOrderStore S) (exchange : String) (r : OrderRequest) where
  -- What the calls compute to, once the store has answered.
  pub place-err :
      (p : Placement) (e : Engine S) {x : Error} {s : S}
      → store.claim exchange r e.store ≡ (err x, s)
      → place store exchange r p e ≡ (err x, record e { store = s })
  unfolding place
  place-err p e answered = ground (arith, answered)

  pub place-ok :
      (p : Placement) (e : Engine S) {a : OrderAttempt} {s : S}
      → store.claim exchange r e.store ≡ (ok a, s)
      → place store exchange r p e
        ≡ settle store exchange r p (record e { store = s; sent = e.sent ++ (exchange, r) ∷ [] })
  unfolding place
  place-ok p e answered = ground (arith, answered)

  pub settle-placed :
      (order : ExchangeOrder) (e : Engine S) {s : S}
      → store.mark_order exchange r order e.store ≡ (ok tt, s)
      → settle store exchange r (Placement.placed order) e ≡ (ok order, record e { store = s })
  unfolding settle
  settle-placed order e answered = ground (arith, answered)

  pub settle-failed :
      (code : String) (e : Engine S) {s : S}
      → store.mark_unknown exchange r code e.store ≡ (ok tt, s)
      → settle store exchange r (Placement.failed code) e
        ≡ (err Error.order_outcome_unknown, record e { store = s })
  unfolding settle
  settle-failed code e answered = ground (arith, answered)

pub not_returned : (x : Error) → outcome_of {A = OrderAttempt} (err x) ≢ Outcome.returned
not_returned x done =
    let found = outcome_of-returned {A = OrderAttempt} (err x) done in ground (arith, found.1)

-- A call of the store that returned.
pub returned-pair :
    {A S : Type 0} (c : Result A × S)
    → outcome_of c.0 ≡ Outcome.returned
    → (a : A) × (c ≡ (ok a, c.1))
returned-pair (ok a, s) done = (a, refl)
returned-pair {A} (err x, s) done =
    let found = outcome_of-returned {A = A} (err x) done in ground (arith, found.1)
