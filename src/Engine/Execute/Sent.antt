-- ===== src/Engine/Execute/Sent.antt =====
-- Which orders are sent.
use syn_antona.Prelude.{
  ℕ, suc, ◌+◌, String, Bool, false, none, some, List, [], ◌∷◌, ◌++◌, if◌then◌else◌, ◌≡◌, refl,
  arith, ◌⊎◌, inr,
}
use syn_antona.Prelude.Keys.{triple_key, ◌==◌, ==_iff}
use syn_antona.Prelude.Errors.{Result, ok, err}
use syn_antona.Decimal.{Decimal}
use syn_antona.Exchange.{OrderRequest, ExchangeOrder}
use syn_antona.Live.Records.{OrderStatus}
use syn_antona.Ledger.Attempt.{OrderAttempt, required_id, required_client_order_id}
use syn_antona.Ledger.Spec.{Book, Call, Outcome, step, claim_key, mark_key, outcome_of, with_id}
use syn_antona.Ledger.Store.{ExecutionOrderStore, IsLedger, answer_by}
use syn_antona.Ledger.Simulation.{Same}
use syn_antona.Engine.Market.{MarketContext}
use syn_antona.Engine.Gates.{ExecutionRiskContext}
use syn_antona.Engine.Execute.{Engine, Replies, Placement, admit, settle, place}

module _ {S : Type 0} (store : ExecutionOrderStore S) where
  pub admit-keeps :
      (replies : Replies) (market : MarketContext) (request : OrderRequest) (stop_loss : Decimal)
      (c : ExecutionRiskContext) (e : Engine S)
      → ((admit store replies market request stop_loss c e).1.store ≡ e.store)
        × ((admit store replies market request stop_loss c e).1.sent ≡ e.sent)
  unfolding admit
  admit-keeps replies market request stop_loss c e = ground arith

-- The order has the key.
abbrev pub has_key : String × String × String → String → OrderRequest → Bool
has_key key exchange r = elim (required_client_order_id r) [
  | err e ↦ false
  | ok k ↦ (exchange, r.account_id, k) == key
]

abbrev pub orders_for : String × String × String → List (String × OrderRequest) → ℕ
orders_for key [] = 0
orders_for key ((exchange, r) ∷ sent) =
    if has_key key exchange r then suc (orders_for key sent) else orders_for key sent

-- One when the map has the key, and zero otherwise.
abbrev pub held : String × String × String → Book → ℕ
held key book = elim (book key) [ none ↦ 0 | some e ↦ 1 ]

abbrev one_if : Bool → ℕ
one_if b = if b then 1 else 0

orders_for-append :
    (key : String × String × String) (sent : List (String × OrderRequest)) (exchange : String)
    (r : OrderRequest)
    → orders_for key (sent ++ (exchange, r) ∷ [])
      ≡ orders_for key sent + one_if (has_key key exchange r)
orders_for-append key [] exchange r = ground arith
orders_for-append key ((x, y) ∷ sent) exchange r =
    let rest = orders_for-append key sent exchange r in ground (arith, rest)

-- A claim that returns takes a free key; one that is refused, and a mark, leave the keys alone.
claim-held :
    (h : OrderRequest → String) (key : String × String × String) (exchange : String)
    (r : OrderRequest) (book : Book)
    → (step h (Call.claim exchange r) book).0 ≡ Outcome.returned
    → one_if (has_key key exchange r) + held key book
      ≡ held key (step h (Call.claim exchange r) book).1
unfolding step claim_key
claim-held h key exchange r book done = go (required_id r.client_order_id) refl
  where
    go :
        (id : Result String)
        → required_id r.client_order_id ≡ id
        → one_if (has_key key exchange r) + held key book
          ≡ held key (step h (Call.claim exchange r) book).1
    go (err x) e = ground arith
    go (ok k) e = ground (arith, ==_iff (exchange, r.account_id, k) key)

refused-held :
    (h : OrderRequest → String) (key : String × String × String) (exchange : String)
    (r : OrderRequest) (book : Book)
    → ((step h (Call.claim exchange r) book).0 ≡ Outcome.returned)
      ⊎ (held key (step h (Call.claim exchange r) book).1 ≡ held key book)
unfolding step claim_key
refused-held h key exchange r book = go (required_id r.client_order_id) refl
  where
    go :
        (id : Result String)
        → required_id r.client_order_id ≡ id
        → ((step h (Call.claim exchange r) book).0 ≡ Outcome.returned)
          ⊎ (held key (step h (Call.claim exchange r) book).1 ≡ held key book)
    go (err x) e = inr (ground arith)
    go (ok k) e = ground arith

mark_key-held :
    (key i : String × String × String) (status : OrderStatus) (book : Book)
    → held key (mark_key i status book).1 ≡ held key book
unfolding mark_key
mark_key-held key i status book = ground (arith, ==_iff i key)

mark-held :
    (h : OrderRequest → String) (key : String × String × String) (exchange : String)
    (r : OrderRequest) (book : Book)
    → ((order : ExchangeOrder)
        → held key (step h (Call.mark_order exchange r order) book).1 ≡ held key book)
      × ((code : String)
          → held key (step h (Call.mark_unknown exchange r code) book).1 ≡ held key book)
unfolding step
mark-held h key exchange r book = go (required_id r.client_order_id)
  where
    go :
        (id : Result String)
        → ((order : ExchangeOrder)
            → held key
                (with_id id
                  (λ k. mark_key (exchange, r.account_id, k) OrderStatus.submitted)
                  book).1
              ≡ held key book)
          × ((code : String)
              → held key
                  (with_id id
                    (λ k. mark_key (exchange, r.account_id, k) OrderStatus.unknown)
                    book).1
                ≡ held key book)
    go (err x) = (λ order. refl, λ code. refl)
    go (ok k) = (
      λ order. mark_key-held key (exchange, r.account_id, k) OrderStatus.submitted book,
      λ code. mark_key-held key (exchange, r.account_id, k) OrderStatus.unknown book,
    )

pub outcome_of-returned :
    {A : Type 0} (r : Result A) → outcome_of r ≡ Outcome.returned → (a : A) × (r ≡ ok a)
outcome_of-returned (ok a) h = (a, refl)
outcome_of-returned (err e) h = ground arith

module _ {S : Type 0} (store : ExecutionOrderStore S) (view : S → Book)
    (request_hash : OrderRequest → String) (law : IsLedger store view request_hash)
    (key : String × String × String) where
  settle-held :
      (exchange : String) (r : OrderRequest) (p : Placement) (e : Engine S)
      → (held key (view (settle store exchange r p e).1.store) ≡ held key (view e.store))
        × ((settle store exchange r p e).1.sent ≡ e.sent)
  unfolding settle
  settle-held exchange r (Placement.placed order) e =
      let marked =
        (law.same (Call.mark_order exchange r order) e.store (view e.store) (λ j. refl)).1 key in
      let kept = (mark-held request_hash key exchange r (view e.store)).0 order in
      (ground (arith, marked, kept), ground arith)
  settle-held exchange r (Placement.failed code) e =
      let marked =
        (law.same (Call.mark_unknown exchange r code) e.store (view e.store) (λ j. refl)).1 key in
      let kept = (mark-held request_hash key exchange r (view e.store)).1 code in
      (ground (arith, marked, kept), ground arith)

  -- What the claim and what follows it do to the orders of the key.
  pub place-held :
      (exchange : String) (r : OrderRequest) (p : Placement) (e : Engine S)
      → orders_for key (place store exchange r p e).1.sent + held key (view e.store)
        ≡ orders_for key e.sent + held key (view (place store exchange r p e).1.store)
  unfolding place
  place-held exchange r p e = go (store.claim exchange r e.store) refl
    where
      claimed :
          Same view
            (answer_by store (Call.claim exchange r) e.store)
            (step request_hash (Call.claim exchange r) (view e.store))
      claimed = law.same (Call.claim exchange r) e.store (view e.store) (λ j. refl)

      go :
          (c : Result OrderAttempt × S)
          → store.claim exchange r e.store ≡ c
          → orders_for key (place store exchange r p e).1.sent + held key (view e.store)
            ≡ orders_for key e.sent + held key (view (place store exchange r p e).1.store)
      go (ok a, s) same =
          let took = claim-held request_hash key exchange r (view e.store) in
          let after : Engine S = record e { store = s; sent = e.sent ++ (exchange, r) ∷ [] } in
          let (kept, quiet) = settle-held exchange r p after in
          ground (
            arith,
            took,
            claimed.0,
            claimed.1 key,
            kept,
            quiet,
            orders_for-append key e.sent exchange r,
          )
      go (err x, s) same =
          let either = refused-held request_hash key exchange r (view e.store) in
          let returned = outcome_of-returned {A = OrderAttempt} (err x) in
          ground (arith, either, claimed.0, claimed.1 key, returned)
