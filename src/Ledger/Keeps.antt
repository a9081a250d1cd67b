-- ===== src/Ledger/Keeps.antt =====
-- What the calls of the store of rows keep: every claimed key, its hash, and an unknown outcome.
use syn_antona.Prelude.{
  String, Bool, true, false, not, Option, none, some, List, [], ◌∷◌, ◌++◌, ◌≡◌, refl, ap, ◌∙◌,
  arith, all, all-cons,
}
use syn_antona.Prelude.Keys.{text_key, triple_key, ◌==◌, ==_iff, ==_self}
use syn_antona.Prelude.Errors.{Error, Result, ok, err}
use syn_antona.Exchange.{OrderRequest}
use syn_antona.Live.Records.{OrderStatus}
use syn_antona.Ledger.Attempt.{OrderAttempt, existing_error, required_id, required_client_order_id}
use syn_antona.Ledger.Spec.{Entry, Book, Call, Outcome, step, claim_key, mark_key, with_id}
use syn_antona.Ledger.Sql.{Rows, claim, claim_at, new_row, answer}
use syn_antona.Ledger.Sql.Refine.{view, view-append, answer-Same}

-- The rows after a sequence of calls.
unfoldable pub after : (OrderRequest → String) → List Call → Rows → Rows
after h [] rows = rows
after h (c ∷ cs) rows = after h cs (answer h c rows).1

abbrev pub hash_of : Option Entry → Option String
hash_of none = none
hash_of (some e) = some e.request_hash

-- The call marks an order of the key as submitted.
abbrev pub submits : String × String × String → Call → Bool
submits key (Call.mark_order exchange r order) = elim (required_client_order_id r) [
  | err e ↦ false
  | ok k ↦ (exchange, r.account_id, k) == key
]
submits key _ = false

with_id-keeps :
    (P : Book → Type 0) (id : Result String) (next : String → Book → Outcome × Book) (book : Book)
    → P book
    → ((k : String) → id ≡ ok k → P (next k book).1)
    → P (with_id id next book).1
with_id-keeps P (ok k) next book held keeps = keeps k refl
with_id-keeps P (err e) next book held keeps = held

-- The map keeps every key that is claimed, and the hash it was claimed with.
claim_key-hash :
    (i key : String × String × String) (digest d : String) (book : Book)
    → hash_of (book key) ≡ some d
    → hash_of ((claim_key i digest book).1 key) ≡ some d
unfolding claim_key
claim_key-hash i key digest d book held = ground (arith, ==_iff i key)

mark_key-hash :
    (i key : String × String × String) (status : OrderStatus) (d : String) (book : Book)
    → hash_of (book key) ≡ some d
    → hash_of ((mark_key i status book).1 key) ≡ some d
unfolding mark_key
mark_key-hash i key status d book held = ground (arith, ==_iff i key)

step-hash :
    (h : OrderRequest → String) (c : Call) (book : Book) (key : String × String × String)
    (d : String)
    → hash_of (book key) ≡ some d
    → hash_of ((step h c book).1 key) ≡ some d
unfolding step
step-hash h (Call.claim exchange r) book key d held =
    with_id-keeps (λ b. hash_of (b key) ≡ some d) (required_id r.client_order_id)
      (λ k. claim_key (exchange, r.account_id, k) (h r)) book held
      (λ k e. claim_key-hash (exchange, r.account_id, k) key (h r) d book held)
step-hash h (Call.mark_order exchange r order) book key d held =
    with_id-keeps (λ b. hash_of (b key) ≡ some d) (required_id r.client_order_id)
      (λ k. mark_key (exchange, r.account_id, k) OrderStatus.submitted) book held
      (λ k e. mark_key-hash (exchange, r.account_id, k) key OrderStatus.submitted d book held)
step-hash h (Call.mark_unknown exchange r code) book key d held =
    with_id-keeps (λ b. hash_of (b key) ≡ some d) (required_id r.client_order_id)
      (λ k. mark_key (exchange, r.account_id, k) OrderStatus.unknown) book held
      (λ k e. mark_key-hash (exchange, r.account_id, k) key OrderStatus.unknown d book held)

abbrev pub unknown_at : String → Option Entry
unknown_at d = some (record { request_hash = d; status = OrderStatus.unknown })

-- An unknown outcome stays unknown until an order of its key is marked.
step-unknown :
    (h : OrderRequest → String) (c : Call) (book : Book) (key : String × String × String)
    (d : String)
    → submits key c ≡ false
    → book key ≡ unknown_at d
    → (step h c book).1 key ≡ unknown_at d
unfolding step claim_key mark_key required_id
step-unknown h (Call.claim exchange r) book key d quiet held =
    with_id-keeps (λ b. b key ≡ unknown_at d) (required_id r.client_order_id)
      (λ k. claim_key (exchange, r.account_id, k) (h r)) book held
      (λ k e. ground (arith, ==_iff (exchange, r.account_id, k) key))
step-unknown h (Call.mark_order exchange r order) book key d quiet held =
    with_id-keeps (λ b. b key ≡ unknown_at d) (required_id r.client_order_id)
      (λ k. mark_key (exchange, r.account_id, k) OrderStatus.submitted) book held
      (λ k e. ground (arith, ==_iff (exchange, r.account_id, k) key))
step-unknown h (Call.mark_unknown exchange r code) book key d quiet held =
    with_id-keeps (λ b. b key ≡ unknown_at d) (required_id r.client_order_id)
      (λ k. mark_key (exchange, r.account_id, k) OrderStatus.unknown) book held
      (λ k e. ground (arith, ==_iff (exchange, r.account_id, k) key))

-- What the rows hold for a key, after any calls.
pub after-hash :
    (h : OrderRequest → String) (cs : List Call) (rows : Rows) (key : String × String × String)
    (d : String)
    → hash_of (view rows key) ≡ some d
    → hash_of (view (after h cs rows) key) ≡ some d
unfolding after
after-hash h [] rows key d held = held
after-hash h (c ∷ cs) rows key d held = after-hash h cs (answer h c rows).1 key d (
    ap hash_of ((answer-Same h c rows (view rows) (λ j. refl)).1 key)
    ∙ step-hash h c (view rows) key d held)

pub after-unknown :
    (h : OrderRequest → String) (cs : List Call) (rows : Rows) (key : String × String × String)
    (d : String)
    → all (λ c. not (submits key c)) cs ≡ true
    → view rows key ≡ unknown_at d
    → view (after h cs rows) key ≡ unknown_at d
unfolding after
after-unknown h [] rows key d quiet held = held
after-unknown h (c ∷ cs) rows key d quiet held =
    let (this, rest) = all-cons (λ x. not (submits key x)) c cs quiet in
    after-unknown h cs (answer h c rows).1 key d rest (
      (answer-Same h c rows (view rows) (λ j. refl)).1 key
      ∙ step-unknown h c (view rows) key d (ground arith) held)

-- A claim that returned has taken its key.
pub claim-hash :
    (h : OrderRequest → String) (exchange : String) (r : OrderRequest) (rows : Rows)
    {a : OrderAttempt} {rows1 : Rows}
    → claim h exchange r rows ≡ (ok a, rows1)
    → (k : String) × (required_id r.client_order_id ≡ ok k)
      × (a.client_order_id ≡ k)
      × (hash_of (view rows1 (exchange, r.account_id, k)) ≡ some (h r))
unfolding claim claim_at new_row
claim-hash h exchange r rows {a} {rows1} claimed = go (required_id r.client_order_id) refl
  where
    go :
        (id : Result String)
        → required_id r.client_order_id ≡ id
        → (k : String) × (required_id r.client_order_id ≡ ok k)
          × (a.client_order_id ≡ k)
          × (hash_of (view rows1 (exchange, r.account_id, k)) ≡ some (h r))
    go (ok k) e =
        let key : String × String × String = (exchange, r.account_id, k) in
        (
          k,
          e,
          ground arith,
          ground (arith, view-append key rows (new_row h exchange r k), ==_iff key key),
        )
    go (err x) e = ground arith

pub claim-refused :
    (h : OrderRequest → String) (exchange : String) (r : OrderRequest) (rows : Rows) (k : String)
    (e : Entry)
    → required_id r.client_order_id ≡ ok k
    → view rows (exchange, r.account_id, k) ≡ some e
    → claim h exchange r rows ≡ (err (existing_error e.request_hash e.status (h r)), rows)
unfolding claim claim_at
claim-refused h exchange r rows k e id held = ground arith

pub existing_error_self :
    (d : String) → existing_error d OrderStatus.unknown d ≡ Error.order_outcome_unknown
unfolding existing_error
existing_error_self d = ground (arith, ==_self d)

pub hashed :
    (found : Option Entry) (d : String)
    → hash_of found ≡ some d
    → (status : OrderStatus) × (found ≡ some (record { request_hash = d; status = status }))
hashed none d h = ground arith
hashed (some e) d h = (e.status, ground arith)

pub after-append :
    (h : OrderRequest → String) (before : List Call) (c : Call) (rest : List Call) (rows : Rows)
    → after h (before ++ c ∷ rest) rows ≡ after h rest (answer h c (after h before rows)).1
unfolding after
after-append h [] c rest rows = refl
after-append h (b ∷ before) c rest rows = after-append h before c rest (answer h b rows).1

pub mark-unknown :
    (h : OrderRequest → String) (exchange : String) (r : OrderRequest) (code : String) (rows : Rows)
    (k d : String)
    → required_id r.client_order_id ≡ ok k
    → hash_of (view rows (exchange, r.account_id, k)) ≡ some d
    → view (answer h (Call.mark_unknown exchange r code) rows).1 (exchange, r.account_id, k)
      ≡ unknown_at d
unfolding step mark_key
mark-unknown h exchange r code rows k d id held =
    let key : String × String × String = (exchange, r.account_id, k) in
    (answer-Same h (Call.mark_unknown exchange r code) rows (view rows) (λ j. refl)).1 key
    ∙ ground (arith, ==_iff key key)
