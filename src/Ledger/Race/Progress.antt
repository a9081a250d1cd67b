-- ===== src/Ledger/Race/Progress.antt =====
-- Two turns of one worker are enough for its key to have an owner.
use syn_antona.Prelude.{
  ℕ, zero, suc, ◌-◌, ◌≤◌, String, Bool, true, false, Option, none, some, List, [], ◌∷◌, ◌++◌, ◌≡◌,
  refl, arith, any, all, all-cons, if◌then◌else◌,
}
use syn_antona.Prelude.Keys.{text_key, triple_key, ◌==◌, ==_iff}
use syn_antona.Prelude.Tables.{find}
use syn_antona.Prelude.Errors.{Result, ok, err}
use syn_antona.Exchange.{OrderRequest}
use syn_antona.Live.Records.{ExecutionOrder}
use syn_antona.Ledger.Attempt.{required_id, required_client_order_id}
use syn_antona.Ledger.Sql.{Rows, is_row, new_row}
use syn_antona.Ledger.Race.{Phase, Worker, look, commit, turn, advance, interleave, owners}
use syn_antona.Ledger.Race.Exclusive.{taken, is_waiting, taken-append, one_owner}

-- The request has an id, and its key is the given one.
abbrev pub is_for : String × String × String → Worker → Bool
is_for key w = elim (required_client_order_id w.request) [
  | err e ↦ false
  | ok k ↦ (w.exchange, w.request.account_id, k) == key
]

abbrev at_commit : String × String × String → Worker → String → Bool
at_commit key w k = (w.exchange, w.request.account_id, k) == key

-- The turns that a worker may need until its key is taken; three stands for a worker that is done
-- without it.
abbrev need : String × String × String → Worker → Phase → ℕ
need key w Phase.waiting = if is_for key w then 2 else 3
need key w (Phase.looked k) = if at_commit key w k then 1 else 3
need key w _ = 3

abbrev left : String × String × String → Worker → Phase → Rows → ℕ
left key w phase rows = if any (is_row key) rows then 0 else need key w phase

found-any :
    (test : ExecutionOrder → Bool) (rows : Rows) → any test rows ≡ false → find test rows ≡ none
found-any test [] h = refl
found-any test (r ∷ rows) h = let rest = found-any test rows in ground (arith, rest)

turn-left :
    (h : OrderRequest → String) (key : String × String × String) (w : Worker) (phase : Phase)
    (rows : Rows)
    → left key w phase rows ≤ 2
    → left key w (turn h w phase rows).0 (turn h w phase rows).1 ≤ left key w phase rows - 1
unfolding turn look commit new_row
turn-left h key w Phase.waiting rows few = go (required_id w.request.client_order_id) refl
  where
    go :
        (id : Result String)
        → required_id w.request.client_order_id ≡ id
        → left key w (turn h w Phase.waiting rows).0 rows ≤ left key w Phase.waiting rows - 1
    go (err x) e = ground arith
    go (ok k) e =
        let this : String × String × String = (w.exchange, w.request.account_id, k) in
        ground (arith, ==_iff this key, found-any (is_row this) rows)
turn-left h key w (Phase.looked k) rows few =
    let this : String × String × String = (w.exchange, w.request.account_id, k) in
    ground (arith, taken-append key rows (new_row h w.exchange w.request k), ==_iff this key)
turn-left h key w (Phase.returned a) rows few = ground arith
turn-left h key w (Phase.raised e) rows few = ground arith

-- A key that is taken stays taken.
turn-keeps :
    (h : OrderRequest → String) (key : String × String × String) (w : Worker) (phase : Phase)
    (rows : Rows)
    → taken key rows ≤ taken key (turn h w phase rows).1
unfolding turn commit
turn-keeps h key w Phase.waiting rows = ground arith
turn-keeps h key w (Phase.looked k) rows =
    ground (arith, taken-append key rows (new_row h w.exchange w.request k))
turn-keeps h key w (Phase.returned a) rows = ground arith
turn-keeps h key w (Phase.raised e) rows = ground arith

advance-keeps :
    (h : OrderRequest → String) (key : String × String × String) (n : ℕ) (ws : List Worker)
    (rows : Rows)
    → taken key rows ≤ taken key (advance h n ws rows).1
unfolding advance
advance-keeps h key n [] rows = ground arith
advance-keeps h key zero (w ∷ ws) rows = turn-keeps h key w w.phase rows
advance-keeps h key (suc n) (w ∷ ws) rows = advance-keeps h key n ws rows

-- What the worker at a place needs.
abbrev left_at : String × String × String → ℕ → List Worker → Rows → ℕ
left_at key n [] rows = 3
left_at key zero (w ∷ ws) rows = left key w w.phase rows
left_at key (suc n) (w ∷ ws) rows = left_at key n ws rows

left_at-rows :
    (key : String × String × String) (n : ℕ) (ws : List Worker) (rows rows' : Rows)
    → taken key rows ≤ taken key rows'
    → left_at key n ws rows' ≤ left_at key n ws rows
left_at-rows key n [] rows rows' more = ground arith
left_at-rows key zero (w ∷ ws) rows rows' more = ground arith
left_at-rows key (suc n) (w ∷ ws) rows rows' more = left_at-rows key n ws rows rows' more

module _ (h : OrderRequest → String) (key : String × String × String) where
  -- The worker's own turn, and a turn of any worker.
  advance-own :
      (n : ℕ) (ws : List Worker) (rows : Rows)
      → left_at key n ws rows ≤ 2
      → left_at key n (advance h n ws rows).0 (advance h n ws rows).1 ≤ left_at key n ws rows - 1
  unfolding advance
  advance-own n [] rows few = ground arith
  advance-own zero (w ∷ ws) rows few = turn-left h key w w.phase rows few
  advance-own (suc n) (w ∷ ws) rows few = advance-own n ws rows few

  advance-any :
      (n m : ℕ) (ws : List Worker) (rows : Rows)
      → left_at key n ws rows ≤ 2
      → left_at key n (advance h m ws rows).0 (advance h m ws rows).1 ≤ left_at key n ws rows
  unfolding advance
  advance-any n m [] rows few = ground arith
  advance-any zero zero (w ∷ ws) rows few =
      let own = turn-left h key w w.phase rows few in omega (arith, own)
  advance-any zero (suc m) (w ∷ ws) rows few =
      left_at-rows key zero (w ∷ ws) rows (advance h m ws rows).1 (advance-keeps h key m ws rows)
  advance-any (suc n) zero (w ∷ ws) rows few =
      left_at-rows key n ws rows (turn h w w.phase rows).1 (turn-keeps h key w w.phase rows)
  advance-any (suc n) (suc m) (w ∷ ws) rows few = advance-any n m ws rows few

  -- Turns of others, then the worker's own.
  until-own :
      (n : ℕ) (before rest : List ℕ) (ws : List Worker) (rows : Rows)
      → left_at key n ws rows ≤ 2
      → (ws' : List Worker) × (rows' : Rows) × (interleave h (before ++ n ∷ rest) ws rows
          ≡ interleave h rest ws' rows')
        × (left_at key n ws' rows' ≤ left_at key n ws rows - 1)
  unfolding interleave
  until-own n [] rest ws rows few =
      ((advance h n ws rows).0, (advance h n ws rows).1, refl, advance-own n ws rows few)
  until-own n (m ∷ before) rest ws rows few =
      let fewer = advance-any n m ws rows few in
      let (ws', rows', same, least) =
        until-own n before rest (advance h m ws rows).0 (advance h m ws rows).1
          (omega (arith, fewer)) in
      (ws', rows', same, omega (arith, fewer, least))

  interleave-any :
      (n : ℕ) (schedule : List ℕ) (ws : List Worker) (rows : Rows)
      → left_at key n ws rows ≤ 2
      → left_at key n (interleave h schedule ws rows).0 (interleave h schedule ws rows).1
        ≤ left_at key n ws rows
  unfolding interleave
  interleave-any n [] ws rows few = omega arith
  interleave-any n (m ∷ schedule) ws rows few =
      let fewer = advance-any n m ws rows few in
      let rest =
        interleave-any n schedule (advance h m ws rows).0 (advance h m ws rows).1
          (omega (arith, fewer)) in
      omega (arith, fewer, rest)

abbrev pub worker_at : ℕ → List Worker → Option Worker
worker_at n [] = none
worker_at zero (w ∷ ws) = some w
worker_at (suc n) (w ∷ ws) = worker_at n ws

left_at-start :
    (key : String × String × String) (n : ℕ) (ws : List Worker) (rows : Rows) {w : Worker}
    → all is_waiting ws ≡ true
    → worker_at n ws ≡ some w
    → is_for key w ≡ true
    → left_at key n ws rows ≤ 2
left_at-start key n [] rows waiting there asks = ground arith
left_at-start key zero (v ∷ ws) rows waiting there asks = ground arith
left_at-start key (suc n) (v ∷ ws) rows waiting there asks =
    left_at-start key n ws rows (all-cons is_waiting v ws waiting).1 there asks

left_at-taken :
    (key : String × String × String) (n : ℕ) (ws : List Worker) (rows : Rows)
    → left_at key n ws rows ≤ 0
    → taken key rows ≡ 1
left_at-taken key n [] rows done = ground arith
left_at-taken key zero (w ∷ ws) rows done = ground arith
left_at-taken key (suc n) (w ∷ ws) rows done = left_at-taken key n ws rows done

-- When all workers have yet to begin and no row has the key, and one of the workers, whose request
-- has that key, gets two turns, then in whatever order the others take theirs, exactly one worker
-- ends with the attempt of the key.
pub key_gets_owner :
    (h : OrderRequest → String) (key : String × String × String) (n : ℕ)
    (first second rest : List ℕ) (ws : List Worker) (rows : Rows) {w : Worker}
    → all is_waiting ws ≡ true
    → any (is_row key) rows ≡ false
    → worker_at n ws ≡ some w
    → is_for key w ≡ true
    → owners key (interleave h (first ++ n ∷ (second ++ n ∷ rest)) ws rows).0 ≡ 1
key_gets_owner h key n first second rest ws rows waiting free there asks =
    let start = left_at-start key n ws rows waiting there asks in
    let (ws1, rows1, same1, left1) = until-own h key n first (second ++ n ∷ rest) ws rows start in
    let (ws2, rows2, same2, left2) =
      until-own h key n second rest ws1 rows1 (omega (arith, left1, start)) in
    let end = interleave-any h key n rest ws2 rows2 (omega (arith, left1, left2, start)) in
    let done =
      left_at-taken key n (interleave h rest ws2 rows2).0 (interleave h rest ws2 rows2).1
        (omega (arith, left1, left2, start, end)) in
    let (total, _) = one_owner h key (first ++ n ∷ (second ++ n ∷ rest)) ws rows waiting in
    ground (arith, total, done, same1, same2)
