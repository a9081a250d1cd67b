-- ===== src/Ledger/Race/Exclusive.antt =====
-- One owner for a key, in every order of the turns.
use syn_antona.Prelude.{
  ℕ, zero, suc, ◌+◌, ◌≤◌, String, Bool, true, false, List, [], ◌∷◌, ◌++◌, ◌≡◌, refl, arith, any,
  all, all-cons, if◌then◌else◌,
}
use syn_antona.Prelude.Keys.{triple_key, ==_iff}
use syn_antona.Exchange.{OrderRequest}
use syn_antona.Live.Records.{ExecutionOrder}
use syn_antona.Ledger.Sql.{Rows, is_row, new_row}
use syn_antona.Ledger.Race.{Phase, Worker, look, commit, turn, advance, interleave, owns, owners}

-- One when a row has the key, and zero otherwise.
abbrev pub taken : String × String × String → Rows → ℕ
taken key rows = if any (is_row key) rows then 1 else 0

abbrev pub is_waiting : Worker → Bool
is_waiting w = elim w.phase [ Phase.waiting ↦ true | _ ↦ false ]

abbrev owned : String × String × String → Worker → Phase → ℕ
owned key w phase = if owns key (record w { phase = phase }) then 1 else 0

pub taken-append :
    (key : String × String × String) (rows : Rows) (row : ExecutionOrder)
    → taken key (rows ++ row ∷ []) ≡ (if is_row key row then 1 else taken key rows)
taken-append key [] row = ground arith
taken-append key (r ∷ rows) row = let rest = taken-append key rows row in ground (arith, rest)

-- A turn makes an owner exactly when it takes the key.
turn-taken :
    (h : OrderRequest → String) (key : String × String × String) (w : Worker) (phase : Phase)
    (rows : Rows)
    → owned key w (turn h w phase rows).0 + taken key rows
      ≡ owned key w phase + taken key (turn h w phase rows).1
unfolding turn look commit new_row
turn-taken h key w Phase.waiting rows = ground arith
turn-taken h key w (Phase.looked k) rows =
    let this : String × String × String = (w.exchange, w.request.account_id, k) in
    ground (arith, taken-append key rows (new_row h w.exchange w.request k), ==_iff this key)
turn-taken h key w (Phase.returned a) rows = ground arith
turn-taken h key w (Phase.raised e) rows = ground arith

advance-taken :
    (h : OrderRequest → String) (key : String × String × String) (n : ℕ) (ws : List Worker)
    (rows : Rows)
    → owners key (advance h n ws rows).0 + taken key rows
      ≡ owners key ws + taken key (advance h n ws rows).1
unfolding advance
advance-taken h key n [] rows = refl
advance-taken h key zero (w ∷ ws) rows = ground (arith, turn-taken h key w w.phase rows)
advance-taken h key (suc n) (w ∷ ws) rows =
    let rest = advance-taken h key n ws rows in ground (arith, rest)

interleave-taken :
    (h : OrderRequest → String) (key : String × String × String) (schedule : List ℕ)
    (ws : List Worker) (rows : Rows)
    → owners key (interleave h schedule ws rows).0 + taken key rows
      ≡ owners key ws + taken key (interleave h schedule ws rows).1
unfolding interleave
interleave-taken h key [] ws rows = refl
interleave-taken h key (n ∷ schedule) ws rows =
    let this = advance-taken h key n ws rows in
    let rest = interleave-taken h key schedule (advance h n ws rows).0 (advance h n ws rows).1 in
    omega (arith, this, rest)

waiting-owners :
    (key : String × String × String) (ws : List Worker)
    → all is_waiting ws ≡ true
    → owners key ws ≡ 0
waiting-owners key [] waiting = refl
waiting-owners key (w ∷ ws) waiting =
    let (this, rest) = all-cons is_waiting w ws waiting in
    let none = waiting-owners key ws rest in ground (arith, none)

-- Workers that all have yet to begin claim keys in the rows, and take their turns in any order,
-- each first looking and later committing: the number of workers that end with the attempt of a key
-- is at most one, and is one exactly when the key had no row before and has one after.
pub one_owner :
    (h : OrderRequest → String) (key : String × String × String) (schedule : List ℕ)
    (ws : List Worker) (rows : Rows)
    → all is_waiting ws ≡ true
    → (owners key (interleave h schedule ws rows).0 + taken key rows
        ≡ taken key (interleave h schedule ws rows).1)
      × (owners key (interleave h schedule ws rows).0 ≤ 1)
one_owner h key schedule ws rows waiting =
    let total = interleave-taken h key schedule ws rows in
    let none = waiting-owners key ws waiting in
    (omega (arith, total, none), ground (arith, total, none))
