-- ===== src/Broker/Protection/Rounds.antt =====
-- One round of the loop over the positions: what it does under each id.
use syn_antona.Prelude.{
  ℕ, String, ◌≡◌, not, Option, none, some, if◌then◌else◌, arith, inl, inr, Bool-cases,
}
use syn_antona.Prelude.Keys.{◌==◌, ==_iff, text_key}
use syn_antona.Prelude.Dict.{lookup, lookup-insert, lookup-erase}
use syn_antona.Prelude.Errors.{ok}
use syn_antona.Prelude.Actions.{◌>>=◌, return, >>=-returned}
use syn_antona.Decimal.{Decimal}
use syn_antona.Domain.{Position, ClosedPosition}
use syn_antona.Broker.Account.{PaperBroker}
use syn_antona.Broker.Orders.{close_market, replace_position}
use syn_antona.Broker.Effects.{close_market-positions, replace_position-positions}
use syn_antona.Broker.Protection.{stop_hit, target_hit, advanced, on_position}

-- What is left of a position after a price of the symbol: a position of another symbol stays, one
-- whose stop or target is hit is gone, and any other has its stop and its watermarks advanced.
abbrev pub settled : String → Decimal → Position → Option Position
settled symbol price p =
    if not (p.symbol == symbol)
    then some p
    else if stop_hit p price
    then none
    else if target_hit p price
    then none
    else some (advanced p price)

-- What stands under an id after the loop over a part of the positions.
abbrev pub swept : String → Decimal → Option Position → Option Position → Option Position
swept symbol price none before = before
swept symbol price (some p) before = settled symbol price p

module _ (symbol : String) (price : Decimal) (now : ℕ) where
  -- A protective exit takes the position out.
  exit-lookup :
      (p : Position) (at : Decimal) (reason : String) (b : PaperBroker) {c : Option ClosedPosition}
      {b' : PaperBroker} (k : String)
      → (close_market p.trade_id at reason now >>= λ closed. return (some closed)) b ≡ (ok c, b')
      → lookup k b'.positions ≡ (if p.trade_id == k then none else lookup k b.positions)
  exit-lookup p at reason b k h =
      let (closed, mid, returned, end) =
        >>=-returned (close_market p.trade_id at reason now) (λ closed. return (some closed)) b h in
      let taken = close_market-positions p.trade_id at reason now b returned in
      rw (← lookup-erase p.trade_id k b.positions) (ground arith)

  keep-lookup :
      (p q : Position) (b : PaperBroker) {c : Option ClosedPosition} {b' : PaperBroker} (k : String)
      → (replace_position q >>= λ _. return none) b ≡ (ok c, b')
      → lookup k b'.positions ≡ (if q.trade_id == k then some q else lookup k b.positions)
  keep-lookup p q b k h =
      let (_, mid, returned, end) = >>=-returned (replace_position q) (λ _. return none) b h in
      let put = replace_position-positions q b returned in
      rw (← lookup-insert q.trade_id k q b.positions) (ground arith)

  pub on_position-lookup :
      (p : Position) (b : PaperBroker) {c : Option ClosedPosition} {b' : PaperBroker} (k : String)
      → lookup p.trade_id b.positions ≡ some p
      → on_position symbol price now p b ≡ (ok c, b')
      → lookup k b'.positions
        ≡ (if p.trade_id == k then settled symbol price p else lookup k b.positions)
  unfolding on_position
  on_position-lookup p b {c} {b'} k found h = elim (Bool-cases (p.symbol == symbol)) [
    | inr other ↦ ground (arith, ==_iff p.trade_id k)
    | inl same ↦ elim (Bool-cases (stop_hit p price)) [
      | inl stop ↦
          rw (same, stop) (exit-lookup p p.stop_loss "STOP_LOSS" b k (rw (same, stop) at h))
      | inr open_ ↦ elim (Bool-cases (target_hit p price)) [
        | inl target ↦
            rw (same, open_, target)
              (exit-lookup p p.take_profit "TAKE_PROFIT" b k (rw (same, open_, target) at h))
        | inr quiet ↦
            rw (same, open_, quiet)
              (unfold advanced in
                keep-lookup p (advanced p price) b k (rw (same, open_, quiet) at h))
      ]
    ]
  ]
