-- ===== src/Broker/Protection/Sweep.antt =====
-- What one price does to all positions of the broker.
use syn_antona.Prelude.{
  ℕ, String, ◌≡◌, refl, ap, ◌∙◌, Bool, true, false, Option, none, some, List, [], ◌∷◌,
  if◌then◌else◌, arith, inl, inr, Bool-cases,
}
use syn_antona.Prelude.Keys.{◌==◌, ==_iff, ==_self, text_key}
use syn_antona.Prelude.Dict.{Dict, lookup, values}
use syn_antona.Prelude.Errors.{Result, ok}
use syn_antona.Prelude.Actions.{◌>>=◌, return, >>=-returned}
use syn_antona.Decimal.{Decimal}
use syn_antona.Domain.{Position, ClosedPosition}
use syn_antona.Broker.Account.{PaperBroker}
use syn_antona.Broker.Orders.{mark_price}
use syn_antona.Broker.Owned.{IsOwned}
use syn_antona.Broker.Protection.Rounds.{settled, swept, on_position-lookup}
use syn_antona.Broker.Protection.{on_position, on_each, on_all, on_price, prepend}

head_found :
    (j : String) (p : Position) (d : Dict String Position)
    → p.trade_id ≡ j
    → lookup p.trade_id ((j, p) ∷ d) ≡ some p
unfolding lookup
head_found j p d own = rw (own, ==_self j)

-- Under another id stands what stands in the rest.
tail_found :
    (j k : String) (p : Position) (d : Dict String Position)
    → (j == k) ≡ false
    → lookup k ((j, p) ∷ d) ≡ lookup k d
unfolding lookup
tail_found j k p d other = rw other

absent_here :
    (j k : String) (d : Dict String Position)
    → lookup j d ≡ none
    → (j == k) ≡ true
    → lookup k d ≡ none
absent_here j k d own same = rw (← (==_iff j k).0 same) own

-- One round and the rest of the loop, seen from one id: `here` tells whether the round is about it.
combine_rounds :
    (symbol : String) (price : Decimal) (here : Bool) (p : Position)
    (rest before mid after : Option Position)
    → after ≡ swept symbol price rest mid
    → mid ≡ (if here then settled symbol price p else before)
    → (here ≡ true → rest ≡ none)
    → after ≡ swept symbol price (if here then some p else rest) before
combine_rounds symbol price true p rest before mid after last round alone =
    last ∙ rw (alone refl) round
combine_rounds symbol price false p rest before mid after last round alone = last ∙ rw round

combine_lookup :
    (symbol : String) (price : Decimal) (j k : String) (p : Position) (d : Dict String Position)
    (before mid after : Option Position)
    → after ≡ swept symbol price (lookup k d) mid
    → mid ≡ (if j == k then settled symbol price p else before)
    → ((j == k) ≡ true → lookup k d ≡ none)
    → after ≡ swept symbol price (lookup k ((j, p) ∷ d)) before
unfolding lookup
combine_lookup symbol price j k p d = combine_rounds symbol price (j == k) p (lookup k d)

module _ (symbol : String) (price : Decimal) (now : ℕ) where
  -- The same round, under the key of the position.
  round-lookup :
      (j : String) (p : Position) (d : Dict String Position) (b : PaperBroker)
      {c : Option ClosedPosition} {b' : PaperBroker} (k : String)
      → p.trade_id ≡ j
      → ((k : String) (q : Position)
          → lookup k ((j, p) ∷ d) ≡ some q
          → lookup k b.positions ≡ some q)
      → on_position symbol price now p b ≡ (ok c, b')
      → lookup k b'.positions ≡ (if j == k then settled symbol price p else lookup k b.positions)
  round-lookup j p d b k own sub first =
      on_position-lookup symbol price now p b k (sub p.trade_id p (head_found j p d own)) first
      ∙ ap (λ (i : String). if i == k then settled symbol price p else lookup k b.positions) own

  -- A loop that returned: its first round did, and the loop over the rest from there.
  on_each-split :
      (p : Position) (ps : List Position) (b : PaperBroker) {cs : List ClosedPosition}
      {b' : PaperBroker}
      → on_each symbol price now (p ∷ ps) b ≡ (ok cs, b')
      → (closed : Option ClosedPosition) × (mid : PaperBroker) × (others : List ClosedPosition)
        × (on_position symbol price now p b ≡ (ok closed, mid))
        × (on_each symbol price now ps mid ≡ (ok others, b'))
  unfolding on_each
  on_each-split p ps b {cs} {b'} h =
      let (closed, mid, first, rest) =
        >>=-returned (on_position symbol price now p)
          (λ closed. on_each symbol price now ps >>= λ others. return (prepend closed others)) b
          h in
      let (others, last, second, end) =
        >>=-returned (on_each symbol price now ps) (λ others. return (prepend closed others)) mid
          rest in
      let same : last ≡ b' = ap (λ (r : Result (List ClosedPosition) × PaperBroker). r.1) end in
      (closed, mid, others, first, rw same at second)

  -- One round keeps what the rest of the loop will find.
  rest_kept :
      (j : String) (p : Position) (d : Dict String Position) (b mid : PaperBroker)
      {closed : Option ClosedPosition}
      → IsOwned ((j, p) ∷ d)
      → ((k : String) (q : Position)
          → lookup k ((j, p) ∷ d) ≡ some q
          → lookup k b.positions ≡ some q)
      → on_position symbol price now p b ≡ (ok closed, mid)
      → (k : String) (q : Position) → lookup k d ≡ some q
      → lookup k mid.positions ≡ some q
  rest_kept j p d b mid own sub first k q e =
      let at_mid = round-lookup j p d b k own.0 sub first in
      elim (Bool-cases (j == k)) [
        | inl same ↦ cc (absent_here j k d own.1 same)
        | inr other ↦ let kept = sub k q (tail_found j k p d other ∙ e) in at_mid ∙ rw other kept
      ]

  empty_round :
      (b : PaperBroker) {cs : List ClosedPosition} {b' : PaperBroker} (k : String)
      → on_each symbol price now [] b ≡ (ok cs, b')
      → lookup k b'.positions ≡ swept symbol price (lookup k []) (lookup k b.positions)
  unfolding on_each lookup
  empty_round b k h = ground arith

  on_each-lookup :
      (d : Dict String Position) (b : PaperBroker) {cs : List ClosedPosition} {b' : PaperBroker}
      → IsOwned d
      → ((k : String) (p : Position) → lookup k d ≡ some p → lookup k b.positions ≡ some p)
      → on_each symbol price now (values d) b ≡ (ok cs, b')
      → (k : String)
      → lookup k b'.positions ≡ swept symbol price (lookup k d) (lookup k b.positions)
  on_each-lookup [] b own sub h k = empty_round b k h
  on_each-lookup ((j, p) ∷ d) b {cs} {b'} own sub h k =
      let (closed, mid, others, first, second) = on_each-split p (values d) b h in
      let ih = on_each-lookup d mid own.2 (rest_kept j p d b mid own sub first) second k in
      combine_lookup symbol price j k p d (lookup k b.positions) (lookup k mid.positions)
        (lookup k b'.positions) ih (round-lookup j p d b k own.0 sub first)
        (absent_here j k d own.1)

  swept_twice : (o : Option Position) → swept symbol price o o ≡ swept symbol price o none
  swept_twice none = refl
  swept_twice (some p) = refl

  mark_price-positions :
      (b : PaperBroker) {u : Unit {0}} {b' : PaperBroker}
      → mark_price symbol price b ≡ (ok u, b')
      → b'.positions ≡ b.positions
  unfolding mark_price
  mark_price-positions b h = ground arith

  -- After a price of a symbol that the broker handled, under each id stands the position that
  -- stood there, unchanged if it is of another symbol; with its stop or target hit it is gone;
  -- any other has its stop and watermarks advanced. No position appears.
  pub on_price_settles :
      (b : PaperBroker) {cs : List ClosedPosition} {b' : PaperBroker} (k : String)
      → IsOwned b.positions
      → on_price symbol price now b ≡ (ok cs, b')
      → lookup k b'.positions ≡ swept symbol price (lookup k b.positions) none
  unfolding on_price
  on_price_settles b {cs} {b'} k own h =
      let (u, mid, marked, looped) =
        >>=-returned (mark_price symbol price) (λ _. on_all symbol price now) b h in
      let same = mark_price-positions b marked in
      rw (← same) (
        on_each-lookup mid.positions mid (rw same own) (λ _ _ e. e) looped k
        ∙ swept_twice (lookup k mid.positions))
