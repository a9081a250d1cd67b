-- ===== src/Broker/Calls/Validity.antt =====
-- Any sequence of calls of the broker keeps its book, whether they return or raise.
use mathlib.Core.Path.{subst}
use syn_antona.Prelude.{ap, ℕ, String, ◌≡◌, true, Option, List, [], ◌∷◌, arith}
use syn_antona.Prelude.Keys.{==_iff, text_key}
use syn_antona.Prelude.Dict.{values}
use syn_antona.Prelude.Errors.{Error, Result, ok, err}
use syn_antona.Prelude.Actions.{write}
use syn_antona.Prelude.Actions.Preserve.{Preserves, Preserves-write, preserve_rules}
use syn_antona.Decimal.{Decimal}
use syn_antona.Domain.{RiskProfile, TradeIntent, Position}
use syn_antona.Broker.Account.{PaperBroker}
use syn_antona.Broker.Book.{
  member, IsBook, erase-IsBook, insert-IsBook, contains-member, open-IsBook,
}
use syn_antona.Broker.Orders.{
  record_open, open_market, mark_price, close_market, replace_position, close_each, close_all,
}
use syn_antona.Broker.Protection.{on_position, on_each, on_all, on_price}
use syn_antona.Broker.Calls.{Call, after, after_all}

abbrev pub IsValid : List String → PaperBroker → Type 0
IsValid past b = IsBook past b.positions b.executed_trade_ids

module _ {past : List String} where
  record_open-Preserves : (p : Position) → Preserves (IsValid past) (write (record_open p))
  record_open-Preserves p =
      Preserves-write (record_open p) (λ b h. open-IsBook p b.positions b.executed_trade_ids h)

  open_market-Preserves :
      (intent : TradeIntent) (profile : RiskProfile) (now : ℕ)
      → Preserves (IsValid past) (open_market intent profile now)
  unfolding open_market
  open_market-Preserves intent profile now = search (preserve_rules, record_open-Preserves) depth 24

  close_market-IsValid :
      (k : String) (price : Decimal) (reason : String) (now : ℕ) (b : PaperBroker)
      → IsValid past b
      → (IsValid past) (close_market k price reason now b).1
  unfolding close_market
  close_market-IsValid k price reason now b h =
      ground (arith, erase-IsBook k b.positions b.executed_trade_ids h)

  replace_position-IsValid :
      (p : Position) (b : PaperBroker) → (IsValid past) b → (IsValid past) (replace_position p b).1
  unfolding replace_position
  replace_position-IsValid p b h = ground (
    arith,
    contains-member p.trade_id b.positions b.executed_trade_ids h,
    insert-IsBook p b.positions b.executed_trade_ids h,
  )

  close_market-Preserves :
      (k : String) (price : Decimal) (reason : String) (now : ℕ)
      → Preserves (IsValid past) (close_market k price reason now)
  close_market-Preserves k price reason now = record {
    holds = λ b h. close_market-IsValid k price reason now b h;
  }

  replace_position-Preserves : (p : Position) → Preserves (IsValid past) (replace_position p)
  replace_position-Preserves p = record { holds = λ b h. replace_position-IsValid p b h }

  mark_price-Preserves :
      (symbol : String) (price : Decimal) → Preserves (IsValid past) (mark_price symbol price)
  unfolding mark_price
  mark_price-Preserves symbol price = record { holds = λ b h. ground arith }

  ruleset broker_rules = (
    preserve_rules, open_market-Preserves, close_market-Preserves, replace_position-Preserves,
    mark_price-Preserves,
  )

  close_each-Preserves :
      (price_of : String → Option Decimal) (reason : String) (now : ℕ) (ps : List Position)
      → Preserves (IsValid past) (close_each price_of reason now ps)
  unfolding close_each
  close_each-Preserves price_of reason now [] = search broker_rules
  close_each-Preserves price_of reason now (p ∷ ps) =
      let rest = close_each-Preserves price_of reason now ps in search broker_rules depth 12

  on_position-Preserves :
      (symbol : String) (price : Decimal) (now : ℕ) (p : Position)
      → Preserves (IsValid past) (on_position symbol price now p)
  unfolding on_position
  on_position-Preserves symbol price now p = search broker_rules depth 12

  on_each-Preserves :
      (symbol : String) (price : Decimal) (now : ℕ) (ps : List Position)
      → Preserves (IsValid past) (on_each symbol price now ps)
  unfolding on_each
  on_each-Preserves symbol price now [] = search broker_rules
  on_each-Preserves symbol price now (p ∷ ps) =
      let rest = on_each-Preserves symbol price now ps in
      search (broker_rules, on_position-Preserves) depth 12

  on_all-Preserves :
      (symbol : String) (price : Decimal) (now : ℕ)
      → Preserves (IsValid past) (on_all symbol price now)
  on_all-Preserves symbol price now = record {
    holds = λ b h. (on_each-Preserves symbol price now (values b.positions)).holds b h;
  }

  on_price-Preserves :
      (symbol : String) (price : Decimal) (now : ℕ)
      → Preserves (IsValid past) (on_price symbol price now)
  unfolding on_price
  on_price-Preserves symbol price now = search (broker_rules, on_all-Preserves) depth 12

  after-IsValid : (b : PaperBroker) (c : Call) → (IsValid past) b → (IsValid past) (after b c)
  unfolding after close_all
  after-IsValid b (Call.open_order intent profile now) h =
      (open_market-Preserves intent profile now).holds b h
  after-IsValid b (Call.mark symbol price) h = (mark_price-Preserves symbol price).holds b h
  after-IsValid b (Call.close k price reason now) h =
      (close_market-Preserves k price reason now).holds b h
  after-IsValid b (Call.replace p) h = (replace_position-Preserves p).holds b h
  after-IsValid b (Call.close_everything price_of reason now) h =
      (close_each-Preserves price_of reason now (values b.positions)).holds b h
  after-IsValid b (Call.observe symbol price now) h =
      (on_price-Preserves symbol price now).holds b h

  -- Whatever calls are made, and whether they return or raise, every position stands under its own
  -- id, once, its id is recorded as executed, and no recorded id is forgotten.
  pub after_all-IsValid :
      (cs : List Call) (b : PaperBroker) → (IsValid past) b → (IsValid past) (after_all b cs)
  unfolding after_all
  after_all-IsValid [] b h = h
  after_all-IsValid (c ∷ cs) b h = after_all-IsValid cs (after b c) (after-IsValid b c h)

open_market-member :
    (intent : TradeIntent) (profile : RiskProfile) (now : ℕ) (b : PaperBroker) {p : Position}
    {b' : PaperBroker}
    → open_market intent profile now b ≡ (ok p, b')
    → member intent.trade_id b'.executed_trade_ids ≡ true
unfolding open_market
open_market-member intent profile now b h = ground (arith, ==_iff intent.trade_id intent.trade_id)

open_market-refused :
    (intent : TradeIntent) (profile : RiskProfile) (now : ℕ) (b : PaperBroker)
    → member intent.trade_id b.executed_trade_ids ≡ true
    → open_market intent profile now b ≡ (err (Error.duplicate_trade intent.trade_id), b)
unfolding open_market
open_market-refused intent profile now b h = ground arith

-- From here on nothing that is recorded now is forgotten.
from_now : {past : List String} (b : PaperBroker) → IsValid past b → IsValid b.executed_trade_ids b
from_now b h = record { kept = λ k e. e; owned = h.owned; known = h.known }

-- A trade id that was opened is refused for ever: after any further calls, closes included, an
-- intent with this id raises the duplicate error and changes nothing.
pub reopen_refused :
    {past : List String} (intent again : TradeIntent) (profile profile' : RiskProfile)
    (now now' : ℕ) (cs : List Call) (b : PaperBroker) {p : Position} {b' : PaperBroker}
    → IsValid past b
    → open_market intent profile now b ≡ (ok p, b')
    → again.trade_id ≡ intent.trade_id
    → open_market again profile' now' (after_all b' cs)
      ≡ (err (Error.duplicate_trade again.trade_id), after_all b' cs)
reopen_refused {past} intent again profile profile' now now' cs b {p} {b'} valid opened same =
    let valid' : IsValid past b' =
      subst (IsValid past) (ap (λ (r : Result Position × PaperBroker). r.1) opened)
        ((open_market-Preserves intent profile now).holds b valid) in
    open_market-refused again profile' now' (after_all b' cs) (
      (after_all-IsValid cs b' (from_now b' valid')).kept again.trade_id
        (rw same (open_market-member intent profile now b opened)))
