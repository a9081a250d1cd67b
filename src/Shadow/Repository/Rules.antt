-- ===== src/Shadow/Repository/Rules.antt =====
-- The unique constraints: what the methods check before they write keeps the rows apart.
pub mod Repair
use mathlib.Core.Path.{subst}
use syn_antona.Prelude.{
  ℕ, String, Bool, true, false, not, ◌&&◌, ◌||◌, Option, none, some, List, [], ◌∷◌, ◌++◌, any, ◌≡◌,
  refl, sym, arith, if◌then◌else◌,
}
use syn_antona.Prelude.Keys.{Key, text_key, ◌==◌}
use syn_antona.Prelude.Errors.{Error, Result, ok, err}
use syn_antona.Prelude.Actions.{Action}
use syn_antona.Shadow.Records.{
  Candle, ShadowCandle, ShadowQuote, DecisionContext, ShadowDecision, Closing, ShadowTrade,
}
use syn_antona.Shadow.Repository.{
  Journal, Texts, is_candle, conflicts, trade_conflicts, has_candle, save_quote, save_candle,
  add_decision, recovered_candle, wait_decision, interrupted_decision, recovered_reason,
  record_recovered_candle, quote_of, interrupted_reason, repair_all, counted, all_or_nothing,
  orphans, repair_orphan_decisions,
}
use syn_antona.Shadow.Repository.Trades.{record_decision, close_trade, is_open, closed_by}
use syn_antona.Prelude.Tables.{find, update_first}

-- No row clashes with a later one.
abbrev pub distinct {ℓ} : {A : Type ℓ} → (A → A → Bool) → List A → Bool
distinct clash [] = true
distinct clash (x ∷ xs) = not (any (λ y. clash y x) xs) && distinct clash xs

pub any_append :
    {A : Type 0} (test : A → Bool) (xs : List A) (x : A)
    → any test (xs ++ x ∷ []) ≡ (any test xs || test x)
any_append test [] x = ground arith
any_append test (y ∷ xs) x = let rest = any_append test xs x in ground (arith, rest)

distinct-append :
    {A : Type 0} (clash : A → A → Bool) (xs : List A) (x : A)
    → distinct clash xs ≡ true
    → any (clash x) xs ≡ false
    → distinct clash (xs ++ x ∷ []) ≡ true
distinct-append clash [] x apart fresh = ground arith
distinct-append clash (y ∷ xs) x apart fresh =
    let rest = distinct-append clash xs x in
    let old = any_append (λ z. clash z y) xs x in ground (arith, rest, old)

-- Two candles of one protocol, exchange, symbol and time.
abbrev pub same_candle : ShadowCandle → ShadowCandle → Bool
same_candle c x = is_candle c.protocol_id c.exchange c.symbol c.candle.timestamp x

pub record IsTidy (j : Journal) : Type 0 where
  pub candles : distinct same_candle j.candles ≡ true
  pub decisions : distinct conflicts j.decisions ≡ true
  pub trades : distinct trade_conflicts j.trades ≡ true

pub data Call : Type 0 where
  quote_saved : ShadowQuote → Call
  candle_saved : ShadowCandle → Call
  candle_recovered : String → String → String → Candle → String → String → ℕ → Call
  decided : ShadowDecision → Option ShadowTrade → ℕ → Call
  repaired : String → String → Call
  trade_closed : String → Closing → ℕ → Call

unfoldable pub after : Texts → Call → Journal → Journal
after texts (quote_saved q) j = save_quote q j
after texts (candle_saved c) j = (save_candle c j).1
after texts (candle_recovered p e s candle hash strategy now) j =
    (record_recovered_candle texts p e s candle hash strategy now j).1
after texts (decided d t now) j = (record_decision texts d t now j).1
after texts (repaired p strategy) j = (repair_orphan_decisions texts p strategy j).1
after texts (trade_closed id values now) j = (close_trade texts id values now j).1

unfoldable pub after_all : Texts → List Call → Journal → Journal
after_all texts [] j = j
after_all texts (c ∷ cs) j = after_all texts cs (after texts c j)

save_candle-IsTidy : (c : ShadowCandle) (j : Journal) → IsTidy j → IsTidy (save_candle c j).1
unfolding save_candle
save_candle-IsTidy c j tidy =
    let apart = distinct-append same_candle j.candles c tidy.candles in
    record {
      candles = ground (arith, apart, tidy.candles);
      decisions = ground (arith, tidy.decisions);
      trades = ground (arith, tidy.trades);
    }

add_decision-IsTidy : (d : ShadowDecision) (j : Journal) → IsTidy j → IsTidy (add_decision d j).1
unfolding add_decision
add_decision-IsTidy d j tidy =
    let apart = distinct-append conflicts j.decisions d tidy.decisions in
    record {
      candles = ground (arith, tidy.candles);
      decisions = ground (arith, apart, tidy.decisions);
      trades = ground (arith, tidy.trades);
    }

recovered-IsTidy :
    (texts : Texts) (p e s : String) (candle : Candle) (hash strategy : String) (now : ℕ)
    (j : Journal)
    → IsTidy j
    → IsTidy (record_recovered_candle texts p e s candle hash strategy now j).1
unfolding record_recovered_candle recovered_candle
recovered-IsTidy texts p e s candle hash strategy now j tidy =
    let c : ShadowCandle = recovered_candle p e s candle hash now in
    let d : ShadowDecision =
      wait_decision texts c none DecisionContext.recovered_after_downtime recovered_reason
        strategy in
    let apart_c = distinct-append same_candle j.candles c tidy.candles in
    let apart_d = distinct-append conflicts j.decisions d tidy.decisions in
    record {
      candles = ground (arith, apart_c, tidy.candles);
      decisions = ground (arith, apart_d, tidy.decisions);
      trades = ground (arith, tidy.trades);
    }

record_decision-IsTidy :
    (texts : Texts) (d : ShadowDecision) (t : Option ShadowTrade) (now : ℕ) (j : Journal)
    → IsTidy j
    → IsTidy (record_decision texts d t now j).1
unfolding record_decision
record_decision-IsTidy texts d none now j tidy = add_decision-IsTidy d j tidy
record_decision-IsTidy texts d (some t) now j tidy =
    let apart_d = distinct-append conflicts j.decisions d tidy.decisions in
    let apart_t = distinct-append trade_conflicts j.trades t tidy.trades in
    record {
      candles = ground (arith, tidy.candles);
      decisions = ground (arith, apart_d, tidy.decisions);
      trades = ground (arith, apart_t, tidy.trades);
    }

-- A change that keeps what the clash looks at keeps the rows apart.
module _ {A : Type 0} (clash : A → A → Bool) (changes : A → Bool) (f : A → A) where
  any-changed :
      (x : A) (xs : List A)
      → ((y : A) → clash (f y) x ≡ clash y x)
      → any (λ y. clash y x) (update_first changes f xs) ≡ any (λ y. clash y x) xs
  any-changed x [] keeps = refl
  any-changed x (y ∷ xs) keeps = let rest = any-changed x xs keeps in ground (arith, rest, keeps y)

  distinct-changed :
      (xs : List A)
      → ((x y : A) → clash (f y) x ≡ clash y x)
      → ((x y : A) → clash y (f x) ≡ clash y x)
      → distinct clash (update_first changes f xs) ≡ distinct clash xs
  distinct-changed [] left right = refl
  distinct-changed (x ∷ xs) left right =
      let rest = distinct-changed xs left right in
      let later = any-changed x xs (left x) in
      let same = any-same (f x) x xs (right x) in ground (arith, rest, later, same)
    where
      any-same :
          (a b : A) (ys : List A)
          → ((y : A) → clash y a ≡ clash y b)
          → any (λ y. clash y a) ys ≡ any (λ y. clash y b) ys
      any-same a b [] equal = refl
      any-same a b (y ∷ ys) equal =
          let tail = any-same a b ys equal in ground (arith, tail, equal y)

close_trade-IsTidy :
    (texts : Texts) (id : String) (values : Closing) (now : ℕ) (j : Journal)
    → IsTidy j
    → IsTidy (close_trade texts id values now j).1
unfolding close_trade
close_trade-IsTidy texts id values now j tidy =
    let apart =
      distinct-changed trade_conflicts (λ x. x.id == id) (closed_by values) j.trades (λ x y. refl)
        (λ x y. refl) in
    record {
      candles = ground (arith, tidy.candles);
      decisions = ground (arith, tidy.decisions);
      trades = ground (arith, apart, tidy.trades);
    }

counted_same : (r : Result ℕ × Journal) → (counted r).1 ≡ r.1
counted_same (ok n, j) = refl
counted_same (err e, j) = refl

repair_all-IsTidy :
    (texts : Texts) (p strategy : String) (cs : List ShadowCandle) (j : Journal)
    → IsTidy j
    → IsTidy (repair_all texts p strategy cs j).1
unfolding repair_all
repair_all-IsTidy texts p strategy [] j tidy = tidy
repair_all-IsTidy texts p strategy (c ∷ cs) j tidy =
    go (add_decision d j) (add_decision-IsTidy d j tidy)
      (λ j'. repair_all-IsTidy texts p strategy cs j')
  where
    d : ShadowDecision
    d = interrupted_decision texts c (quote_of p c j) strategy

    go :
        (r : Result (Unit {0}) × Journal)
        → IsTidy r.1
        → ((j' : Journal) → IsTidy j' → IsTidy (repair_all texts p strategy cs j').1)
        → IsTidy
            (elim r.0 as (λ _. Result ℕ × Journal) [
              | err e ↦ (err e, r.1)
              | ok _ ↦ counted (repair_all texts p strategy cs r.1)
            ]).1
    go (err e, j') kept rest = kept
    go (ok _, j') kept rest =
        subst IsTidy (sym (counted_same (repair_all texts p strategy cs j'))) (rest j' kept)

or_before :
    {A : Type 0} (before : Journal) (r : Result A × Journal)
    → IsTidy before
    → IsTidy r.1
    → IsTidy (all_or_nothing before r).1
or_before before (ok a, j) old new = new
or_before before (err e, j) old new = old

after-IsTidy : (texts : Texts) (c : Call) (j : Journal) → IsTidy j → IsTidy (after texts c j)
unfolding after save_quote repair_orphan_decisions
after-IsTidy texts (quote_saved q) j tidy = record {
  candles = tidy.candles;
  decisions = tidy.decisions;
  trades = tidy.trades;
}
after-IsTidy texts (candle_saved c) j tidy = save_candle-IsTidy c j tidy
after-IsTidy texts (candle_recovered p e s candle hash strategy now) j tidy =
    recovered-IsTidy texts p e s candle hash strategy now j tidy
after-IsTidy texts (decided d t now) j tidy = record_decision-IsTidy texts d t now j tidy
after-IsTidy texts (repaired p strategy) j tidy =
    or_before j (repair_all texts p strategy (orphans p j) j) tidy
      (repair_all-IsTidy texts p strategy (orphans p j) j tidy)
after-IsTidy texts (trade_closed id values now) j tidy =
    close_trade-IsTidy texts id values now j tidy

-- When no two candles of a journal have one protocol, exchange, symbol and time, no two decisions
-- have one id or one candle, and no two trades one id or one decision, then so it is after any
-- sequence of quotes, candles, recovered candles, decisions, repairs and closes, those that raise
-- included.
pub rows_apart :
    (texts : Texts) (cs : List Call) (j : Journal) → IsTidy j → IsTidy (after_all texts cs j)
unfolding after_all
rows_apart texts [] j tidy = tidy
rows_apart texts (c ∷ cs) j tidy =
    rows_apart texts cs (after texts c j) (after-IsTidy texts c j tidy)
