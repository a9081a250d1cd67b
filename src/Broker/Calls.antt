-- ===== src/Broker/Calls.antt =====
-- The calls that the broker takes, one after another.
pub mod Validity
mod Tests
use syn_antona.Prelude.{
  ℕ, String, ◌≡◌, refl, Bool, true, false, not, Option, none, some, List, [], ◌∷◌, arith, inl, inr,
  Bool-cases, if◌then◌else◌,
}
use syn_antona.Prelude.Keys.{◌==◌, ==_iff, text_key}
use syn_antona.Prelude.Dict.{Dict, lookup, contains, insert, erase, values}
use syn_antona.Prelude.Errors.{Error, Result, ok, err}
use syn_antona.Prelude.Actions.{Action, ◌>>=◌, return, write}
use syn_antona.Prelude.Actions.Preserve.{
  Preserves, Preserves-write, Preserves->>=, Preserves-reading, Preserves-return, preserve_rules,
}
use syn_antona.Decimal.{Decimal}
use syn_antona.Domain.{RiskProfile, TradeIntent, Position, ClosedPosition}
use syn_antona.Broker.Account.{PaperBroker, was_executed}
use syn_antona.Broker.Book.{
  member, IsBook, erase-IsBook, insert-IsBook, contains-member, open-IsBook,
}
use syn_antona.Broker.Orders.{
  record_open, open_market, mark_price, close_market, replace_position, close_each, close_all,
}
use syn_antona.Broker.Protection.{on_position, on_each, on_price, advanced, stop_hit, target_hit}

-- The public operations, with their arguments and the clock.
pub data Call : Type 0 where
  open_order : TradeIntent → RiskProfile → ℕ → Call
  mark : String → Decimal → Call
  close : String → Decimal → String → ℕ → Call
  replace : Position → Call
  close_everything : (String → Option Decimal) → String → ℕ → Call
  observe : String → Decimal → ℕ → Call

-- The broker after a call. An exception reaches the caller; the broker stays as it was left.
unfoldable pub after : PaperBroker → Call → PaperBroker
after b (Call.open_order intent profile now) = (open_market intent profile now b).1
after b (Call.mark symbol price) = (mark_price symbol price b).1
after b (Call.close k price reason now) = (close_market k price reason now b).1
after b (Call.replace p) = (replace_position p b).1
after b (Call.close_everything price_of reason now) = (close_all price_of reason now b).1
after b (Call.observe symbol price now) = (on_price symbol price now b).1

unfoldable pub after_all : PaperBroker → List Call → PaperBroker
after_all b [] = b
after_all b (c ∷ cs) = after_all (after b c) cs
