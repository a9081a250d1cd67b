-- ===== src/Broker/Effects.antt =====
-- What each operation of the broker does to its positions and to the executed ids, on success and
-- on an exception.
use syn_antona.Prelude.{ℕ, String, ◌≡◌, some, arith}
use syn_antona.Prelude.Keys.{text_key}
use syn_antona.Prelude.Dict.{lookup, insert, erase}
use syn_antona.Prelude.Errors.{ok}
use syn_antona.Decimal.{Decimal}
use syn_antona.Domain.{Position, ClosedPosition}
use syn_antona.Broker.Account.{PaperBroker}
use syn_antona.Broker.Orders.{close_market, replace_position}

-- A close that returns takes its position out, and touches no other.
pub close_market-positions :
    (k : String) (price : Decimal) (reason : String) (now : ℕ) (b : PaperBroker)
    {c : ClosedPosition} {b' : PaperBroker}
    → close_market k price reason now b ≡ (ok c, b')
    → (b'.positions ≡ erase k b.positions)
      × (lookup k b.positions ≡ some c.position)
      × (b'.executed_trade_ids ≡ b.executed_trade_ids)
unfolding close_market
close_market-positions k price reason now b h = ground arith

pub replace_position-positions :
    (p : Position) (b : PaperBroker) {b' : PaperBroker}
    → replace_position p b ≡ (ok tt, b')
    → (b'.positions ≡ insert p.trade_id p b.positions)
      × (b'.executed_trade_ids ≡ b.executed_trade_ids)
unfolding replace_position
replace_position-positions p b h = ground arith
