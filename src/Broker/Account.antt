-- ===== src/Broker/Account.antt =====
-- The state of `PaperBroker` and what it computes from it.
use syn_antona.Prelude.{String, Bool, not, List, [], ◌∷◌, if◌then◌else◌, any}
use syn_antona.Prelude.Keys.{◌==◌, text_key}
use syn_antona.Prelude.Dict.{Dict, values, get_or}
use syn_antona.Prelude.Errors.{Result, ok, ◌>>=◌}
use syn_antona.Decimal.{Decimal, zero_d, one_d, ◌+D◌, ◌-D◌, ◌*D◌, ◌/D◌, neg_d, quantize, half_even}
use syn_antona.Domain.{Side, is_long, Position}

pub record PaperBroker : Type 0 where
  pub balance : Decimal
  pub fee_rate : Decimal
  pub slippage_rate : Decimal
  pub positions : Dict String Position
  pub last_prices : Dict String Decimal
  pub executed_trade_ids : List String

-- `trade_id in self._executed_trade_ids`
abbrev pub was_executed : String → PaperBroker → Bool
was_executed k b = any (λ j. j == k) b.executed_trade_ids

pub record PaperAccount : Type 0 where
  pub balance : Decimal
  pub equity : Decimal
  pub available_balance : Decimal
  pub used_margin : Decimal
  pub unrealized_pnl : Decimal

unfoldable pub unrealized_pnl : PaperBroker → Position → Decimal
unrealized_pnl b p =
    let price = get_or p.symbol p.entry_price b.last_prices in
    let difference = price -D p.entry_price in
    (if is_long p.side then difference else neg_d difference) *D p.quantity

unfoldable pub sum_unrealized : PaperBroker → Decimal → List Position → Decimal
sum_unrealized b acc [] = acc
sum_unrealized b acc (p ∷ ps) = sum_unrealized b (acc +D unrealized_pnl b p) ps

unfoldable pub sum_margin : Decimal → List Position → Result Decimal
sum_margin acc [] = ok acc
sum_margin acc (p ∷ ps) = do
  margin ← (p.entry_price *D p.quantity) /D p.leverage
  sum_margin (acc +D margin) ps

unfoldable pub account : PaperBroker → Result PaperAccount
unfolding unrealized_pnl sum_unrealized sum_margin
account b = do
  let unrealized = sum_unrealized b zero_d (values b.positions)
  let equity = b.balance +D unrealized
  used ← sum_margin zero_d (values b.positions)
  ok (record {
    balance = b.balance;
    equity = equity;
    available_balance = equity -D used;
    used_margin = used;
    unrealized_pnl = unrealized;
  })

-- `(side is Side.LONG) == entering`
abbrev pub adverse_for_long : Side → Bool → Bool
adverse_for_long Side.long entering = entering
adverse_for_long Side.short entering = not entering

unfoldable pub fill_price : PaperBroker → Decimal → Side → Bool → Result Decimal
fill_price b price side entering =
    let modifier =
      if adverse_for_long side entering
      then one_d +D b.slippage_rate
      else one_d -D b.slippage_rate in
    quantize (price *D modifier) 2 half_even
