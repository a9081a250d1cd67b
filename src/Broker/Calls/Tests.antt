-- ===== src/Broker/Calls/Tests.antt =====
-- Runs of the broker, and instances of what holds of every sequence of calls.
use syn_antona.Prelude.{◌≡◌, refl, true, false, none, some, List, [], ◌∷◌}
use syn_antona.Prelude.Dict.{lookup, insert, erase}
use syn_antona.Prelude.Errors.{Error, ok, err}
use syn_antona.Decimal.{dec, zero_d, one_d, evaluation}
use syn_antona.Domain.{Side, default_profile, TradeIntent, Position}
use syn_antona.Risk.Manager.{
  per_unit_risk, per_unit_reward, balance_quantity, size_position, check_reward, approve,
}
use syn_antona.Broker.Account.{PaperBroker, account, fill_price}
use syn_antona.Broker.Orders.{open_market, close_market, mark_price, replace_position}
use syn_antona.Broker.Protection.{on_price, on_each, on_position, stop_hit, target_hit, advanced}
use syn_antona.Broker.Calls.{Call, after, after_all}
use syn_antona.Broker.Calls.Validity.{IsValid, after_all-IsValid, reopen_refused}

abbrev fresh : PaperBroker
fresh = record {
  balance = dec 10_000 0;
  fee_rate = dec 6 4;
  slippage_rate = dec 2 4;
  positions = [];
  last_prices = [];
  executed_trade_ids = [];
}

abbrev intent : TradeIntent
intent = record {
  trade_id = "t-1";
  user_id = 7;
  symbol = "BTC/USDT";
  side = Side.long;
  entry = dec 100 0;
  stop_loss = dec 98 0;
  take_profit = dec 104 0;
  equity = zero_d;
  daily_realized_pnl = zero_d;
  open_positions = 0;
  consecutive_losses = 0;
  requested_leverage = one_d;
  available_balance = none;
  volatility_pct = zero_d;
  spread_pct = zero_d;
  cooldown_active = false;
}

fresh-IsValid : IsValid [] fresh
unfolding lookup
fresh-IsValid = record { kept = λ k e. e; owned = tt; known = λ k p e. cc }

abbrev bought : Position
bought = record {
  trade_id = "t-1";
  user_id = 7;
  symbol = "BTC/USDT";
  side = Side.long;
  quantity = dec 5_000_000 6;
  entry_price = dec 10_002 2;
  stop_loss = dec 98 0;
  take_profit = dec 104 0;
  leverage = one_d;
  entry_fee = dec 30 2;
  opened_at = 5;
  initial_risk = dec 202 2;
  break_even_enabled = true;
  trailing_distance = none;
  high_watermark = some (dec 10_002 2);
  low_watermark = some (dec 10_002 2);
  exchange = "paper";
  account_id = none;
  position_id = none;
  strategy_version = "unknown";
}

abbrev holding : PaperBroker
holding = record {
  balance = dec 999_970 2;
  fee_rate = dec 6 4;
  slippage_rate = dec 2 4;
  positions = ("t-1", bought) ∷ [];
  last_prices = ("BTC/USDT", dec 10_002 2) ∷ [];
  executed_trade_ids = "t-1" ∷ [];
}

-- Five units at 100.02 for a fee of 0.30.
opens : open_market intent default_profile 5 fresh ≡ (ok bought, holding)
unfolding open_market account fill_price approve check_reward size_position balance_quantity
    per_unit_risk per_unit_reward insert lookup evaluation
opens = refl

abbrev calls : List Call
calls =
    Call.observe "BTC/USDT" (dec 103 0) 6
    ∷ Call.close "t-1" (dec 103 0) "MANUAL" 7
    ∷ Call.close "t-1" (dec 103 0) "MANUAL" 8
    ∷ []

after_all-IsValid_example :
    IsValid [] (after_all fresh (Call.open_order intent default_profile 5 ∷ calls))
after_all-IsValid_example =
    after_all-IsValid (Call.open_order intent default_profile 5 ∷ calls) fresh fresh-IsValid

reopen_refused_example :
    open_market intent default_profile 9 (after_all holding calls)
    ≡ (err (Error.duplicate_trade "t-1"), after_all holding calls)
reopen_refused_example =
    reopen_refused intent intent default_profile default_profile 5 9 calls fresh fresh-IsValid opens
      refl

-- The position is closed by then.
calls_close : (after_all holding calls).positions ≡ []
unfolding after_all after on_price on_each on_position stop_hit target_hit advanced replace_position
    mark_price close_market fill_price insert erase lookup evaluation
calls_close = refl
