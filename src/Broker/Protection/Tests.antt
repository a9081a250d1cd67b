-- ===== src/Broker/Protection/Tests.antt =====
-- Prices against a long position.
use syn_antona.Prelude.{◌≡◌, refl, true, false, none, some, List, [], ◌∷◌}
use syn_antona.Prelude.Keys.{text_key}
use syn_antona.Prelude.Dict.{lookup, insert}
use syn_antona.Prelude.Errors.{ok}
use syn_antona.Decimal.{dec, one_d, evaluation}
use syn_antona.Domain.{Side, Position, ClosedPosition}
use syn_antona.Broker.Account.{PaperBroker}
use syn_antona.Broker.Orders.{mark_price, replace_position}
use syn_antona.Broker.Owned.{IsOwned}
use syn_antona.Broker.Protection.{
  stop_hit, target_hit, break_even_stop, trailing_stop, advanced, on_position, on_each, on_price,
}
use syn_antona.Broker.Protection.Rounds.{swept}
use syn_antona.Broker.Protection.Stops.{
  IsNoLooser, HasReachedR, advanced_stop, candle_exit, candle_stop_first,
}
use syn_antona.Broker.Protection.Sweep.{on_price_settles}

abbrev held : Position
held = record {
  trade_id = "t-1";
  user_id = 7;
  symbol = "BTC/USDT";
  side = Side.long;
  quantity = dec 5 0;
  entry_price = dec 100 0;
  stop_loss = dec 98 0;
  take_profit = dec 104 0;
  leverage = one_d;
  entry_fee = dec 30 2;
  opened_at = 5;
  initial_risk = dec 2 0;
  break_even_enabled = true;
  trailing_distance = some (dec 1 0);
  high_watermark = some (dec 100 0);
  low_watermark = some (dec 100 0);
  exchange = "paper";
  account_id = none;
  position_id = none;
  strategy_version = "unknown";
}

abbrev holding : PaperBroker
holding = record {
  balance = dec 1000 0;
  fee_rate = dec 6 4;
  slippage_rate = dec 2 4;
  positions = ("t-1", held) ∷ [];
  last_prices = [];
  executed_trade_ids = "t-1" ∷ [];
}

holding-IsOwned : IsOwned holding.positions
unfolding lookup
holding-IsOwned = (refl, refl, tt)

-- At 103 the trailing stop is at 102.
trails : (advanced held (dec 103 0)).stop_loss ≡ dec 102 0
unfolding advanced trailing_stop break_even_stop evaluation
trails = refl

advanced_stop_example :
    IsNoLooser Side.long held.stop_loss (advanced held (dec 103 0)).stop_loss
    × (true ≡ true
        → HasReachedR Side.long held (dec 103 0)
        → IsNoLooser Side.long held.entry_price (advanced held (dec 103 0)).stop_loss)
advanced_stop_example = advanced_stop held (dec 103 0)

candle_stop_first_example :
    (stop_hit held (dec 97 0) ≡ true
      → candle_exit held (dec 105 0) (dec 96 0) ≡ some (dec 98 0, "STOP_LOSS"))
    × (candle_exit held (dec 105 0) (dec 96 0) ≡ none
        → (stop_hit held (dec 97 0) ≡ false) × (target_hit held (dec 97 0) ≡ false))
unfolding evaluation
candle_stop_first_example = candle_stop_first held (dec 105 0) (dec 96 0) (dec 97 0) refl refl

abbrev ended : List ClosedPosition × PaperBroker
ended = (
  [],
  record holding {
    positions =
        (
          "t-1",
          record held {
            stop_loss = dec 102 0;
            high_watermark = some (dec 103 0);
            low_watermark = some (dec 100 0);
          },
        )
        ∷ [];
    last_prices = ("BTC/USDT", dec 103 0) ∷ [];
  },
)

rises : on_price "BTC/USDT" (dec 103 0) 6 holding ≡ (ok ended.0, ended.1)
unfolding on_price on_each on_position stop_hit target_hit advanced trailing_stop break_even_stop
    mark_price replace_position insert lookup evaluation
rises = refl

on_price_settles_example :
    lookup "t-1" ended.1.positions
    ≡ swept "BTC/USDT" (dec 103 0) (lookup "t-1" holding.positions) none
on_price_settles_example =
    on_price_settles "BTC/USDT" (dec 103 0) 6 holding "t-1" holding-IsOwned rises
