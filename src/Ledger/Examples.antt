-- ===== src/Ledger/Examples.antt =====
-- An order that the tests send.
use syn_antona.Prelude.{String, false, some}
use syn_antona.Decimal.{dec}
use syn_antona.Exchange.{OrderRequest, ExchangeOrder, MarketType, OrderSide, OrderType}

abbrev pub request : OrderRequest
request = record {
  account_id = "main";
  symbol = "BTCUSDT";
  market_type = MarketType.perpetual;
  side = OrderSide.buy;
  order_type = OrderType.limit;
  quantity = dec 1 2;
  price = some (dec 50_000 0);
  leverage = dec 2 0;
  client_order_id = some "c-1";
  reduce_only = false;
}

abbrev pub order : ExchangeOrder
order = record {
  exchange = "bybit";
  account_id = "main";
  order_id = "o-1";
  symbol = "BTCUSDT";
  status = "FILLED";
  quantity = dec 1 2;
  filled_quantity = dec 1 2;
  average_price = some (dec 50_000 0);
  client_order_id = some "c-1";
}

-- A digest that tells requests apart by their symbols.
abbrev pub by_symbol : OrderRequest → String
by_symbol r = r.symbol
