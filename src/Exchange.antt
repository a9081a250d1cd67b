-- ===== src/Exchange.antt =====
-- The exchange-neutral data of app/exchanges/models.py that the trading code passes on.
use syn_antona.Prelude.{ℕ, String, Bool, true, false, Option}
use syn_antona.Decimal.{Decimal}

pub data MarketType : Type 0 where
  spot futures perpetual : MarketType

pub data OrderSide : Type 0 where
  buy sell : OrderSide

pub data OrderType : Type 0 where
  market limit : OrderType

-- `side is OrderSide.BUY`
abbrev pub is_buy : OrderSide → Bool
is_buy OrderSide.buy = true
is_buy OrderSide.sell = false

pub record InstrumentRules : Type 0 where
  pub tick_size : Decimal
  pub quantity_step : Decimal
  pub minimum_quantity : Decimal
  pub minimum_notional : Decimal
  pub maximum_quantity : Option Decimal
  pub maximum_leverage : Decimal
  pub price_precision : Option ℕ
  pub quantity_precision : Option ℕ

pub record OrderRequest : Type 0 where
  pub account_id : String
  pub symbol : String
  pub market_type : MarketType
  pub side : OrderSide
  pub order_type : OrderType
  pub quantity : Decimal
  pub price : Option Decimal
  pub leverage : Decimal
  pub client_order_id : Option String
  pub reduce_only : Bool

pub record ExchangeOrder : Type 0 where
  pub exchange : String
  pub account_id : String
  pub order_id : String
  pub symbol : String
  pub status : String
  pub quantity : Decimal
  pub filled_quantity : Decimal
  pub average_price : Option Decimal
  pub client_order_id : Option String
