-- ===== src/Engine/Router/Tests.antt =====
-- The router and the selector on concrete venues.
use syn_antona.Prelude.{ℕ, String, none, some, List, [], ◌∷◌, ◌≡◌, refl, All, filter}
use syn_antona.Prelude.Keys.{text_key}
use syn_antona.Prelude.Dict.{insert, lookup}
use syn_antona.Prelude.Errors.{Error, ok, err}
use syn_antona.Decimal.{Decimal, dec, zero_d, evaluation}
use syn_antona.Exchange.{MarketType}
use syn_antona.Ledger.Examples.{by_symbol}
use syn_antona.Ledger.Store.{sql_store}
use syn_antona.Engine.Market.{MarketContext, VenueQuote, spread_pct}
use syn_antona.Engine.Router.{execution_cost_score, least, least_from, select, is_usable}
use syn_antona.Engine.Router.Least.{CostsAtLeast, IsOneOf, select_least}
use syn_antona.Engine.Calls.{Call, after, after_all}
use syn_antona.Engine.Examples.{ticker, market, report, adapter, engine}
use syn_antona.Engine.Router.Quotes.{AdapterAnswers, asked_if, get_context, quotes}
use syn_antona.Engine.Router.Quotes.Bound.{AllBound}
use syn_antona.Engine.Calls.Quoted.{quotes_bound}
use syn_antona.Engine.Router.{ExchangeAdapter, register}

abbrev quote : String → Decimal → VenueQuote
quote name slippage = record {
  exchange = name;
  account_id = "main";
  ticker = ticker;
  available_liquidity = dec 100_000 0;
  estimated_slippage_pct = slippage;
  fees = record { maker = dec 2 4; taker = dec 55 5; funding_estimate = zero_d };
  funding_rate = zero_d;
  health = report;
}

select_least_example :
    (q : VenueQuote) × (own : Decimal) × (quote "okx" (dec 1 4) ∷ [] ≡ q ∷ [])
    × (execution_cost_score q ≡ ok own)
    × IsOneOf q (filter is_usable (quote "bybit" (dec 5 4) ∷ quote "okx" (dec 1 4) ∷ []))
    × All
        (CostsAtLeast own)
        (filter is_usable (quote "bybit" (dec 5 4) ∷ quote "okx" (dec 1 4) ∷ []))
unfolding evaluation spread_pct execution_cost_score least least_from select
select_least_example =
    select_least (quote "bybit" (dec 5 4) ∷ quote "okx" (dec 1 4) ∷ []) none
      (quote "okx" (dec 1 4) ∷ []) refl

-- Every adapter answers with its own object id.
abbrev answers : AdapterAnswers
answers = record {
  get_ticker = λ a symbol market_type. ok (record ticker { last = dec a.object_id 0 });
  get_orderbook = λ a symbol market_type. ok (record {
    exchange = a.name;
    symbol = symbol;
    bids = [];
    asks = [];
    timestamp = a.object_id;
  });
  get_funding_rate = λ a symbol. ok (dec 1 4);
  get_open_interest = λ a symbol. err (Error.runtime_error "NotSupported");
  normalize_symbol = λ a symbol. symbol;
}

abbrev spare : ExchangeAdapter
spare = record adapter { object_id = 8 }

-- The second adapter of the main account is refused.
abbrev registrations : List Call
registrations =
    Call.adapter_added "main" adapter
    ∷ Call.adapter_added "spare" spare
    ∷ Call.adapter_added "main" spare
    ∷ []

abbrev quoted : String → ℕ → MarketContext
quoted account_id id = record market {
  account_id = some account_id;
  ticker = some (record ticker { last = dec id 0 });
  orderbook =
      some
        (record { exchange = "bybit"; symbol = "BTCUSDT"; bids = []; asks = []; timestamp = id });
  funding_rate = some (dec 1 4);
}

quotes_bound_example :
    AllBound
      (after_all (sql_store by_symbol) (record engine { router = [] }) registrations).router
      "BTCUSDT"
      MarketType.perpetual
      ((("bybit", "spare"), answers) ∷ (("bybit", "main"), answers) ∷ [])
      (quoted "spare" 8 ∷ quoted "main" 7 ∷ [])
unfolding after after_all register lookup insert asked_if get_context quotes
quotes_bound_example =
    quotes_bound (sql_store by_symbol) registrations (record engine { router = [] })
      ((("bybit", "spare"), answers) ∷ (("bybit", "main"), answers) ∷ []) "BTCUSDT"
      MarketType.perpetual refl refl
