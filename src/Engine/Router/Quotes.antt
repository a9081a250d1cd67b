-- ===== src/Engine/Router/Quotes.antt =====
-- `get_context` and `quotes` of `MarketDataRouter`. What an adapter answers when it is asked is an
-- input, for every adapter and whatever it is asked for.
pub mod Bound
use syn_antona.Prelude.{String, Bool, true, false, Option, none, some, List, [], ◌∷◌}
use syn_antona.Prelude.Keys.{pair_key}
use syn_antona.Prelude.Dict.{lookup}
use syn_antona.Prelude.Errors.{Error, Result, ok, err, or_raise, ◌>>=◌}
use syn_antona.Decimal.{Decimal}
use syn_antona.Exchange.{MarketType}
use syn_antona.Engine.Market.{Ticker, OrderBook, MarketContext}
use syn_antona.Engine.Router.{ExchangeAdapter, MarketDataRouter}

pub record AdapterAnswers : Type 0 where
  pub get_ticker : ExchangeAdapter → String → MarketType → Result Ticker
  pub get_orderbook : ExchangeAdapter → String → MarketType → Result OrderBook
  pub get_funding_rate : ExchangeAdapter → String → Result Decimal
  pub get_open_interest : ExchangeAdapter → String → Result Decimal
  pub normalize_symbol : ExchangeAdapter → String → String

-- `await call if able else None`
unfoldable pub asked_if : Bool → Result Decimal → Result (Option Decimal)
asked_if false call = ok none
asked_if true call = call >>= (λ d. ok (some d))

unfoldable pub get_context :
    AdapterAnswers → String → String → String → MarketType → MarketDataRouter → Result MarketContext
get_context answers exchange account_id symbol market_type router =
    or_raise (lookup (exchange, account_id) router)
      (Error.exchange_error "Unknown exchange account")
    >>= (λ adapter. answers.get_ticker adapter symbol market_type >>= (λ ticker.
        answers.get_orderbook adapter symbol market_type >>= (λ orderbook.
          asked_if adapter.capabilities.funding (answers.get_funding_rate adapter symbol)
          >>= (λ funding.
              asked_if adapter.capabilities.open_interest (answers.get_open_interest adapter symbol)
              >>= (λ open_interest. ok (record {
                exchange = exchange;
                account_id = some account_id;
                symbol = answers.normalize_symbol adapter symbol;
                market_type = market_type;
                ticker = some ticker;
                orderbook = some orderbook;
                funding_rate = funding;
                open_interest = open_interest;
              }))))))

-- Each account comes with what the adapters answer at the time.
unfoldable pub quotes :
    List ((String × String) × AdapterAnswers)
    → String
    → MarketType
    → MarketDataRouter
    → Result (List MarketContext)
quotes [] symbol market_type router = ok []
quotes (((exchange, account_id), answers) ∷ accounts) symbol market_type router =
    get_context answers exchange account_id symbol market_type router
    >>= (λ context. quotes accounts symbol market_type router >>= (λ rest. ok (context ∷ rest)))
