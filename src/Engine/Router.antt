-- ===== src/Engine/Router.antt =====
-- `MarketDataRouter` and `ExchangeSelector` of app/exchanges/market_data.py. An adapter is an object
-- with a name and capabilities: what it answers is an input of the calls that use it.
pub mod Least
pub mod Quotes
mod Tests
use syn_antona.Prelude.{
  ℕ, String, Bool, true, false, not, Option, none, some, List, [], ◌∷◌, filter, if◌then◌else◌,
}
use syn_antona.Prelude.Keys.{Key, text_key, pair_key, ◌==◌}
use syn_antona.Prelude.Dict.{Dict, lookup, insert, erase, contains}
use syn_antona.Prelude.Errors.{Error, Result, ok, err, or_raise, raise_if, ◌>>=◌}
use syn_antona.Prelude.Actions.{Action}
use syn_antona.Decimal.{Decimal, dec, one_d, zero_d, ◌<D◌, ◌+D◌, ◌/D◌, abs_d}
use syn_antona.Risk.Portfolio.{HealthStatus, is_unavailable}
use syn_antona.Engine.Market.{MarketContext, VenueQuote, spread_pct}

pub record ExchangeCapabilities : Type 0 where
  pub spot : Bool
  pub futures : Bool
  pub perpetual : Bool
  pub short : Bool
  pub leverage : Bool
  pub hedge_mode : Bool
  pub funding : Bool
  pub open_interest : Bool
  pub stop_loss : Bool
  pub take_profit : Bool
  pub trailing_stop : Bool
  pub websocket : Bool

-- The object id tells adapters of one exchange apart.
pub record ExchangeAdapter : Type 0 where
  pub object_id : ℕ
  pub name : String
  pub capabilities : ExchangeCapabilities

abbrev pub MarketDataRouter : Type 0
MarketDataRouter = Dict (String × String) ExchangeAdapter

unfoldable pub register : String → ExchangeAdapter → Action MarketDataRouter (Unit {0})
register account_id adapter router =
    if contains (adapter.name, account_id) router
    then (err (Error.value_error "Adapter already registered"), router)
    else (ok tt, insert (adapter.name, account_id) adapter router)

unfoldable pub unregister : String → String → MarketDataRouter → MarketDataRouter
unregister exchange account_id = erase (exchange, account_id)

unfoldable pub adapter_for : MarketContext → MarketDataRouter → Result ExchangeAdapter
adapter_for context router = elim context.account_id [
  | none ↦ err (Error.exchange_error "Execution context requires account_id")
  | some account_id ↦
      or_raise (lookup (context.exchange, account_id) router)
        (Error.exchange_error "No adapter registered for market context")
]

pub data SelectionMode : Type 0 where
  single_exchange multi_exchange best_execution : SelectionMode

abbrev pub is_degraded : HealthStatus → Bool
is_degraded HealthStatus.degraded = true
is_degraded _ = false

abbrev pub liquidity_penalty : VenueQuote → Result Decimal
liquidity_penalty q =
    if zero_d <D q.available_liquidity then one_d /D q.available_liquidity else ok (dec 1000 0)

unfoldable pub execution_cost_score : VenueQuote → Result Decimal
execution_cost_score q = liquidity_penalty q >>= (λ liquidity.
    q.health.latency_ms /D dec 1_000_000 0 >>= (λ latency. spread_pct q.ticker >>= (λ spread. ok (
      spread
      +D q.estimated_slippage_pct
      +D q.fees.taker
      +D abs_d q.funding_rate
      +D liquidity
      +D latency
      +D (if is_degraded q.health.status then dec 2 3 else zero_d)))))

-- The rest of `min(quotes, key=...)`, from the best quote so far and its key: the first of the
-- least.
unfoldable pub least_from : VenueQuote → Decimal → List VenueQuote → Result VenueQuote
least_from best score [] = ok best
least_from best score (q ∷ qs) = execution_cost_score q >>= (λ other.
    least_from (if other <D score then q else best) (if other <D score then other else score) qs)

unfoldable pub least : VenueQuote → List VenueQuote → Result VenueQuote
least q qs = execution_cost_score q >>= (λ score. least_from q score qs)

abbrev pub is_usable : VenueQuote → Bool
is_usable q = not (is_unavailable q.health.status)

-- `quote.exchange == selected_exchange`
abbrev pub is_selected : Option String → VenueQuote → Bool
is_selected none q = false
is_selected (some name) q = q.exchange == name

abbrev pub only_one : List VenueQuote → Result (List VenueQuote)
only_one (q ∷ []) = ok (q ∷ [])
only_one _ = err (Error.exchange_error "Selected exchange is unavailable or ambiguous")

abbrev pub best_of : List VenueQuote → Result (List VenueQuote)
best_of [] = err (Error.exchange_error "No healthy exchange available for execution")
best_of (q ∷ qs) = least q qs >>= (λ best. ok (best ∷ []))

unfoldable pub select : SelectionMode → List VenueQuote → Option String → Result (List VenueQuote)
select SelectionMode.single_exchange quotes selected =
    only_one (filter (is_selected selected) (filter is_usable quotes))
select SelectionMode.multi_exchange quotes selected = ok (filter is_usable quotes)
select SelectionMode.best_execution quotes selected = best_of (filter is_usable quotes)
