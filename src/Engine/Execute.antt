-- ===== src/Engine/Execute.antt =====
-- `MultiExchangeTradingEngine.execute`. What the exchange answers and the clock are inputs; the
-- orders that are sent are recorded. The order store is any that keeps the ledger's protocol.
pub mod Sent
pub mod Allowed
pub mod Marks
pub mod Ending
use syn_antona.Prelude.{
  ℕ, String, Bool, true, false, not, Option, none, some, List, [], ◌∷◌, ◌++◌, ◌&&◌, if◌then◌else◌,
}
use syn_antona.Prelude.Dict.{values}
use syn_antona.Prelude.Errors.{Error, Result, ok, err}
use syn_antona.Prelude.Actions.{Action, ◌>>=◌, ◌>>◌, return, reading, raise, write, raise_when}
use syn_antona.Decimal.{Decimal}
use syn_antona.Exchange.{OrderRequest, ExchangeOrder}
use syn_antona.Risk.Portfolio.{HealthStatus, ManagedPosition, ProposedExposure}
use syn_antona.Ledger.Attempt.{OrderAttempt}
use syn_antona.Ledger.Store.{ExecutionOrderStore}
use syn_antona.Engine.Market.{Ticker, MarketContext, HealthReport}
use syn_antona.Engine.Health.{ExchangeHealthMonitor, check}
use syn_antona.Engine.Positions.{PortfolioManager, add}
use syn_antona.Engine.Router.{ExchangeAdapter, MarketDataRouter, adapter_for}
use syn_antona.Engine.Gates.{
  ExecutionRiskContext, forbidden, check_context, check_opening, check_ticker, unless_reduce_only,
  reference_price, check_stop, proposal_of, check_risk,
}

-- How `create_order` ends: an order, or an exception of the named type.
pub data Placement : Type 0 where
  placed : ExchangeOrder → Placement
  failed : String → Placement

-- The clock when the data's age is taken and when the health is checked, and the two answers.
pub record Replies : Type 0 where
  pub now : ℕ
  pub checked_at : ℕ
  pub health : Result HealthReport
  pub placement : Placement

-- The engine's parts, and the orders that were sent: to which exchange, and what.
pub record Engine (S : Type 0) : Type 0 where
  pub router : MarketDataRouter
  pub monitor : ExchangeHealthMonitor
  pub portfolio : PortfolioManager
  pub store : S
  pub require_persistent_store : Bool
  pub sent : List (String × OrderRequest)

module _ {S : Type 0} (store : ExecutionOrderStore S) where
  abbrev pub on_store : {A : Type 0} → Action S A → Action (Engine S) A
  on_store call e = let (r, s) = call e.store in (r, record e { store = s })

  -- `await self.health.check(adapter)`
  abbrev pub check_health : String → ℕ → Result HealthReport → Action (Engine S) HealthReport
  check_health name now (err x) e = (err x, e)
  check_health name now (ok answer) e =
      let (report, monitor) = check name now answer e.monitor in
      (ok report, record e { monitor = monitor })

  abbrev pub send : String → OrderRequest → Action (Engine S) (Unit {0})
  send exchange request = write (λ e. record e { sent = e.sent ++ (exchange, request) ∷ [] })

  -- What comes before the claim.
  unfoldable pub admit :
      Replies
      → MarketContext
      → OrderRequest
      → Decimal
      → ExecutionRiskContext
      → Action (Engine S) (Unit {0})
  admit replies market request stop_loss c = do
    reading (λ e. check_context market request)
    adapter ← reading (λ e. adapter_for market e.router)
    raise_when (λ e. e.require_persistent_store && not store.persistent)
        (forbidden "Private execution requires a persistent idempotency store")
    reading (λ e. unless_reduce_only request (check_opening market request c))
    ticker ← reading (λ e. check_ticker market c replies.now)
    report ← check_health adapter.name replies.checked_at replies.health
    let price : Decimal = reference_price request ticker
    reading (λ e. unless_reduce_only request (check_stop request price stop_loss))
    reading (λ e. unless_reduce_only request (
        check_risk (proposal_of market request price stop_loss) c report.status
          (values e.portfolio)))

  -- The call of the adapter and what the ledger learns of it.
  unfoldable pub settle : String → OrderRequest → Placement → Action (Engine S) ExchangeOrder
  settle exchange request (Placement.placed order) = do
    on_store (store.mark_order exchange request order)
    return order
  settle exchange request (Placement.failed name) = do
    on_store (store.mark_unknown exchange request name)
    raise Error.order_outcome_unknown

  unfoldable pub place : String → OrderRequest → Placement → Action (Engine S) ExchangeOrder
  place exchange request placement = do
    attempt ← on_store (store.claim exchange request)
    send exchange request
    settle exchange request placement

  unfoldable pub execute :
      Replies
      → MarketContext
      → OrderRequest
      → Decimal
      → ExecutionRiskContext
      → Action (Engine S) ExchangeOrder
  execute replies market request stop_loss c = do
    admit replies market request stop_loss c
    place market.exchange request replies.placement

  abbrev pub register_position : ManagedPosition → Action (Engine S) (Unit {0})
  register_position p e = let (r, book) = add p e.portfolio in (r, record e { portfolio = book })
