-- ===== src/Engine/Execute/Allowed.antt =====
-- What holds when an order that opens a position was sent.
use syn_antona.Prelude.{
  Bool, true, false, Option, none, some, List, [], ◌∷◌, ◌++◌, ◌≡◌, ◌≢◌, refl, sym, ◌∙◌, arith,
  if◌then◌else◌,
}
use mathlib.Core.Option.{some-injective}
use mathlib.Core.Path.{subst}
use syn_antona.Prelude.Dict.{values}
use syn_antona.Prelude.Errors.{Result, ok, err}
use syn_antona.Decimal.{Decimal, zero_d, ◌<D◌, sum_d}
use syn_antona.Exchange.{OrderRequest, is_buy}
use syn_antona.Risk.Portfolio.{
  ManagedPosition, HealthStatus, ProposedExposure, account_value, approve, PortfolioRiskDecision,
}
use syn_antona.Risk.Portfolio.Book.{IsOpened, WithinAccount, WithinGlobal, approved_book}
use syn_antona.Ledger.Store.{ExecutionOrderStore}
use syn_antona.Engine.Market.{Ticker, MarketContext, HealthReport}
use syn_antona.Engine.Router.{ExchangeAdapter, adapter_for}
use syn_antona.Engine.Health.{judge, check}
use syn_antona.Engine.Gates.{
  ExecutionRiskContext, check_opening, check_ticker, unless_reduce_only, reference_price,
  check_stop, proposal_of, check_risk,
}
use syn_antona.Engine.Execute.{Engine, Replies, admit, execute}
use syn_antona.Engine.Execute.Sent.{admit-keeps}

-- The stop is on the side of the price where the position loses.
abbrev pub is_stop_behind : OrderRequest → Decimal → Decimal → Bool
is_stop_behind request price stop_loss =
    if is_buy request.side then stop_loss <D price else price <D stop_loss

module _ {S : Type 0} (store : ExecutionOrderStore S) (replies : Replies) (market : MarketContext)
    (request : OrderRequest) (stop_loss : Decimal) (c : ExecutionRiskContext) where
  admit-passed :
      (e : Engine S) {mid : Engine S}
      → admit store replies market request stop_loss c e ≡ (ok tt, mid)
      → (t : Ticker) × (status : HealthStatus) × (unless_reduce_only request
            (check_opening market request c)
          ≡ ok tt)
        × (check_ticker market c replies.now ≡ ok t)
        × (unless_reduce_only request (check_stop request (reference_price request t) stop_loss)
            ≡ ok tt)
        × (unless_reduce_only request (
              check_risk
                (proposal_of market request (reference_price request t) stop_loss)
                c
                status
                (values e.portfolio))
            ≡ ok tt)
  unfolding admit check
  admit-passed e {mid} h =
      go (adapter_for market e.router) (check_ticker market c replies.now) replies.health refl refl
        refl
    where
      go :
          (adapter : Result ExchangeAdapter) (ticker : Result Ticker) (health : Result HealthReport)
          → adapter_for market e.router ≡ adapter
          → check_ticker market c replies.now ≡ ticker
          → replies.health ≡ health
          → (t : Ticker) × (status : HealthStatus) × (unless_reduce_only request
                (check_opening market request c)
              ≡ ok tt)
            × (check_ticker market c replies.now ≡ ok t)
            × (unless_reduce_only request (check_stop request (reference_price request t) stop_loss)
                ≡ ok tt)
            × (unless_reduce_only request (
                  check_risk
                    (proposal_of market request (reference_price request t) stop_loss)
                    c
                    status
                    (values e.portfolio))
                ≡ ok tt)
      go (ok adapter) (ok t) (ok answer) found fresh healthy = (
        t,
        (judge adapter.name replies.checked_at answer e.monitor).status,
        ground arith,
        fresh,
        ground arith,
        ground arith,
      )
      go (err x) ticker health found fresh healthy = ground arith
      go (ok adapter) (err x) health found fresh healthy = ground arith
      go (ok adapter) (ok t) (err x) found fresh healthy = ground arith

  -- A request that is not reduce-only, whose order was sent.
  opening-admitted :
      (e : Engine S)
      → (execute store replies market request stop_loss c e).1.sent ≢ e.sent
      → (mid : Engine S) × (admit store replies market request stop_loss c e ≡ (ok tt, mid))
  unfolding execute
  opening-admitted e sent =
      go (admit store replies market request stop_loss c e) refl
        (admit-keeps store replies market request stop_loss c e).1
    where
      go :
          (r : Result (Unit {0}) × Engine S)
          → admit store replies market request stop_loss c e ≡ r
          → r.1.sent ≡ e.sent
          → (mid : Engine S) × (admit store replies market request stop_loss c e ≡ (ok tt, mid))
      go (ok tt, mid) same kept = (mid, same)
      go (err x, mid) same kept = ground (arith, sent, kept)

  risk-approved :
      (q : ProposedExposure) (status : HealthStatus) (ps : List ManagedPosition)
      → check_risk q c status ps ≡ ok tt
      → (d : PortfolioRiskDecision) × (approve q ps c.equity_by_account c.daily_pnl_by_account
            status c.exchange_limits c.global_limits
          ≡ ok d)
        × (d.approved ≡ true)
  unfolding check_risk
  risk-approved q status ps passed =
      go
        (approve q ps c.equity_by_account c.daily_pnl_by_account status c.exchange_limits
          c.global_limits)
        refl
    where
      go :
          (r : Result PortfolioRiskDecision)
          → approve q ps c.equity_by_account c.daily_pnl_by_account status c.exchange_limits
              c.global_limits
            ≡ r
          → (d : PortfolioRiskDecision) × (approve q ps c.equity_by_account c.daily_pnl_by_account
                status c.exchange_limits c.global_limits
              ≡ ok d)
            × (d.approved ≡ true)
      go (ok d) e = (d, e, ground arith)
      go (err x) e = ground arith

  stop-behind :
      (price : Decimal)
      → check_stop request price stop_loss ≡ ok tt
      → is_stop_behind request price stop_loss ≡ true
  unfolding check_stop
  stop-behind price passed = ground arith

  not_killed : check_opening market request c ≡ ok tt → c.kill_switch_active ≡ false
  unfolding check_opening
  not_killed passed = ground arith

  must_pass :
      {checks : Result (Unit {0})}
      → request.reduce_only ≡ false
      → unless_reduce_only request checks ≡ ok tt
      → checks ≡ ok tt
  must_pass opens passed = ground arith

  ticker-found : (t : Ticker) → check_ticker market c replies.now ≡ ok t → market.ticker ≡ some t
  unfolding check_ticker
  ticker-found t found = go market.ticker refl
    where
      go : (m : Option Ticker) → market.ticker ≡ m → market.ticker ≡ some t
      go none e = ground arith
      go (some x) e = ground arith

  -- When execute sent an order that is not reduce-only, and the market context has a ticker, then
  -- the kill switch was off, the stop was on the side of the reference price where the position
  -- loses, and a position that the exchange reports as it was proposed leaves the account and the
  -- whole book within their limits.
  pub opening_within_limits :
      (e : Engine S) (t : Ticker) (p : ManagedPosition)
      → request.reduce_only ≡ false
      → market.ticker ≡ some t
      → (execute store replies market request stop_loss c e).1.sent ≢ e.sent
      → IsOpened (proposal_of market request (reference_price request t) stop_loss) p
      → (c.kill_switch_active ≡ false)
        × (is_stop_behind request (reference_price request t) stop_loss ≡ true)
        × WithinAccount
            (proposal_of market request (reference_price request t) stop_loss)
            (values e.portfolio ++ p ∷ [])
            (account_value
              (proposal_of market request (reference_price request t) stop_loss)
              c.equity_by_account)
            c.exchange_limits
        × WithinGlobal
            (values e.portfolio ++ p ∷ [])
            (sum_d zero_d (values c.equity_by_account))
            c.global_limits
  opening_within_limits e t p opens there sent opened =
      let (mid, admitted) = opening-admitted e sent in
      let (found, status, opening, fresh, stop, risk) = admit-passed e admitted in
      let same : found ≡ t = some-injective _ _ (sym (ticker-found found fresh) ∙ there) in
      let q : ProposedExposure = proposal_of market request (reference_price request t) stop_loss in
      let (d, approved, granted) = risk-approved q status (values e.portfolio) (
        must_pass opens (
          subst
            (λ x.
              unless_reduce_only request (
                check_risk (proposal_of market request (reference_price request x) stop_loss) c
                  status (values e.portfolio))
              ≡ ok tt)
            same risk)) in
      let (account, book) =
        approved_book q (values e.portfolio) p opened c.equity_by_account c.daily_pnl_by_account
          status c.exchange_limits c.global_limits approved granted in
      (
        not_killed (must_pass opens opening),
        stop-behind (reference_price request t) (
            must_pass opens (
              subst
                (λ x.
                  unless_reduce_only request
                    (check_stop request (reference_price request x) stop_loss)
                  ≡ ok tt)
                same stop)),
        account,
        book,
      )
