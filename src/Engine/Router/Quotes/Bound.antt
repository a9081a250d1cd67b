-- ===== src/Engine/Router/Quotes/Bound.antt =====
-- Every market context is bound to the exchange and the account that it was asked of.
use mathlib.Core.Path.{subst}
use syn_antona.Prelude.{
  String, Bool, true, false, Option, none, some, List, [], ◌∷◌, ◌≡◌, refl, arith,
}
use syn_antona.Prelude.Keys.{pair_key, ==_iff}
use syn_antona.Prelude.Dict.{lookup, lookup-insert, lookup-erase}
use syn_antona.Prelude.Errors.{Error, Result, ok, err, or_raise, >>=-ok, ok_injective}
use syn_antona.Decimal.{Decimal}
use syn_antona.Exchange.{MarketType}
use syn_antona.Engine.Market.{Ticker, OrderBook, MarketContext}
use syn_antona.Engine.Router.{ExchangeAdapter, MarketDataRouter, register, unregister, adapter_for}
use syn_antona.Engine.Router.Quotes.{AdapterAnswers, asked_if, get_context, quotes}

-- Adapters stand under the name of their exchange.
pub record IsNamed (router : MarketDataRouter) : Type 0 where
  pub named :
      (exchange account_id : String) (adapter : ExchangeAdapter)
      → lookup (exchange, account_id) router ≡ some adapter
      → adapter.name ≡ exchange

pub none-IsNamed : IsNamed []
unfolding lookup
none-IsNamed = record { named = λ exchange account_id adapter h. ground arith }

pub register-IsNamed :
    (account_id : String) (adapter : ExchangeAdapter) (router : MarketDataRouter)
    → IsNamed router
    → IsNamed (register account_id adapter router).1
unfolding register
register-IsNamed account_id adapter router h = record {
  named = λ exchange account other found.
      let before = h.named exchange account other in
      ground (
        arith,
        before,
        lookup-insert (adapter.name, account_id) (exchange, account) adapter router,
        ==_iff {K = String × String} (adapter.name, account_id) (exchange, account),
      );
}

pub unregister-IsNamed :
    (exchange account_id : String) (router : MarketDataRouter)
    → IsNamed router
    → IsNamed (unregister exchange account_id router)
unfolding unregister
unregister-IsNamed exchange account_id router h = record {
  named = λ name account other found.
      let before = h.named name account other in
      ground (arith, before, lookup-erase (exchange, account_id) (name, account) router);
}

-- A figure is read exactly when the adapter can tell it.
pub data IsRead : Bool → Result Decimal → Option Decimal → Type 0 where
  left_out : {call : Result Decimal} → IsRead false call none
  read : {d : Decimal} → IsRead true (ok d) (some d)

asked_if-IsRead :
    (able : Bool) (call : Result Decimal) {d : Option Decimal}
    → asked_if able call ≡ ok d
    → IsRead able call d
unfolding asked_if
asked_if-IsRead false call h = subst (IsRead false call) (ok_injective h) left_out
asked_if-IsRead true (ok d) h = subst (IsRead true (ok d)) (ok_injective h) read
asked_if-IsRead true (err e) h = cc

-- The context was asked of the adapter of its own exchange and account, and holds what that
-- adapter answered.
pub record IsBound (router : MarketDataRouter) (symbol : String) (market_type : MarketType)
    (exchange account_id : String) (answers : AdapterAnswers) (c : MarketContext) : Type 0 where
  pub adapter : ExchangeAdapter
  pub own : adapter_for c router ≡ ok adapter
  pub name : adapter.name ≡ exchange
  pub venue : c.exchange ≡ exchange
  pub account : c.account_id ≡ some account_id
  pub normal : c.symbol ≡ answers.normalize_symbol adapter symbol
  pub kind : c.market_type ≡ market_type
  pub ticker :
      (t : Ticker) × (answers.get_ticker adapter symbol market_type ≡ ok t) × (c.ticker ≡ some t)
  pub orderbook :
      (b : OrderBook) × (answers.get_orderbook adapter symbol market_type ≡ ok b)
      × (c.orderbook ≡ some b)
  pub funding :
      IsRead adapter.capabilities.funding (answers.get_funding_rate adapter symbol) c.funding_rate
  pub open_interest :
      IsRead adapter.capabilities.open_interest
        (answers.get_open_interest adapter symbol)
        c.open_interest

or_raise-ok : {A : Type 0} (o : Option A) (e : Error) {a : A} → or_raise o e ≡ ok a → o ≡ some a
or_raise-ok (some x) e h = cc
or_raise-ok none e h = cc

get_context-IsBound :
    (answers : AdapterAnswers) (exchange account_id symbol : String) (market_type : MarketType)
    (router : MarketDataRouter) {c : MarketContext}
    → IsNamed router
    → get_context answers exchange account_id symbol market_type router ≡ ok c
    → IsBound router symbol market_type exchange account_id answers c
unfolding get_context adapter_for
get_context-IsBound answers exchange account_id symbol market_type router {c} own returned =
    let (adapter, found, asked) = >>=-ok _ _ returned in
    let (ticker, priced, rest) = >>=-ok _ _ asked in
    let (book, listed, figures) = >>=-ok _ _ rest in
    let (funding, paid, last) = >>=-ok _ _ figures in
    let (interest, asked_last, made) = >>=-ok _ _ last in
    let there = or_raise-ok (lookup (exchange, account_id) router) _ found in
    subst (IsBound router symbol market_type exchange account_id answers) (ok_injective made)
      (record {
        adapter = adapter;
        own = cc;
        name = own.named exchange account_id adapter there;
        venue = refl;
        account = refl;
        normal = refl;
        kind = refl;
        ticker = (ticker, priced, refl);
        orderbook = (book, listed, refl);
        funding = asked_if-IsRead _ _ paid;
        open_interest = asked_if-IsRead _ _ asked_last;
      })

-- One context for each account, in their order.
abbrev pub AllBound :
    MarketDataRouter
    → String
    → MarketType
    → List ((String × String) × AdapterAnswers)
    → List MarketContext
    → Type 0
AllBound router symbol market_type [] [] = Unit
AllBound router symbol market_type (((exchange, account_id), answers) ∷ accounts) (c ∷ cs) =
    IsBound router symbol market_type exchange account_id answers c
    × AllBound router symbol market_type accounts cs
AllBound router symbol market_type _ _ = ⊥

pub quotes-AllBound :
    (accounts : List ((String × String) × AdapterAnswers)) (symbol : String)
    (market_type : MarketType) (router : MarketDataRouter) {cs : List MarketContext}
    → IsNamed router
    → quotes accounts symbol market_type router ≡ ok cs
    → AllBound router symbol market_type accounts cs
unfolding quotes
quotes-AllBound [] symbol market_type router own returned =
    subst (AllBound router symbol market_type []) (ok_injective returned) tt
quotes-AllBound (((exchange, account_id), answers) ∷ accounts) symbol market_type router own
      returned =
    let (context, first, rest) = >>=-ok _ _ returned in
    let (others, more, made) = >>=-ok _ _ rest in
    let bound : AllBound router symbol market_type (((exchange, account_id), answers) ∷ accounts)
        (context ∷ others) =
      (
        get_context-IsBound answers exchange account_id symbol market_type router own first,
        quotes-AllBound accounts symbol market_type router own more,
      ) in
    subst (AllBound router symbol market_type (((exchange, account_id), answers) ∷ accounts))
      (ok_injective made) bound
