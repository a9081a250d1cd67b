-- ===== src/Engine/Calls/Quoted.antt =====
-- The router of an engine: its market contexts after any calls.
use mathlib.Core.Path.{subst}
use syn_antona.Prelude.{String, List, [], ◌∷◌, ◌≡◌, sym, arith}
use syn_antona.Prelude.Errors.{ok}
use syn_antona.Decimal.{Decimal}
use syn_antona.Exchange.{MarketType, OrderRequest}
use syn_antona.Ledger.Store.{ExecutionOrderStore}
use syn_antona.Engine.Market.{MarketContext}
use syn_antona.Engine.Gates.{ExecutionRiskContext}
use syn_antona.Engine.Execute.{Engine, Replies, admit, execute, settle, place}
use syn_antona.Engine.Router.Quotes.{AdapterAnswers, quotes}
use syn_antona.Engine.Router.Quotes.Bound.{
  IsNamed, none-IsNamed, register-IsNamed, unregister-IsNamed, AllBound, quotes-AllBound,
}
use syn_antona.Engine.Calls.{Call, after, after_all}

module _ {S : Type 0} (store : ExecutionOrderStore S) where
  execute-router :
      (replies : Replies) (market : MarketContext) (request : OrderRequest) (stop_loss : Decimal)
      (c : ExecutionRiskContext) (e : Engine S)
      → (execute store replies market request stop_loss c e).1.router ≡ e.router
  unfolding execute admit place settle
  execute-router replies market request stop_loss c e = ground arith

  after-IsNamed : (e : Engine S) (c : Call) → IsNamed e.router → IsNamed (after store e c).router
  unfolding after
  after-IsNamed e (Call.execute_order replies market request stop_loss c) h =
      subst IsNamed (sym (execute-router replies market request stop_loss c e)) h
  after-IsNamed e (Call.position_opened p) h = h
  after-IsNamed e (Call.position_removed exchange account_id position_id) h = h
  after-IsNamed e (Call.data_received exchange time) h = h
  after-IsNamed e (Call.order_failed exchange) h = h
  after-IsNamed e (Call.order_passed exchange) h = h
  after-IsNamed e (Call.adapter_added account_id adapter) h =
      register-IsNamed account_id adapter e.router h
  after-IsNamed e (Call.adapter_removed exchange account_id) h =
      unregister-IsNamed exchange account_id e.router h

  after_all-IsNamed :
      (cs : List Call) (e : Engine S) → IsNamed e.router → IsNamed (after_all store e cs).router
  unfolding after_all
  after_all-IsNamed [] e h = h
  after_all-IsNamed (c ∷ cs) e h = after_all-IsNamed cs (after store e c) (after-IsNamed e c h)

-- After any calls of an engine that began without adapters, the quotes that its router returns are
-- one market context for each account, in their order: it carries the exchange and the account, the
-- router answers it with the adapter that was asked, which has the name of that exchange, and it
-- holds what that adapter answered for the symbol, the funding rate and the open interest exactly
-- when the adapter is capable of them.
pub quotes_bound :
    {S : Type 0} (store : ExecutionOrderStore S) (cs : List Call) (e : Engine S)
    (accounts : List ((String × String) × AdapterAnswers)) (symbol : String)
    (market_type : MarketType) {contexts : List MarketContext}
    → e.router ≡ []
    → quotes accounts symbol market_type (after_all store e cs).router ≡ ok contexts
    → AllBound (after_all store e cs).router symbol market_type accounts contexts
quotes_bound store cs e accounts symbol market_type fresh quoted =
    quotes-AllBound accounts symbol market_type (after_all store e cs).router
      (after_all-IsNamed store cs e (subst IsNamed (sym fresh) none-IsNamed)) quoted
