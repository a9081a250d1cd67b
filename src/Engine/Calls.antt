-- ===== src/Engine/Calls.antt =====
-- Any sequence of calls of the engine and of the parts that it is built from.
pub mod Quoted
use syn_antona.Prelude.{ℕ, ◌+◌, ◌≤◌, String, List, [], ◌∷◌, ◌≡◌, refl, arith}
use syn_antona.Prelude.Keys.{triple_key}
use syn_antona.Prelude.Errors.{Result, ok, err}
use syn_antona.Decimal.{Decimal}
use syn_antona.Exchange.{OrderRequest}
use syn_antona.Risk.Portfolio.{ManagedPosition}
use syn_antona.Ledger.Spec.{Book}
use syn_antona.Ledger.Store.{ExecutionOrderStore, IsLedger}
use syn_antona.Engine.Market.{MarketContext}
use syn_antona.Engine.Health.{market_data_received, order_error, order_success}
use syn_antona.Engine.Positions.{remove}
use syn_antona.Engine.Router.{ExchangeAdapter, register, unregister}
use syn_antona.Engine.Gates.{ExecutionRiskContext}
use syn_antona.Engine.Execute.{Engine, Replies, admit, execute, register_position}
use syn_antona.Engine.Execute.Sent.{orders_for, held, admit-keeps, place-held}

pub data Call : Type 0 where
  execute_order : Replies → MarketContext → OrderRequest → Decimal → ExecutionRiskContext → Call
  position_opened : ManagedPosition → Call
  position_removed : String → String → String → Call
  data_received : String → ℕ → Call
  order_failed order_passed : String → Call
  adapter_added : String → ExchangeAdapter → Call
  adapter_removed : String → String → Call

module _ {S : Type 0} (store : ExecutionOrderStore S) where
  unfoldable pub after : Engine S → Call → Engine S
  after e (execute_order replies market request stop_loss c) =
      (execute store replies market request stop_loss c e).1
  after e (position_opened p) = (register_position store p e).1
  after e (position_removed exchange account_id position_id) = record e {
    portfolio = (remove exchange account_id position_id e.portfolio).1;
  }
  after e (data_received exchange time) = record e {
    monitor = market_data_received exchange time e.monitor;
  }
  after e (order_failed exchange) = record e { monitor = order_error exchange e.monitor }
  after e (order_passed exchange) = record e { monitor = order_success exchange e.monitor }
  after e (adapter_added account_id adapter) = record e {
    router = (register account_id adapter e.router).1;
  }
  after e (adapter_removed exchange account_id) = record e {
    router = unregister exchange account_id e.router;
  }

  unfoldable pub after_all : Engine S → List Call → Engine S
  after_all e [] = e
  after_all e (c ∷ cs) = after_all (after e c) cs

module _ {S : Type 0} (store : ExecutionOrderStore S) (view : S → Book)
    (request_hash : OrderRequest → String) (law : IsLedger store view request_hash)
    (key : String × String × String) where
  execute-held :
      (replies : Replies) (market : MarketContext) (request : OrderRequest) (stop_loss : Decimal)
      (c : ExecutionRiskContext) (e : Engine S)
      → orders_for key (execute store replies market request stop_loss c e).1.sent
          + held key (view e.store)
        ≡ orders_for key e.sent
          + held key (view (execute store replies market request stop_loss c e).1.store)
  unfolding execute
  execute-held replies market request stop_loss c e =
      go (admit store replies market request stop_loss c e) refl
        (admit-keeps store replies market request stop_loss c e)
    where
      go :
          (r : Result (Unit {0}) × Engine S)
          → admit store replies market request stop_loss c e ≡ r
          → (r.1.store ≡ e.store) × (r.1.sent ≡ e.sent)
          → orders_for key (execute store replies market request stop_loss c e).1.sent
              + held key (view e.store)
            ≡ orders_for key e.sent
              + held key (view (execute store replies market request stop_loss c e).1.store)
      go (err x, mid) same (stored, sent) = ground (arith, stored, sent)
      go (ok _, mid) same (stored, sent) =
          let placed =
            place-held store view request_hash law key market.exchange request replies.placement
              mid in
          ground (arith, placed, stored, sent)

  after-held :
      (e : Engine S) (c : Call)
      → orders_for key (after store e c).sent + held key (view e.store)
        ≡ orders_for key e.sent + held key (view (after store e c).store)
  unfolding after
  after-held e (Call.execute_order replies market request stop_loss c) =
      execute-held replies market request stop_loss c e
  after-held e (Call.position_opened p) = refl
  after-held e (Call.position_removed exchange account_id position_id) = refl
  after-held e (Call.data_received exchange time) = refl
  after-held e (Call.order_failed exchange) = refl
  after-held e (Call.order_passed exchange) = refl
  after-held e (Call.adapter_added account_id adapter) = refl
  after-held e (Call.adapter_removed exchange account_id) = refl

  after_all-held :
      (cs : List Call) (e : Engine S)
      → orders_for key (after_all store e cs).sent + held key (view e.store)
        ≡ orders_for key e.sent + held key (view (after_all store e cs).store)
  unfolding after_all
  after_all-held [] e = refl
  after_all-held (c ∷ cs) e =
      let this = after-held e c in
      let rest = after_all-held cs (after store e c) in omega (arith, this, rest)

-- With an order store that keeps the contract of the ledger, an engine that has sent nothing yet
-- sends, through any calls of execute, of its portfolio, its health monitor and its router, at most
-- one order for an exchange, account and client order id; and it has sent one exactly when the
-- ledger took the key since.
pub one_order :
    {S : Type 0} (store : ExecutionOrderStore S) (view : S → Book)
    (request_hash : OrderRequest → String) (key : String × String × String) (cs : List Call)
    (e : Engine S)
    → IsLedger store view request_hash
    → e.sent ≡ []
    → (orders_for key (after_all store e cs).sent + held key (view e.store)
        ≡ held key (view (after_all store e cs).store))
      × (orders_for key (after_all store e cs).sent ≤ 1)
one_order store view request_hash key cs e law nothing =
    let total = after_all-held store view request_hash law key cs e in
    (ground (arith, total, nothing), ground (arith, total, nothing))
