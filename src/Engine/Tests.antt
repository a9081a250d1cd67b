-- ===== src/Engine/Tests.antt =====
-- The engine and its parts on concrete orders.
use syn_antona.Prelude.{◌+◌, ◌≤◌, true, false, List, [], ◌∷◌, ◌≡◌, ◌≢◌, refl, arith}
use syn_antona.Prelude.Keys.{text_key}
use syn_antona.Prelude.Dict.{insert, lookup, erase, values}
use syn_antona.Prelude.Errors.{ok}
use syn_antona.Decimal.{dec, zero_d, sum_d, evaluation}
use syn_antona.Risk.Portfolio.{
  HealthStatus, default_exchange_limits, default_global_limits, account_value, position_notional,
  position_open_risk, base_from, correlation_group, add_correlated, correlated_exposure,
  account_exposure, total_exposure, leveraged_exposure, total_open_risk, approve_risk,
  approve_global, approve_account, approve,
}
use syn_antona.Risk.Portfolio.Book.{IsOpened, WithinAccount, WithinGlobal}
use syn_antona.Ledger.Examples.{by_symbol}
use syn_antona.Ledger.Attempt.{required_id, existing_error}
use syn_antona.Ledger.Sql as Sql
use syn_antona.Ledger.Sql.Refine.{view}
use syn_antona.Ledger.Store.{sql_store, sql_store-IsLedger}
use syn_antona.Engine.Health.{judge, check, can_open_new_position}
use syn_antona.Engine.Health.Errors as HealthErrors
use syn_antona.Engine.Health.Errors.{Event, errors_block}
use syn_antona.Engine.Positions.{add, remove}
use syn_antona.Engine.Positions.Book.{add-remove}
use syn_antona.Engine.Router.{adapter_for}
use syn_antona.Engine.Gates.{
  check_context, check_opening, check_ticker, check_stop, check_risk, proposal_of, reference_price,
  reason_text,
}
use syn_antona.Engine.Execute.{Placement, admit, settle, place, execute}
use syn_antona.Engine.Execute.Sent.{orders_for, held}
use syn_antona.Engine.Execute.Allowed.{is_stop_behind, opening_within_limits}
use syn_antona.Engine.Execute.Ending.{Ended, execution_ended}
use syn_antona.Engine.Calls.{Call, after, after_all, one_order}
use syn_antona.Engine.Examples.{
  ticker, market, report, monitor, engine, small, replies, limits, stop, opened,
}

-- A test that computes with the engine names this.
unfoldable engine_evaluation : Unit {0}
unfolding evaluation position_notional position_open_risk base_from correlation_group add_correlated
    correlated_exposure account_exposure total_exposure leveraged_exposure total_open_risk
    approve_risk approve_global approve_account approve lookup insert erase required_id
    existing_error Sql.claim Sql.claim_at Sql.new_row Sql.mark_order Sql.mark_unknown Sql.update
    Sql.update_at check judge adapter_for check_context check_opening check_ticker check_stop
    check_risk proposal_of reason_text admit settle place execute after after_all
engine_evaluation = tt

-- The order is sent.
sent_once :
    (execute (sql_store by_symbol) replies market small stop limits engine).1.sent
    ≡ ("bybit", small) ∷ []
unfolding engine_evaluation
sent_once = refl

execution_ended_example :
    Ended view by_symbol "bybit" small engine
      (execute (sql_store by_symbol) replies market small stop limits engine).0
      (execute (sql_store by_symbol) replies market small stop limits engine).1
execution_ended_example =
    execution_ended (sql_store by_symbol) view by_symbol replies market small stop limits engine
      (sql_store-IsLedger by_symbol)

opens : IsOpened (proposal_of market small (reference_price small ticker) stop) opened
unfolding engine_evaluation
opens = record { of_account = refl; notional = refl; leverage = refl; open_risk = refl }

was_sent : (execute (sql_store by_symbol) replies market small stop limits engine).1.sent ≢ []
was_sent e = let found = sent_once in ground (arith, found, e)

opening_within_limits_example :
    (limits.kill_switch_active ≡ false)
    × (is_stop_behind small (dec 50_000 0) stop ≡ true)
    × WithinAccount
        (proposal_of market small (dec 50_000 0) stop)
        (opened ∷ [])
        (account_value (proposal_of market small (dec 50_000 0) stop) limits.equity_by_account)
        default_exchange_limits
    × WithinGlobal
        (opened ∷ [])
        (sum_d zero_d (values limits.equity_by_account))
        default_global_limits
opening_within_limits_example =
    opening_within_limits (sql_store by_symbol) replies market small stop limits engine ticker
      opened refl refl was_sent opens

abbrev calls : List Call
calls =
    Call.execute_order replies market small stop limits
    ∷ Call.order_failed "bybit"
    ∷ Call.execute_order (record replies { placement = Placement.failed "TimeoutError" }) market
        small stop limits
    ∷ Call.execute_order replies market (record small { reduce_only = true }) stop limits
    ∷ []

one_order_example :
    (orders_for ("bybit", "main", "c-1") (after_all (sql_store by_symbol) engine calls).sent
        + held ("bybit", "main", "c-1") (view [])
      ≡ held ("bybit", "main", "c-1") (view (after_all (sql_store by_symbol) engine calls).store))
    × (orders_for ("bybit", "main", "c-1") (after_all (sql_store by_symbol) engine calls).sent ≤ 1)
one_order_example =
    one_order (sql_store by_symbol) view by_symbol ("bybit", "main", "c-1") calls engine
      (sql_store-IsLedger by_symbol) refl

abbrev events : List Event
events =
    Event.failed "bybit"
    ∷ Event.passed "okx"
    ∷ Event.failed "bybit"
    ∷ Event.checked "bybit" 5 report
    ∷ Event.failed "bybit"
    ∷ []

errors_block_example :
    ((check "bybit" 2_000_000 report (HealthErrors.after_all monitor events)).0.status
      ≡ HealthStatus.unavailable)
    × (can_open_new_position "bybit"
          (check "bybit" 2_000_000 report (HealthErrors.after_all monitor events)).1
        ≡ false)
errors_block_example = errors_block "bybit" events monitor 2_000_000 report refl (omega arith)

add-remove_example :
    remove "bybit" "main" "p-1" ((("bybit", "main", "p-1"), opened) ∷ []) ≡ (ok opened, [])
unfolding engine_evaluation add
add-remove_example = add-remove opened [] refl
