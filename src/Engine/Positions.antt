-- ===== src/Engine/Positions.antt =====
-- `PortfolioManager` of app/exchanges/portfolio.py, and its dashboard.
pub mod Book
use syn_antona.Prelude.{
  String, Bool, true, false, Option, none, some, List, [], ◌∷◌, ◌++◌, ◌&&◌, map, filter,
  if◌then◌else◌,
}
use syn_antona.Prelude.Keys.{Key, text_key, triple_key, ◌==◌}
use syn_antona.Prelude.Dict.{Dict, lookup, insert, erase, contains, get_or, values}
use syn_antona.Prelude.Errors.{Error, Result, ok, err, or_raise}
use syn_antona.Prelude.Actions.{Action, ◌>>=◌, ◌>>◌, return, reading, write, raise_when}
use syn_antona.Decimal.{Decimal, one_d, neg_d, zero_d, ◌-D◌, ◌*D◌, sum_d}
use syn_antona.Risk.Portfolio.{ManagedPosition, HealthStatus, is_unavailable, position_open_risk}
use syn_antona.Engine.Health.{is_healthy}

abbrev pub PortfolioManager : Type 0
PortfolioManager = Dict (String × String × String) ManagedPosition

abbrev pub position_key : ManagedPosition → String × String × String
position_key p = (p.exchange, p.account_id, p.position_id)

unfoldable pub add : ManagedPosition → Action PortfolioManager (Unit {0})
add p = do
  raise_when (contains (position_key p)) (Error.value_error "Duplicate exchange position")
  write (insert (position_key p) p)

unfoldable pub remove : String → String → String → Action PortfolioManager ManagedPosition
remove exchange account_id position_id = do
  let key : String × String × String = (exchange, account_id, position_id)
  p ← reading (λ m. or_raise (lookup key m) (Error.key_error position_id))
  write (erase key)
  return p

unfoldable pub by_account : String → String → PortfolioManager → List ManagedPosition
by_account exchange account_id m =
    filter (λ p. (p.exchange == exchange) && (p.account_id == account_id)) (values m)

-- The loop over `fallback_order`.
unfoldable pub first_healthy : Dict String HealthStatus → List String → Result String
first_healthy health [] = err (Error.runtime_error "No healthy failover exchange for new signals")
first_healthy health (exchange ∷ rest) =
    let later = first_healthy health rest in
    elim (lookup exchange health) [
      | none ↦ later
      | some status ↦ if is_healthy status then ok exchange else later
    ]

-- An exchange without a status is not UNAVAILABLE.
unfoldable pub failover_for_new_signal :
    String → Dict String HealthStatus → List String → Result String
failover_for_new_signal preferred health order = elim (lookup preferred health) [
  | none ↦ ok preferred
  | some status ↦ if is_unavailable status then first_healthy health order else ok preferred
]

unfoldable pub unrealized_pnl : ManagedPosition → Decimal
unrealized_pnl p =
    (p.current_price -D p.entry_price)
    *D p.quantity
    *D (if p.side == "LONG" then one_d else neg_d one_d)

pub record PortfolioDashboard : Type 0 where
  pub total_equity : Decimal
  pub total_pnl : Decimal
  pub total_open_risk : Decimal
  pub equity_by_exchange : Dict String Decimal
  pub positions_by_exchange : Dict String (List ManagedPosition)

-- `grouped.setdefault(position.exchange, []).append(position)`, for each position.
unfoldable pub group :
    List ManagedPosition → Dict String (List ManagedPosition) → Dict String (List ManagedPosition)
group [] grouped = grouped
group (p ∷ ps) grouped =
    group ps (insert p.exchange (get_or p.exchange [] grouped ++ p ∷ []) grouped)

unfoldable pub build_dashboard : Dict String Decimal → List ManagedPosition → PortfolioDashboard
build_dashboard equity_by_exchange ps = record {
  total_equity = sum_d zero_d (values equity_by_exchange);
  total_pnl = sum_d zero_d (map unrealized_pnl ps);
  total_open_risk = sum_d zero_d (map position_open_risk ps);
  equity_by_exchange = equity_by_exchange;
  positions_by_exchange = group ps [];
}
