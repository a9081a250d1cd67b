-- ===== src/Engine/Health/Errors.antt =====
-- What order errors do to the health of an exchange, whatever else is observed.
use syn_antona.Prelude.{
  ℕ, suc, zero, ◌+◌, ◌≤◌, leb, String, Bool, true, false, not, List, [], ◌∷◌, ◌≡◌, refl, arith, all,
  all-cons, if◌then◌else◌,
}
use syn_antona.Prelude.Keys.{text_key, ◌==◌, ==_iff, ==_self}
use syn_antona.Prelude.Dict.{get_or, lookup-insert}
use syn_antona.Risk.Portfolio.{HealthStatus}
use syn_antona.Engine.Market.{HealthReport}
use syn_antona.Engine.Health.{
  ExchangeHealthMonitor, market_data_received, order_error, order_success, judge, check,
  can_open_new_position,
}

pub data Event : Type 0 where
  data_received : String → ℕ → Event
  failed passed : String → Event
  checked : String → ℕ → HealthReport → Event

unfoldable pub after : ExchangeHealthMonitor → Event → ExchangeHealthMonitor
after m (data_received name time) = market_data_received name time m
after m (failed name) = order_error name m
after m (passed name) = order_success name m
after m (checked name now report) = (check name now report m).1

unfoldable pub after_all : ExchangeHealthMonitor → List Event → ExchangeHealthMonitor
after_all m [] = m
after_all m (v ∷ events) = after_all (after m v) events

abbrev pub is_success : String → Event → Bool
is_success name (passed other) = other == name
is_success name _ = false

abbrev pub failures : String → List Event → ℕ
failures name [] = 0
failures name (failed other ∷ events) =
    if other == name then suc (failures name events) else failures name events
failures name (data_received other time ∷ events) = failures name events
failures name (passed other ∷ events) = failures name events
failures name (checked other now report ∷ events) = failures name events

abbrev errors_of : String → ExchangeHealthMonitor → ℕ
errors_of name m = get_or name 0 m.order_errors

after-errors :
    (name : String) (m : ExchangeHealthMonitor) (v : Event) (events : List Event)
    → is_success name v ≡ false
    → (errors_of name m + failures name (v ∷ events)
        ≡ errors_of name (after m v) + failures name events)
      × ((after m v).max_order_errors ≡ m.max_order_errors)
unfolding after market_data_received order_error order_success check
after-errors name m (data_received other time) events quiet = (refl, refl)
after-errors name m (checked other now report) events quiet = (refl, refl)
after-errors name m (passed other) events quiet =
    (ground (arith, lookup-insert other name (zero) m.order_errors), refl)
after-errors name m (failed other) events quiet = (
  ground (
    arith,
    lookup-insert other name (suc (get_or other 0 m.order_errors)) m.order_errors,
    ==_iff other name,
  ),
  refl,
)

after_all-errors :
    (name : String) (events : List Event) (m : ExchangeHealthMonitor)
    → all (λ v. not (is_success name v)) events ≡ true
    → (errors_of name m + failures name events ≡ errors_of name (after_all m events))
      × ((after_all m events).max_order_errors ≡ m.max_order_errors)
unfolding after_all
after_all-errors name [] m quiet = ground arith
after_all-errors name (v ∷ events) m quiet =
    let (this, rest) = all-cons (λ x. not (is_success name x)) v events quiet in
    let (counted, same) = after-errors name m v events (ground arith) in
    let (total, same') = after_all-errors name events (after m v) rest in
    (ground (arith, counted, total), ground (arith, same, same'))

-- After events with at least as many order errors of an exchange as the threshold, and no order
-- success of it, whatever else was observed, a check reports the exchange as unavailable whatever
-- the exchange itself reports, and no new position can be opened on it.
pub errors_block :
    (name : String) (events : List Event) (m : ExchangeHealthMonitor) (now : ℕ)
    (report : HealthReport)
    → all (λ v. not (is_success name v)) events ≡ true
    → m.max_order_errors ≤ failures name events
    → ((check name now report (after_all m events)).0.status ≡ HealthStatus.unavailable)
      × (can_open_new_position name (check name now report (after_all m events)).1 ≡ false)
unfolding check judge can_open_new_position
errors_block name events m now report quiet enough =
    let (total, same) = after_all-errors name events m quiet in
    let end : ExchangeHealthMonitor = after_all m events in
    let over : leb end.max_order_errors (errors_of name end) ≡ true = ground (arith, total, same) in
    (
      ground (arith, over),
      ground (
        arith,
        over,
        lookup-insert name name (judge name now report end) end.reports,
        ==_self name,
      ),
    )
