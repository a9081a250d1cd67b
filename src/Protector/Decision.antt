-- ===== src/Protector/Decision.antt =====
-- `evaluate_protection` of app/trading/profit_protector.py. Reasons are the constructors of `Reason`.
pub mod Safe
mod Tests
use syn_antona.Prelude.{
  ℕ, String, Bool, true, false, not, Option, none, some, List, if◌then◌else◌, ◌&&◌, ◌||◌,
}
use syn_antona.Prelude.Errors.{Result, ok, err, ◌>>=◌}
use syn_antona.Decimal.{
  Decimal, dec, zero_d, one_d, ◌+D◌, ◌-D◌, ◌*D◌, ◌/D◌, ◌≤D◌, ◌<D◌, max_d, min_d,
}
use syn_antona.Protector.Costs.{
  PositionSnapshot, is_long, net_pnl, estimated_close_cost, initial_risk_usdt, round_protective,
  tightens, stop_for_net_profit,
}
use syn_antona.Protector.Momentum.{ClosedBar, atr, adverse_momentum_reversal}

pub data ProtectionAction : Type 0 where
  nothing profit_watch break_even profit_lock trailing_update : ProtectionAction
  mfe_profit_protect early_profit_exit : ProtectionAction

-- The stage of a position: "INITIAL", or the last confirmed action.
pub data Stage : Type 0 where
  initial : Stage
  reached : ProtectionAction → Stage

pub data Reason : Type 0 where
  threshold_not_reached adverse_momentum giveback_locked break_even_reached watched : Reason
  trailing : Decimal → Reason
  does_not_tighten : Reason

pub record ProtectionDecision : Type 0 where
  pub action : ProtectionAction
  pub stop_loss : Option Decimal
  pub reason : Reason
  pub current_net_pnl : Decimal
  pub current_r : Decimal
  pub max_favorable_excursion_usdt : Decimal
  pub max_favorable_r : Decimal
  pub giveback_pct : Decimal

-- What the evaluation measures before it decides.
pub record Measures : Type 0 where
  pub executable : Decimal
  pub current : Decimal
  pub risk : Decimal
  pub mfe : Decimal
  pub current_r : Decimal
  pub mfe_r : Decimal
  pub giveback : Decimal
  pub meaningful_profit_floor : Decimal
  pub watch_floor : Decimal
  pub current_atr : Option Decimal

-- `a / b if b > 0 else Decimal()`
unfoldable pub ratio_or_zero : Decimal → Decimal → Result Decimal
ratio_or_zero a b = if b ≤D zero_d then ok zero_d else a /D b

-- The share of the best profit that is given back, between zero and one.
unfoldable pub giveback_of : Decimal → Decimal → Result Decimal
giveback_of mfe current = do
  share ← ratio_or_zero (mfe -D current) mfe
  ok (if mfe ≤D zero_d then zero_d else min_d one_d (max_d zero_d share))

unfoldable pub measure :
    PositionSnapshot → Decimal → Decimal → Decimal → List ClosedBar → Decimal → Result Measures
measure p bid ask previous_mfe bars slippage = do
  let executable : Decimal = if is_long p.side then bid else ask
  let current : Decimal = net_pnl p executable slippage
  let risk : Decimal = initial_risk_usdt p slippage
  let mfe : Decimal = max_d previous_mfe current
  current_r ← ratio_or_zero current risk
  mfe_r ← ratio_or_zero mfe risk
  giveback ← giveback_of mfe current
  let round_trip_cost : Decimal =
      p.entry_fee_usdt +D estimated_close_cost executable p.quantity p.taker_fee_rate slippage
  let floor_profit : Decimal = round_trip_cost +D dec 2 2
  current_atr ← atr bars
  ok (record {
    executable = executable;
    current = current;
    risk = risk;
    mfe = mfe;
    current_r = current_r;
    mfe_r = mfe_r;
    giveback = giveback;
    meaningful_profit_floor = floor_profit;
    watch_floor = max_d (risk *D dec 20 2) floor_profit;
    current_atr = current_atr;
  })

-- The excursion is worth keeping, at least `share` of it is given back, and what is left is worth
-- keeping too.
unfoldable pub is_given_back : Measures → Decimal → Bool
is_given_back m share =
    (m.watch_floor ≤D m.mfe) && (share ≤D m.giveback) && (m.meaningful_profit_floor ≤D m.current)

unfoldable pub is_early_exit : PositionSnapshot → Measures → List ClosedBar → Result Bool
is_early_exit p m bars =
    if is_given_back m (dec 50 2)
    then elim m.current_atr [ none ↦ ok false | some a ↦ adverse_momentum_reversal p.side bars a ]
    else ok false

unfoldable pub decide : Measures → ProtectionAction → Option Decimal → Reason → ProtectionDecision
decide m action stop reason = record {
  action = action;
  stop_loss = stop;
  reason = reason;
  current_net_pnl = m.current;
  current_r = m.current_r;
  max_favorable_excursion_usdt = m.mfe;
  max_favorable_r = m.mfe_r;
  giveback_pct = m.giveback *D dec 100 0;
}

-- A stop that is proposed, with its action and reason.
pub record Candidate : Type 0 where
  pub action : ProtectionAction
  pub stop : Decimal
  pub reason : Reason

abbrev pub is_first_lock : Stage → Bool
is_first_lock Stage.initial = true
is_first_lock (Stage.reached ProtectionAction.break_even) = true
is_first_lock _ = false

-- `Decimal("2") if volatility >= Decimal("0.01") else Decimal("1.5")`
abbrev pub multiplier : Decimal → Decimal
multiplier volatility = if dec 1 2 ≤D volatility then dec 2 0 else dec 15 1

unfoldable pub mfe_candidate : PositionSnapshot → Measures → Decimal → Result Candidate
mfe_candidate p m slippage = do
  stop ← stop_for_net_profit p (min_d (m.current *D dec 75 2) (m.mfe *D dec 50 2)) slippage
  ok (record {
    action = ProtectionAction.mfe_profit_protect;
    stop = stop;
    reason = Reason.giveback_locked;
  })

unfoldable pub lock_candidate :
    PositionSnapshot → Measures → Stage → Decimal → Decimal → Result Candidate
lock_candidate p m stage current_atr slippage = do
  locked ← stop_for_net_profit p (m.risk *D dec 3 1) slippage
  volatility ← ratio_or_zero current_atr m.executable
  let distance : Decimal = current_atr *D multiplier volatility
  trail ←
      round_protective
        (if is_long p.side then m.executable -D distance else m.executable +D distance) p.tick_size
        p.side
  ok (record {
    action =
        if is_first_lock stage
        then ProtectionAction.profit_lock
        else ProtectionAction.trailing_update;
    stop = if is_long p.side then max_d locked trail else min_d locked trail;
    reason = Reason.trailing (multiplier volatility);
  })

unfoldable pub break_even_candidate : PositionSnapshot → Decimal → Result Candidate
break_even_candidate p slippage = do
  stop ← stop_for_net_profit p zero_d slippage
  ok (record {
    action = ProtectionAction.break_even;
    stop = stop;
    reason = Reason.break_even_reached;
  })

-- `candidate = min(candidate, bid - tick)`, or `max(candidate, ask + tick)`.
unfoldable pub inside_market : PositionSnapshot → Decimal → Decimal → Decimal → Decimal
inside_market p bid ask stop =
    if is_long p.side then min_d stop (bid -D p.tick_size) else max_d stop (ask +D p.tick_size)

-- The end of the evaluation: a stop must tighten before and after it is kept inside the market.
unfoldable pub conclude :
    PositionSnapshot → Measures → Decimal → Decimal → Decimal → Candidate → ProtectionDecision
conclude p m bid ask confirmed_stop c =
    if not (tightens p.side c.stop confirmed_stop)
    then decide m ProtectionAction.nothing none c.reason
    else if not (tightens p.side (inside_market p bid ask c.stop) confirmed_stop)
    then decide m ProtectionAction.nothing none Reason.does_not_tighten
    else decide m c.action (some (inside_market p bid ask c.stop)) c.reason

unfoldable pub propose :
    PositionSnapshot
    → Measures
    → Decimal
    → Decimal
    → Decimal
    → Result Candidate
    → Result ProtectionDecision
propose p m bid ask confirmed_stop candidate = do
  c ← candidate
  ok (conclude p m bid ask confirmed_stop c)

-- `current_r >= PROFIT_LOCK_R and current_atr is not None`
abbrev pub lock_atr : Measures → Option Decimal
lock_atr m = if one_d ≤D m.current_r then m.current_atr else none

abbrev pub is_initial : Stage → Bool
is_initial Stage.initial = true
is_initial _ = false

-- The branches after the early exit, in order.
unfoldable pub protect_profit :
    PositionSnapshot
    → Measures
    → Decimal
    → Decimal
    → Decimal
    → Stage
    → Decimal
    → Result ProtectionDecision
protect_profit p m bid ask confirmed_stop stage slippage =
    if is_given_back m (dec 35 2)
    then propose p m bid ask confirmed_stop (mfe_candidate p m slippage)
    else elim (lock_atr m) [
      | some a ↦ propose p m bid ask confirmed_stop (lock_candidate p m stage a slippage)
      | none ↦
          if dec 5 1 ≤D m.current_r
          then propose p m bid ask confirmed_stop (break_even_candidate p slippage)
          else ok (
              if is_initial stage && (m.watch_floor ≤D m.current)
              then decide m ProtectionAction.profit_watch none Reason.watched
              else decide m ProtectionAction.nothing none Reason.threshold_not_reached)
    ]

unfoldable pub evaluate_protection :
    PositionSnapshot
    → Decimal
    → Decimal
    → Decimal
    → Decimal
    → Stage
    → List ClosedBar
    → Decimal
    → Result ProtectionDecision
evaluate_protection p bid ask confirmed_stop previous_mfe stage bars slippage = do
  m ← measure p bid ask previous_mfe bars slippage
  early ← is_early_exit p m bars
  elim early [
    | true ↦ ok (decide m ProtectionAction.early_profit_exit none Reason.adverse_momentum)
    | false ↦ protect_profit p m bid ask confirmed_stop stage slippage
  ]
