-- ===== src/Shadow/Tests.antt =====
-- A collector that crashed, the checks of an exchange, the events and reports, and three trades.
use syn_antona.Prelude.{ℕ, ◌+◌, ◌≤◌, String, true, false, none, some, List, [], ◌∷◌, ◌≡◌, refl}
use syn_antona.Prelude.Keys.{text_key, pair_key}
use syn_antona.Prelude.Dict.{lookup}
use syn_antona.Prelude.Errors.{Error, ok, err}
use syn_antona.Decimal.{Decimal, dec, zero_d, ◌-D◌, ◌≤D◌, evaluation}
use syn_antona.Domain.{Side}
use syn_antona.Shadow.Records.{CollectorState, Closing, TradeStatus, ShadowTrade}
use syn_antona.Shadow.Collector.{Leases, expiry, acquire_collector_lease, heartbeat}
use syn_antona.Shadow.Collector.Lease as Lease
use syn_antona.Shadow.Collector.Lease.{LeaseCall, Request, lease_kept, lease_passes_on}
use syn_antona.Shadow.Watch.{Events, record_system_event, mark_event_alerted, pending_trade_alerts}
use syn_antona.Shadow.Watch.Failures as Failures
use syn_antona.Shadow.Watch.Failures.{Check, failures_of, failures_since, failures_counted}
use syn_antona.Shadow.Watch.Alerts as Alerts
use syn_antona.Shadow.Watch.Alerts.{EventCall, SnapshotCall, is_due, is_sent_at, alert_not_lost}
use syn_antona.Shadow.Metrics.{
  ShadowMetrics, ProfitFactor, drawdown_from, max_drawdown, profit_factor, winning, losing,
  shadow_metrics,
}
use syn_antona.Shadow.Metrics.Drawdown.{equity_after, peak_after, metrics_bounds}

abbrev holder : CollectorState
holder = record {
  instance_id = "a";
  host = "host-a";
  pid = 11;
  status = "STARTING";
  started_at = 5;
  heartbeat_at = 5;
  last_db_write_at = 5;
  lease_expires_at = 60_000_005;
  restart_count = 0;
  dry_run = none;
  live_trading_enabled = none;
  controlled_live_enabled = none;
  manual_first_order_approved = none;
  real_order_execution_enabled = none;
  deployment_id = none;
  replica_id = none;
  last_start_cause = none;
  last_error = none;
  updated_at = 5;
}

abbrev leases : Leases
leases = ("phase4i", holder) ∷ []

-- Another instance tries early, and the lease of another protocol is taken.
abbrev requests : List Request
requests =
    record {
      protocol_id = "phase4i";
      instance_id = "b";
      now = 30_000_000;
      call = LeaseCall.acquire "host-b" 12 60;
    }
    ∷ record {
      protocol_id = "phase5";
      instance_id = "b";
      now = 90_000_000;
      call = LeaseCall.acquire "host-b" 12 60;
    }
    ∷ record {
      protocol_id = "phase4i";
      instance_id = "b";
      now = 40_000_000;
      call = LeaseCall.release;
    }
    ∷ []

lease_kept_example :
    (lookup "phase4i" (Lease.after_all requests leases) ≡ some holder)
    × (acquire_collector_lease "phase4i" "c" "host-c" 13 50_000_000 60
          (Lease.after_all requests leases)
        ≡ ((false, 0), Lease.after_all requests leases))
    × (heartbeat "phase4i" "c" "RUNNING" 50_000_000 60 none (Lease.after_all requests leases)
        ≡ (err (Error.runtime_error "Collector lease lost"), Lease.after_all requests leases))
unfolding lookup
lease_kept_example =
    lease_kept "phase4i" holder requests leases "c" 50_000_000 "host-c" "RUNNING" 13 60 none refl
      refl refl refl

lease_passes_on_example :
    (leases' : Leases) × (mine : CollectorState) × (acquire_collector_lease "phase4i" "c" "host-c"
        13 70_000_000 60
        (Lease.after_all requests leases)
      ≡ ((true, 1), leases'))
    × (lookup "phase4i" leases' ≡ some mine)
    × (mine.instance_id ≡ "c")
    × (mine.lease_expires_at ≡ expiry 70_000_000 60)
    × (mine.restart_count ≡ 1)
unfolding lookup
lease_passes_on_example =
    lease_passes_on "phase4i" holder requests leases "c" 70_000_000 "host-c" 13 60 refl refl refl

abbrev check : String → String → ℕ → Check
check exchange status at = record {
  protocol_id = "phase4i";
  exchange = exchange;
  status = status;
  reason = "";
  checked_at = at;
  last_quote_at = none;
}

abbrev checks : List Check
checks =
    check "bybit" "HEALTHY" 1
    ∷ check "bybit" "STALE" 2
    ∷ check "okx" "STALE" 3
    ∷ check "bybit" "DISCONNECTED" 4
    ∷ []

failures_counted_example :
    failures_of ("phase4i", "bybit") (Failures.after_all checks [])
    ≡ failures_since ("phase4i", "bybit") 0 checks
failures_counted_example = failures_counted ("phase4i", "bybit") checks []

-- A position is closed; the alert of another event is sent.
abbrev events : Events
events =
    (record_system_event "phase4i" "SHADOW_POSITION_CLOSED" "INFO" "closed" (some "bybit") "{}" none
      7 []).1

abbrev event_calls : List EventCall
event_calls =
    EventCall.recorded "phase4i" "EXCHANGE_STALE" "WARNING" "stale" (some "okx") "{}" (some 5) 8
    ∷ EventCall.alerted 2 9
    ∷ []

alert_not_lost_example : is_due "phase4i" 1 (Alerts.after_all event_calls events) ≡ true
unfolding record_system_event mark_event_alerted pending_trade_alerts
alert_not_lost_example = alert_not_lost "phase4i" 1 event_calls events refl refl

abbrev closing : Decimal → Closing
closing pnl = record {
  exit_reference = dec 100 0;
  exit_price = dec 100 0;
  exit_reason = "STOP_LOSS";
  exit_fee = dec 1 1;
  exit_spread_cost = zero_d;
  exit_slippage_cost = zero_d;
  gross_pnl = pnl;
  realized_pnl = pnl;
  closed_at = 3_600_000_000;
}

abbrev trade : Decimal → ShadowTrade
trade pnl = record {
  id = "shadow-1";
  decision_id = "1";
  protocol_id = "phase4i";
  exchange = "bybit";
  symbol = "BTCUSDT";
  side = Side.long;
  signal_timestamp = 0;
  decision_price = dec 100 0;
  entry_reference = dec 100 0;
  entry_price = dec 100 0;
  quantity = dec 1 0;
  stop_loss = dec 98 0;
  take_profit = dec 104 0;
  leverage = dec 1 0;
  risk_amount = dec 2 0;
  expected_fees = dec 2 1;
  entry_fee = dec 1 1;
  observed_spread = zero_d;
  entry_spread_cost = zero_d;
  entry_slippage_cost = zero_d;
  strategy_hash = "h";
  status = TradeStatus.closed_trade;
  opened_at = 0;
  closing = some (closing pnl);
}

-- Two wins around two losses.
abbrev trades : List ShadowTrade
trades =
    trade (dec 30 0)
    ∷ trade (zero_d -D dec 20 0)
    ∷ trade (zero_d -D dec 5 0)
    ∷ trade (dec 10 0)
    ∷ []

abbrev metrics : ShadowMetrics
metrics = record {
  trades = 4;
  wins = 2;
  losses = 2;
  win_rate = dec 5_000_000_000_000_000_000_000_000_000 26;
  gross_pnl = dec 15 0;
  fees = dec 80_000_000 8;
  spread_cost = zero_d;
  slippage = zero_d;
  net_pnl = dec 15 0;
  net_pf = ProfitFactor.finite (dec 1_600_000_000_000_000_000_000_000_000 27);
  expectancy = dec 3_750_000_000_000_000_000_000_000_000 27;
  max_drawdown = dec 25 0;
}

computed : shadow_metrics trades ≡ ok metrics
unfolding evaluation shadow_metrics drawdown_from max_drawdown profit_factor winning losing
computed = refl

metrics_bounds_example :
    (metrics.wins + metrics.losses ≤ metrics.trades)
    × ((zero_d ≤D metrics.max_drawdown) ≡ true)
    × (((peak_after
              (dec 1000 0)
              (dec 1000 0)
              (dec 30 0 ∷ (zero_d -D dec 20 0) ∷ (zero_d -D dec 5 0) ∷ [])
            -D equity_after
                (dec 1000 0)
                (dec 30 0 ∷ (zero_d -D dec 20 0) ∷ (zero_d -D dec 5 0) ∷ []))
          ≤D metrics.max_drawdown)
        ≡ true)
metrics_bounds_example =
    metrics_bounds trades (dec 30 0 ∷ (zero_d -D dec 20 0) ∷ []) (dec 10 0 ∷ []) (zero_d -D dec 5 0)
      computed refl
