-- ===== src/Shadow/Engine/Summary.antt =====
-- `ProspectiveShadowEngine.cycle`: once the exchanges were processed, what the closed trades came to
-- is saved as the snapshot of the day. The JSON text of the metrics is a parameter.
pub mod Saved
use syn_antona.Prelude.{ℕ, ◌*◌, String, true, false, List, length}
use syn_antona.Prelude.Errors.{Result, ok, err, ◌>>=◌}
use syn_antona.Prelude.Actions.{Action}
use syn_antona.Shadow.Repository.{Journal, Texts}
use syn_antona.Shadow.Repository.Trades.{open_trades, closed_trades, decisions_count}
use syn_antona.Shadow.Metrics.{ShadowMetrics, shadow_metrics}
use syn_antona.Shadow.Watch.{Snapshots, save_daily_snapshot}
use syn_antona.Shadow.Orders.{protocol, day_of}
use syn_antona.Shadow.Engine.{Replies, CycleError, process_exchanges}

pub record CycleMetrics : Type 0 where
  pub trades : ShadowMetrics
  pub decisions : ℕ
  pub signals : ℕ
  pub open_positions : ℕ

unfoldable pub cycle_metrics : Journal → Result CycleMetrics
cycle_metrics j = shadow_metrics (closed_trades protocol j) >>= (λ metrics. ok (record {
  trades = metrics;
  decisions = decisions_count protocol false j;
  signals = decisions_count protocol true j;
  open_positions = length (open_trades protocol j);
}))

-- The midnight of a time's day.
abbrev pub midnight : ℕ → ℕ
midnight t = day_of t * 86_400_000_000

-- What happened in a cycle.
pub record CycleReport : Type 0 where
  pub errors : List CycleError
  pub metrics : CycleMetrics

-- The clock is read for the day, and again when the snapshot is written.
unfoldable pub save_metrics :
    (CycleMetrics → String) → ℕ → ℕ → List CycleError → Action (Journal × Snapshots) CycleReport
save_metrics to_json now saved_at errors (j, rows) = elim (cycle_metrics j) [
  | err e ↦ (err e, (j, rows))
  | ok m ↦ (
    ok (record { errors = errors; metrics = m }),
    (j, (save_daily_snapshot protocol (midnight now) (to_json m) saved_at rows).1),
  )
]

unfoldable pub cycle :
    Texts
    → (CycleMetrics → String)
    → String
    → ℕ
    → ℕ
    → ℕ
    → List Replies
    → Action (Journal × Snapshots) CycleReport
cycle texts to_json strategy_hash locked_at now saved_at replies (j, rows) =
    let (errors, j') = process_exchanges texts strategy_hash locked_at replies j in
    save_metrics to_json now saved_at errors (j', rows)
