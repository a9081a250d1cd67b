-- ===== src/Shadow/Engine/Summary/Saved.antt =====
-- A cycle always ends, and the snapshot of its day holds its metrics.
use syn_antona.Prelude.{
  ℕ, ◌≤◌, String, true, Option, none, some, List, [], ◌∷◌, length, ◌≡◌, refl, arith,
}
use syn_antona.Prelude.Keys.{text_key, ==_iff}
use syn_antona.Prelude.Tables.{find, find-update_first, find-append_new}
use syn_antona.Prelude.Errors.{Result, ok, >>=-ok, >>=-defined}
use syn_antona.Shadow.Records.{DailySnapshot}
use syn_antona.Shadow.Repository.{Journal, Texts}
use syn_antona.Shadow.Repository.Trades.{closed_trades}
use syn_antona.Shadow.Metrics.{shadow_metrics}
use syn_antona.Shadow.Metrics.Total.{metrics-defined}
use syn_antona.Shadow.Watch.{Snapshots, save_daily_snapshot, is_snapshot, new_snapshot}
use syn_antona.Shadow.Orders.{protocol}
use syn_antona.Shadow.Reports.{decision_counts, total_of, signals_of}
use syn_antona.Shadow.Reports.Counts.{decisions-counted}
use syn_antona.Shadow.Engine.{Replies, process_symbol, process_exchanges}
use syn_antona.Shadow.Engine.Summary.{
  CycleMetrics, CycleReport, cycle_metrics, midnight, save_metrics, cycle,
}

cycle_metrics-defined : (j : Journal) → (m : CycleMetrics) × (cycle_metrics j ≡ ok m)
unfolding cycle_metrics
cycle_metrics-defined j =
    >>=-defined _ _ (metrics-defined (closed_trades protocol j)) (λ metrics. (_, refl))

-- The two counts of the metrics are sums of the counts by kind.
cycle_metrics-counted :
    (j : Journal) {m : CycleMetrics}
    → cycle_metrics j ≡ ok m
    → (m.decisions ≡ total_of (decision_counts protocol j))
      × (m.signals ≡ signals_of (decision_counts protocol j))
unfolding cycle_metrics
cycle_metrics-counted j {m} h =
    let (metrics, _, made) = >>=-ok (shadow_metrics (closed_trades protocol j)) _ h in
    let counted = decisions-counted protocol j in
    (ground (arith, made, counted), ground (arith, made, counted))

errors-le :
    (texts : Texts) (strategy_hash : String) (locked_at : ℕ) (rs : List Replies) (j : Journal)
    → length (process_exchanges texts strategy_hash locked_at rs j).0 ≤ length rs
unfolding process_exchanges
errors-le texts strategy_hash locked_at [] j = omega arith
errors-le texts strategy_hash locked_at (r ∷ rs) j =
    let rest =
      errors-le texts strategy_hash locked_at rs
        (process_symbol texts strategy_hash locked_at r j).1 in
    ground (arith, rest)

is_snapshot-own :
    (protocol_id : String) (day : ℕ) (s : DailySnapshot)
    → s.protocol_id ≡ protocol_id
    → s.snapshot_date ≡ day
    → is_snapshot protocol_id day s ≡ true
is_snapshot-own protocol_id day s same at =
    ground (arith, ==_iff s.protocol_id protocol_id, same, at)

-- The row of the day, once it was saved.
saved-found :
    (protocol_id : String) (day : ℕ) (payload : String) (now : ℕ) (rows : Snapshots)
    → (s : DailySnapshot) × (find
          (is_snapshot protocol_id day)
          (save_daily_snapshot protocol_id day payload now rows).1
        ≡ some s)
      × (s.metrics_json ≡ payload)
unfolding save_daily_snapshot
saved-found protocol_id day payload now rows = go (find (is_snapshot protocol_id day) rows) refl
  where
    go :
        (before : Option DailySnapshot)
        → find (is_snapshot protocol_id day) rows ≡ before
        → (s : DailySnapshot) × (find
              (is_snapshot protocol_id day)
              (save_daily_snapshot protocol_id day payload now rows).1
            ≡ some s)
          × (s.metrics_json ≡ payload)
    go none e =
        let row : DailySnapshot = new_snapshot protocol_id day payload now rows in
        let found =
          find-append_new (is_snapshot protocol_id day) rows row e
            (is_snapshot-own protocol_id day row refl refl) in
        (row, rw (e, save_daily_snapshot) found, refl)
    go (some s) e =
        let row : DailySnapshot = record s { metrics_json = payload; updated_at = now } in
        let found =
          find-update_first (is_snapshot protocol_id day)
            (λ r. record r { metrics_json = payload; updated_at = now }) rows (λ r. refl) e in
        (row, rw (e, save_daily_snapshot) found, refl)

-- How a cycle ended: its report, and the journal and the snapshots after it.
pub record IsReported (to_json : CycleMetrics → String) (now : ℕ) (replies : List Replies)
    (journal : Journal) (out : Result CycleReport × (Journal × Snapshots)) : Type 0 where
  pub report : CycleReport
  pub returned : out.0 ≡ ok report
  pub kept : out.1.0 ≡ journal
  pub of_journal : cycle_metrics journal ≡ ok report.metrics
  pub decided : report.metrics.decisions ≡ total_of (decision_counts protocol journal)
  pub signalled : report.metrics.signals ≡ signals_of (decision_counts protocol journal)
  pub few_errors : length report.errors ≤ length replies
  pub snapshot : DailySnapshot
  pub of_day : find (is_snapshot protocol (midnight now)) out.1.1 ≡ some snapshot
  pub metrics : snapshot.metrics_json ≡ to_json report.metrics

-- A cycle of the shadow engine returns, whatever the market, the strategy and the notifier answer
-- or raise: no more errors are reported than symbols were processed, the metrics are those of the
-- journal that the exchanges left, in which no division fails, their numbers of decisions and of
-- signals are the sums of the counts by kind that decision_counts gives of that journal, and the
-- snapshot of the day holds them.
pub cycle_returns :
    (texts : Texts) (to_json : CycleMetrics → String) (strategy_hash : String)
    (locked_at now saved_at : ℕ) (rs : List Replies) (j : Journal) (rows : Snapshots)
    → IsReported to_json now rs
        (process_exchanges texts strategy_hash locked_at rs j).1
        (cycle texts to_json strategy_hash locked_at now saved_at rs (j, rows))
unfolding cycle save_metrics
cycle_returns texts to_json strategy_hash locked_at now saved_at rs j rows =
    let journal : Journal = (process_exchanges texts strategy_hash locked_at rs j).1 in
    let (m, defined) = cycle_metrics-defined journal in
    let (s, found, text) = saved-found protocol (midnight now) (to_json m) saved_at rows in
    rw (defined, cycle, save_metrics)
      (record {
        report = record {
          errors = (process_exchanges texts strategy_hash locked_at rs j).0;
          metrics = m;
        };
        returned = refl;
        kept = refl;
        of_journal = defined;
        decided = (cycle_metrics-counted journal defined).0;
        signalled = (cycle_metrics-counted journal defined).1;
        few_errors = errors-le texts strategy_hash locked_at rs j;
        snapshot = s;
        of_day = found;
        metrics = text;
      })
