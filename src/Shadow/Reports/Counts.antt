-- ===== src/Shadow/Reports/Counts.antt =====
-- The decisions of a protocol, counted by kind and counted at once.
use syn_antona.Prelude.{
  true, false, not, ◌&&◌, ◌||◌, List, [], ◌∷◌, filter, length, String, ◌≡◌, arith,
}
use syn_antona.Prelude.Keys.{text_key, ◌==◌}
use syn_antona.Shadow.Records.{ShadowDecision}
use syn_antona.Shadow.Repository.{Journal}
use syn_antona.Shadow.Repository.Trades.{is_signal, decisions_count}
use syn_antona.Shadow.Reports.{
  DecisionCounts, count_by_decision, decision_counts, total_of, signals_of,
}

kept : String → List ShadowDecision → DecisionCounts
kept protocol_id ds = count_by_decision (filter (λ d. d.protocol_id == protocol_id) ds)

counts-sum :
    (protocol_id : String) (ds : List ShadowDecision)
    → (length (filter (λ d. (d.protocol_id == protocol_id) && (not false || is_signal d)) ds)
        ≡ total_of (kept protocol_id ds))
      × (length (filter (λ d. (d.protocol_id == protocol_id) && (not true || is_signal d)) ds)
          ≡ signals_of (kept protocol_id ds))
unfolding kept count_by_decision
counts-sum protocol_id [] = (ground arith, ground arith)
counts-sum protocol_id (d ∷ ds) =
    let rest = counts-sum protocol_id ds in (ground (arith, rest), ground (arith, rest))

-- The two counts of the decisions agree.
pub decisions-counted :
    (protocol_id : String) (j : Journal)
    → (decisions_count protocol_id false j ≡ total_of (decision_counts protocol_id j))
      × (decisions_count protocol_id true j ≡ signals_of (decision_counts protocol_id j))
unfolding kept decisions_count decision_counts
decisions-counted protocol_id j = counts-sum protocol_id j.decisions
