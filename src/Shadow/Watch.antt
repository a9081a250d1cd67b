-- ===== src/Shadow/Watch.antt =====
-- What `ShadowRepository` records of the run itself: the health of the exchanges, the events and the
-- alerts about them, and the daily snapshots. Rows are never deleted, so that an id is one more than
-- the number of rows before.
pub mod Failures
pub mod Alerts
use syn_antona.Prelude.{
  ℕ, suc, ltb, leb, length, String, Bool, true, false, not, ◌&&◌, ◌||◌, Option, none, some, List,
  [], ◌∷◌, ◌++◌, filter, if◌then◌else◌,
}
use syn_antona.Prelude.Keys.{Key, text_key, pair_key, ◌==◌}
use syn_antona.Prelude.Dict.{Dict, lookup, insert}
use syn_antona.Prelude.Tables.{find, update_first}
use syn_antona.Shadow.Records.{ExchangeHealth, SystemEvent, DailySnapshot}

-- One row for a protocol and an exchange.
abbrev pub HealthRows : Type 0
HealthRows = Dict (String × String) ExchangeHealth

abbrev pub is_healthy : String → Bool
is_healthy status = status == "HEALTHY"

abbrev pub or_else : Option ℕ → Option ℕ → Option ℕ
or_else none b = b
or_else (some a) b = some a

unfoldable pub new_health : String → String → ℕ → Option ℕ → ExchangeHealth
new_health status reason checked_at last_quote_at = record {
  status = status;
  reason = reason;
  consecutive_failures = if is_healthy status then 0 else 1;
  last_success_at = if is_healthy status then some checked_at else none;
  last_failure_at = if is_healthy status then none else some checked_at;
  last_quote_at = last_quote_at;
  checked_at = checked_at;
  updated_at = checked_at;
}

unfoldable pub next_health : String → String → ℕ → Option ℕ → ExchangeHealth → ExchangeHealth
next_health status reason checked_at last_quote_at r = record {
  status = status;
  reason = reason;
  consecutive_failures = if is_healthy status then 0 else suc r.consecutive_failures;
  last_success_at = if is_healthy status then some checked_at else r.last_success_at;
  last_failure_at = if is_healthy status then r.last_failure_at else some checked_at;
  last_quote_at = or_else last_quote_at r.last_quote_at;
  checked_at = checked_at;
  updated_at = checked_at;
}

-- The previous status and the new one.
unfoldable pub update_exchange_health :
    String
    → String
    → String
    → String
    → ℕ
    → Option ℕ
    → HealthRows
    → (Option String × String) × HealthRows
update_exchange_health protocol_id exchange status reason checked_at last_quote_at rows =
    elim (lookup (protocol_id, exchange) rows) [
      | none ↦ (
        (none, status),
        insert (protocol_id, exchange) (new_health status reason checked_at last_quote_at) rows,
      )
      | some r ↦ (
        (some r.status, status),
        insert (protocol_id, exchange) (next_health status reason checked_at last_quote_at r) rows,
      )
    ]

abbrev pub Events : Type 0
Events = List SystemEvent

abbrev pub same_exchange : Option String → Option String → Bool
same_exchange none none = true
same_exchange (some a) (some b) = a == b
same_exchange _ _ = false

-- An event of the kind, since the time.
abbrev pub is_repeat : String → String → Option String → ℕ → SystemEvent → Bool
is_repeat protocol_id event_type exchange since v =
    (v.protocol_id == protocol_id)
    && (v.event_type == event_type)
    && same_exchange v.exchange exchange
    && leb since v.created_at

abbrev pub new_event :
    String → String → String → String → Option String → String → ℕ → Events → SystemEvent
new_event protocol_id event_type severity message exchange details now events = record {
  id = suc (length events);
  protocol_id = protocol_id;
  event_type = event_type;
  exchange = exchange;
  severity = severity;
  message = message;
  details_json = details;
  created_at = now;
  alerted_at = none;
}

-- The row that `dedupe_since` finds, if it is given.
abbrev pub earlier : String → String → Option String → Option ℕ → Events → Option SystemEvent
earlier protocol_id event_type exchange none events = none
earlier protocol_id event_type exchange (some since) events =
    find (is_repeat protocol_id event_type exchange since) events

-- The id, and whether the event is new.
unfoldable pub record_system_event :
    String
    → String
    → String
    → String
    → Option String
    → String
    → Option ℕ
    → ℕ
    → Events
    → (ℕ × Bool) × Events
record_system_event protocol_id event_type severity message exchange details dedupe_since now
      events =
    elim (earlier protocol_id event_type exchange dedupe_since events) [
      | some v ↦ ((v.id, false), events)
      | none ↦
          let v : SystemEvent =
            new_event protocol_id event_type severity message exchange details now events in
          ((v.id, true), events ++ v ∷ [])
    ]

abbrev pub same_id : ℕ → ℕ → Bool
same_id a b = leb a b && leb b a

unfoldable pub mark_event_alerted : ℕ → ℕ → Events → Events
mark_event_alerted event_id alerted_at =
    update_first (λ v. same_id v.id event_id) (λ v. record v { alerted_at = some alerted_at })

abbrev pub is_unset : Option ℕ → Bool
is_unset none = true
is_unset (some n) = false

abbrev pub is_trade_alert : String → SystemEvent → Bool
is_trade_alert protocol_id v =
    (v.protocol_id == protocol_id)
    && ((v.event_type == "FIRST_SHADOW_TRADE") || (v.event_type == "SHADOW_POSITION_CLOSED"))
    && is_unset v.alerted_at

-- In the order of creation, which is that of the ids.
unfoldable pub pending_trade_alerts : String → Events → List SystemEvent
pending_trade_alerts protocol_id = filter (is_trade_alert protocol_id)

abbrev pub Snapshots : Type 0
Snapshots = List DailySnapshot

abbrev pub is_snapshot : String → ℕ → DailySnapshot → Bool
is_snapshot protocol_id day s = (s.protocol_id == protocol_id) && same_id s.snapshot_date day

abbrev pub new_snapshot : String → ℕ → String → ℕ → Snapshots → DailySnapshot
new_snapshot protocol_id day payload now rows = record {
  id = suc (length rows);
  protocol_id = protocol_id;
  snapshot_date = day;
  metrics_json = payload;
  updated_at = now;
  report_sent_at = none;
}

-- The day is the time of its midnight, and the payload the JSON text of the metrics.
unfoldable pub save_daily_snapshot : String → ℕ → String → ℕ → Snapshots → Bool × Snapshots
save_daily_snapshot protocol_id day payload now rows =
    elim (find (is_snapshot protocol_id day) rows) [
      | some s ↦ (
        false,
        update_first (is_snapshot protocol_id day)
            (λ r. record r { metrics_json = payload; updated_at = now }) rows,
      )
      | none ↦ (true, rows ++ new_snapshot protocol_id day payload now rows ∷ [])
    ]

abbrev pub is_pending : String → ℕ → DailySnapshot → Bool
is_pending protocol_id cutoff s =
    (s.protocol_id == protocol_id) && ltb s.snapshot_date cutoff && is_unset s.report_sent_at

-- `order_by(snapshot_date).limit(1)`: the first of the earliest.
unfoldable pub earliest : List DailySnapshot → Option DailySnapshot
earliest [] = none
earliest (s ∷ rest) = elim (earliest rest) [
  | none ↦ some s
  | some other ↦ if ltb other.snapshot_date s.snapshot_date then some other else some s
]

unfoldable pub pending_daily_snapshot : String → ℕ → Snapshots → Option DailySnapshot
pending_daily_snapshot protocol_id cutoff rows =
    earliest (filter (is_pending protocol_id cutoff) rows)

-- A report that was sent keeps its time.
abbrev pub send_once : ℕ → DailySnapshot → DailySnapshot
send_once sent_at s = record s {
  report_sent_at = if is_unset s.report_sent_at then some sent_at else s.report_sent_at;
}

unfoldable pub mark_daily_snapshot_sent : ℕ → ℕ → Snapshots → Snapshots
mark_daily_snapshot_sent snapshot_id sent_at =
    update_first (λ s. same_id s.id snapshot_id) (send_once sent_at)
