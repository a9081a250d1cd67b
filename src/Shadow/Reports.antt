-- ===== src/Shadow/Reports.antt =====
-- What `ShadowRepository` reads for the status and the daily report, and the table of the protocols.
pub mod Counts
use syn_antona.Prelude.{
  ℕ, suc, ◌+◌, ltb, leb, length, any, String, Bool, true, false, not, ◌&&◌, Option, none, some,
  List, [], ◌∷◌, ◌++◌, filter, if◌then◌else◌,
}
use syn_antona.Prelude.Keys.{text_key, ◌==◌}
use syn_antona.Prelude.Dict.{Dict, lookup, insert}
use syn_antona.Prelude.Tables.{find, sort_by}
use syn_antona.Prelude.Errors.{Error, Result, ok, err, ◌>>=◌}
use syn_antona.Prelude.Actions.{Action}
use syn_antona.Domain.{Side}
use syn_antona.Shadow.Records.{
  Candle, ShadowCandle, ShadowQuote, Decision, ShadowDecision, ShadowTrade, ExchangeHealth,
}
use syn_antona.Shadow.Watch.{HealthRows}
use syn_antona.Shadow.Repository.{Journal, is_series}
use syn_antona.Shadow.Repository.Trades.{is_signal, is_open, open_trades}
use syn_antona.Shadow.Metrics.{ShadowMetrics, shadow_metrics}

pub record Protocol : Type 0 where
  pub id : String
  pub locked_at : ℕ
  pub strategy_version : String
  pub config_hash : String
  pub source_hash : String
  pub warmup_hash : String
  pub protocol_hash : String
  pub protocol_json : String
  pub status : String
  pub created_at : ℕ

-- The hash of a protocol is unique.
unfoldable pub create_protocol : Protocol → Action (List Protocol) (Unit {0})
create_protocol p rows =
    if any (λ r. r.id == p.id) rows
    then (err (Error.runtime_error "Prospective protocol already exists"), rows)
    else if any (λ r. r.protocol_hash == p.protocol_hash) rows
    then (err Error.integrity_error, rows)
    else (ok tt, rows ++ p ∷ [])

abbrev pub prospective_candles : String → String → String → Journal → List ShadowCandle
prospective_candles protocol_id exchange symbol j =
    sort_by (λ c. c.candle.timestamp) (filter (is_series protocol_id exchange symbol) j.candles)

-- The decisions of one kind each.
pub record DecisionCounts : Type 0 where
  pub wait : ℕ
  pub long : ℕ
  pub short : ℕ

abbrev pub count_one : Decision → DecisionCounts → DecisionCounts
count_one Decision.wait n = record n { wait = suc n.wait }
count_one (Decision.signal Side.long) n = record n { long = suc n.long }
count_one (Decision.signal Side.short) n = record n { short = suc n.short }

-- `group_by(decision)`, and the zeros that stand before.
unfoldable pub count_by_decision : List ShadowDecision → DecisionCounts
count_by_decision [] = record { wait = 0; long = 0; short = 0 }
count_by_decision (d ∷ ds) = count_one d.decision (count_by_decision ds)

unfoldable pub decision_counts : String → Journal → DecisionCounts
decision_counts protocol_id j =
    count_by_decision (filter (λ d. d.protocol_id == protocol_id) j.decisions)

abbrev pub signals_of : DecisionCounts → ℕ
signals_of n = n.long + n.short

abbrev pub total_of : DecisionCounts → ℕ
total_of n = n.wait + signals_of n

-- From the midnight `start` on, for a day.
abbrev pub is_within : ℕ → ℕ → Bool
is_within start t = leb start t && ltb t (start + 86_400_000_000)

abbrev pub is_closed_within : ℕ → ShadowTrade → Bool
is_closed_within start t = elim t.closing [
  | none ↦ false
  | some c ↦ not (is_open t) && is_within start c.closed_at
]

-- The metrics are those of the trades that were closed on the day, but for the number of trades, which
-- counts those that were opened.
pub record DailyActivity : Type 0 where
  pub metrics : ShadowMetrics
  pub signals : ℕ
  pub counts : DecisionCounts
  pub closed_trades : ℕ
  pub open_positions : ℕ

abbrev pub closed_on : String → ℕ → Journal → List ShadowTrade
closed_on protocol_id start j =
    filter (λ t. (t.protocol_id == protocol_id) && is_closed_within start t) j.trades

unfoldable pub daily_activity : String → ℕ → Journal → Result DailyActivity
daily_activity protocol_id start j =
    let counts : DecisionCounts = count_by_decision (
      filter (λ d. (d.protocol_id == protocol_id) && is_within start d.signal_timestamp)
        j.decisions) in
    let opened : ℕ =
      length
        (filter (λ t. (t.protocol_id == protocol_id) && is_within start t.opened_at) j.trades) in
    shadow_metrics (closed_on protocol_id start j) >>= (λ metrics. ok (record {
      metrics = record metrics { trades = opened };
      signals = signals_of counts;
      counts = counts;
      closed_trades = length (closed_on protocol_id start j);
      open_positions = length (open_trades protocol_id j);
    }))

-- `limit(1)`
abbrev pub first_of : {A : Type 0} → List A → Option A
first_of [] = none
first_of (x ∷ xs) = some x

abbrev pub candles_of : String → Journal → List ShadowCandle
candles_of protocol_id j = filter (λ c. c.protocol_id == protocol_id) j.candles

abbrev pub first_candle : String → Journal → Option ShadowCandle
first_candle protocol_id j =
    first_of (sort_by (λ c. c.candle_close_time) (candles_of protocol_id j))

abbrev pub first_signal : String → Journal → Option ShadowDecision
first_signal protocol_id j = first_of (
    sort_by (λ d. d.signal_timestamp)
      (filter (λ d. (d.protocol_id == protocol_id) && is_signal d) j.decisions))

-- `order_by(candle_close_time.desc()).limit(1)`: of candles that close at one time, the first.
unfoldable pub latest_of_all : List ShadowCandle → Option ShadowCandle
latest_of_all [] = none
latest_of_all (c ∷ cs) = elim (latest_of_all cs) [
  | none ↦ some c
  | some x ↦ if ltb c.candle_close_time x.candle_close_time then some x else some c
]

abbrev pub latest_candle : String → Journal → Option ShadowCandle
latest_candle protocol_id j = latest_of_all (candles_of protocol_id j)

-- `func.max(received_at)` for each exchange.
unfoldable pub latest_by_exchange : List ShadowQuote → Dict String ℕ
latest_by_exchange [] = []
latest_by_exchange (q ∷ qs) =
    let rest = latest_by_exchange qs in
    elim (lookup q.exchange rest) [
      | none ↦ insert q.exchange q.received_at rest
      | some t ↦ if ltb t q.received_at then insert q.exchange q.received_at rest else rest
    ]

abbrev pub latest_quote_times : String → Journal → Dict String ℕ
latest_quote_times protocol_id j =
    latest_by_exchange (filter (λ q. q.protocol_id == protocol_id) j.quotes)

-- The rows of one protocol, by exchange.
unfoldable pub exchange_health : String → HealthRows → Dict String ExchangeHealth
exchange_health protocol_id [] = []
exchange_health protocol_id (((p, exchange), r) ∷ rows) =
    let rest = exchange_health protocol_id rows in
    if p == protocol_id then (exchange, r) ∷ rest else rest
