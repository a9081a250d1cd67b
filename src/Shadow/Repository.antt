-- ===== src/Shadow/Repository.antt =====
-- The candles, quotes, decisions and trades of `ShadowRepository`. A method is one transaction: one
-- that raises writes nothing.
pub mod Trades
pub mod Rules
use Prim.Native.String.{◌++◌ as ◌+s◌}
use syn_antona.Prelude.{
  ℕ, suc, ltb, leb, length, any, String, Bool, true, false, not, ◌&&◌, ◌||◌, ◌+◌, Option, none,
  some, List, [], ◌∷◌, ◌++◌, filter, if◌then◌else◌,
}
use syn_antona.Prelude.Keys.{Key, text_key, ◌==◌}
use syn_antona.Prelude.Tables.{find, update_first, sort_by}
use syn_antona.Prelude.Errors.{Error, Result, ok, err}
use syn_antona.Prelude.Actions.{Action}
use syn_antona.Decimal.{Decimal}
use syn_antona.Domain.{Side}
use syn_antona.Shadow.Records.{
  Candle, ShadowCandle, ShadowQuote, Decision, RiskStatus, DecisionContext, ShadowDecision,
  TradeStatus, Closing, ShadowTrade, SystemEvent,
}
use syn_antona.Shadow.Watch.{Events, same_id, new_event}

pub record Journal : Type 0 where
  pub quotes : List ShadowQuote
  pub candles : List ShadowCandle
  pub decisions : List ShadowDecision
  pub trades : List ShadowTrade
  pub events : Events

-- What is serialised or hashed: SHA-256 over protocol, exchange, symbol and time, and JSON texts.
pub record Texts : Type 0 where
  pub decision_id : String → String → String → ℕ → String
  pub candle_hash : String → String → Candle → String
  pub opened_json : ShadowTrade → String
  pub closed_json : ShadowTrade → Closing → String

abbrev pub hour : ℕ
hour = 3_600_000_000

-- A candle of the protocol, the exchange and the symbol.
abbrev pub is_series : String → String → String → ShadowCandle → Bool
is_series protocol_id exchange symbol c =
    (c.protocol_id == protocol_id) && (c.exchange == exchange) && (c.symbol == symbol)

abbrev pub is_candle : String → String → String → ℕ → ShadowCandle → Bool
is_candle protocol_id exchange symbol open_time c =
    is_series protocol_id exchange symbol c && same_id c.candle.timestamp open_time

unfoldable pub save_quote : ShadowQuote → Journal → Journal
save_quote q j = record j { quotes = j.quotes ++ q ∷ [] }

abbrev pub has_candle : String → String → String → ℕ → Journal → Bool
has_candle protocol_id exchange symbol open_time j =
    any (is_candle protocol_id exchange symbol open_time) j.candles

-- Whether the candle is new.
unfoldable pub save_candle : ShadowCandle → Journal → Bool × Journal
save_candle c j =
    if has_candle c.protocol_id c.exchange c.symbol c.candle.timestamp j
    then (false, j)
    else (true, record j { candles = j.candles ++ c ∷ [] })

-- A decision for the candle: the unique constraint of the decisions.
abbrev pub is_decision : String → String → String → ℕ → ShadowDecision → Bool
is_decision protocol_id exchange symbol open_time d =
    (d.protocol_id == protocol_id)
    && (d.exchange == exchange)
    && (d.symbol == symbol)
    && same_id d.candle_open_time open_time

abbrev pub conflicts : ShadowDecision → ShadowDecision → Bool
conflicts d x = (x.id == d.id) || is_decision d.protocol_id d.exchange d.symbol d.candle_open_time x

abbrev pub trade_conflicts : ShadowTrade → ShadowTrade → Bool
trade_conflicts t x = (x.id == t.id) || (x.decision_id == t.decision_id)

-- `session.add` and the commit, which the primary key and the unique constraint can refuse.
unfoldable pub add_decision : ShadowDecision → Action Journal (Unit {0})
add_decision d j =
    if any (conflicts d) j.decisions
    then (err Error.integrity_error, j)
    else (ok tt, record j { decisions = j.decisions ++ d ∷ [] })

unfoldable pub recovered_candle : String → String → String → Candle → String → ℕ → ShadowCandle
recovered_candle protocol_id exchange symbol candle data_hash recovery_time = record {
  protocol_id = protocol_id;
  exchange = exchange;
  symbol = symbol;
  candle = candle;
  candle_close_time = candle.timestamp + hour;
  exchange_timestamp = candle.timestamp + hour;
  received_at = recovery_time;
  data_hash = data_hash;
  recovered_after_downtime = true;
  recovery_recorded_at = some recovery_time;
}

-- A decision to wait, with the quote that was observed, if any.
abbrev pub wait_decision :
    Texts → ShadowCandle → Option ShadowQuote → DecisionContext → String → String → ShadowDecision
wait_decision texts c quote context reason strategy_hash = record {
  id = texts.decision_id c.protocol_id c.exchange c.symbol c.candle.timestamp;
  protocol_id = c.protocol_id;
  exchange = c.exchange;
  symbol = c.symbol;
  candle_open_time = c.candle.timestamp;
  signal_timestamp = c.candle_close_time;
  decision = Decision.wait;
  signal_score = 0;
  decision_price = c.candle.close;
  observed_bid = elim quote [ none ↦ none | some q ↦ some q.bid ];
  observed_ask = elim quote [ none ↦ none | some q ↦ some q.ask ];
  observed_spread = elim quote [ none ↦ none | some q ↦ some q.spread ];
  risk_status = RiskStatus.not_applicable;
  risk_reason = reason;
  strategy_hash = strategy_hash;
  context = context;
}

-- `repaired += 1`
abbrev pub counted : Result ℕ × Journal → Result ℕ × Journal
counted (ok n, j) = (ok (suc n), j)
counted (err e, j) = (err e, j)

abbrev pub all_or_nothing : {A : Type 0} → Journal → Result A × Journal → Result A × Journal
all_or_nothing before (ok a, j) = (ok a, j)
all_or_nothing before (err e, j) = (err e, before)

abbrev pub recovered_reason : String
recovered_reason =
    "RECOVERED_AFTER_DOWNTIME=true; live bid/ask unavailable; shadow signal suppressed"

-- The candle and the decision to wait, both or neither.
unfoldable pub record_recovered_candle :
    Texts → String → String → String → Candle → String → String → ℕ → Action Journal Bool
record_recovered_candle texts protocol_id exchange symbol candle data_hash strategy_hash
      recovery_time j =
    let c : ShadowCandle =
      recovered_candle protocol_id exchange symbol candle data_hash recovery_time in
    let d : ShadowDecision =
      wait_decision texts c none DecisionContext.recovered_after_downtime recovered_reason
        strategy_hash in
    if has_candle protocol_id exchange symbol candle.timestamp j
    then (ok false, j)
    else if any (conflicts d) j.decisions
    then (err Error.integrity_error, j)
    else (ok true, record j { candles = j.candles ++ c ∷ []; decisions = j.decisions ++ d ∷ [] })

abbrev pub interrupted_reason : String
interrupted_reason =
    "PROCESS_INTERRUPTED_AFTER_CANDLE=true; retroactive shadow execution prohibited"

abbrev pub interrupted_decision :
    Texts → ShadowCandle → Option ShadowQuote → String → ShadowDecision
interrupted_decision texts c quote strategy_hash =
    wait_decision texts c quote
      (DecisionContext.process_interrupted (elim quote [ none ↦ false | some _ ↦ true ]))
      interrupted_reason strategy_hash

-- The candles of the protocol for which there is no decision.
unfoldable pub orphans : String → Journal → List ShadowCandle
orphans protocol_id j =
    filter
      (λ c.
        (c.protocol_id == protocol_id)
        && not (any (is_decision c.protocol_id c.exchange c.symbol c.candle.timestamp) j.decisions))
      j.candles

-- The quote that was received with the candle.
abbrev pub quote_of : String → ShadowCandle → Journal → Option ShadowQuote
quote_of protocol_id c j =
    find
      (λ q.
        (q.protocol_id == protocol_id)
        && (q.exchange == c.exchange)
        && (q.symbol == c.symbol)
        && same_id q.received_at c.received_at)
      j.quotes

-- The decisions to wait, and how many there were.
unfoldable pub repair_all : Texts → String → String → List ShadowCandle → Action Journal ℕ
repair_all texts protocol_id strategy_hash [] j = (ok 0, j)
repair_all texts protocol_id strategy_hash (c ∷ cs) j =
    let d : ShadowDecision =
      interrupted_decision texts c (quote_of protocol_id c j) strategy_hash in
    let (added, j') = add_decision d j in
    elim added [
      | err e ↦ (err e, j')
      | ok _ ↦ counted (repair_all texts protocol_id strategy_hash cs j')
    ]

-- One transaction: when a decision is refused, none is written.
unfoldable pub repair_orphan_decisions : Texts → String → String → Action Journal ℕ
repair_orphan_decisions texts protocol_id strategy_hash j =
    all_or_nothing j (repair_all texts protocol_id strategy_hash (orphans protocol_id j) j)

-- `func.max(candle_open_time)`
unfoldable pub latest_of : List ShadowCandle → Option ℕ
latest_of [] = none
latest_of (c ∷ cs) = elim (latest_of cs) [
  | none ↦ some c.candle.timestamp
  | some t ↦ if ltb t c.candle.timestamp then some c.candle.timestamp else some t
]

unfoldable pub last_candle_open : String → String → String → Journal → Option ℕ
last_candle_open protocol_id exchange symbol j =
    latest_of (filter (is_series protocol_id exchange symbol) j.candles)
