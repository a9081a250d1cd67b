-- ===== src/Shadow/Engine.antt =====
-- `ProspectiveShadowEngine`: a snapshot of a symbol closes or keeps its position, and every candle
-- that has closed since is saved and decided upon. What the market, the strategy and the notifier
-- answer are inputs. The exchanges of a cycle run side by side; a symbol's rows are touched by its
-- own exchange only, and the order of the list stands for the order in which they end.
pub mod Steps
pub mod OneOpen
pub mod Summary
mod Tests
use syn_antona.Prelude.{
  ℕ, ltb, leb, ◌+◌, ◌/◌, ◌*◌, String, Bool, true, false, not, ◌&&◌, ◌||◌, Option, none, some, List,
  [], ◌∷◌, ◌++◌, length, if◌then◌else◌,
}
use syn_antona.Prelude.Errors.{Error, Result, ok, err}
use syn_antona.Prelude.Actions.{Action, ◌>>=◌, ◌>>◌, return, reading, raise, write}
use syn_antona.Decimal.{Decimal}
use syn_antona.Domain.{Side}
use syn_antona.Shadow.Records.{
  Candle, ShadowCandle, ShadowQuote, Decision, RiskStatus, DecisionContext, ShadowDecision, Closing,
  ShadowTrade,
}
use syn_antona.Shadow.Repository.{Journal, Texts, hour, save_quote, save_candle, last_candle_open}
use syn_antona.Shadow.Repository.Trades.{record_decision, open_trade, close_trade}
use syn_antona.Shadow.Orders.{StrategyAction, OrderOutcome, protocol, shadow_order}
use syn_antona.Shadow.Exits.{exit_side, exit_reason, closing_of}
use syn_antona.Shadow.Market.{
  LiveMarketSnapshot, midpoint, snapshot_spread, snapshot_spread_pct, spot_profile,
}

-- A closed candle of the market's answer, the strategy's answer for it, the clock of the database when
-- its decision is written, and the notifier's answer.
pub record Fetched : Type 0 where
  pub candle : Candle
  pub action : Result (Option StrategyAction)
  pub written_at : ℕ
  pub notice : Result (Unit {0})

-- What the outside answers while a symbol is processed: which one, and the clock of the database when a
-- close is written.
pub record Replies : Type 0 where
  pub exchange : String
  pub symbol : String
  pub snapshot : Result LiveMarketSnapshot
  pub closed_at : ℕ
  pub close_notice : Result (Unit {0})
  pub candles : Result (List Fetched)

pub record CycleError : Type 0 where
  pub exchange : String
  pub symbol : String
  pub error : Error

abbrev pub floor_hour : ℕ → ℕ
floor_hour t = t / hour * hour

unfoldable pub quote_row : LiveMarketSnapshot → Result ShadowQuote
quote_row s = elim (snapshot_spread_pct s) [
  | err e ↦ err e
  | ok spread_pct ↦ ok (record {
    protocol_id = protocol;
    exchange = s.exchange;
    symbol = s.symbol;
    bid = s.bid;
    ask = s.ask;
    last = s.last;
    spread = snapshot_spread s;
    spread_pct = spread_pct;
    bids = s.bids;
    asks = s.asks;
    exchange_timestamp = s.exchange_timestamp;
    received_at = s.received_at;
  })
]

abbrev pub decision_of :
    Texts
    → String
    → LiveMarketSnapshot
    → Fetched
    → Option StrategyAction
    → RiskStatus
    → String
    → ShadowDecision
decision_of texts strategy_hash s f action risk_status risk_reason = record {
  id = texts.decision_id protocol s.exchange s.symbol f.candle.timestamp;
  protocol_id = protocol;
  exchange = s.exchange;
  symbol = s.symbol;
  candle_open_time = f.candle.timestamp;
  signal_timestamp = f.candle.timestamp + hour;
  decision = elim action [ none ↦ Decision.wait | some a ↦ Decision.signal a.side ];
  signal_score = elim action [ none ↦ 0 | some a ↦ a.signal_score ];
  decision_price = f.candle.close;
  observed_bid = some s.bid;
  observed_ask = some s.ask;
  observed_spread = some (snapshot_spread s);
  risk_status = risk_status;
  risk_reason = risk_reason;
  strategy_hash = strategy_hash;
  context = elim action [
    | none ↦ DecisionContext.waiting
    | some a ↦ DecisionContext.of_action a.context_json
  ];
}

module _ (texts : Texts) (strategy_hash : String) (locked_at : ℕ) where
  -- What `_decide` records, once `_shadow_order` has answered.
  unfoldable pub record_outcome :
      LiveMarketSnapshot → Fetched → StrategyAction → OrderOutcome → Action Journal (Unit {0})
  record_outcome s f a (OrderOutcome.refused reason) =
      record_decision texts (decision_of texts strategy_hash s f (some a) RiskStatus.reject reason)
        none f.written_at
  record_outcome s f a (OrderOutcome.ordered t) =
      record_decision texts
        (decision_of texts strategy_hash s f (some a) RiskStatus.allow
          "Approved by deterministic Risk Manager")
        (some t) f.written_at
      >> reading (λ j. f.notice)

  unfoldable pub decide_action :
      LiveMarketSnapshot → Fetched → Option StrategyAction → Action Journal (Unit {0})
  decide_action s f none =
      record_decision texts
        (decision_of texts strategy_hash s f none RiskStatus.not_applicable "No frozen signal") none
        f.written_at
  decide_action s f (some a) =
      reading (
        shadow_order s a (texts.decision_id protocol s.exchange s.symbol f.candle.timestamp)
          strategy_hash f.candle)
      >>= record_outcome s f a

  -- `_decide`. The strategy is given the profile of the exchange, which may be missing.
  unfoldable pub decide : LiveMarketSnapshot → Fetched → Action Journal (Unit {0})
  decide s f = do
    p ← reading (λ j. spot_profile s.exchange)
    action ← reading (λ j. f.action)
    decide_action s f action

  abbrev pub candle_row : LiveMarketSnapshot → Candle → ShadowCandle
  candle_row s c = record {
    protocol_id = protocol;
    exchange = s.exchange;
    symbol = s.symbol;
    candle = c;
    candle_close_time = c.timestamp + hour;
    exchange_timestamp = s.exchange_timestamp;
    received_at = s.received_at;
    data_hash = texts.candle_hash s.exchange s.symbol c;
    recovered_after_downtime = false;
    recovery_recorded_at = none;
  }

  -- A candle that closed after the lock, and not after the snapshot.
  abbrev pub is_due : LiveMarketSnapshot → Candle → Bool
  is_due s c =
      not (leb (c.timestamp + hour) locked_at || ltb s.exchange_timestamp (c.timestamp + hour))

  unfoldable pub process_candle : LiveMarketSnapshot → Fetched → Action Journal (Unit {0})
  process_candle s f j =
      if is_due s f.candle && (save_candle (candle_row s f.candle) j).0
      then decide s f (save_candle (candle_row s f.candle) j).1
      else (ok tt, j)

  unfoldable pub process_all : LiveMarketSnapshot → List Fetched → Action Journal (Unit {0})
  process_all s [] = return tt
  process_all s (f ∷ fs) = process_candle s f >> process_all s fs

  -- The hour from which candles are wanted.
  abbrev pub start_hour : LiveMarketSnapshot → Journal → ℕ
  start_hour s j = elim (last_candle_open protocol s.exchange s.symbol j) [
    | none ↦ floor_hour locked_at
    | some last ↦ last + hour
  ]

  -- `_process_candles`
  unfoldable pub process_answer :
      LiveMarketSnapshot → Result (List Fetched) → Action Journal (Unit {0})
  process_answer s (err e) = raise e
  process_answer s (ok fs) = process_all s fs

  unfoldable pub process_candles :
      LiveMarketSnapshot → Result (List Fetched) → Action Journal (Unit {0})
  process_candles s answer j =
      if leb (floor_hour s.exchange_timestamp) (start_hour s j)
      then (ok tt, j)
      else process_answer s answer j

  -- The position is closed when the price has reached its stop or its target.
  unfoldable pub close_for :
      LiveMarketSnapshot
      → ℕ
      → Result (Unit {0})
      → ShadowTrade
      → Option String
      → Action Journal (Unit {0})
  close_for s written_at notice t none = return tt
  close_for s written_at notice t (some reason) = do
    p ← reading (λ j. spot_profile s.exchange)
    mid ← reading (λ j. midpoint s)
    close_trade texts t.id (closing_of s t reason p mid) written_at
    reading (λ j. notice)

  unfoldable pub track_open :
      LiveMarketSnapshot → ℕ → Result (Unit {0}) → Option ShadowTrade → Action Journal (Unit {0})
  track_open s written_at notice none = return tt
  track_open s written_at notice (some t) =
      close_for s written_at notice t (exit_reason t (exit_side s t.side))

  -- `_track_position`
  abbrev pub track_position : LiveMarketSnapshot → ℕ → Result (Unit {0}) → Action Journal (Unit {0})
  track_position s written_at notice j =
      track_open s written_at notice (open_trade protocol s.exchange s.symbol j) j

  -- The body of the loop of `cycle`.
  unfoldable pub process_symbol : Replies → Action Journal (Unit {0})
  process_symbol replies = do
    s ← reading (λ j. replies.snapshot)
    q ← reading (λ j. quote_row s)
    write (save_quote q)
    track_position s replies.closed_at replies.close_notice
    process_candles s replies.candles

  -- The loops of `cycle` note the symbols whose processing raised, and go on with the next.
  unfoldable pub process_exchanges : List Replies → Journal → List CycleError × Journal
  process_exchanges [] j = ([], j)
  process_exchanges (r ∷ rs) j =
      let (result, j') = process_symbol r j in
      let (errors, j'') = process_exchanges rs j' in
      (
        elim result [
          | ok _ ↦ errors
          | err e ↦ record { exchange = r.exchange; symbol = r.symbol; error = e } ∷ errors
        ],
        j'',
      )
