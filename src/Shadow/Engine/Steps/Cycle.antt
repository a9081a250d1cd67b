-- ===== src/Shadow/Engine/Steps/Cycle.antt =====
-- A cycle opens and closes trades, one after the other.
use syn_antona.Prelude.{
  ℕ, leb, String, Bool, true, false, ◌&&◌, Option, none, some, List, [], ◌∷◌, ◌≡◌, refl,
  if◌then◌else◌,
}
use syn_antona.Prelude.Keys.{text_key}
use syn_antona.Prelude.Errors.{Result, ok, err}
use syn_antona.Prelude.Actions.{◌>>=◌, reading, write}
use syn_antona.Prelude.Actions.Preserve.{
  Preserves, Preserves->>=, Preserves-reading, Preserves-return, Preserves-write,
}
use syn_antona.Shadow.Records.{ShadowTrade, ShadowDecision, RiskStatus}
use syn_antona.Shadow.Repository.{Journal, Texts, save_quote, save_candle}
use syn_antona.Shadow.Repository.Trades.{record_decision, close_trade, open_trade}
use syn_antona.Shadow.Orders.{StrategyAction, OrderOutcome, protocol, shadow_order}
use syn_antona.Shadow.Exits.{exit_reason, exit_side, closing_of}
use syn_antona.Shadow.Market.{LiveMarketSnapshot, midpoint, spot_profile}
use syn_antona.Shadow.Engine.{
  Fetched, Replies, quote_row, decision_of, record_outcome, decide_action, decide, floor_hour,
  start_hour, process_answer, close_for, candle_row, is_due, process_candle, process_all,
  process_candles, track_open, track_position, process_symbol, process_exchanges,
}
use syn_antona.Shadow.Engine.Steps.{
  unmoved, save_candle_same, record_decision-Reached, record_trade-Reached, close_trade-Reached,
  shadow_order-free, Reached,
}

module _ (ts : List ShadowTrade) (texts : Texts) (strategy_hash : String) (locked_at : ℕ) where
  then_reads :
      (r notice : Result (Unit {0})) (j : Journal)
      → Reached ts j
      → Reached ts
          (elim r as (λ _. Result (Unit {0}) × Journal) [
            | err e ↦ (err e, j)
            | ok _ ↦ (notice, j)
          ]).1
  then_reads (ok _) notice j h = h
  then_reads (err e) notice j h = h

  if_Reached :
      (b : Bool) (x y : Result (Unit {0}) × Journal)
      → Reached ts x.1
      → Reached ts y.1
      → Reached ts (if b then x else y).1
  if_Reached true x y g h = g
  if_Reached false x y g h = h

  -- What `_shadow_order` answered on the journal is recorded in it.
  outcome-Reached :
      (s : LiveMarketSnapshot) (f : Fetched) (a : StrategyAction) (id : String) (j : Journal)
      (r : Result OrderOutcome)
      → shadow_order s a id strategy_hash f.candle j ≡ r
      → Reached ts j
      → Reached ts ((reading (λ x. r) >>= record_outcome texts strategy_hash locked_at s f a) j).1
  unfolding record_outcome
  outcome-Reached s f a id j (err x) e h = h
  outcome-Reached s f a id j (ok (OrderOutcome.refused why)) e h =
      (record_decision-Reached ts texts
          (decision_of texts strategy_hash s f (some a) RiskStatus.reject why) f.written_at).holds
        j h
  outcome-Reached s f a id j (ok (OrderOutcome.ordered t)) e h =
      let (free, opens) = shadow_order-free s a id strategy_hash f.candle t j e in
      let d : ShadowDecision =
        decision_of texts strategy_hash s f (some a) RiskStatus.allow
          "Approved by deterministic Risk Manager" in
      then_reads (record_decision texts d (some t) f.written_at j).0 f.notice
        (record_decision texts d (some t) f.written_at j).1
        (record_trade-Reached ts texts d t f.written_at j free opens h)

  decide_action-Reached :
      (s : LiveMarketSnapshot) (f : Fetched) (act : Option StrategyAction)
      → Preserves (Reached ts) (decide_action texts strategy_hash locked_at s f act)
  unfolding decide_action
  decide_action-Reached s f none =
      record_decision-Reached ts texts
        (decision_of texts strategy_hash s f none RiskStatus.not_applicable "No frozen signal")
        f.written_at
  decide_action-Reached s f (some a) =
      let id : String = texts.decision_id protocol s.exchange s.symbol f.candle.timestamp in
      record {
        holds =
            λ j h. outcome-Reached s f a id j (shadow_order s a id strategy_hash f.candle j) refl h;
      }

  decide-Reached :
      (s : LiveMarketSnapshot) (f : Fetched)
      → Preserves (Reached ts) (decide texts strategy_hash locked_at s f)
  unfolding decide
  decide-Reached s f =
      Preserves->>= (reading (λ j. spot_profile s.exchange)) _
        (Preserves-reading (λ j. spot_profile s.exchange))
        (λ p.
          Preserves->>= (reading (λ j. f.action)) _ (Preserves-reading (λ j. f.action))
            (decide_action-Reached s f))

  process_candle-Reached :
      (s : LiveMarketSnapshot) (f : Fetched)
      → Preserves (Reached ts) (process_candle texts strategy_hash locked_at s f)
  unfolding process_candle
  process_candle-Reached s f = record {
    holds = λ j h.
        let row = candle_row texts strategy_hash locked_at s f.candle in
        if_Reached (is_due texts strategy_hash locked_at s f.candle && (save_candle row j).0)
          (decide texts strategy_hash locked_at s f (save_candle row j).1) (ok tt, j)
          ((decide-Reached s f).holds (save_candle row j).1 (unmoved h (save_candle_same ts row j)))
          h;
  }

  process_all-Reached :
      (s : LiveMarketSnapshot) (fs : List Fetched)
      → Preserves (Reached ts) (process_all texts strategy_hash locked_at s fs)
  unfolding process_all
  process_all-Reached s [] = Preserves-return tt
  process_all-Reached s (f ∷ fs) =
      Preserves->>= (process_candle texts strategy_hash locked_at s f)
        (λ _. process_all texts strategy_hash locked_at s fs) (process_candle-Reached s f)
        (λ _. process_all-Reached s fs)

  process_answer-Reached :
      (s : LiveMarketSnapshot) (answer : Result (List Fetched))
      → Preserves (Reached ts) (process_answer texts strategy_hash locked_at s answer)
  unfolding process_answer
  process_answer-Reached s (err e) = record { holds = λ j h. h }
  process_answer-Reached s (ok fs) = process_all-Reached s fs

  process_candles-Reached :
      (s : LiveMarketSnapshot) (answer : Result (List Fetched))
      → Preserves (Reached ts) (process_candles texts strategy_hash locked_at s answer)
  unfolding process_candles
  process_candles-Reached s answer = record {
    holds = λ j h.
        if_Reached
          (leb (floor_hour s.exchange_timestamp) (start_hour texts strategy_hash locked_at s j))
          (ok tt, j) (process_answer texts strategy_hash locked_at s answer j) h
          ((process_answer-Reached s answer).holds j h);
  }

  close_for-Reached :
      (s : LiveMarketSnapshot) (written_at : ℕ) (notice : Result (Unit {0})) (t : ShadowTrade)
      (reason : Option String)
      → Preserves
          (Reached ts)
          (close_for texts strategy_hash locked_at s written_at notice t reason)
  unfolding close_for
  close_for-Reached s written_at notice t none = Preserves-return tt
  close_for-Reached s written_at notice t (some reason) =
      Preserves->>= (reading (λ j. spot_profile s.exchange)) _
        (Preserves-reading (λ j. spot_profile s.exchange))
        (λ p.
          Preserves->>= (reading (λ j. midpoint s)) _ (Preserves-reading (λ j. midpoint s)) (λ mid.
            Preserves->>= (close_trade texts t.id (closing_of s t reason p mid) written_at) _
              (close_trade-Reached ts texts t.id (closing_of s t reason p mid) written_at)
              (λ _. Preserves-reading (λ j. notice))))

  track_open-Reached :
      (s : LiveMarketSnapshot) (written_at : ℕ) (notice : Result (Unit {0}))
      (found : Option ShadowTrade)
      → Preserves (Reached ts) (track_open texts strategy_hash locked_at s written_at notice found)
  unfolding track_open
  track_open-Reached s written_at notice none = Preserves-return tt
  track_open-Reached s written_at notice (some t) =
      close_for-Reached s written_at notice t (exit_reason t (exit_side s t.side))

  process_symbol-Reached :
      (replies : Replies)
      → Preserves (Reached ts) (process_symbol texts strategy_hash locked_at replies)
  unfolding process_symbol save_quote
  process_symbol-Reached replies =
      Preserves->>= (reading (λ j. replies.snapshot)) _ (Preserves-reading (λ j. replies.snapshot))
        (λ s.
          Preserves->>= (reading (λ j. quote_row s)) _ (Preserves-reading (λ j. quote_row s)) (λ q.
            Preserves->>= (write (save_quote q)) _ (Preserves-write (save_quote q) (λ j h. h)) (λ _.
              Preserves->>=
                (track_position texts strategy_hash locked_at s replies.closed_at
                  replies.close_notice)
                _
                (record {
                  holds = λ j h.
                      (track_open-Reached s replies.closed_at replies.close_notice
                          (open_trade protocol s.exchange s.symbol j)).holds
                        j h;
                })
                (λ _. process_candles-Reached s replies.candles))))

  pub process_exchanges-Reached :
      (rs : List Replies) (j : Journal)
      → Reached ts j
      → Reached ts (process_exchanges texts strategy_hash locked_at rs j).1
  unfolding process_exchanges
  process_exchanges-Reached [] j h = h
  process_exchanges-Reached (r ∷ rs) j h =
      process_exchanges-Reached rs (process_symbol texts strategy_hash locked_at r j).1
        ((process_symbol-Reached r).holds j h)
