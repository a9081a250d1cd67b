-- ===== src/Protector/Moves/Keeps.antt =====
-- What holds of a protector after any moves: the laws that a property has to meet, one for each way in
-- which a move changes the protector.
use syn_antona.Prelude.{
  ℕ, ◌+◌, leb, ◌≡◌, refl, ◌∙◌, ap, String, Bool, true, false, not, Option, none, some, List, [],
  ◌∷◌, All, if◌then◌else◌, ◌&&◌, ◌||◌,
}
use syn_antona.Prelude.Keys.{text_key}
use syn_antona.Prelude.Dict.{Dict, lookup}
use syn_antona.Prelude.Errors.{Result, ok, err}
use syn_antona.Prelude.Actions.{◌>>=◌}
use syn_antona.Prelude.Actions.Preserve.{Preserves, Preserves-return, Preserves->>=}
use syn_antona.Decimal.{Decimal}
use syn_antona.Live.Records.{Database}
use syn_antona.Protector.Costs.{PositionSnapshot}
use syn_antona.Protector.Momentum.{ClosedBar}
use syn_antona.Protector.Store.{Store, reconcile_native_stop, mark_absent_closed}
use syn_antona.Protector.Ticker.{
  Tick, Protector, on_store, on_world, bars_of, on_position, on_ticker,
}
use syn_antona.Protector.Owners.{OpenPosition, Answers, Tracked, observed}
use syn_antona.Protector.Sync.{
  upsert, append_bar, is_same_bar, put_bars, load_bars, fill_bars, track, keep_position, keys,
  sync_from, sync, on_ticker_message, on_kline_message,
}
use syn_antona.Protector.Moves.{Move, after, after_all}

-- The rows of the protector, changed.
abbrev pub with_store : (Store → Store) → Protector → Protector
with_store f v = record v { world = record v.world { store = f v.world.store } }

-- `P` holds of the protector as long as `Q` holds of the positions that a sync reads, when `R` holds of
-- those that it has kept so far.
pub record Keeps (P : Protector → Type 0) (Q : PositionSnapshot → Type 0)
    (R : Dict String PositionSnapshot → Type 0) : Type 0 where
  pub started : R []
  pub kept :
      (t : Tracked) (current : Dict String PositionSnapshot)
      → Q t.position
      → R current
      → R (keep_position (some t) current)
  pub bars : (b : Dict String (List ClosedBar)) (v : Protector) → P v → P (record v { bars = b })
  pub quotes :
      (q : Dict String (Decimal × Decimal)) (v : Protector) → P v → P (record v { quotes = q })
  pub upserted :
      (t : Tracked) (now : ℕ) (v : Protector) → Q t.position → P v → P (with_store (upsert t now) v)
  pub reconciled :
      (t : Tracked) (now : ℕ) (v : Protector)
      → Q t.position
      → P v
      → P (
          with_store
            (reconcile_native_stop t.position.entry_client_order_id t.position.side t.confirmed_stop
              now)
            v)
  pub synced :
      (current : Dict String PositionSnapshot) (now : ℕ) (v : Protector)
      → R current
      → P v
      → P (with_store (mark_absent_closed (keys current) now) (record v { positions = current }))
  pub ticked :
      (p : PositionSnapshot) (t : Tick) (v : Protector)
      → lookup t.symbol v.positions ≡ some p
      → P v
      → P (record v { world = (on_position p (bars_of t.symbol v) t v.world).1 })

-- The positions that a sync reads satisfy `Q`.
abbrev pub ReadsOnly :
    (PositionSnapshot → Type 0) → Database → List (OpenPosition × Answers) → Type 0
ReadsOnly Q db raws =
    All (λ x. (t : Tracked) → observed db x.0 x.1 ≡ ok (some t) → Q t.position) raws

abbrev pub SyncsOnly : (PositionSnapshot → Type 0) → Move → Type 0
SyncsOnly Q (Move.synced db now (ok raws)) = ReadsOnly Q db raws
SyncsOnly Q _ = Unit

module _ (P : Protector → Type 0) (Q : PositionSnapshot → Type 0)
    (R : Dict String PositionSnapshot → Type 0) (law : Keeps P Q R) where
  fill_bars-kept :
      (symbol : String) (klines : Result (List ClosedBar)) → Preserves P (fill_bars symbol klines)
  unfolding load_bars
  fill_bars-kept symbol klines = record { holds = λ v g. split (bars_of symbol v) v g }
    where
      loaded :
          (rows : Result (List ClosedBar)) (v : Protector) → P v → P (load_bars symbol rows v).1
      loaded (err e) v g = g
      loaded (ok rows) v g = law.bars _ v g

      split :
          (bars : List ClosedBar) (v : Protector)
          → P v
          → P
              (elim bars as (λ _. Result (Unit {0}) × Protector) [
                | [] ↦ load_bars symbol klines v
                | b ∷ bs ↦ (ok tt, v)
              ]).1
      split [] v g = loaded klines v g
      split (b ∷ bs) v g = g

  track-kept :
      (found : Option Tracked) (answers : Answers) (now : ℕ)
      → ((t : Tracked) → found ≡ some t → Q t.position)
      → Preserves P (track found answers now)
  unfolding track
  track-kept none answers now own = Preserves-return tt
  track-kept (some t) answers now own =
      Preserves->>= (on_world (on_store (upsert t now))) _
        (record { holds = λ v g. law.upserted t now v (own t refl) g })
        (λ _.
          Preserves->>= (on_world (on_store _)) _
            (record { holds = λ v g. law.reconciled t now v (own t refl) g })
            (λ _. fill_bars-kept t.position.symbol answers.klines))

  keep_position-kept :
      (found : Option Tracked) (current : Dict String PositionSnapshot)
      → ((t : Tracked) → found ≡ some t → Q t.position)
      → R current
      → R (keep_position found current)
  keep_position-kept none current own kept = kept
  keep_position-kept (some t) current own kept = law.kept t current (own t refl) kept

  sync_from-kept :
      (db : Database) (now : ℕ) (raws : List (OpenPosition × Answers))
      (current : Dict String PositionSnapshot) (v : Protector)
      → ReadsOnly Q db raws
      → R current
      → P v
      → P (sync_from db now raws current v).1
  unfolding sync_from
  sync_from-kept db now [] current v reads kept g = law.synced current now v kept g
  sync_from-kept db now ((raw, answers) ∷ rest) current v (this, others) kept g =
      go (observed db raw answers) refl
        (λ current' v' kept' g'. sync_from-kept db now rest current' v' others kept' g')
    where
      go :
          (o : Result (Option Tracked))
          → observed db raw answers ≡ o
          → ((current' : Dict String PositionSnapshot) (v' : Protector)
              → R current'
              → P v'
              → P (sync_from db now rest current' v').1)
          → P
              (elim o as (λ _. Result (Unit {0}) × Protector) [
                | err e ↦ (err e, v)
                | ok found ↦
                    (track found answers now
                        >>= (λ _. sync_from db now rest (keep_position found current)))
                      v
              ]).1
      go (err e) read later = g
      go (ok found) read later =
          let own : (t : Tracked) → found ≡ some t → Q t.position =
            λ t e. this t (read ∙ ap (λ (o : Option Tracked). ok o) e) in
          (Preserves->>= (track found answers now)
              (λ _. sync_from db now rest (keep_position found current))
              (track-kept found answers now own)
              (λ _. record {
                holds = λ v' g'.
                    later (keep_position found current) v'
                      (keep_position-kept found current own kept) g';
              })).holds
            v g

  on_ticker-kept : (t : Tick) (v : Protector) → P v → P (on_ticker t v).1
  unfolding on_ticker
  on_ticker-kept t v g = go (lookup t.symbol v.positions) refl
    where
      go :
          (o : Option PositionSnapshot)
          → lookup t.symbol v.positions ≡ o
          → P
              (elim o as (λ _. Result (Unit {0}) × Protector) [
                | none ↦ (ok tt, v)
                | some p ↦ on_world (on_position p (bars_of t.symbol v) t) v
              ]).1
      go none e = g
      go (some p) e = law.ticked p t v e g

  on_ticker_message-kept :
      (message_ms now_ms : ℕ) (t : Tick) (v : Protector)
      → P v
      → P (on_ticker_message message_ms now_ms t v).1
  unfolding on_ticker_message
  on_ticker_message-kept message_ms now_ms t v g =
      split (leb message_ms 0 || leb now_ms (message_ms + 30_000)) _ _ (law.quotes _ v g)
    where
      split :
          (b : Bool) (t' : Tick) (v' : Protector)
          → P v'
          → P (if b then on_ticker t' v' else (ok tt, v')).1
      split true t' v' g' = on_ticker-kept t' v' g'
      split false t' v' g' = g'

  on_kline_message-kept :
      (symbol : String) (items : List (Bool × ClosedBar)) (v : Protector)
      → P v
      → P (on_kline_message symbol items v)
  unfolding on_kline_message
  on_kline_message-kept symbol [] v g = g
  on_kline_message-kept symbol ((confirm, bar) ∷ rest) v g =
      on_kline_message-kept symbol rest _
        (split (confirm && not (is_same_bar bar (bars_of symbol v))))
    where
      split :
          (b : Bool) → P (if b then put_bars symbol (append_bar bar (bars_of symbol v)) v else v)
      split true = law.bars _ v g
      split false = g

  after-kept : (v : Protector) (m : Move) → SyncsOnly Q m → P v → P (after v m)
  unfolding after sync
  after-kept v (Move.quoted message_ms now_ms t) reads g =
      on_ticker_message-kept message_ms now_ms t v g
  after-kept v (Move.bars_closed symbol items) reads g = on_kline_message-kept symbol items v g
  after-kept v (Move.synced db now (err e)) reads g = g
  after-kept v (Move.synced db now (ok raws)) reads g =
      sync_from-kept db now raws [] v reads law.started g

  pub after_all-kept :
      (ms : List Move) (v : Protector) → All (SyncsOnly Q) ms → P v → P (after_all v ms)
  unfolding after_all
  after_all-kept [] v reads g = g
  after_all-kept (m ∷ ms) v (first, rest) g =
      after_all-kept ms (after v m) rest (after-kept v m first g)
