-- ===== src/Shadow/Engine/Steps.antt =====
-- What the engine does to the trades: any run of it is a sequence of trades that are opened and
-- closed.
pub mod Cycle
use mathlib.Core.Path.{subst}
use syn_antona.Prelude.{
  ℕ, leb, String, Bool, true, false, ◌&&◌, ◌||◌, Option, none, some, List, [], ◌∷◌, ◌++◌, any, ◌≡◌,
  refl, sym, arith, if◌then◌else◌, inl, inr, Bool-cases,
}
use syn_antona.Prelude.Keys.{text_key, ◌==◌}
use syn_antona.Prelude.Tables.{find, update_first}
use syn_antona.Prelude.Errors.{Result, ok, err, >>=-ok}
use syn_antona.Prelude.Actions.{◌>>=◌, reading, write}
use syn_antona.Prelude.Actions.Preserve.{
  Preserves, Preserves->>=, Preserves-reading, Preserves-return, Preserves-write,
}
use syn_antona.Decimal.{Decimal}
use syn_antona.Domain.{default_profile}
use syn_antona.Risk.Manager.{approve}
use syn_antona.Shadow.Records.{
  Candle, Closing, ShadowTrade, ShadowCandle, ShadowDecision, RiskStatus,
}
use syn_antona.Shadow.Repository.{
  Journal, Texts, save_quote, save_candle, add_decision, trade_conflicts, conflicts,
}
use syn_antona.Shadow.Repository.Trades.{
  record_decision, close_trade, open_trade, is_open, is_open_in, closed_by,
}
use syn_antona.Shadow.Orders.{
  StrategyAction, OrderOutcome, protocol, shadow_order, price_order, size_order, intent_of,
  entry_price, selected, trade_of,
}
use syn_antona.Shadow.Exits.{exit_reason, exit_side, closing_of}
use syn_antona.Shadow.Market.{
  LiveMarketSnapshot, snapshot_spread_pct, midpoint, spot_profile, CostProfile,
}
use syn_antona.Shadow.Engine.{
  Fetched, Replies, quote_row, decision_of, record_outcome, decide_action, decide, floor_hour,
  start_hour, process_answer, close_for, candle_row, is_due, process_candle, process_all,
  process_candles, track_open, track_position, process_symbol, process_exchanges,
}

-- One trade that is opened or closed.
pub data Move (ts ts' : List ShadowTrade) : Type 0 where
  opened :
      (t : ShadowTrade)
      → any (trade_conflicts t) ts ≡ false
      → any (is_open_in t.protocol_id t.exchange t.symbol) ts ≡ false
      → is_open t ≡ true
      → ts' ≡ ts ++ t ∷ []
      → Move ts ts'
  closed :
      (id : String) (t : ShadowTrade) (values : Closing)
      → find (λ x. x.id == id) ts ≡ some t
      → is_open t ≡ true
      → ts' ≡ update_first (λ x. x.id == id) (closed_by values) ts
      → Move ts ts'

pub data Moves (ts : List ShadowTrade) : List ShadowTrade → Type 0 where
  none_made : Moves ts ts
  and_then : {us vs : List ShadowTrade} → Moves ts us → Move us vs → Moves ts vs

-- The trades of the journal can be reached from the given ones.
abbrev pub Reached : List ShadowTrade → Journal → Type 0
Reached ts j = Moves ts j.trades

unmoved : {ts us vs : List ShadowTrade} → Moves ts us → vs ≡ us → Moves ts vs
unmoved {ts} h same = subst (Moves ts) (sym same) h

find-none :
    (test : ShadowTrade → Bool) (ts : List ShadowTrade) → find test ts ≡ none → any test ts ≡ false
find-none test [] h = refl
find-none test (t ∷ ts) h = let rest = find-none test ts in ground (arith, rest)

module _ (ts : List ShadowTrade) where
  add_decision-Reached : (d : ShadowDecision) → Preserves (Reached ts) (add_decision d)
  unfolding add_decision
  add_decision-Reached d = record { holds = λ j h. unmoved h (ground arith) }

  record_decision-Reached :
      (texts : Texts) (d : ShadowDecision) (now : ℕ)
      → Preserves (Reached ts) (record_decision texts d none now)
  unfolding record_decision
  record_decision-Reached texts d now = add_decision-Reached d

  -- A trade is recorded only when it conflicts with none.
  record_trade-Reached :
      (texts : Texts) (d : ShadowDecision) (t : ShadowTrade) (now : ℕ) (j : Journal)
      → any (is_open_in t.protocol_id t.exchange t.symbol) j.trades ≡ false
      → is_open t ≡ true
      → Reached ts j
      → Reached ts (record_decision texts d (some t) now j).1
  unfolding record_decision
  record_trade-Reached texts d t now j free opens h =
      elim (Bool-cases (any (conflicts d) j.decisions || any (trade_conflicts t) j.trades)) [
        | inl e ↦ unmoved h (ground (arith, e))
        | inr e ↦
            Moves.and_then h (Move.opened t (ground (arith, e)) free opens (ground (arith, e)))
      ]

  close_trade-Reached :
      (texts : Texts) (id : String) (values : Closing) (now : ℕ)
      → Preserves (Reached ts) (close_trade texts id values now)
  unfolding close_trade
  close_trade-Reached texts id values now = record {
    holds = λ j h. go j (find (λ t. t.id == id) j.trades) refl h;
  }
    where
      go :
          (j : Journal) (found : Option ShadowTrade)
          → find (λ t. t.id == id) j.trades ≡ found
          → Reached ts j
          → Reached ts (close_trade texts id values now j).1
      go j none e h = unmoved h (ground (arith, e))
      go j (some t) e h = elim (Bool-cases (is_open t)) [
        | inl o ↦ Moves.and_then h (Move.closed id t values e o (ground (arith, e, o)))
        | inr o ↦ unmoved h (ground (arith, e, o))
      ]

  save_candle_same : (c : ShadowCandle) (j : Journal) → (save_candle c j).1.trades ≡ j.trades
  unfolding save_candle
  save_candle_same c j = ground arith

-- The trade that `_shadow_order` answers is open, and of the snapshot's symbol.
abbrev IsOrderFor : LiveMarketSnapshot → ShadowTrade → Type 0
IsOrderFor s t =
    (t.protocol_id ≡ protocol)
    × (t.exchange ≡ s.exchange)
    × (t.symbol ≡ s.symbol)
    × (is_open t ≡ true)

module _ (s : LiveMarketSnapshot) (a : StrategyAction) (id hash : String) (c : Candle)
    (t : ShadowTrade) where
  size_order-IsOrderFor :
      (p : CostProfile) (entry q : Decimal)
      → size_order s a id hash c p entry q ≡ ok (OrderOutcome.ordered t)
      → IsOrderFor s t
  unfolding size_order trade_of
  size_order-IsOrderFor p entry q h = ground arith

  price_order-IsOrderFor :
      (j : Journal) → price_order s a id hash c j ≡ ok (OrderOutcome.ordered t) → IsOrderFor s t
  unfolding price_order
  price_order-IsOrderFor j h =
      let (p, _, h1) = >>=-ok (spot_profile s.exchange) _ h in
      let (x, _, h2) = >>=-ok (snapshot_spread_pct s) _ h1 in
      let (d, _, h3) =
        >>=-ok
          (approve (intent_of s a id (entry_price s a.side p) x (selected s j)) default_profile) _
          h2 in
      size_order-IsOrderFor p (entry_price s a.side p) d.quantity (ground (arith, h3))

  -- There is an order only where there is no open position.
  shadow_order-free :
      (j : Journal)
      → shadow_order s a id hash c j ≡ ok (OrderOutcome.ordered t)
      → (any (is_open_in t.protocol_id t.exchange t.symbol) j.trades ≡ false) × (is_open t ≡ true)
  unfolding shadow_order open_trade
  shadow_order-free j h = go (find (is_open_in protocol s.exchange s.symbol) j.trades) refl
    where
      go :
          (found : Option ShadowTrade)
          → find (is_open_in protocol s.exchange s.symbol) j.trades ≡ found
          → (any (is_open_in t.protocol_id t.exchange t.symbol) j.trades ≡ false)
            × (is_open t ≡ true)
      go (some x) e = ground (arith, h, e)
      go none e =
          let (p, x, y, o) = price_order-IsOrderFor j (ground (arith, h, e)) in
          let free = find-none (is_open_in protocol s.exchange s.symbol) j.trades e in
          (rw (p, x, y) free, o)
