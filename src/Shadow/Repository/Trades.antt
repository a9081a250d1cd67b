-- ===== src/Shadow/Repository/Trades.antt =====
-- The trades of `ShadowRepository`, and the decisions that opened them.
use Prim.Native.String.{◌++◌ as ◌+s◌}
use syn_antona.Prelude.{
  ℕ, length, any, String, Bool, true, false, not, ◌&&◌, ◌||◌, Option, none, some, List, [], ◌∷◌,
  ◌++◌, filter, if◌then◌else◌,
}
use syn_antona.Prelude.Keys.{text_key, ◌==◌}
use syn_antona.Prelude.Tables.{find, update_first, sort_by}
use syn_antona.Prelude.Errors.{Error, ok, err}
use syn_antona.Prelude.Actions.{Action}
use syn_antona.Shadow.Records.{
  Decision, ShadowDecision, TradeStatus, Closing, ShadowTrade, SystemEvent,
}
use syn_antona.Shadow.Watch.{Events, new_event}
use syn_antona.Shadow.Repository.{Journal, Texts, add_decision, conflicts, trade_conflicts}

abbrev pub first_event : Texts → String → ShadowTrade → ℕ → Events → SystemEvent
first_event texts protocol_id t now events =
    new_event protocol_id "FIRST_SHADOW_TRADE" "INFO" "First shadow trade opened" (some t.exchange)
      (texts.opened_json t) now events

abbrev pub with_first_event : Texts → String → ShadowTrade → ℕ → Journal → Events
with_first_event texts protocol_id t now j =
    if any (λ x. x.protocol_id == protocol_id) j.trades
    then j.events
    else j.events ++ first_event texts protocol_id t now j.events ∷ []

-- The decision, and the trade that it opened, if any: both or neither.
unfoldable pub record_decision :
    Texts → ShadowDecision → Option ShadowTrade → ℕ → Action Journal (Unit {0})
record_decision texts d none now j = add_decision d j
record_decision texts d (some t) now j =
    if any (conflicts d) j.decisions || any (trade_conflicts t) j.trades
    then (err Error.integrity_error, j)
    else (
      ok tt,
      record j {
        decisions = j.decisions ++ d ∷ [];
        trades = j.trades ++ t ∷ [];
        events = with_first_event texts d.protocol_id t now j;
      },
    )

abbrev pub is_signal : ShadowDecision → Bool
is_signal d = elim d.decision [ Decision.wait ↦ false | Decision.signal side ↦ true ]

unfoldable pub decisions_count : String → Bool → Journal → ℕ
decisions_count protocol_id signals_only j =
    length (
      filter (λ d. (d.protocol_id == protocol_id) && (not signals_only || is_signal d)) j.decisions)

abbrev pub is_open : ShadowTrade → Bool
is_open t = elim t.status [ TradeStatus.open_trade ↦ true | TradeStatus.closed_trade ↦ false ]

abbrev pub is_open_in : String → String → String → ShadowTrade → Bool
is_open_in protocol_id exchange symbol t =
    (t.protocol_id == protocol_id) && (t.exchange == exchange) && (t.symbol == symbol) && is_open t

unfoldable pub open_trade : String → String → String → Journal → Option ShadowTrade
open_trade protocol_id exchange symbol j = find (is_open_in protocol_id exchange symbol) j.trades

unfoldable pub open_trades : String → Journal → List ShadowTrade
open_trades protocol_id j =
    sort_by (λ t. t.opened_at) (filter (λ t. (t.protocol_id == protocol_id) && is_open t) j.trades)

unfoldable pub closed_trades : String → Journal → List ShadowTrade
closed_trades protocol_id j =
    sort_by (λ t. t.opened_at)
      (filter (λ t. (t.protocol_id == protocol_id) && not (is_open t)) j.trades)

abbrev pub closed_by : Closing → ShadowTrade → ShadowTrade
closed_by values t = record t { status = TradeStatus.closed_trade; closing = some values }

abbrev pub closed_event : Texts → ShadowTrade → Closing → ℕ → Events → SystemEvent
closed_event texts t values now events =
    new_event t.protocol_id "SHADOW_POSITION_CLOSED" "INFO"
      ("Shadow position " +s t.id +s " closed") (some t.exchange) (texts.closed_json t values) now
      events

unfoldable pub close_trade : Texts → String → Closing → ℕ → Action Journal (Unit {0})
close_trade texts trade_id values now j = elim (find (λ t. t.id == trade_id) j.trades) [
  | none ↦ (err (Error.runtime_error "Shadow trade is not open"), j)
  | some t ↦
      if is_open t
      then (
        ok tt,
        record j {
          trades = update_first (λ x. x.id == trade_id) (closed_by values) j.trades;
          events = j.events ++ closed_event texts t values now j.events ∷ [];
        },
      )
      else (err (Error.runtime_error "Shadow trade is not open"), j)
]
