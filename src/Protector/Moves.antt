-- ===== src/Protector/Moves.antt =====
-- What happens to a profit protector: messages of the socket, and syncs with the exchange.
pub mod Keeps
pub mod Guarded
pub mod Stops
pub mod Owned
mod Tests
use syn_antona.Prelude.{ℕ, String, Bool, List, [], ◌∷◌}
use syn_antona.Prelude.Errors.{Result}
use syn_antona.Live.Records.{Database}
use syn_antona.Protector.Momentum.{ClosedBar}
use syn_antona.Protector.Ticker.{Tick, Protector}
use syn_antona.Protector.Owners.{OpenPosition, Answers}
use syn_antona.Protector.Sync.{sync, on_ticker_message, on_kline_message}

pub data Move : Type 0 where
  quoted : ℕ → ℕ → Tick → Move
  bars_closed : String → List (Bool × ClosedBar) → Move
  synced : Database → ℕ → Result (List (OpenPosition × Answers)) → Move

unfoldable pub after : Protector → Move → Protector
after v (Move.quoted message_ms now_ms t) = (on_ticker_message message_ms now_ms t v).1
after v (Move.bars_closed symbol items) = on_kline_message symbol items v
after v (Move.synced db now answer) = (sync db now answer v).1

unfoldable pub after_all : Protector → List Move → Protector
after_all v [] = v
after_all v (m ∷ ms) = after_all (after v m) ms
