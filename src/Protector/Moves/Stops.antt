-- ===== src/Protector/Moves/Stops.antt =====
-- The confirmed stop of a position through any sequence of moves.
use syn_antona.Prelude.{String, ◌≡◌, true, List, [], ◌∷◌, all, all-cons, All}
use syn_antona.Decimal.{Decimal}
use syn_antona.Protector.Ticker.{Protector}
use syn_antona.Protector.Moves.{Move, after_all}
use syn_antona.Protector.Moves.Keeps.{SyncsOnly, after_all-kept}
use syn_antona.Protector.Moves.Guarded.{
  Agrees, IsGuarded, is_of_side, IsGuarded-Keeps, of_side-SyncsOnly,
}

module _ (c side : String) (c₀ : Decimal) where
  all_of_side :
      (ms : List Move)
      → all (is_of_side c side c₀) ms ≡ true
      → All (SyncsOnly (Agrees c side c₀)) ms
  all_of_side [] same = tt
  all_of_side (m ∷ ms) same =
      let (this, others) = all-cons (is_of_side c side c₀) m ms same in
      (of_side-SyncsOnly c side c₀ m this, all_of_side ms others)

  -- If the row of a client order is there with a confirmed stop no looser than a given one, and the
  -- positions that the protector keeps under it are of one side, then so it is after any messages
  -- of the socket and any syncs with the exchange, whatever the gateway and the notifier answer, as
  -- long as the positions that the exchange reports for the client order are of that side.
  pub stop_never_loosens :
      (ms : List Move) (v : Protector)
      → all (is_of_side c side c₀) ms ≡ true
      → IsGuarded c side c₀ v
      → IsGuarded c side c₀ (after_all v ms)
  stop_never_loosens ms v same g =
      after_all-kept (IsGuarded c side c₀) (Agrees c side c₀) _ (IsGuarded-Keeps c side c₀) ms v
        (all_of_side ms same) g
