-- ===== src/Protector/Moves/Guarded.antt =====
-- The confirmed stop of a position, and the side of who owns it: what every move keeps.
use syn_antona.Prelude.{
  ℕ, ◌≡◌, refl, String, Bool, true, not, none, some, List, [], ◌∷◌, all, all-cons, All, ◌||◌, arith,
}
use syn_antona.Prelude.Keys.{◌==◌, text_key}
use syn_antona.Prelude.Dict.{values, All-lookup, All-insert}
use syn_antona.Prelude.Errors.{ok, err}
use syn_antona.Prelude.Tables.{update_all, is_found-update_all, is_found_kept}
use syn_antona.Decimal.{Decimal}
use syn_antona.Live.Records.{Database}
use syn_antona.Protector.Costs.{PositionSnapshot}
use syn_antona.Protector.Store.{is_state, close_row}
use syn_antona.Protector.Ticker.{World, Protector, bars_of}
use syn_antona.Protector.Ticker.Kept.{is_kept, holds_stop, agrees}
use syn_antona.Protector.Ticker.Tightening.{on_position-holds_stop}
use syn_antona.Protector.Ticker.Reported.{reconcile-holds_stop, absent-holds_stop}
use syn_antona.Protector.Owners.{OpenPosition, Answers, Tracked, owner_for_symbol, observed}
use syn_antona.Protector.Owners.Owner.{observed-owner}
use syn_antona.Protector.Sync.{new_row, is_superseded, upsert, keys}
use syn_antona.Protector.Moves.{Move}
use syn_antona.Protector.Moves.Keeps.{Keeps, ReadsOnly, SyncsOnly}

module _ (c side : String) (c₀ : Decimal) where
  abbrev pub Agrees : PositionSnapshot → Type 0
  Agrees p = agrees c side c₀ p ≡ true

  -- The row of the client order is no looser than `c₀`, and its positions are of the side.
  pub record IsGuarded (v : Protector) : Type 0 where
    pub stop : holds_stop c side c₀ v.world ≡ true
    pub sides : All Agrees (values v.positions)

  upsert-holds_stop :
      (t : Tracked) (now : ℕ) (w : World)
      → holds_stop c side c₀ w ≡ true
      → holds_stop c side c₀ (record w { store = upsert t now w.store }) ≡ true
  unfolding holds_stop upsert
  upsert-holds_stop t now w h =
      let closed =
        is_found-update_all (is_state c) (is_kept c side c₀) (is_superseded t) (close_row now)
          w.store.states (λ x. refl) (λ x g. g) h in
      let added =
        is_found_kept (is_state c) (is_kept c side c₀)
          (update_all (is_superseded t) (close_row now) w.store.states) (new_row t) closed in
      ground (arith, h, added)

  pub IsGuarded-Keeps : Keeps IsGuarded Agrees (λ current. All Agrees (values current))
  IsGuarded-Keeps = record {
    started = tt;
    kept = λ t current own kept. All-insert Agrees t.position.symbol t.position current own kept;
    bars = λ b v g. record { stop = g.stop; sides = g.sides };
    quotes = λ q v g. record { stop = g.stop; sides = g.sides };
    upserted =
        λ t now v own g. record { stop = upsert-holds_stop t now v.world g.stop; sides = g.sides };
    reconciled = λ t now v own g. record {
      stop =
          reconcile-holds_stop c side c₀ t.position.entry_client_order_id t.position.side
            t.confirmed_stop now v.world own g.stop;
      sides = g.sides;
    };
    synced = λ current now v own g. record {
      stop = absent-holds_stop c side c₀ (keys current) now v.world g.stop;
      sides = own;
    };
    ticked = λ p t v found g. record {
      stop =
          on_position-holds_stop c side c₀ p t (bars_of t.symbol v) v.world
            (All-lookup Agrees t.symbol v.positions g.sides found) g.stop;
      sides = g.sides;
    };
  }

  -- Who owns the position is of the side, if it is the client order.
  abbrev owns_side : Database → OpenPosition → Bool
  owns_side db raw = elim (owner_for_symbol db raw.symbol) [
    | none ↦ true
    | some p ↦ not (p.client_order_id == c) || (raw.side == side)
  ]

  -- A position that the exchange reports under the client order `c` is of the side `side`.
  unfoldable pub is_of_side : Move → Bool
  is_of_side (Move.synced db now (ok raws)) = all (λ x. owns_side db x.0) raws
  is_of_side _ = true

  observed-Agrees :
      (db : Database) (raw : OpenPosition) (answers : Answers) (t : Tracked)
      → owns_side db raw ≡ true
      → observed db raw answers ≡ ok (some t)
      → Agrees t.position
  observed-Agrees db raw answers t same h =
      let (p, owned, read) = observed-owner db raw answers h in
      ground (arith, owned, same, read.client, read.side)

  reads-Agrees :
      (db : Database) (raws : List (OpenPosition × Answers))
      → all (λ x. owns_side db x.0) raws ≡ true
      → ReadsOnly Agrees db raws
  reads-Agrees db [] same = tt
  reads-Agrees db ((raw, answers) ∷ raws) same =
      let (this, others) = all-cons (λ x. owns_side db x.0) (raw, answers) raws same in
      (λ t. observed-Agrees db raw answers t this, reads-Agrees db raws others)

  pub of_side-SyncsOnly : (m : Move) → is_of_side m ≡ true → SyncsOnly Agrees m
  unfolding is_of_side
  of_side-SyncsOnly (Move.synced db now (ok raws)) same = reads-Agrees db raws same
  of_side-SyncsOnly (Move.synced db now (err e)) same = tt
  of_side-SyncsOnly (Move.quoted message_ms now_ms t) same = tt
  of_side-SyncsOnly (Move.bars_closed symbol items) same = tt
