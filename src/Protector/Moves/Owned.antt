-- ===== src/Protector/Moves/Owned.antt =====
-- The protector manages only positions that a proposal of the repository owns.
use mathlib.Core.Path.{subst}
use syn_antona.Prelude.{
  ◌∙◌, ap, if◌then◌else◌, Bool-cases, inl, inr, String, ◌≡◌, refl, false, none, some, List, [], ◌∷◌,
  All, arith,
}
use syn_antona.Prelude.Keys.{◌==◌, text_key, ==_iff}
use syn_antona.Prelude.Dict.{lookup, lookup-insert}
use syn_antona.Prelude.Errors.{ok, err}
use syn_antona.Live.Records.{Database}
use syn_antona.Protector.Costs.{PositionSnapshot}
use syn_antona.Protector.Ticker.{Request, Tick, Protector, bars_of}
use syn_antona.Protector.Ticker.Asked.{asked, on_position-IsSilent}
use syn_antona.Protector.Owners.{OpenPosition, Answers, Tracked, owner_for_symbol, observed}
use syn_antona.Protector.Owners.Owner.{observed-owner}
use syn_antona.Protector.Moves.{Move, after_all}
use syn_antona.Protector.Moves.Keeps.{Keeps, ReadsOnly, SyncsOnly, after_all-kept}

module _ (symbol : String) where
  abbrev pub IsOfOther : PositionSnapshot → Type 0
  IsOfOther p = (p.symbol == symbol) ≡ false

  -- No position is kept under the symbol, and of the requests that change a position of it there are
  -- those before.
  pub record IsUntouched (before : List Request) (v : Protector) : Type 0 where
    pub silent : asked symbol v.world ≡ before
    pub unkept : lookup symbol v.positions ≡ none

  -- A tick that finds a position is of another symbol.
  is_other :
      (p : PositionSnapshot) (t : Tick) (v : Protector)
      → lookup t.symbol v.positions ≡ some p
      → lookup symbol v.positions ≡ none
      → (t.symbol == symbol) ≡ false
  is_other p t v found none_there = elim (Bool-cases (t.symbol == symbol)) [
    | inl same ↦
        let there : lookup symbol v.positions ≡ some p =
          subst (λ k. lookup k v.positions ≡ some p) ((==_iff t.symbol symbol).0 same) found in
        ground (arith, there, none_there)
    | inr other ↦ other
  ]

  IsUntouched-Keeps :
      (before : List Request)
      → Keeps (IsUntouched before) IsOfOther (λ current. lookup symbol current ≡ none)
  unfolding lookup
  IsUntouched-Keeps before = record {
    started = refl;
    kept = λ t current own kept.
        lookup-insert t.position.symbol symbol t.position current
        ∙ ap (λ b. if b then some t.position else lookup symbol current) own
        ∙ kept;
    bars = λ b v g. record { silent = g.silent; unkept = g.unkept };
    quotes = λ q v g. record { silent = g.silent; unkept = g.unkept };
    upserted = λ t now v own g. record { silent = g.silent; unkept = g.unkept };
    reconciled = λ t now v own g. record { silent = g.silent; unkept = g.unkept };
    synced = λ current now v own g. record { silent = g.silent; unkept = own };
    ticked = λ p t v found g. record {
      silent =
          (on_position-IsSilent symbol before p t (is_other p t v found g.unkept)
              (bars_of t.symbol v)).holds
            v.world g.silent;
      unkept = g.unkept;
    };
  }

  -- No proposal of the database that is read owns the symbol.
  abbrev pub IsUnowned : Move → Type 0
  IsUnowned (Move.synced db now answer) = owner_for_symbol db symbol ≡ none
  IsUnowned _ = Unit

  observed-IsOfOther :
      (db : Database) (raw : OpenPosition) (answers : Answers) (t : Tracked)
      → owner_for_symbol db symbol ≡ none
      → observed db raw answers ≡ ok (some t)
      → IsOfOther t.position
  observed-IsOfOther db raw answers t unowned h =
      let (p, owned, read) = observed-owner db raw answers h in
      ground (arith, owned, read.symbol, unowned, ==_iff t.position.symbol symbol)

  reads-IsOfOther :
      (db : Database) (raws : List (OpenPosition × Answers))
      → owner_for_symbol db symbol ≡ none
      → ReadsOnly IsOfOther db raws
  reads-IsOfOther db [] unowned = tt
  reads-IsOfOther db ((raw, answers) ∷ raws) unowned =
      (λ t. observed-IsOfOther db raw answers t unowned, reads-IsOfOther db raws unowned)

  unowned-SyncsOnly : (ms : List Move) → All IsUnowned ms → All (SyncsOnly IsOfOther) ms
  unowned-SyncsOnly [] all = tt
  unowned-SyncsOnly (Move.synced db now (ok raws) ∷ ms) (this, rest) =
      (reads-IsOfOther db raws this, unowned-SyncsOnly ms rest)
  unowned-SyncsOnly (Move.synced db now (err e) ∷ ms) (this, rest) = (tt, unowned-SyncsOnly ms rest)
  unowned-SyncsOnly (Move.quoted message_ms now_ms t ∷ ms) (this, rest) =
      (tt, unowned-SyncsOnly ms rest)
  unowned-SyncsOnly (Move.bars_closed name items ∷ ms) (this, rest) =
      (tt, unowned-SyncsOnly ms rest)

-- If the protector keeps no position under a symbol, and in none of the databases that its syncs
-- read a protected proposal with a filled order owns the symbol, then after any messages of the
-- socket and any syncs it keeps none under it either, and has made no request that closes a
-- position of the symbol or moves its stop, whatever the exchange reports of it and whatever the
-- gateway and the notifier answer.
pub unowned-IsUntouched :
    (symbol : String) (ms : List Move) (v : Protector)
    → All (IsUnowned symbol) ms
    → lookup symbol v.positions ≡ none
    → IsUntouched symbol (asked symbol v.world) (after_all v ms)
unowned-IsUntouched symbol ms v unowned unkept =
    after_all-kept (IsUntouched symbol (asked symbol v.world)) (IsOfOther symbol) _
      (IsUntouched-Keeps symbol (asked symbol v.world)) ms v (unowned-SyncsOnly symbol ms unowned)
      (record { silent = refl; unkept = unkept })
