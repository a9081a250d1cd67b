-- ===== src/Engine/Positions/Book.antt =====
-- What the portfolio holds after a position came and went, and how the dashboard groups it.
use mathlib.Core.List.{append-nil, append_assoc}
use syn_antona.Prelude.{
  String, none, some, List, [], ◌∷◌, ◌++◌, ◌≡◌, sym, ◌∙◌, arith, filter, inl, inr, Bool-cases,
  if◌then◌else◌,
}
use syn_antona.Prelude.Keys.{Key, text_key, triple_key, ◌==◌, ==_iff, ==_self}
use syn_antona.Prelude.Dict.{Dict, lookup, insert, erase, get_or, lookup-insert}
use syn_antona.Prelude.Errors.{ok}
use syn_antona.Decimal.{Decimal}
use syn_antona.Risk.Portfolio.{ManagedPosition}
use syn_antona.Engine.Positions.{PortfolioManager, add, remove, group, build_dashboard}

module _ {ℓ κ} {K : Type ℓ} {V : Type κ} ⦃key : Key K⦄ where
  -- A key that was not there before is removed without a trace.
  pub erase-insert : (k : K) (v : V) (d : Dict K V) → lookup k d ≡ none → erase k (insert k v d) ≡ d
  unfolding lookup erase insert
  erase-insert k v [] fresh = ground (arith, ==_self k)
  erase-insert k v ((j, w) ∷ d) fresh = let rest = erase-insert k v d in ground (arith, rest)

-- When a position was added, removing it by its exchange, account and id returns it and leaves the
-- portfolio as it was before.
pub add-remove :
    (p : ManagedPosition) (m : PortfolioManager) {m' : PortfolioManager}
    → add p m ≡ (ok tt, m')
    → remove p.exchange p.account_id p.position_id m' ≡ (ok p, m)
unfolding add remove
add-remove p m added =
    let key : String × String × String = (p.exchange, p.account_id, p.position_id) in
    let there = lookup-insert key key p m in
    let gone = erase-insert key p m in ground (arith, there, gone, ==_self key)

-- The loop appends what is left of an exchange to what is grouped already.
group-lookup :
    (name : String) (ps : List ManagedPosition) (grouped : Dict String (List ManagedPosition))
    → get_or name [] (group ps grouped)
      ≡ get_or name [] grouped ++ filter (λ p. p.exchange == name) ps
unfolding group
group-lookup name [] grouped = sym (append-nil (get_or name [] grouped))
group-lookup name (p ∷ ps) grouped =
    group-lookup name ps (insert p.exchange (get_or p.exchange [] grouped ++ p ∷ []) grouped)
    ∙ step (lookup-insert p.exchange name (get_or p.exchange [] grouped ++ p ∷ []) grouped)
  where
    kept : List ManagedPosition
    kept = filter (λ x. x.exchange == name) ps

    step :
        lookup name (insert p.exchange (get_or p.exchange [] grouped ++ p ∷ []) grouped) ≡ (
          if p.exchange == name
          then some (get_or p.exchange [] grouped ++ p ∷ [])
          else lookup name grouped)
        → get_or name [] (insert p.exchange (get_or p.exchange [] grouped ++ p ∷ []) grouped)
            ++ kept
          ≡ get_or name [] grouped ++ filter (λ x. x.exchange == name) (p ∷ ps)
    step found = elim (Bool-cases (p.exchange == name)) [
      | inl e ↦ ground (
        arith,
        e,
        found,
        (==_iff p.exchange name).0 e,
        append_assoc (get_or p.exchange [] grouped) (p ∷ []) kept,
      )
      | inr e ↦ ground (arith, e, found)
    ]

-- The dashboard groups under an exchange exactly the positions of that exchange, in their order,
-- and none for an exchange without positions.
pub dashboard_groups :
    (equity : Dict String Decimal) (ps : List ManagedPosition) (name : String)
    → get_or name [] (build_dashboard equity ps).positions_by_exchange
      ≡ filter (λ p. p.exchange == name) ps
unfolding build_dashboard lookup
dashboard_groups equity ps name = group-lookup name ps []
