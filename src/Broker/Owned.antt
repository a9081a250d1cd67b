-- ===== src/Broker/Owned.antt =====
-- The positions of the broker stand under their own trade ids, one for each id.
use syn_antona.Prelude.{String, ◌≡◌, refl, sym, none, some, [], ◌∷◌, inl, inr, Bool-cases}
use mathlib.Core.Path.{◌∙◌}
use mathlib.Core.Option.{some-injective}
use syn_antona.Prelude.Keys.{◌==◌, ==_iff, ==_comm, text_key}
use syn_antona.Prelude.Dict.{Dict, lookup, insert, erase, lookup-insert, lookup-erase}
use syn_antona.Domain.{Position}

abbrev pub IsOwned : Dict String Position → Type 0
IsOwned [] = Unit
IsOwned ((k, p) ∷ d) = (p.trade_id ≡ k) × (lookup k d ≡ none) × IsOwned d

pub insert-IsOwned :
    (p : Position) (d : Dict String Position) → IsOwned d → IsOwned (insert p.trade_id p d)
unfolding insert
insert-IsOwned p [] h = (refl, unfold lookup in refl, tt)
insert-IsOwned p ((k, q) ∷ d) h = elim (Bool-cases (k == p.trade_id)) [
  | inl same ↦ rw same (sym ((==_iff k p.trade_id).0 same), h.1, h.2)
  | inr other ↦ rw other (
    h.0,
    rw (lookup-insert p.trade_id k p d, ==_comm p.trade_id k, other) h.1,
    insert-IsOwned p d h.2,
  )
]

pub erase-IsOwned : (k : String) (d : Dict String Position) → IsOwned d → IsOwned (erase k d)
unfolding erase
erase-IsOwned k [] h = tt
erase-IsOwned k ((j, q) ∷ d) h = elim (Bool-cases (j == k)) [
  | inl same ↦ rw same (erase-IsOwned k d h.2)
  | inr other ↦
      rw other (h.0, rw (lookup-erase k j d, ==_comm k j, other) h.1, erase-IsOwned k d h.2)
]

-- What is found under an id has that id.
pub lookup-trade_id :
    (k : String) (d : Dict String Position) {p : Position}
    → IsOwned d
    → lookup k d ≡ some p
    → p.trade_id ≡ k
unfolding lookup
lookup-trade_id k [] h e = cc
lookup-trade_id k ((j, q) ∷ d) {p} h e = elim (Bool-cases (j == k)) [
  | inl same ↦
      let here : q ≡ p = some-injective _ _ (rw same at e) in
      rw (← here) (h.0 ∙ (==_iff j k).0 same)
  | inr other ↦ lookup-trade_id k d h.2 (rw other at e)
]
