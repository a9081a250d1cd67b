-- ===== src/Broker/Book.antt =====
-- The invariant of the broker: positions stand under their own ids, each of those ids has been
-- recorded as executed, and so are the ids that were recorded in the past.
use syn_antona.Prelude.{
  String, ◌≡◌, refl, Bool, true, Option, none, some, List, ◌∷◌, arith, inl, inr, any, Bool-cases,
}
use syn_antona.Prelude.Keys.{◌==◌, ==_iff, text_key}
use syn_antona.Prelude.Dict.{Dict, lookup, contains, insert, erase, lookup-insert, lookup-erase}
use syn_antona.Domain.{Position}
use syn_antona.Broker.Owned.{IsOwned, insert-IsOwned, erase-IsOwned}

-- `k in ids`
abbrev pub member : String → List String → Bool
member k ids = any (λ j. j == k) ids

pub record IsBook (past : List String) (d : Dict String Position) (ids : List String) : Type 0 where
  pub kept : (k : String) → member k past ≡ true → member k ids ≡ true
  pub owned : IsOwned d
  pub known : (k : String) (p : Position) → lookup k d ≡ some p → member k ids ≡ true

pub erase-IsBook :
    {past : List String} (k : String) (d : Dict String Position) (ids : List String)
    → IsBook past d ids
    → IsBook past (erase k d) ids
erase-IsBook k d ids h = record {
  kept = h.kept;
  owned = erase-IsOwned k d h.owned;
  known = λ j p e. elim (Bool-cases (k == j)) [
    | inl same ↦ cc (rw (lookup-erase k j d, same) at e)
    | inr other ↦ h.known j p (rw (lookup-erase k j d, other) at e)
  ];
}

-- A position is written under an id that is known.
pub insert-IsBook :
    {past : List String} (p : Position) (d : Dict String Position) (ids : List String)
    → IsBook past d ids
    → member p.trade_id ids ≡ true
    → IsBook past (insert p.trade_id p d) ids
insert-IsBook p d ids h known = record {
  kept = h.kept;
  owned = insert-IsOwned p d h.owned;
  known = λ j q e. elim (Bool-cases (p.trade_id == j)) [
    | inl same ↦ rw (← (==_iff p.trade_id j).0 same) known
    | inr other ↦ h.known j q (rw (lookup-insert p.trade_id j p d, other) at e)
  ];
}

pub contains-member :
    {past : List String} (k : String) (d : Dict String Position) (ids : List String)
    → IsBook past d ids
    → contains k d ≡ true
    → member k ids ≡ true
contains-member k d ids h found = split (lookup k d) refl
  where
    split : (o : Option Position) → lookup k d ≡ o → member k ids ≡ true
    split none e = ground arith
    split (some p) e = h.known k p e

member_more : (k j : String) (ids : List String) → member k ids ≡ true → member k (j ∷ ids) ≡ true
member_more k j ids h = ground arith

member_self : (k : String) (ids : List String) → member k (k ∷ ids) ≡ true
member_self k ids = ground (arith, ==_iff k k)

-- A position is written under its own id, which is recorded with it.
pub open-IsBook :
    {past : List String} (p : Position) (d : Dict String Position) (ids : List String)
    → IsBook past d ids
    → IsBook past (insert p.trade_id p d) (p.trade_id ∷ ids)
open-IsBook p d ids h =
    insert-IsBook p d (p.trade_id ∷ ids)
      (record {
        kept = λ j e. member_more j p.trade_id ids (h.kept j e);
        owned = h.owned;
        known = λ j q e. member_more j p.trade_id ids (h.known j q e);
      })
      (member_self p.trade_id ids)
