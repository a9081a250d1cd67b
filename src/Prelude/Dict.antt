-- ===== src/Prelude/Dict.antt =====
-- A Python dict in insertion order: a new key goes to the end, a known key keeps its place.
use syn_antona.Prelude.{
  ◌≡◌, refl, Bool, true, false, Option, none, some, List, [], ◌∷◌, arith, if◌then◌else◌, All, inl,
  inr, Bool-cases,
}
use mathlib.Core.Path.{subst}
use mathlib.Core.Option.{some-injective}
use syn_antona.Prelude.Keys.{Key, ◌==◌, ==_iff}

abbrev pub Dict {ℓ κ} : Type ℓ → Type κ → Type (ℓ ⊔ κ)
Dict K V = List (K × V)

-- `d.values()`
abbrev pub values {ℓ κ} : {K : Type ℓ} {V : Type κ} → Dict K V → List V
values [] = []
values ((k, v) ∷ d) = v ∷ values d

module _ {ℓ κ} {K : Type ℓ} {V : Type κ} ⦃key : Key K⦄ where
  -- `d.get(k)`
  unfoldable pub lookup : K → Dict K V → Option V
  lookup k [] = none
  lookup k ((j, v) ∷ d) = if j == k then some v else lookup k d

  -- `k in d`
  abbrev pub contains : K → Dict K V → Bool
  contains k d = elim (lookup k d) [ none ↦ false | some _ ↦ true ]

  -- `d.get(k, default)`
  abbrev pub get_or : K → V → Dict K V → V
  get_or k v d = elim (lookup k d) [ none ↦ v | some w ↦ w ]

  -- `d[k] = v`
  unfoldable pub insert : K → V → Dict K V → Dict K V
  insert k v [] = (k, v) ∷ []
  insert k v ((j, w) ∷ d) = if j == k then (j, v) ∷ d else (j, w) ∷ insert k v d

  -- `del d[k]`, `d.pop(k)`
  unfoldable pub erase : K → Dict K V → Dict K V
  erase k [] = []
  erase k ((j, v) ∷ d) = let rest = erase k d in if j == k then rest else (j, v) ∷ rest

  pub lookup-insert :
      (k j : K) (v : V) (d : Dict K V)
      → lookup j (insert k v d) ≡ (if k == j then some v else lookup j d)
  unfolding lookup insert
  lookup-insert k j v [] = refl
  lookup-insert k j v ((i, w) ∷ d) =
      ground (arith, ==_iff k j, ==_iff i k, ==_iff i j, lookup-insert k j v d)

  pub lookup-erase :
      (k j : K) (d : Dict K V) → lookup j (erase k d) ≡ (if k == j then none else lookup j d)
  unfolding lookup erase
  lookup-erase k j [] = ground arith
  lookup-erase k j ((i, w) ∷ d) =
      ground (arith, ==_iff k j, ==_iff i k, ==_iff i j, lookup-erase k j d)

module _ {ℓ κ μ} {K : Type ℓ} {V : Type κ} ⦃key : Key K⦄ (P : V → Type μ) where
  -- A write of a good value keeps all values good, and so does a removal.
  pub All-insert :
      (k : K) (v : V) (d : Dict K V) → P v → All P (values d) → All P (values (insert k v d))
  unfolding insert
  All-insert k v [] p h = (p, tt)
  All-insert k v ((j, w) ∷ d) p h = elim (Bool-cases (j == k)) [
    | inl same ↦ rw same (p, h.1)
    | inr other ↦ rw other (h.0, All-insert k v d p h.1)
  ]

  pub All-erase : (k : K) (d : Dict K V) → All P (values d) → All P (values (erase k d))
  unfolding erase
  All-erase k [] h = tt
  All-erase k ((j, w) ∷ d) h = elim (Bool-cases (j == k)) [
    | inl same ↦ rw same (All-erase k d h.1)
    | inr other ↦ rw other (h.0, All-erase k d h.1)
  ]

  pub All-lookup : (k : K) (d : Dict K V) {v : V} → All P (values d) → lookup k d ≡ some v → P v
  unfolding lookup
  All-lookup k [] h e = cc
  All-lookup k ((j, w) ∷ d) h e = elim (Bool-cases (j == k)) [
    | inl same ↦ subst P (some-injective _ _ (rw same at e)) h.0
    | inr other ↦ All-lookup k d h.1 (rw other at e)
  ]
