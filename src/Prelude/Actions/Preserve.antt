-- ===== src/Prelude/Actions/Preserve.antt =====
-- What a method leaves true of its object, whether it returns or raises: one rule for each way to
-- build a method.
use syn_antona.Prelude.{Bool, true, false, if◌then◌else◌}
use syn_antona.Prelude.Errors.{Error, Result, ok, err}
use syn_antona.Prelude.Actions.{Action, ◌>>=◌, return, reading, write, raise_when}

pub record Preserves {ℓ κ μ} {S : Type ℓ} {A : Type κ} (P : S → Type μ) (call : Action S A)
    : Type (ℓ ⊔ κ ⊔ μ) where
  pub holds : (s : S) → P s → P (call s).1

module _ {ℓ μ} {S : Type ℓ} {P : S → Type μ} where
  pub Preserves-write : (f : S → S) → ((s : S) → P s → P (f s)) → Preserves P (write f)
  Preserves-write f keep = record { holds = keep }

  pub Preserves-raise_when : (test : S → Bool) (e : Error) → Preserves P (raise_when test e)
  Preserves-raise_when test e = record { holds = λ s h. either (test s) s h }
    where
      either :
          (b : Bool) (s : S)
          → P s
          → P (elim b as (λ _. Result (Unit {0}) × S) [ true ↦ (err e, s) | false ↦ (ok tt, s) ]).1
      either true s h = h
      either false s h = h

module _ {ℓ κ μ} {S : Type ℓ} {A : Type κ} {P : S → Type μ} where
  pub Preserves-return : (a : A) → Preserves P (return {S = S} a)
  Preserves-return a = record { holds = λ s h. h }

  pub Preserves-reading : (f : S → Result A) → Preserves P (reading f)
  Preserves-reading f = record { holds = λ s h. h }

  pub Preserves-if :
      (test : Bool) (m n : Action S A)
      → Preserves P m
      → Preserves P n
      → Preserves P (if test then m else n)
  Preserves-if true m n h g = h
  Preserves-if false m n h g = g

module _ {ℓ κ λ' μ} {S : Type ℓ} {A : Type κ} {B : Type λ'} {P : S → Type μ} where
  pub Preserves->>= :
      (call : Action S A) (next : A → Action S B)
      → Preserves P call
      → ((a : A) → Preserves P (next a))
      → Preserves P (call >>= next)
  Preserves->>= call next first rest = record { holds = λ s h. split (call s) (first.holds s h) }
    where
      split :
          (r : Result A × S)
          → P r.1
          → P (elim r.0 as (λ _. Result B × S) [ err e ↦ (err e, r.1) | ok a ↦ next a r.1 ]).1
      split (ok a, mid) g = (rest a).holds mid g
      split (err e, mid) g = g

pub ruleset preserve_rules =
    (Preserves-raise_when, Preserves-if, Preserves-return, Preserves-reading, Preserves->>=)
