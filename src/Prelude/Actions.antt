-- ===== src/Prelude/Actions.antt =====
-- Methods of an object that may raise. What a method wrote before an exception stays written, so
-- the object comes back beside the exception too.
pub mod Preserve
use mathlib.Core.Path.{subst}
use syn_antona.Prelude.{Bool, true, false, ◌≡◌, refl, sym, arith}
use syn_antona.Prelude.Errors.{Error, Result, ok, err}

abbrev pub Action {ℓ κ} : Type ℓ → Type κ → Type (ℓ ⊔ κ)
Action S A = S → Result A × S

module _ {ℓ κ μ} {S : Type ℓ} {A : Type κ} {B : Type μ} where
  infixl 5 ◌>>=◌
  abbrev pub ◌>>=◌ : Action S A → (A → Action S B) → Action S B
  ◌>>=◌ call next s = let (r, s') = call s in elim r [ err e ↦ (err e, s') | ok a ↦ next a s' ]

infixl 5 ◌>>◌
abbrev pub ◌>>◌ {ℓ κ} : {S : Type ℓ} {B : Type κ} → Action S (Unit {0}) → Action S B → Action S B
◌>>◌ call next = call >>= (λ _. next)

module _ {ℓ κ} {S : Type ℓ} {A : Type κ} where
  abbrev pub return : A → Action S A
  return a s = (ok a, s)

  -- A computation that reads the object, and may raise.
  abbrev pub reading : (S → Result A) → Action S A
  reading f s = (f s, s)

  abbrev pub raise : Error → Action S A
  raise e s = (err e, s)

abbrev pub write {ℓ} : {S : Type ℓ} → (S → S) → Action S (Unit {0})
write f s = (ok tt, f s)

abbrev pub raise_when {ℓ} : {S : Type ℓ} → (S → Bool) → Error → Action S (Unit {0})
raise_when test e s = elim (test s) [ true ↦ (err e, s) | false ↦ (ok tt, s) ]

module _ {ℓ κ μ} {S : Type ℓ} {A : Type κ} {B : Type μ} where
  -- A block that returned: its first call did, and so did what follows it from there.
  pub >>=-returned :
      (call : Action S A) (next : A → Action S B) (s : S) {b : B} {t : S}
      → (call >>= next) s ≡ (ok b, t)
      → (a : A) × (mid : S) × (call s ≡ (ok a, mid)) × (next a mid ≡ (ok b, t))
  >>=-returned call next s {b} {t} h = split (call s) refl h
    where
      split :
          (r : Result A × S)
          → call s ≡ r
          → elim r.0 [ err e ↦ (err e, r.1) | ok a ↦ next a r.1 ] ≡ (ok b, t)
          → (a : A) × (mid : S) × (call s ≡ (ok a, mid)) × (next a mid ≡ (ok b, t))
      split (ok a, mid) e g = (a, mid, e, g)
      split (err x, mid) e g = ground arith

module _ {ℓ κ μ ν} {S : Type ℓ} {A : Type κ} {B : Type μ} where
  -- What holds of the rest of a block holds of the block, once its first call returned.
  pub after-ok :
      (P : Result B × S → Type ν) (call : Action S A) (next : A → Action S B) {s : S} {a : A}
      {mid : S}
      → call s ≡ (ok a, mid)
      → P (next a mid)
      → P ((call >>= next) s)
  after-ok P call next returned h =
      subst (λ r. P (elim r.0 as (λ _. Result B × S) [ err e ↦ (err e, r.1) | ok a ↦ next a r.1 ]))
        (sym returned) h

  pub after-err :
      (P : Result B × S → Type ν) (call : Action S A) (next : A → Action S B) {s : S} {e : Error}
      {mid : S}
      → call s ≡ (err e, mid)
      → P (err e, mid)
      → P ((call >>= next) s)
  after-err P call next raised h =
      subst (λ r. P (elim r.0 as (λ _. Result B × S) [ err e ↦ (err e, r.1) | ok a ↦ next a r.1 ]))
        (sym raised) h
