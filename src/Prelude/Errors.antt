-- ===== src/Prelude/Errors.antt =====
-- Code that may raise: the Python exceptions that the modelled code raises itself, the
-- arithmetic exceptions of `decimal`, and chains of fallible steps.
use syn_antona.Prelude.{String, Bool, true, false, Option, none, some, ◌≡◌, refl}

pub data Error : Type 0 where
  -- decimal.InvalidOperation and decimal.DivisionByZero
  arithmetic : Error
  value_error : String → Error
  key_error : String → Error
  runtime_error : String → Error
  exchange_error : String → Error
  permission_error : String → Error
  duplicate_trade : String → Error
  duplicate_order : Error
  client_order_id_collision : Error
  order_outcome_unknown : Error
  controlled_live_blocked : String → Error
  -- sqlalchemy.exc.IntegrityError
  integrity_error : Error
  order_rejected : Error
  reconciliation_required : String → Error
  protection_failure : String → Error

pub data Result {ℓ} (A : Type ℓ) : Type ℓ where
  ok : A → Result A
  err : Error → Result A

module _ {ℓ κ} {A : Type ℓ} {B : Type κ} where
  -- What follows a call that returned; an exception goes through.
  infixl 5 ◌>>=◌
  abbrev pub ◌>>=◌ : Result A → (A → Result B) → Result B
  m >>= next = elim m [ ok a ↦ next a | err e ↦ err e ]

  -- A block that returned: its first call did, and so did what follows it.
  pub >>=-ok :
      (m : Result A) (next : A → Result B) {b : B}
      → (m >>= next) ≡ ok b
      → (a : A) × (m ≡ ok a) × (next a ≡ ok b)
  >>=-ok (ok a) next returned = (a, refl, returned)
  >>=-ok (err e) next raised = cc

  -- A block returns, when its first call does, and then what follows it.
  pub >>=-defined :
      (m : Result A) (next : A → Result B)
      → (a : A) × (m ≡ ok a)
      → ((a : A) → (b : B) × (next a ≡ ok b))
      → (b : B) × ((m >>= next) ≡ ok b)
  >>=-defined (ok a) next returned rest = rest a
  >>=-defined (err e) next (a, returned) rest = cc

infixl 5 ◌>>◌
abbrev pub ◌>>◌ {ℓ} : {B : Type ℓ} → Result (Unit {0}) → Result B → Result B
◌>>◌ m k = m >>= (λ _. k)

-- `if test: raise e`
abbrev pub raise_if : Bool → Error → Result (Unit {0})
raise_if true e = err e
raise_if false e = ok tt

abbrev pub or_raise {ℓ} : {A : Type ℓ} → Option A → Error → Result A
or_raise none e = err e
or_raise (some a) e = ok a

pub ok_injective {ℓ} : {A : Type ℓ} {a b : A} → ok a ≡ ok b → a ≡ b
ok_injective h = cc
