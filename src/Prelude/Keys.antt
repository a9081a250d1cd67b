-- ===== src/Prelude/Keys.antt =====
-- Equality of dictionary keys: texts, and tuples of texts.
use text.Mathlib.Text.{◌==◌ as str_eq}
use text.Mathlib.TextEquality.{eq_iff}
use syn_antona.Prelude.{String, ◌≡◌, refl, ◌↔◌, Bool, true, ◌&&◌, arith}

-- A type whose values can serve as keys.
pub record Key {ℓ} (K : Type ℓ) : Type ℓ where
  pub same : K → K → Bool
  pub same_iff : (j k : K) → (same j k ≡ true) ↔ (j ≡ k)

module _ {ℓ} {K : Type ℓ} ⦃key : Key K⦄ where
  infix 50 ◌==◌
  abbrev pub ◌==◌ : K → K → Bool
  j == k = key.same j k

  pub ==_iff : (j k : K) → ((j == k) ≡ true) ↔ (j ≡ k)
  ==_iff j k = key.same_iff j k

  pub ==_comm : (j k : K) → (j == k) ≡ (k == j)
  ==_comm j k = ground (arith, ==_iff j k, ==_iff k j)

  pub ==_self : (k : K) → (k == k) ≡ true
  ==_self k = (==_iff k k).1 refl

instance abbrev pub text_key : Key String
text_key = record { same_iff = eq_iff; same = str_eq }

pub pair_iff : (j k : String × String) → ((str_eq j.0 k.0 && str_eq j.1 k.1) ≡ true) ↔ (j ≡ k)
pair_iff (a, b) (c, d) = ground (arith, eq_iff a c, eq_iff b d)

instance abbrev pub pair_key : Key (String × String)
pair_key = record { same = λ j k. str_eq j.0 k.0 && str_eq j.1 k.1; same_iff = pair_iff }

pub triple_iff :
    (j k : String × String × String)
    → ((str_eq j.0 k.0 && str_eq j.1 k.1 && str_eq j.2 k.2) ≡ true) ↔ (j ≡ k)
triple_iff (a, b, c) (x, y, z) = ground (arith, eq_iff a x, eq_iff b y, eq_iff c z)

instance abbrev pub triple_key : Key (String × String × String)
triple_key = record {
  same = λ j k. str_eq j.0 k.0 && str_eq j.1 k.1 && str_eq j.2 k.2;
  same_iff = triple_iff;
}
