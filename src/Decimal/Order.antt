-- ===== src/Decimal/Order.antt =====
-- The order of decimals is a total preorder, whatever the exponents.
use native.Mathlib.Nat.{le_of_mul-le-mul_right, mul-le-mul_right, one-le-pow}
use syn_antona.Prelude.{
  ℕ, zero, suc, ◌+◌, ◌*◌, ◌^◌, ◌≤◌, ◌<◌, ◌≡◌, refl, ◌⊎◌, inl, inr, Bool, true, false, not, arith,
  leb, le→leb, leb→le, ◌&&◌, Bool-cases,
}
use syn_antona.Prelude.Int.{pos_part, neg_part}
use syn_antona.Decimal.Ops.{Decimal, ◌≤D◌, ◌<D◌, max_d, min_d}

pow_pos : (e : ℕ) → 0 < 10 ^ e
pow_pos e = one-le-pow e 10 (omega arith)

leb_total : (m n : ℕ) → leb m n ≡ false → leb n m ≡ true
leb_total m n h = ground arith

-- Cross-multiplied fractions `a / x ≤ b / y ≤ c / z`, each numerator as a difference.
cross_trans :
    (p n q m r k x y z : ℕ)
    → 0 < y
    → p * y + m * x ≤ q * x + n * y
    → q * z + k * y ≤ r * y + m * z
    → p * z + k * x ≤ r * x + n * z
cross_trans p n q m r k x y z pos h g =
    le_of_mul-le-mul_right {k = y} (omega (arith, mul-le-mul_right z h, mul-le-mul_right x g)) pos

pub ≤D_refl : (a : Decimal) → (a ≤D a) ≡ true
unfolding ◌≤D◌
≤D_refl a = ground arith

pub ≤D_trans : (a b c : Decimal) → (a ≤D b) ≡ true → (b ≤D c) ≡ true → (a ≤D c) ≡ true
unfolding ◌≤D◌
≤D_trans a b c h g = le→leb _ _ (
    cross_trans (pos_part a.coef) (neg_part a.coef) (pos_part b.coef) (neg_part b.coef)
      (pos_part c.coef) (neg_part c.coef) (10 ^ a.exp) (10 ^ b.exp) (10 ^ c.exp) (pow_pos b.exp)
      (leb→le _ _ h) (leb→le _ _ g))

pub ≤D_total : (a b : Decimal) → (a ≤D b) ≡ false → (b ≤D a) ≡ true
unfolding ◌≤D◌
≤D_total a b h = ground arith

-- `a < b` is `not (b ≤ a)`.
pub <D→≤D : (a b : Decimal) → (a <D b) ≡ true → (a ≤D b) ≡ true
<D→≤D a b h = ground (arith, ≤D_total b a)

pub <D_≤D_trans : (a b c : Decimal) → (a <D b) ≡ true → (b ≤D c) ≡ true → (a <D c) ≡ true
<D_≤D_trans a b c h g = ground (arith, ≤D_trans b c a)

pub ≤D_<D_trans : (a b c : Decimal) → (a ≤D b) ≡ true → (b <D c) ≡ true → (a <D c) ≡ true
≤D_<D_trans a b c h g = ground (arith, ≤D_trans c a b)

pub max_d_bounds : (a b : Decimal) → ((a ≤D max_d a b) ≡ true) × ((b ≤D max_d a b) ≡ true)
unfolding max_d
max_d_bounds a b = ground (arith, ≤D_refl a, ≤D_refl b, ≤D_total b a)

pub min_d_bounds : (a b : Decimal) → ((min_d a b ≤D a) ≡ true) × ((min_d a b ≤D b) ≡ true)
unfolding min_d
min_d_bounds a b = ground (arith, ≤D_refl a, ≤D_refl b, ≤D_total a b)

-- A bound of both is a bound of the smaller, and of the larger.
pub min_d_greatest : (a b c : Decimal) → (c <D a) ≡ true → (c <D b) ≡ true → (c <D min_d a b) ≡ true
unfolding min_d
min_d_greatest a b c h g = ground arith

pub max_d_least : (a b c : Decimal) → (a <D c) ≡ true → (b <D c) ≡ true → (max_d a b <D c) ≡ true
unfolding max_d
max_d_least a b c h g = ground arith

pub ruleset order_laws = (arith, ≤D_refl, ≤D_trans, ≤D_total)
