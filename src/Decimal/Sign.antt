-- ===== src/Decimal/Sign.antt =====
-- Rounding to the context keeps signs, so a difference tells how two values are ordered.
use syn_antona.Prelude.{
  ℕ, ◌+◌, ◌-◌, ◌*◌, ◌^◌, ◌≤◌, ◌≡◌, true, false, arith, leb→le, ◌==◌, if◌then◌else◌, inl, inr,
  Bool-cases,
}
use syn_antona.Prelude.Int.{
  ℤ, pos, negsuc, pos_part, neg_part, ◌-ℤ◌, ◌*ℤ◌, magnitude, is_negative, signed,
}
use syn_antona.Decimal.Digits.{digits, prec}
use syn_antona.Decimal.Ops.{
  Decimal, zero_d, ◌≤D◌, ◌<D◌, ◌-D◌, neg_d, half_even, divide, scaled, fix,
}

-- What is not above zero stays so when its digits are dropped.
signed_nonpos :
    (c : ℤ) (d : ℕ)
    → pos_part c ≡ 0
    → pos_part (signed (is_negative c) (divide half_even false (magnitude c) d)) ≡ 0
unfolding divide
signed_nonpos (pos n) d h = grind arith
signed_nonpos (negsuc n) d h = ground arith

scaled_nonpos : (c : ℤ) (up dn : ℕ) → pos_part c ≡ 0 → pos_part (scaled c up dn).coef ≡ 0
unfolding scaled ◌*ℤ◌
scaled_nonpos c up dn h = ground arith

fix_nonpos : (x : Decimal) → pos_part x.coef ≡ 0 → pos_part (fix x).coef ≡ 0
unfolding fix
fix_nonpos x h = elim (Bool-cases (digits (magnitude x.coef) - prec == 0)) [
  | inl short ↦ rw (short, if◌then◌else◌) h
  | inr long ↦ rw (long, if◌then◌else◌) (scaled_nonpos _ x.exp _ (signed_nonpos x.coef _ h))
]

-- The coefficient of an exact difference.
difference : Decimal → Decimal → ℤ
difference a b = a.coef *ℤ pos (10 ^ b.exp) -ℤ b.coef *ℤ pos (10 ^ a.exp)

pub scale_parts :
    (c : ℤ) (k : ℕ)
    → (pos_part (c *ℤ pos k) ≡ pos_part c * k) × (neg_part (c *ℤ pos k) ≡ neg_part c * k)
unfolding ◌*ℤ◌
scale_parts (pos n) k = ground arith
scale_parts (negsuc n) k = ground arith

-ℤ_nonpos : (x y : ℤ) → pos_part x + neg_part y ≤ pos_part y + neg_part x → pos_part (x -ℤ y) ≡ 0
unfolding ◌-ℤ◌
-ℤ_nonpos x y h = ground arith

difference_nonpos : (a b : Decimal) → (a ≤D b) ≡ true → pos_part (difference a b) ≡ 0
unfolding difference ◌≤D◌
difference_nonpos a b h =
    -ℤ_nonpos _ _ (
      omega (arith, leb→le _ _ h, scale_parts a.coef (10 ^ b.exp), scale_parts b.coef (10 ^ a.exp)))

nonpos-≤D : (x : Decimal) → pos_part x.coef ≡ 0 → (x ≤D zero_d) ≡ true
unfolding ◌≤D◌
nonpos-≤D x h = ground arith

pub sub_nonpos : (a b : Decimal) → (a ≤D b) ≡ true → ((a -D b) ≤D zero_d) ≡ true
unfolding ◌-D◌ difference
sub_nonpos a b h = nonpos-≤D _ (fix_nonpos _ (difference_nonpos a b h))

-- A difference above zero: the first is the larger.
pub sub_pos : (a b : Decimal) → (zero_d <D (a -D b)) ≡ true → (b <D a) ≡ true
sub_pos a b h = elim (Bool-cases (a ≤D b)) [ inl le ↦ cc (sub_nonpos a b le) | inr gt ↦ rw gt ]

negated_nonpos : (a : Decimal) → (zero_d ≤D a) ≡ true → pos_part (pos 0 -ℤ a.coef) ≡ 0
unfolding ◌≤D◌ ◌-ℤ◌
negated_nonpos a h = ground arith

-- A value that is not below zero, negated.
pub neg_nonpos : (a : Decimal) → (zero_d ≤D a) ≡ true → (neg_d a ≤D zero_d) ≡ true
unfolding neg_d
neg_nonpos a h = nonpos-≤D _ (fix_nonpos _ (negated_nonpos a h))
