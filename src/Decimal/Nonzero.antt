-- ===== src/Decimal/Nonzero.antt =====
-- Rounding to the context never turns a value into zero, so that a sum of losses is a loss and a
-- quotient by it is defined.
use native.Mathlib.Nat.{pow-suc, le-div_iff_mul-le, one-le-pow, le_trans, pow-le-pow_right}
use syn_antona.Prelude.{
  ℕ, zero, suc, ◌+◌, ◌-◌, ◌/◌, ◌^◌, ◌≤◌, ◌≡◌, refl, true, false, List, [], ◌∷◌, arith, ltb, ◌==◌,
  if◌then◌else◌, inl, inr, Bool-cases, All,
}
use syn_antona.Prelude.Int.{
  ℤ, sub_ℕ, pos, negsuc, pos_part, neg_part, ◌+ℤ◌, ◌*ℤ◌, magnitude, is_negative, signed,
}
use syn_antona.Prelude.Errors.{Error, ok, err}
use syn_antona.Decimal.Sign.{scale_parts}
use syn_antona.Decimal.Digits.{digits, digits_within, prec}
use syn_antona.Decimal.Ops.{
  Decimal, zero_d, ◌≤D◌, ◌<D◌, ◌+D◌, ◌/D◌, abs_d, half_even, divide, scaled, fix, sum_d,
}

pred-suc : (d : ℕ) → suc d - 1 ≡ d
pred-suc d = omega arith

one_more : (d n : ℕ) → 1 ≤ d → 10 ^ (d - 1) ≤ n / 10 → 10 ^ d ≤ n
one_more zero n h g = omega arith
one_more (suc d) n h g = rw (pow-suc 10 d) (omega (arith, rw pred-suc at g))

-- A number with d digits is at least 10 ^ (d - 1).
digits_within-lower :
    (fuel n : ℕ) → 1 ≤ n → (1 ≤ digits_within fuel n) × (10 ^ (digits_within fuel n - 1) ≤ n)
unfolding digits_within
digits_within-lower zero n h = (omega arith, h)
digits_within-lower (suc fuel) n h = elim (Bool-cases (ltb n 10)) [
  | inl short ↦ rw (short, digits_within) (omega arith, h)
  | inr long ↦
      let rest = digits_within-lower fuel (n / 10) (ground (arith, long)) in
      rw (long, digits_within, pred-suc)
        (omega arith, one_more (digits_within fuel (n / 10)) n rest.0 rest.1)
]

-- Dropping the digits beyond the precision leaves something.
dropped-pos : (m : ℕ) → 1 ≤ m → 1 ≤ m / 10 ^ (digits m - prec)
unfolding digits
dropped-pos m h =
    let (some_digit, lower) = digits_within-lower m m h in
    (le-div_iff_mul-le (one-le-pow (digits m - prec) 10 (omega arith))).1 (
      le_trans (omega arith) (
        le_trans
          (pow-le-pow_right {n = 10} (omega arith) {i = digits m - prec} {j = digits m - 1}
            (omega (arith, some_digit)))
          lower))

negative-magnitude : (c : ℤ) → is_negative c ≡ true → 1 ≤ magnitude c
negative-magnitude (pos n) h = ground arith
negative-magnitude (negsuc n) h = omega arith

divide-pos : (n d : ℕ) → 1 ≤ n / d → 1 ≤ divide half_even false n d
unfolding divide
divide-pos n d h = ground arith

scaled-negative :
    (c : ℤ) (up dn : ℕ) → is_negative c ≡ true → is_negative (scaled c up dn).coef ≡ true
unfolding scaled ◌*ℤ◌
scaled-negative (pos n) up dn h = ground arith
scaled-negative (negsuc n) up dn h =
    let some_power = one-le-pow (dn - up) 10 (omega arith) in grind (arith, some_power)

signed-negative : (n : ℕ) → 1 ≤ n → is_negative (signed true n) ≡ true
signed-negative n h = ground arith

fix-negative : (x : Decimal) → is_negative x.coef ≡ true → is_negative (fix x).coef ≡ true
unfolding fix
fix-negative x h = elim (Bool-cases (digits (magnitude x.coef) - prec == 0)) [
  | inl short ↦ rw (short, if◌then◌else◌) h
  | inr long ↦
      rw (long, if◌then◌else◌)
        (scaled-negative _ x.exp _ (
          rw h (
            signed-negative _
              (divide-pos _ _ (dropped-pos (magnitude x.coef) (negative-magnitude x.coef h))))))
]

scaled-nonzero : (c : ℤ) (up dn : ℕ) → 1 ≤ magnitude c → 1 ≤ magnitude (scaled c up dn).coef
unfolding scaled
scaled-nonzero c up dn h =
    let some_power = one-le-pow (dn - up) 10 (omega arith) in
    let parts = scale_parts c (10 ^ (dn - up)) in grind (arith, some_power, parts)

fix-positive : (m e : ℕ) → 1 ≤ m → 1 ≤ magnitude (fix (record { coef = pos m; exp = e })).coef
unfolding fix
fix-positive m e h = elim (Bool-cases (digits (m + 0) - prec == 0)) [
  | inl short ↦ rw (short, if◌then◌else◌) (omega arith)
  | inr long ↦
      rw (long, if◌then◌else◌)
        (scaled-nonzero _ e _
          (omega (arith, divide-pos (m + 0) _ (dropped-pos (m + 0) (omega arith)))))
]

pub abs-nonzero : (a : Decimal) → is_negative a.coef ≡ true → 1 ≤ magnitude (abs_d a).coef
unfolding abs_d
abs-nonzero a h = fix-positive (magnitude a.coef) a.exp (negative-magnitude a.coef h)

negative-parts : (c : ℤ) → is_negative c ≡ true → (pos_part c ≡ 0) × (1 ≤ neg_part c)
negative-parts (pos n) h = ground arith
negative-parts (negsuc n) h = (refl, omega arith)

below-zero-parts : (c : ℤ) → 1 ≤ neg_part c → is_negative c ≡ true
below-zero-parts (pos n) h = ground arith
below-zero-parts (negsuc n) h = refl

pub below_zero : (a : Decimal) → (a <D zero_d) ≡ true → is_negative a.coef ≡ true
unfolding ◌≤D◌
below_zero a h = below-zero-parts a.coef (grind arith)

sub_ℕ-negative : (a b : ℕ) → suc a ≤ b → is_negative (sub_ℕ a b) ≡ true
sub_ℕ-negative a b h = ground arith

add-negative :
    (a b : Decimal)
    → pos_part a.coef ≡ 0
    → is_negative b.coef ≡ true
    → is_negative (a +D b).coef ≡ true
unfolding ◌+D◌ ◌+ℤ◌
add-negative a b h g =
    let left = scale_parts a.coef (10 ^ b.exp) in
    let right = scale_parts b.coef (10 ^ a.exp) in
    let (none_above, some_below) = negative-parts b.coef g in
    let some_power = one-le-pow a.exp 10 (omega arith) in
    fix-negative _
      (sub_ℕ-negative _ _ (grind (arith, left, right, none_above, some_below, some_power)))

sum-negative :
    (acc : Decimal) (xs : List Decimal)
    → is_negative acc.coef ≡ true
    → All (λ x. (x <D zero_d) ≡ true) xs
    → is_negative (sum_d acc xs).coef ≡ true
unfolding sum_d
sum-negative acc [] h all = h
sum-negative acc (x ∷ xs) h (first, rest) =
    sum-negative (acc +D x) xs
      (add-negative acc x (negative-parts acc.coef h).0 (below_zero x first)) rest

-- The sum of some losses is below zero.
pub losses-negative :
    (x : Decimal) (xs : List Decimal)
    → All (λ y. (y <D zero_d) ≡ true) (x ∷ xs)
    → is_negative (sum_d zero_d (x ∷ xs)).coef ≡ true
unfolding sum_d
losses-negative x xs (first, rest) =
    sum-negative (zero_d +D x) xs (add-negative zero_d x refl (below_zero x first)) rest

unless-zero :
    {A : Type 0} (n : ℕ) (e : Error) (x : A)
    → 1 ≤ n
    → (q : A) × ((if n == 0 then err e else ok x) ≡ ok q)
unless-zero n e x h = (x, ground arith)

-- A divisor that is not zero.
pub quotient-defined : (a b : Decimal) → 1 ≤ magnitude b.coef → (q : Decimal) × (a /D b ≡ ok q)
unfolding ◌/D◌
quotient-defined a b h = unless-zero (magnitude b.coef) Error.arithmetic _ h
