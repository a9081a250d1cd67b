-- ===== src/Decimal/Quantize.antt =====
-- What rounding to a number of places does to a value.
use native.Mathlib.Nat.{pow-suc, mul_assoc, mul-le-mul_right, div-mul-le_self, add-zero, add-suc}
use syn_antona.Prelude.{
  ℕ, zero, suc, ◌+◌, ◌-◌, ◌*◌, ◌/◌, ◌^◌, ◌≤◌, ◌≡◌, Bool, true, false, arith, leb, ltb, leb→le,
  if◌then◌else◌, inl, inr, Bool-cases, ap, ◌∙◌, sym,
}
use syn_antona.Prelude.Int.{pos, magnitude, is_negative, signed}
use syn_antona.Prelude.Errors.{ok, err, Error}
use syn_antona.Decimal.Digits.{digits, prec}
use syn_antona.Decimal.Ops.{Decimal, zero_d, ◌≤D◌, ◌<D◌, down, divide, rescale, quantize}

pow-add : (a b : ℕ) → 10 ^ (a + b) ≡ 10 ^ a * 10 ^ b
pow-add a zero = rw add-zero (omega arith)
pow-add a (suc b) = rw (add-suc, pow-suc 10 (a + b), pow-suc 10 b, pow-add a b) (mul_assoc _ _ _)

pow-sub : (a b : ℕ) → b ≤ a → 10 ^ (a - b) * 10 ^ b ≡ 10 ^ a
pow-sub a b h = sym (pow-add (a - b) b) ∙ ap (λ (t : ℕ). 10 ^ t) (omega arith)

scale_up : (m e p : ℕ) → e ≤ p → m * 10 ^ (p - e) * 10 ^ e ≡ m * 10 ^ p
scale_up m e p h = mul_assoc m _ _ ∙ ap (λ (t : ℕ). m * t) (pow-sub p e h)

scale_down : (m e p : ℕ) → p ≤ e → m / 10 ^ (e - p) * 10 ^ e ≤ m * 10 ^ p
scale_down m e p h = rw (← pow-sub e p h) (
    rw (← mul_assoc (m / 10 ^ (e - p)) (10 ^ (e - p)) (10 ^ p))
      (mul-le-mul_right (10 ^ p) (div-mul-le_self m (10 ^ (e - p)))))

-- Truncation loses digits only.
rescale_down : (a : Decimal) (p : ℕ) → rescale a p down * 10 ^ a.exp ≤ magnitude a.coef * 10 ^ p
unfolding rescale divide
rescale_down a p = elim (Bool-cases (leb a.exp p)) [
  | inl longer ↦
      rw (longer, if◌then◌else◌)
        (omega (arith, scale_up (magnitude a.coef) a.exp p (leb→le _ _ longer)))
  | inr shorter ↦ rw (shorter, if◌then◌else◌) (scale_down (magnitude a.coef) a.exp p (ground arith))
]

-- The fraction `m / 10 ^ p` that truncation leaves of a value that is not negative.
truncated : ℕ → ℕ → Decimal
truncated m p = record { coef = pos m; exp = p }

truncated_bounds :
    (a : Decimal) (p m : ℕ)
    → is_negative a.coef ≡ false
    → m * 10 ^ a.exp ≤ magnitude a.coef * 10 ^ p
    → ((truncated m p ≤D a) ≡ true) × ((zero_d ≤D truncated m p) ≡ true)
unfolding truncated ◌≤D◌
truncated_bounds a p m n h = ground arith

truncated_within :
    (neg : Bool) (m p : ℕ) {r : Decimal}
    → neg ≡ false
    → (if ltb prec (digits m)
        then err Error.arithmetic
        else ok (record { coef = signed neg m; exp = p }))
      ≡ ok r
    → r ≡ truncated m p
unfolding truncated
truncated_within neg m p n h = ground arith

quantize-eq-truncated :
    (a : Decimal) (p : ℕ) {r : Decimal}
    → is_negative a.coef ≡ false
    → quantize a p down ≡ ok r
    → r ≡ truncated (rescale a p down) p
unfolding quantize
quantize-eq-truncated a p n h = truncated_within (is_negative a.coef) (rescale a p down) p n h

-- Of a value that is not negative, `quantize(…, ROUND_DOWN)` gives no more, and nothing negative.
pub quantize_down_bounds :
    (a : Decimal) (p : ℕ) {r : Decimal}
    → is_negative a.coef ≡ false
    → quantize a p down ≡ ok r
    → ((r ≤D a) ≡ true) × ((zero_d ≤D r) ≡ true)
quantize_down_bounds a p n h =
    rw (quantize-eq-truncated a p n h) (truncated_bounds a p _ n (rescale_down a p))

negative_within :
    (neg : Bool) (m p : ℕ) {r : Decimal}
    → neg ≡ true
    → (if ltb prec (digits m)
        then err Error.arithmetic
        else ok (record { coef = signed neg m; exp = p }))
      ≡ ok r
    → (r ≤D zero_d) ≡ true
unfolding ◌≤D◌
negative_within neg m p n h = ground arith

quantize_negative :
    (a : Decimal) (p : ℕ) {r : Decimal}
    → is_negative a.coef ≡ true
    → quantize a p down ≡ ok r
    → (r ≤D zero_d) ≡ true
unfolding quantize
quantize_negative a p n h = negative_within (is_negative a.coef) (rescale a p down) p n h

-- A result above zero is no more than the value that was rounded down.
pub quantize_down_le :
    (a : Decimal) (p : ℕ) {r : Decimal}
    → quantize a p down ≡ ok r
    → (zero_d <D r) ≡ true
    → (r ≤D a) ≡ true
quantize_down_le a p h above = elim (Bool-cases (is_negative a.coef)) [
  | inl negative ↦ cc (quantize_negative a p negative h)
  | inr nonneg ↦ (quantize_down_bounds a p nonneg h).0
]
