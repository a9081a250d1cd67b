-- ===== src/Decimal/Digits.antt =====
-- The number of decimal digits of a coefficient: `len(str(n))`.
use syn_antona.Prelude.{ℕ, zero, suc, ◌/◌, true, false, ltb}

-- The precision of the default context.
abbrev pub prec : ℕ
prec = 28

-- One round strips the last digit. `n` rounds are enough for `n`.
unfoldable pub digits_within : ℕ → ℕ → ℕ
digits_within zero n = 1
digits_within (suc fuel) n = elim (ltb n 10) [
  | true ↦ 1
  | false ↦ suc (digits_within fuel (n / 10))
]

unfoldable pub digits : ℕ → ℕ
unfolding digits_within
digits n = digits_within n n
