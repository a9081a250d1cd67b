-- ===== src/Decimal/Ops.antt =====
-- The operations of `Decimal`.
use syn_antona.Prelude.{
  ℕ, ◌+◌, ◌-◌, ◌*◌, ◌/◌, ◌%◌, ◌^◌, Bool, true, false, not, ltb, leb, ◌==◌, ◌&&◌, if◌then◌else◌,
  List, [], ◌∷◌,
}
use syn_antona.Prelude.Int.{
  ℤ, pos, pos_part, neg_part, ◌+ℤ◌, ◌-ℤ◌, ◌*ℤ◌, magnitude, is_negative, signed,
}
use syn_antona.Prelude.Errors.{Result, ok, err, Error}
use syn_antona.Decimal.Digits.{digits, prec}

pub record Decimal : Type 0 where
  pub coef : ℤ
  pub exp : ℕ

-- The literal `c / 10 ^ e`: `dec 55 5` is Decimal("0.00055").
abbrev pub dec : ℕ → ℕ → Decimal
dec c e = record { coef = pos c; exp = e }

abbrev pub zero_d : Decimal
zero_d = dec 0 0

abbrev pub one_d : Decimal
one_d = dec 1 0

pub data Rounding : Type 0 where
  half_even down floor ceiling : Rounding

-- The magnitude `n / d` to a whole number, for a value of the given sign.
unfoldable pub divide : Rounding → Bool → ℕ → ℕ → ℕ
divide half_even negative n d =
    if ltb (2 * (n % d)) d
    then n / d
    else if ltb d (2 * (n % d))
    then n / d + 1
    else n / d + (n / d) % 2
divide down negative n d = n / d
divide floor negative n d = if negative && ltb 0 (n % d) then n / d + 1 else n / d
divide ceiling negative n d = if not negative && ltb 0 (n % d) then n / d + 1 else n / d

-- `coef / 10 ^ e`, where the exponent is the difference `up - down`.
unfoldable pub scaled : ℤ → ℕ → ℕ → Decimal
scaled c up dn =
    if leb dn up
    then record { coef = c; exp = up - dn }
    else record { coef = c *ℤ pos (10 ^ (dn - up)); exp = 0 }

-- `Decimal._fix`: the result of an operation, rounded to the precision of the context.
unfoldable pub fix : Decimal → Decimal
fix x =
    let m = magnitude x.coef in
    let drop = digits m - prec in
    if drop == 0
    then x
    else scaled (signed (is_negative x.coef) (divide half_even false m (10 ^ drop))) x.exp drop

infixl 65 ◌+D◌ ◌-D◌
infixl 70 ◌*D◌ ◌/D◌
infix 50 ◌≤D◌ ◌<D◌ ◌==D◌
unfoldable pub ◌+D◌ : Decimal → Decimal → Decimal
a +D b = fix (record {
  coef = a.coef *ℤ pos (10 ^ b.exp) +ℤ b.coef *ℤ pos (10 ^ a.exp);
  exp = a.exp + b.exp;
})

unfoldable pub ◌-D◌ : Decimal → Decimal → Decimal
a -D b = fix (record {
  coef = a.coef *ℤ pos (10 ^ b.exp) -ℤ b.coef *ℤ pos (10 ^ a.exp);
  exp = a.exp + b.exp;
})

unfoldable pub ◌*D◌ : Decimal → Decimal → Decimal
a *D b = fix (record { coef = a.coef *ℤ b.coef; exp = a.exp + b.exp })

-- `-a` and `abs(a)` round to the context too.
unfoldable pub neg_d : Decimal → Decimal
neg_d a = fix (record a { coef = pos 0 -ℤ a.coef })

unfoldable pub abs_d : Decimal → Decimal
abs_d a = fix (record a { coef = pos (magnitude a.coef) })

-- The quotient of two magnitudes carries one or two digits more than the precision; a nonzero
-- remainder is kept in the last digit, so that `fix` rounds as if the quotient were exact.
unfoldable pub quotient : ℕ → ℕ → ℕ
quotient n d = let q = n / d in if n % d == 0 then q else if q % 5 == 0 then q + 1 else q

unfoldable pub ◌/D◌ : Decimal → Decimal → Result Decimal
a /D b =
    let m = magnitude a.coef in
    let n = magnitude b.coef in
    let up = digits n + prec + 1 - digits m in
    let dn = digits m - (digits n + prec + 1) in
    let sign = not (is_negative a.coef) && is_negative b.coef in
    let sign' = is_negative a.coef && not (is_negative b.coef) in
    let c = quotient (m * 10 ^ up) (n * 10 ^ dn) in
    if n == 0
    then err Error.arithmetic
    else ok
        (fix (scaled (if sign then signed true c else signed sign' c) (a.exp + up) (b.exp + dn)))

-- Comparisons are exact: both sides are brought to one denominator.
unfoldable pub ◌≤D◌ : Decimal → Decimal → Bool
a ≤D b =
    leb (pos_part a.coef * 10 ^ b.exp + neg_part b.coef * 10 ^ a.exp)
      (pos_part b.coef * 10 ^ a.exp + neg_part a.coef * 10 ^ b.exp)

abbrev pub ◌<D◌ : Decimal → Decimal → Bool
a <D b = not (b ≤D a)

abbrev pub ◌==D◌ : Decimal → Decimal → Bool
a ==D b = (a ≤D b) && (b ≤D a)

-- `max(a, b)` and `min(a, b)` keep the first of equals.
unfoldable pub max_d : Decimal → Decimal → Decimal
max_d a b = if a <D b then b else a

unfoldable pub min_d : Decimal → Decimal → Decimal
min_d a b = if b <D a then b else a

-- `not a`: the truth value of a number.
abbrev pub is_zero : Decimal → Bool
is_zero a = magnitude a.coef == 0

-- `sum(xs, start)`
unfoldable pub sum_d : Decimal → List Decimal → Decimal
sum_d acc [] = acc
sum_d acc (x ∷ xs) = sum_d (acc +D x) xs

-- The magnitude of `a` in units of `10 ^ (- places)`, rounded.
unfoldable pub rescale : Decimal → ℕ → Rounding → ℕ
rescale a places mode =
    if leb a.exp places
    then magnitude a.coef * 10 ^ (places - a.exp)
    else divide mode (is_negative a.coef) (magnitude a.coef) (10 ^ (a.exp - places))

-- `a.quantize(Decimal(1).scaleb(-places), rounding)`: more digits than the context holds raise.
unfoldable pub quantize : Decimal → ℕ → Rounding → Result Decimal
quantize a places mode =
    let m = rescale a places mode in
    if ltb prec (digits m)
    then err Error.arithmetic
    else ok (record { coef = signed (is_negative a.coef) m; exp = places })

-- `a.to_integral_value(rounding=…)`: neither rounds to the context nor raises.
unfoldable pub to_integral : Decimal → Rounding → Decimal
to_integral a mode = record { coef = signed (is_negative a.coef) (rescale a 0 mode); exp = 0 }

-- `a % b == 0`: a quotient with more whole digits than the context holds raises.
unfoldable pub is_multiple : Decimal → Decimal → Result Bool
is_multiple a b =
    let n = magnitude a.coef * 10 ^ b.exp in
    let d = magnitude b.coef * 10 ^ a.exp in
    if d == 0
    then err Error.arithmetic
    else if ltb prec (digits (n / d))
    then err Error.arithmetic
    else ok (n % d == 0)

-- A test that computes with decimals names this, which opens every operation.
unfoldable pub evaluation : Unit {0}
unfolding ◌+ℤ◌ ◌-ℤ◌ ◌*ℤ◌ digits divide scaled fix ◌+D◌ ◌-D◌ ◌*D◌ neg_d abs_d quotient ◌/D◌ ◌≤D◌
    max_d min_d sum_d rescale quantize to_integral is_multiple
evaluation = tt
