-- ===== src/Decimal/Tests.antt =====
-- The operations on values that CPython's `decimal` gives.
use syn_antona.Prelude.{◌≡◌, refl}
use syn_antona.Prelude.Int.{negsuc}
use syn_antona.Prelude.Errors.{ok, err, Error}
use syn_antona.Decimal.Ops.{
  dec, ◌+D◌, ◌-D◌, ◌/D◌, quantize, half_even, to_integral, floor, evaluation,
}

sum_of_tenths : dec 1 1 +D dec 25 2 ≡ dec 350 3
unfolding evaluation
sum_of_tenths = refl

third : dec 1 0 /D dec 3 0 ≡ ok (dec 3333333333333333333333333333 28)
unfolding evaluation
third = refl

two_thirds : dec 2 0 /D dec 3 0 ≡ ok (dec 6666666666666666666666666667 28)
unfolding evaluation
two_thirds = refl

by_zero : dec 1 0 /D dec 0 0 ≡ err Error.arithmetic
unfolding evaluation
by_zero = refl

cents : quantize (dec 12345 3) 2 half_even ≡ ok (dec 1234 2)
unfolding evaluation
cents = refl

below_zero : to_integral (dec 1 1 -D dec 25 2) floor ≡ record { coef = negsuc 0; exp = 0 }
unfolding evaluation
below_zero = refl
