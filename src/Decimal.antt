-- ===== src/Decimal.antt =====
-- Python's `decimal.Decimal` under the default context, as far as the trading code uses it: finite
-- values, 28 significant digits, ROUND_HALF_EVEN. A value is `coef / 10 ^ exp`; a positive
-- exponent is multiplied out, which no comparison and no operation can tell.
mod Digits
mod Ops
pub mod Nonzero
pub mod Order
pub mod Quantize
pub mod Sign
mod Tests
pub use Digits.{digits, prec}
pub use Ops.{Decimal, Rounding, half_even, down, floor, ceiling, dec, zero_d, one_d, is_zero}
pub use Ops.{◌<D◌, ◌==D◌}
unfoldable pub use Ops.{
  fix, ◌+D◌, ◌-D◌, ◌*D◌, ◌/D◌, neg_d, abs_d, ◌≤D◌, max_d, min_d, sum_d, divide, rescale, quantize,
  to_integral, is_multiple, evaluation,
}
