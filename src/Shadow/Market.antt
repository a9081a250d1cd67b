-- ===== src/Shadow/Market.antt =====
-- The quotes of app/shadow/models.py, and the spot profiles of app/backtest/costs.py.
use syn_antona.Prelude.{ℕ, String, List, if◌then◌else◌}
use syn_antona.Prelude.Keys.{text_key, ◌==◌}
use syn_antona.Prelude.Errors.{Error, Result, ok, err, ◌>>=◌}
use syn_antona.Decimal.{Decimal, dec, zero_d, is_zero, ◌+D◌, ◌-D◌, ◌/D◌}

pub record InstrumentConstraints : Type 0 where
  pub quantity_step : Decimal
  pub minimum_quantity : Decimal
  pub minimum_notional : Decimal
  pub price_step : Decimal

pub record LiveMarketSnapshot : Type 0 where
  pub exchange : String
  pub symbol : String
  pub bid : Decimal
  pub ask : Decimal
  pub last : Decimal
  pub exchange_timestamp : ℕ
  pub received_at : ℕ
  pub bids : List (Decimal × Decimal)
  pub asks : List (Decimal × Decimal)
  pub constraints : InstrumentConstraints

unfoldable pub midpoint : LiveMarketSnapshot → Result Decimal
midpoint s = (s.bid +D s.ask) /D dec 2 0

unfoldable pub snapshot_spread : LiveMarketSnapshot → Decimal
snapshot_spread s = s.ask -D s.bid

unfoldable pub snapshot_spread_pct : LiveMarketSnapshot → Result Decimal
snapshot_spread_pct s =
    midpoint s >>= (λ m. if is_zero m then ok zero_d else snapshot_spread s /D m)

-- The fields of a cost profile that the engine reads.
pub record CostProfile : Type 0 where
  pub taker_fee : Decimal
  pub slippage : Decimal

-- `PHASE4E_SPOT_PROFILES[exchange]`
unfoldable pub spot_profile : String → Result CostProfile
spot_profile exchange =
    if exchange == "bybit"
    then ok (record { taker_fee = dec 1 3; slippage = dec 20 5 })
    else if exchange == "binance"
    then ok (record { taker_fee = dec 1 3; slippage = dec 15 5 })
    else if exchange == "okx"
    then ok (record { taker_fee = dec 1 3; slippage = dec 25 5 })
    else if exchange == "bitget"
    then ok (record { taker_fee = dec 1 3; slippage = dec 30 5 })
    else err (Error.key_error exchange)

abbrev pub impact_per_leg : Decimal
impact_per_leg = dec 5 5

abbrev pub adverse : CostProfile → Decimal
adverse p = p.slippage +D impact_per_leg
