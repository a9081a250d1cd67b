-- ===== src/Protector/Momentum.antt =====
-- The averages over closed bars, and the adverse reversal: `atr`, `ema` and
-- `adverse_momentum_reversal` of app/trading/profit_protector.py.
use syn_antona.Prelude.{
  ℕ, String, ◌-◌, ltb, Bool, true, false, Option, none, some, List, [], ◌∷◌, map, length, take,
  drop, if◌then◌else◌, ◌&&◌, ◌||◌,
}
use syn_antona.Prelude.Errors.{Result, ok, ◌>>=◌}
use syn_antona.Decimal.{
  Decimal, dec, zero_d, one_d, ◌+D◌, ◌-D◌, ◌*D◌, ◌/D◌, ◌≤D◌, ◌<D◌, abs_d, max_d, sum_d,
}
use syn_antona.Protector.Costs.{is_long}

pub record ClosedBar : Type 0 where
  pub opened_at_ms : ℕ
  pub close : Decimal
  pub high : Decimal
  pub low : Decimal

-- `xs[-n:]`
abbrev pub last_n {ℓ} : {A : Type ℓ} → ℕ → List A → List A
last_n n xs = drop (length xs - n) xs

abbrev pub true_range : ClosedBar → ClosedBar → Decimal
true_range previous current =
    max_d (max_d (current.high -D current.low) (abs_d (current.high -D previous.close)))
      (abs_d (current.low -D previous.close))

-- The ranges of a bar and those that follow it.
unfoldable pub ranges_from : ClosedBar → List ClosedBar → List Decimal
ranges_from previous [] = []
ranges_from previous (current ∷ bars) = true_range previous current ∷ ranges_from current bars

unfoldable pub true_ranges : List ClosedBar → List Decimal
true_ranges [] = []
true_ranges (bar ∷ bars) = ranges_from bar bars

-- `atr(bars, period)` with the period 14 that every caller takes.
unfoldable pub atr : List ClosedBar → Result (Option Decimal)
atr bars =
    if ltb (length bars) 15
    then ok none
    else do average ← sum_d zero_d (true_ranges (last_n 15 bars)) /D dec 14 0; ok (some average)

unfoldable pub ema_steps : Decimal → Decimal → List Decimal → Decimal
ema_steps alpha value [] = value
ema_steps alpha value (item ∷ items) =
    ema_steps alpha ((item *D alpha) +D (value *D (one_d -D alpha))) items

-- `ema(values, period)` with the period 9 that every caller takes.
unfoldable pub ema : List Decimal → Result (Option Decimal)
ema values = if ltb (length values) 9 then ok none else do
  start ← sum_d zero_d (take 9 values) /D dec 9 0
  alpha ← dec 2 0 /D dec 10 0
  ok (some (ema_steps alpha start (drop 9 values)))

-- `all(a > b for a, b in zip(xs, xs[1:]))` for the given order.
unfoldable pub steps_down : (Decimal → Decimal → Bool) → List Decimal → Bool
steps_down above [] = true
steps_down above (x ∷ []) = true
steps_down above (x ∷ y ∷ xs) =
    let rest = steps_down above (y ∷ xs) in if above x y then rest else false

-- `xs[0]` and `xs[-1]` of lists that the guard on their length keeps from being empty.
abbrev pub first_of : List Decimal → Decimal
first_of [] = zero_d
first_of (x ∷ xs) = x

abbrev pub last_of : List Decimal → Decimal
last_of xs = first_of (last_n 1 xs)

unfoldable pub is_adverse : String → List Decimal → Decimal → Decimal → Bool
is_adverse side closes current_atr average =
    let last = last_of closes in
    let last_four = last_n 4 closes in
    if is_long side
    then steps_down (λ a b. b <D a) last_four
      && (last <D average)
      && ((current_atr *D dec 5 1) ≤D (first_of last_four -D last))
    else steps_down (λ a b. a <D b) last_four
      && (average <D last)
      && ((current_atr *D dec 5 1) ≤D (last -D first_of last_four))

unfoldable pub adverse_momentum_reversal : String → List ClosedBar → Decimal → Result Bool
adverse_momentum_reversal side bars current_atr =
    if ltb (length bars) 12 || (current_atr ≤D zero_d) then ok false else do
      average ← ema (map (λ bar. bar.close) bars)
      ok (elim average [
        | none ↦ false
        | some a ↦ is_adverse side (map (λ bar. bar.close) bars) current_atr a
      ])
