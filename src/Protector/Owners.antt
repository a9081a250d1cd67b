-- ===== src/Protector/Owners.antt =====
-- Which position of the exchange belongs to which proposal: `owner_for_symbol` and the first half of
-- `sync` of app/trading/profit_protector.py. The texts of the exchange are read as decimals.
pub mod Owner
use Prim.Native.String.{◌++◌ as ◌+s◌}
use syn_antona.Prelude.{
  ℕ, zero, suc, ◌/◌, ◌%◌, leb, ltb, String, Bool, true, false, not, Option, none, some, List, [],
  ◌∷◌, map, any, if◌then◌else◌, ◌&&◌, ◌||◌,
}
use syn_antona.Prelude.Keys.{◌==◌, text_key}
use syn_antona.Prelude.Errors.{Result, ok, ◌>>=◌}
use syn_antona.Prelude.Tables.{find}
use syn_antona.Decimal.{Decimal, zero_d, ◌-D◌, ◌*D◌, ◌/D◌, ◌≤D◌, ◌<D◌, abs_d, is_zero, sum_d}
use syn_antona.Live.Profile.{controlled_live_v1}
use syn_antona.Live.Records.{ProposalStatus, OrderStatus, Proposal, ExecutionOrder, Database}
use syn_antona.Live.Execution.{CurrentInstrumentState}
use syn_antona.Protector.Costs.{PositionSnapshot, is_long, initial_risk_usdt, estimated_close_cost}
use syn_antona.Protector.Momentum.{ClosedBar}

-- A row of `read_open_positions`.
pub record OpenPosition : Type 0 where
  pub symbol : String
  pub side : String
  pub avg_price : Decimal
  pub size : Decimal
  pub stop_loss : Decimal
  pub take_profit : Decimal
  pub position_idx : ℕ

pub record Execution : Type 0 where
  pub exec_fee : Decimal
  pub exec_qty : Decimal
  pub exec_price : Decimal

pub record TickerDetails : Type 0 where
  pub tick_size : Decimal
  pub bid1_price : Decimal
  pub ask1_price : Decimal

-- What the gateway answers about one position.
pub record Answers : Type 0 where
  pub executions : Result (List Execution)
  pub fee_rate : Result Decimal
  pub instrument : Result CurrentInstrumentState
  pub ticker : Result TickerDetails
  pub klines : Result (List ClosedBar)

abbrev pub is_protected : ProposalStatus → Bool
is_protected ProposalStatus.protected = true
is_protected _ = false

abbrev pub completed : Proposal → ℕ
completed p = elim p.completed_at [ none ↦ 0 | some t ↦ t ]

-- `order_by(completed_at.desc())`: a protected proposal has the time of its completion.
abbrev pub insert_latest : Proposal → List Proposal → List Proposal
insert_latest p [] = p ∷ []
insert_latest p (q ∷ qs) =
    let rest = insert_latest p qs in
    if leb (completed q) (completed p) then p ∷ q ∷ qs else q ∷ rest

unfoldable pub latest_protected : List Proposal → List Proposal
latest_protected [] = []
latest_protected (p ∷ ps) =
    let rest = latest_protected ps in if is_protected p.status then insert_latest p rest else rest

abbrev pub is_filled_protected : OrderStatus → Bool
is_filled_protected OrderStatus.filled_protected = true
is_filled_protected _ = false

abbrev pub is_ledger_of : Proposal → ExecutionOrder → Bool
is_ledger_of p o = (o.client_order_id == p.client_order_id) && is_filled_protected o.status

abbrev pub is_owner : Database → String → Proposal → Bool
is_owner db symbol p = (p.preview_json.symbol == symbol) && any (is_ledger_of p) db.orders

unfoldable pub owner_for_symbol : Database → String → Option Proposal
owner_for_symbol db symbol = find (is_owner db symbol) (latest_protected db.proposals)

-- `str(n)`; `n` rounds are enough for the digits of `n`.
abbrev pub text_at : ℕ → List String → String
text_at n [] = ""
text_at zero (t ∷ ts) = t
text_at (suc n) (t ∷ ts) = text_at n ts

abbrev pub digit : ℕ → String
digit n = text_at n ("0" ∷ "1" ∷ "2" ∷ "3" ∷ "4" ∷ "5" ∷ "6" ∷ "7" ∷ "8" ∷ "9" ∷ [])

unfoldable pub text_within : ℕ → ℕ → String
text_within zero n = digit n
text_within (suc rounds) n =
    let front = text_within rounds (n / 10) in if ltb n 10 then digit n else front +s digit (n % 10)

-- `f"{symbol}:{position_idx}"`
abbrev pub position_key : String → ℕ → String
position_key symbol position_idx = symbol +s ":" +s text_within position_idx position_idx

-- `a or b`
abbrev pub or_other : Decimal → Decimal → Decimal
or_other a b = if is_zero a then b else a

-- What `sync` makes of a position that is owned.
pub record Tracked : Type 0 where
  pub position : PositionSnapshot
  pub price : Decimal
  pub risk : Decimal
  pub exit_cost : Decimal
  pub confirmed_stop : Decimal

abbrev pub filled_quantity : List Execution → Decimal
filled_quantity es = sum_d zero_d (map (λ e. e.exec_qty) es)

unfoldable pub fill_average : List Execution → Result Decimal
fill_average es =
    if zero_d <D filled_quantity es
    then sum_d zero_d (map (λ e. e.exec_qty *D e.exec_price) es) /D filled_quantity es
    else ok zero_d

-- `proposal.position_id and proposal.position_id != position_key`
abbrev pub is_other_position : Option String → String → Bool
is_other_position none key = false
is_other_position (some k) key = not (k == "") && not (k == key)

-- The minimum of the numbers is not above zero, or the position is not the one that was filled. The
-- preview keeps no entry, so the average price of the exchange is the entry.
abbrev pub mismatches :
    Proposal
    → OpenPosition
    → List Execution
    → CurrentInstrumentState
    → TickerDetails
    → Decimal
    → Bool
mismatches p raw es instrument ticker average =
    any (λ v. v ≤D zero_d)
      (raw.avg_price
        ∷ raw.size
        ∷ raw.stop_loss
        ∷ raw.take_profit
        ∷ instrument.ask_price
        ∷ ticker.tick_size
        ∷ filled_quantity es
        ∷ [])
    || (filled_quantity es <D raw.size)
    || (ticker.tick_size <D abs_d (raw.avg_price -D average))
    || is_other_position p.position_id (position_key raw.symbol raw.position_idx)

abbrev pub snapshot_of :
    Proposal → OpenPosition → List Execution → Decimal → TickerDetails → PositionSnapshot
snapshot_of p raw es fee_rate ticker = record {
  symbol = raw.symbol;
  side = raw.side;
  quantity = raw.size;
  entry_price = raw.avg_price;
  stop_loss = or_other p.preview_json.stop_loss raw.stop_loss;
  take_profit = raw.take_profit;
  position_idx = raw.position_idx;
  opened_at = completed p;
  entry_client_order_id = p.client_order_id;
  entry_fee_usdt = sum_d zero_d (map (λ e. abs_d e.exec_fee) es);
  taker_fee_rate = fee_rate;
  tick_size = ticker.tick_size;
}

abbrev pub tracked_of : Proposal → OpenPosition → List Execution → Decimal → TickerDetails → Tracked
tracked_of p raw es fee_rate ticker =
    let position : PositionSnapshot = snapshot_of p raw es fee_rate ticker in
    let price : Decimal = if is_long raw.side then ticker.bid1_price else ticker.ask1_price in
    let slippage : Decimal = controlled_live_v1.estimated_slippage_per_leg in
    record {
      position = position;
      price = price;
      risk = initial_risk_usdt position slippage;
      exit_cost = estimated_close_cost price raw.size fee_rate slippage;
      confirmed_stop = raw.stop_loss;
    }

-- A position without a usable quantity step is skipped too.
unfoldable pub read_position : Proposal → OpenPosition → Answers → Result (Option Tracked)
read_position p raw answers = do
  es ← answers.executions
  fee_rate ← answers.fee_rate
  instrument ← answers.instrument
  ticker ← answers.ticker
  average ← fill_average es
  ok (
      if mismatches p raw es instrument ticker average || (instrument.quantity_step ≤D zero_d)
      then none
      else some (tracked_of p raw es fee_rate ticker))

-- A position that no proposal owns is skipped before anything is asked.
unfoldable pub observed : Database → OpenPosition → Answers → Result (Option Tracked)
observed db raw answers = elim (owner_for_symbol db raw.symbol) [
  | none ↦ ok none
  | some p ↦ read_position p raw answers
]
