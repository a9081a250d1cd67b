-- ===== src/Live/Emergency.antt =====
-- `emergency_stop` and `reconcile` of `ManualExecutionService`. What the gateway answers is an input;
-- what is sent to it is recorded in order.
pub mod Sent
pub mod Stopping
mod Tests
use Prim.Native.Nat.{Ordering}
use Prim.Native.String.{compare}
use syn_antona.Prelude.{
  ℕ, ◌+◌, ◌-◌, length, String, Bool, true, false, not, Option, none, some, List, [], ◌∷◌, ◌++◌,
  if◌then◌else◌, ◌&&◌, any, filter, map, ltb,
}
use syn_antona.Prelude.Keys.{◌==◌, text_key}
use syn_antona.Prelude.Errors.{Error, Result, ok, err}
use syn_antona.Prelude.Actions.{Action, ◌>>=◌, ◌>>◌, return, reading}
use syn_antona.Decimal.{Decimal, zero_d, ◌==D◌}
use syn_antona.Live.Profile.{
  ControlledLiveProfile, FirstInstrumentSelection, ManualExecutionPreview,
}
use syn_antona.Live.Records.{ProposalStatus, Proposal, Database}
use syn_antona.Live.Repository.{Digests, is_allowed, get_proposal}
use syn_antona.Live.Outcomes.{LiveFill, activate_kill_switch}
use syn_antona.Live.Execution.{Request, World, on_database, send, require_admin}

pub record LivePositionSnapshot : Type 0 where
  pub position_id : String
  pub symbol : String
  pub quantity : Decimal

pub record LiveGatewaySnapshot : Type 0 where
  pub positions : List LivePositionSnapshot
  pub open_order_ids : List String
  pub fill_order_ids : List String

-- What the gateway answers in one emergency stop.
pub record StopReplies : Type 0 where
  pub snapshot : Result LiveGatewaySnapshot
  pub cancelled : String → Result ℕ
  pub closed : LivePositionSnapshot → Result (Unit {0})

abbrev pub is_before : String → String → Bool
is_before a b = elim (compare a b) [
  | Ordering.lt ↦ true
  | Ordering.eq ↦ false
  | Ordering.gt ↦ false
]

-- A set of texts in the order of `sorted`.
abbrev pub add_sorted : String → List String → List String
add_sorted x [] = x ∷ []
add_sorted x (y ∷ ys) =
    let rest = add_sorted x ys in
    if x == y then y ∷ ys else if is_before x y then x ∷ y ∷ ys else y ∷ rest

unfoldable pub add_all : List LivePositionSnapshot → List String → List String
add_all [] symbols = symbols
add_all (p ∷ ps) symbols = add_sorted p.symbol (add_all ps symbols)

abbrev pub is_ours : LivePositionSnapshot → Bool
is_ours p = is_allowed p.symbol

unfoldable pub active_symbols : FirstInstrumentSelection → LiveGatewaySnapshot → List String
active_symbols instrument snapshot =
    add_all (filter is_ours snapshot.positions) (instrument.symbol ∷ [])

-- The fill that stands for a position which is closed.
abbrev pub emergency_fill : LivePositionSnapshot → LiveFill
emergency_fill p = record {
  order_id = "emergency";
  position_id = p.position_id;
  filled_quantity = p.quantity;
  average_price = zero_d;
  fee = zero_d;
}

unfoldable pub cancel_all : (String → Result ℕ) → List String → Action World ℕ
cancel_all answers [] = return 0
cancel_all answers (symbol ∷ symbols) = do
  send (Request.cancel_pending_orders symbol)
  n ← reading (λ w. answers symbol)
  rest ← cancel_all answers symbols
  return (n + rest)

unfoldable pub close_all :
    (LivePositionSnapshot → Result (Unit {0})) → List LivePositionSnapshot → Action World ℕ
close_all answers [] = return 0
close_all answers (p ∷ ps) = do
  send (Request.emergency_close_reduce_only (emergency_fill p) p.symbol)
  reading (λ w. answers p)
  rest ← close_all answers ps
  return (1 + rest)

pub record StopReport : Type 0 where
  pub cancelled_orders : ℕ
  pub closed_positions : ℕ

module _ (profile : ControlledLiveProfile) (instrument : FirstInstrumentSelection)
    (digests : Digests) where
  -- What follows once the kill switch is active.
  unfoldable pub wind_down : Bool → StopReplies → Action World StopReport
  wind_down close_position replies = do
    snapshot ← reading (λ w. replies.snapshot)
    cancelled ← cancel_all replies.cancelled (active_symbols instrument snapshot)
    closed ←
        (if close_position
          then close_all replies.closed (filter is_ours snapshot.positions)
          else return 0)
    return (record { cancelled_orders = cancelled; closed_positions = closed })

  unfoldable pub emergency_stop : List ℕ → ℕ → Bool → StopReplies → Action World StopReport
  emergency_stop admin_ids admin_id close_position replies = do
    require_admin admin_ids admin_id
    on_database (activate_kill_switch profile instrument digests)
    wind_down close_position replies

-- The dict that `reconcile` returns.
pub data Reconciliation : Type 0 where
  missing : Reconciliation
  protected_report : Bool → Bool → Bool → Reconciliation
  closed_report : Bool → Reconciliation
  manual_review : ProposalStatus → Reconciliation

abbrev pub same_id : Option String → String → Bool
same_id none k = false
same_id (some i) k = i == k

-- `bool(exchange_order_id) and exchange_order_id in snapshot.fill_order_ids`
abbrev pub is_filled : LiveGatewaySnapshot → Option String → Bool
is_filled snapshot none = false
is_filled snapshot (some k) = not (k == "") && any (λ i. i == k) snapshot.fill_order_ids

abbrev pub holds_position : ManualExecutionPreview → Proposal → LivePositionSnapshot → Bool
holds_position preview p item =
    same_id p.position_id item.position_id
    && (item.symbol == preview.symbol)
    && (item.quantity ==D preview.quantity)

-- By the status of the record.
unfoldable pub compare_record :
    ProposalStatus → ManualExecutionPreview → Proposal → LiveGatewaySnapshot → Reconciliation
compare_record ProposalStatus.protected preview p snapshot =
    Reconciliation.protected_report (is_filled snapshot p.exchange_order_id)
      (any (holds_position preview p) snapshot.positions) (ltb 1 (length snapshot.open_order_ids))
compare_record ProposalStatus.emergency_closed preview p snapshot =
    Reconciliation.closed_report
      (any (λ item. same_id p.position_id item.position_id) snapshot.positions)
compare_record status preview p snapshot = Reconciliation.manual_review status

-- Whether the status of the report is MATCH.
unfoldable pub is_match : Reconciliation → Bool
is_match (Reconciliation.protected_report fill position duplicate) = fill && position
is_match (Reconciliation.closed_report position) = not position
is_match _ = false

unfoldable pub reconcile :
    ManualExecutionPreview → Result LiveGatewaySnapshot → Action World Reconciliation
reconcile preview snapshot w = elim (get_proposal preview.proposal_id w.db) [
  | none ↦ (ok Reconciliation.missing, w)
  | some p ↦ (reading (λ v. snapshot) >>= (λ s. return (compare_record p.status preview p s))) w
]
