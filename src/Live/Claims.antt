-- ===== src/Live/Claims.antt =====
-- The methods of `ControlledLiveRepository` that claim an approved proposal for submission: the
-- order that the administrator approved, and the order of the autonomous source, which leaves the
-- one-order lock alone. The checks come before anything is written.
use syn_antona.Prelude.{
  ℕ, String, Bool, true, false, not, none, some, [], ◌∷◌, ◌++◌, if◌then◌else◌, ◌||◌, ◌&&◌, any,
}
use syn_antona.Prelude.Keys.{◌==◌, text_key}
use syn_antona.Prelude.Errors.{Error, Result, ok, err, or_raise, raise_if, ◌>>=◌, ◌>>◌}
use syn_antona.Prelude.Actions.{Action}
use syn_antona.Live.Profile.{
  ControlledLiveProfile, FirstInstrumentSelection, Source, ManualExecutionPreview,
}
use syn_antona.Live.Records.{
  same_order, ProposalStatus, OrderStatus, LiveState, Proposal, ExecutionOrder, Database,
}
use syn_antona.Live.Repository.{
  Digests, is_allowed, internal_symbol, blocked, is_approved, verify_hash, verify_selection,
  put_state, put_proposal, get_proposal,
}

abbrev pub is_ai : Source → Bool
is_ai Source.ai_autonomous = true
is_ai _ = false

module _ (profile : ControlledLiveProfile) (instrument : FirstInstrumentSelection)
    (digests : Digests) where
  abbrev pub client_order_id : ManualExecutionPreview → String
  client_order_id preview = digests.client_order_id preview.proposal_id

  -- `internal_symbol(preview.symbol) if allowed else instrument.internal_symbol`
  abbrev pub order_symbol : String → Result String
  order_symbol symbol =
      if is_allowed symbol then internal_symbol symbol else ok instrument.internal_symbol

  abbrev pub new_order : ManualExecutionPreview → String → String → ExecutionOrder
  new_order preview account_id symbol = record {
    exchange = "bybit";
    account_id = account_id;
    client_order_id = client_order_id preview;
    symbol = symbol;
    side = preview.side;
    quantity = preview.quantity;
    request_hash = digests.proposal_hash preview;
    status = OrderStatus.pending;
    exchange_order_id = none;
    exchange_status = none;
    error_code = none;
  }

  abbrev pub has_order : ManualExecutionPreview → String → Database → Bool
  has_order preview account_id db =
      any (same_order "bybit" account_id (client_order_id preview)) db.orders

  abbrev pub record_claim : Proposal → LiveState → ExecutionOrder → ℕ → Database → Database
  record_claim p s row now db = put_state s (
      put_proposal (record p { status = ProposalStatus.submitting; submitted_at = some now })
        (record db { orders = db.orders ++ row ∷ [] }))

  -- The checks of `claim_submission`, with what they read.
  unfoldable pub check_claim :
      ManualExecutionPreview → String → Database → Result (Proposal × LiveState × String)
  check_claim preview account_id db = do
    p ←
        or_raise (get_proposal preview.proposal_id db)
          (blocked "Approved persistent proposal/state is missing")
    s ← or_raise db.state (blocked "Approved persistent proposal/state is missing")
    verify_hash profile instrument digests p.profile_hash
    verify_hash profile instrument digests s.profile_hash
    verify_selection profile instrument digests preview.symbol p.selection_hash
    verify_selection profile instrument digests s.first_symbol s.selection_hash
    raise_if
        (s.first_order_in_progress || (s.first_order_executed && not s.automatic_execution_enabled))
        (blocked "Mainnet order was already claimed or executed; automatic mode is not validated")
    raise_if (not (p.proposal_hash == digests.proposal_hash preview) || not (is_approved p.status))
        (blocked "Exact approved proposal is required")
    raise_if s.kill_switch_active (blocked "Emergency kill switch is active")
    symbol ← order_symbol preview.symbol
    raise_if (has_order preview account_id db) Error.integrity_error
    ok (p, s, symbol)

  -- What a claim that passed its checks writes.
  abbrev pub claimed :
      ManualExecutionPreview → String → ℕ → Proposal × LiveState × String → Database → Database
  claimed preview account_id now (p, s, symbol) =
      record_claim p (record s { first_order_in_progress = true })
        (new_order preview account_id symbol) now

  unfoldable pub claim_submission : ManualExecutionPreview → String → ℕ → Action Database (Unit {0})
  claim_submission preview account_id now db = elim (check_claim preview account_id db) [
    | err e ↦ (err e, db)
    | ok checked ↦ (ok tt, claimed preview account_id now checked db)
  ]

  abbrev pub record_ai_claim : Proposal → ExecutionOrder → ℕ → Database → Database
  record_ai_claim p row now db =
      put_proposal (record p { status = ProposalStatus.submitting; submitted_at = some now })
        (record db { orders = db.orders ++ row ∷ [] })

  -- The checks of `claim_ai_submission`, with what they read.
  unfoldable pub check_ai_claim :
      ManualExecutionPreview → String → Database → Result (Proposal × String)
  check_ai_claim preview account_id db = do
    raise_if (not (is_ai preview.source)) (blocked "AI submission requires the AI source identity")
    p ←
        or_raise (get_proposal preview.proposal_id db)
          (blocked "Approved AI proposal/state is missing")
    s ← or_raise db.state (blocked "Approved AI proposal/state is missing")
    verify_hash profile instrument digests p.profile_hash
    verify_selection profile instrument digests preview.symbol p.selection_hash
    raise_if (not (p.proposal_hash == digests.proposal_hash preview) || not (is_approved p.status))
        (blocked "Exact durable AI proposal is required")
    raise_if s.kill_switch_active (blocked "Emergency kill switch is active")
    raise_if (has_order preview account_id db)
        (blocked "Duplicate deterministic AI client order ID")
    symbol ← internal_symbol preview.symbol
    ok (p, symbol)

  unfoldable pub claim_ai_submission :
      ManualExecutionPreview → String → ℕ → Action Database (Unit {0})
  claim_ai_submission preview account_id now db = elim (check_ai_claim preview account_id db) [
    | err e ↦ (err e, db)
    | ok (p, symbol) ↦ (ok tt, record_ai_claim p (new_order preview account_id symbol) now db)
  ]
