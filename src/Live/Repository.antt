-- ===== src/Live/Repository.antt =====
-- `ControlledLiveRepository`: each method is one transaction, so an exception leaves the database as
-- it was. The SHA-256 digests are the parameter `Digests`.
use Prim.Native.String.{slice, len, ◌++◌ as ◌+s◌}
use syn_antona.Prelude.{
  ℕ, String, ◌-◌, leb, Bool, true, false, not, Option, none, some, List, [], ◌∷◌, if◌then◌else◌,
  ◌||◌, ◌&&◌, any, ◌++◌,
}
use syn_antona.Prelude.Keys.{◌==◌, text_key}
use syn_antona.Prelude.Errors.{Error, Result, ok, err, or_raise, raise_if}
use syn_antona.Prelude.Actions.{Action, ◌>>=◌, ◌>>◌, return, reading, write, raise_when}
use syn_antona.Prelude.Tables.{find, update_first}
use syn_antona.Decimal.{Decimal, ◌-D◌, is_zero}
use syn_antona.Live.Profile.{
  ControlledLiveProfile, FirstInstrumentSelection, ManualExecutionPreview,
}
use syn_antona.Live.Records.{ProposalStatus, LiveState, Proposal, ExecutionOrder, Database}

-- The hash functions of the module: `proposal_hash`, `client_order_id`, `scanner_selection_hash`.
pub record Digests : Type 0 where
  pub proposal_hash : ManualExecutionPreview → String
  pub client_order_id : String → String
  pub scanner_selection_hash : String → String

-- The symbols of config/controlled_live_multi_symbol_v1.json.
abbrev pub allowed_scanner_symbols : List String
allowed_scanner_symbols =
    "SOLUSDT" ∷ "XRPUSDT" ∷ "ADAUSDT" ∷ "LINKUSDT" ∷ "AVAXUSDT" ∷ "SUIUSDT" ∷ "NEARUSDT"
    ∷ "DOGEUSDT" ∷ []

unfoldable pub is_allowed : String → Bool
is_allowed symbol = any (λ s. s == symbol) allowed_scanner_symbols

-- `f"{symbol[:-4]}/USDT"`
unfoldable pub internal_symbol : String → Result String
unfolding is_allowed
internal_symbol symbol =
    if not (is_allowed symbol) || not (slice symbol (len symbol - 4) (len symbol) == "USDT")
    then err (Error.value_error "Unsupported scanner symbol")
    else ok (slice symbol 0 (len symbol - 4) +s "/USDT")

abbrev pub blocked : String → Error
blocked = Error.controlled_live_blocked

-- `exchange == "bybit" and client_order_id == k`
abbrev pub is_order : String → ExecutionOrder → Bool
is_order k o = (o.exchange == "bybit") && (o.client_order_id == k)

-- `status == "PREVIEWED"`, `status == "APPROVED"`
abbrev pub is_previewed : ProposalStatus → Bool
is_previewed ProposalStatus.previewed = true
is_previewed _ = false

abbrev pub is_approved : ProposalStatus → Bool
is_approved ProposalStatus.approved = true
is_approved _ = false

-- `new or old`
abbrev pub or_keep : Option String → Option String → Option String
or_keep none old = old
or_keep (some new) old = if new == "" then old else some new

abbrev pub is_proposal : String → Proposal → Bool
is_proposal k p = p.proposal_id == k

-- `session.get(ControlledLiveProposalRecord, k)`
abbrev pub get_proposal : String → Database → Option Proposal
get_proposal k db = find (is_proposal k) db.proposals

-- The row of a proposal that was read, written back; and a new row.
abbrev pub put_proposal : Proposal → Database → Database
put_proposal p db = record db {
  proposals = update_first (is_proposal p.proposal_id) (λ q. p) db.proposals;
}

abbrev pub add_proposal : Proposal → Database → Database
add_proposal p db = record db { proposals = db.proposals ++ p ∷ [] }

abbrev pub put_state : LiveState → Database → Database
put_state s db = record db { state = some s }

-- `session.get(ControlledLiveStateRecord, name)`, and the exception if there is none.
abbrev pub get_state : String → Database → Result LiveState
get_state why db = or_raise db.state (blocked why)

module _ (profile : ControlledLiveProfile) (instrument : FirstInstrumentSelection)
    (digests : Digests) where
  unfoldable pub verify_hash : String → Result (Unit {0})
  verify_hash value =
      raise_if (not (value == profile.config_hash))
        (blocked "CONTROLLED_LIVE_V1 profile hash mismatch")

  unfoldable pub verify_selection : String → String → Result (Unit {0})
  verify_selection symbol selection_hash =
      let legacy = (symbol == instrument.symbol) && (selection_hash == instrument.selection_hash) in
      let scanner =
        is_allowed symbol && (selection_hash == digests.scanner_selection_hash symbol) in
      raise_if (not legacy && not scanner) (blocked "Controlled-live instrument selection mismatch")

  abbrev pub initial_state : LiveState
  initial_state = record {
    profile_hash = profile.config_hash;
    first_symbol = instrument.symbol;
    selection_hash = instrument.selection_hash;
    kill_switch_active = false;
    first_order_in_progress = false;
    first_order_executed = false;
    automatic_execution_enabled = false;
    experiment_start_equity = none;
    starting_day_equity = none;
    starting_day_utc = none;
  }

  abbrev pub existing_state : Database → LiveState
  existing_state db = elim db.state [ none ↦ initial_state | some s ↦ s ]

  -- A missing row is committed before the hashes are verified.
  unfoldable pub state : Action Database LiveState
  unfolding verify_hash verify_selection
  state = do
    write (λ db. put_state (existing_state db) db)
    s ← reading (get_state "")
    reading (λ db. verify_hash s.profile_hash)
    reading (λ db. verify_selection s.first_symbol s.selection_hash)
    return s

  -- `day` is the UTC date of the clock.
  unfoldable pub refresh_loss_baselines :
      Decimal → Decimal → ℕ → Action Database (Decimal × Decimal)
  unfolding verify_hash
  refresh_loss_baselines equity daily_realized_pnl day = do
    s ← reading (get_state "Controlled-live persistent state is missing")
    reading (λ db. verify_hash s.profile_hash)
    let start : Decimal = elim s.experiment_start_equity [ none ↦ equity | some e ↦ e ]
    let same_day : Bool = elim s.starting_day_utc [ none ↦ false | some d ↦ leb d day && leb day d ]
    let day_equity : Option Decimal =
        if same_day then s.starting_day_equity else some (equity -D daily_realized_pnl)
    write (
        put_state (record s {
          experiment_start_equity = some start;
          starting_day_equity = day_equity;
          starting_day_utc = some day;
        }))
    return (start, elim day_equity [ none ↦ equity | some e ↦ if is_zero e then equity else e ])

  unfoldable pub enable_automatic_execution : Action Database (Unit {0})
  unfolding verify_hash
  enable_automatic_execution = do
    s ← reading (get_state "Controlled-live persistent state is missing")
    reading (λ db. verify_hash s.profile_hash)
    raise_when
        (λ db. not s.first_order_executed || s.first_order_in_progress || s.kill_switch_active)
        (blocked "First protected execution must be validated before automatic mode")
    write (put_state (record s { automatic_execution_enabled = true }))

  abbrev pub new_proposal : ManualExecutionPreview → ℕ → Proposal
  new_proposal preview admin_id = record {
    proposal_id = preview.proposal_id;
    proposal_hash = digests.proposal_hash preview;
    profile_hash = profile.config_hash;
    selection_hash = preview.selection_hash;
    admin_telegram_id = admin_id;
    source = preview.source;
    preview_json = preview;
    status = ProposalStatus.previewed;
    client_order_id = digests.client_order_id preview.proposal_id;
    exchange_order_id = none;
    position_id = none;
    error_code = none;
    approved_at = none;
    submitted_at = none;
    completed_at = none;
  }

  -- The unique columns of the proposals: the id, the hash and the client order id.
  abbrev pub is_taken : Proposal → Database → Bool
  is_taken p db =
      any
        (λ q.
          (q.proposal_id == p.proposal_id)
          || (q.proposal_hash == p.proposal_hash)
          || (q.client_order_id == p.client_order_id))
        db.proposals

  unfoldable pub save_preview : ManualExecutionPreview → ℕ → Action Database (Unit {0})
  unfolding verify_hash
  save_preview preview admin_id = do
    raise_when (λ db. not preview.executable) (blocked "preview is not executable")
    reading (λ db. verify_hash preview.profile_hash)
    raise_when (is_taken (new_proposal preview admin_id)) Error.integrity_error
    write (add_proposal (new_proposal preview admin_id))

  -- The checks that `approve` and `cancel` share, on a proposal that was found.
  unfoldable pub check_owner : Option Proposal → ℕ → Action Database Proposal
  unfolding verify_hash verify_selection
  check_owner found admin_id = do
    p ← reading (λ db. or_raise found (blocked "Proposal is missing or belongs to another admin"))
    raise_when (λ db. not (leb p.admin_telegram_id admin_id && leb admin_id p.admin_telegram_id))
        (blocked "Proposal is missing or belongs to another admin")
    reading (λ db. verify_hash p.profile_hash)
    reading (λ db. verify_selection p.preview_json.symbol p.selection_hash)
    return p

  unfoldable pub approve : String → ℕ → ℕ → Action Database (Unit {0})
  unfolding check_owner
  approve proposal_hash admin_id now db =
      (do
        p ← check_owner (find (λ p. p.proposal_hash == proposal_hash) db.proposals) admin_id
        raise_when (λ db. not (is_previewed p.status)) (blocked "Proposal is not awaiting approval")
        write
            (put_proposal (record p { status = ProposalStatus.approved; approved_at = some now })))
        db

  unfoldable pub cancel : String → ℕ → ℕ → Action Database (Unit {0})
  unfolding check_owner
  cancel proposal_id admin_id now db =
      (do
        p ← check_owner (get_proposal proposal_id db) admin_id
        raise_when (λ db. not (is_previewed p.status || is_approved p.status))
            (blocked "Proposal can no longer be cancelled")
        write (
            put_proposal (record p { status = ProposalStatus.cancelled; completed_at = some now })))
        db
