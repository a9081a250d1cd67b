-- ===== src/Live/Records.antt =====
-- The rows that `ControlledLiveRepository` keeps: app/db.py.
use syn_antona.Prelude.{ℕ, String, Bool, Option, List, ◌&&◌}
use syn_antona.Prelude.Keys.{◌==◌, text_key}
use syn_antona.Decimal.{Decimal}
use syn_antona.Exchange.{OrderSide}
use syn_antona.Live.Profile.{Source, ManualExecutionPreview}

pub data ProposalStatus : Type 0 where
  previewed approved cancelled submitting filled_unprotected protected : ProposalStatus
  emergency_closed unknown rejected : ProposalStatus

pub data OrderStatus : Type 0 where
  pending submitted filled_protected emergency_closed unknown rejected : OrderStatus

-- ControlledLiveStateRecord
pub record LiveState : Type 0 where
  pub profile_hash : String
  pub first_symbol : String
  pub selection_hash : String
  pub kill_switch_active : Bool
  pub first_order_in_progress : Bool
  pub first_order_executed : Bool
  pub automatic_execution_enabled : Bool
  pub experiment_start_equity : Option Decimal
  pub starting_day_equity : Option Decimal
  pub starting_day_utc : Option ℕ

-- ControlledLiveProposalRecord; `preview_json` holds the preview that it encodes.
pub record Proposal : Type 0 where
  pub proposal_id : String
  pub proposal_hash : String
  pub profile_hash : String
  pub selection_hash : String
  pub admin_telegram_id : ℕ
  pub source : Source
  pub preview_json : ManualExecutionPreview
  pub status : ProposalStatus
  pub client_order_id : String
  pub exchange_order_id : Option String
  pub position_id : Option String
  pub error_code : Option String
  pub approved_at : Option ℕ
  pub submitted_at : Option ℕ
  pub completed_at : Option ℕ

-- ExecutionOrderRecord
pub record ExecutionOrder : Type 0 where
  pub exchange : String
  pub account_id : String
  pub client_order_id : String
  pub symbol : String
  pub side : OrderSide
  pub quantity : Decimal
  pub request_hash : String
  pub status : OrderStatus
  pub exchange_order_id : Option String
  pub exchange_status : Option String
  pub error_code : Option String

-- The database: the state row of the profile, and the tables of proposals and execution orders.
pub record Database : Type 0 where
  pub state : Option LiveState
  pub proposals : List Proposal
  pub orders : List ExecutionOrder

-- A row whose key is taken is refused by the unique constraint on commit.
abbrev pub same_order : String → String → String → ExecutionOrder → Bool
same_order exchange account_id client_id o =
    (o.exchange == exchange) && (o.account_id == account_id) && (o.client_order_id == client_id)
