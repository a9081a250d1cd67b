-- ===== src/Shadow/Collector.antt =====
-- The lease of the collector process, in `ShadowRepository`: one row per protocol, by its primary
-- key. Each method is one transaction that locks the row, and a transaction that raises writes
-- nothing.
pub mod Lease
use syn_antona.Prelude.{
  ℕ, suc, ◌+◌, ◌*◌, ltb, String, Bool, true, false, not, ◌&&◌, Option, none, some, if◌then◌else◌,
}
use syn_antona.Prelude.Keys.{Key, text_key, ◌==◌}
use syn_antona.Prelude.Dict.{Dict, lookup, insert}
use syn_antona.Prelude.Errors.{Error, Result, ok, err}
use syn_antona.Prelude.Actions.{Action}
use syn_antona.Shadow.Records.{CollectorState}

abbrev pub Leases : Type 0
Leases = Dict String CollectorState

-- `now + timedelta(seconds=lease_seconds)`
abbrev pub expiry : ℕ → ℕ → ℕ
expiry now lease_seconds = now + lease_seconds * 1_000_000

unfoldable pub new_state : String → String → ℕ → ℕ → ℕ → CollectorState
new_state instance_id host pid now lease_seconds = record {
  instance_id = instance_id;
  host = host;
  pid = pid;
  status = "STARTING";
  started_at = now;
  heartbeat_at = now;
  last_db_write_at = now;
  lease_expires_at = expiry now lease_seconds;
  restart_count = 0;
  dry_run = none;
  live_trading_enabled = none;
  controlled_live_enabled = none;
  manual_first_order_approved = none;
  real_order_execution_enabled = none;
  deployment_id = none;
  replica_id = none;
  last_start_cause = none;
  last_error = none;
  updated_at = now;
}

unfoldable pub taken_over : String → String → ℕ → ℕ → ℕ → CollectorState → CollectorState
taken_over instance_id host pid now lease_seconds r = record r {
  instance_id = instance_id;
  host = host;
  pid = pid;
  status = "STARTING";
  started_at = now;
  heartbeat_at = now;
  last_db_write_at = now;
  lease_expires_at = expiry now lease_seconds;
  restart_count = suc r.restart_count;
  dry_run = none;
  live_trading_enabled = none;
  controlled_live_enabled = none;
  manual_first_order_approved = none;
  real_order_execution_enabled = none;
  last_error = none;
  updated_at = now;
}

-- Another instance holds a lease that has not run out.
abbrev pub is_held_by_other : String → ℕ → CollectorState → Bool
is_held_by_other instance_id now r =
    not (r.instance_id == instance_id) && ltb now r.lease_expires_at

unfoldable pub acquire_collector_lease :
    String → String → String → ℕ → ℕ → ℕ → Leases → (Bool × ℕ) × Leases
acquire_collector_lease protocol_id instance_id host pid now lease_seconds leases =
    elim (lookup protocol_id leases) [
      | none ↦
          ((true, 0), insert protocol_id (new_state instance_id host pid now lease_seconds) leases)
      | some r ↦
          if is_held_by_other instance_id now r then ((false, r.restart_count), leases) else (
            (true, suc r.restart_count),
            insert protocol_id (taken_over instance_id host pid now lease_seconds r) leases,
          )
    ]

-- A text that is there and not empty.
abbrev pub is_named : Option String → Bool
is_named none = false
is_named (some s) = not (s == "")

abbrev pub same_text : Option String → Option String → Bool
same_text none none = true
same_text (some a) (some b) = a == b
same_text _ _ = false

unfoldable pub start_cause : Option String → Option String → String
start_cause previous deployment =
    if is_named deployment && not (same_text previous deployment)
    then "RAILWAY_REDEPLOY"
    else if same_text previous deployment && is_named deployment
    then "PROCESS_RESTART"
    else "RUNTIME_START"

pub record RuntimeFlags : Type 0 where
  pub dry_run : Bool
  pub live_trading_enabled : Bool
  pub controlled_live_enabled : Bool
  pub manual_first_order_approved : Bool

unfoldable pub with_runtime :
    RuntimeFlags → Option String → Option String → ℕ → CollectorState → CollectorState
with_runtime f deployment replica now r = record r {
  dry_run = some f.dry_run;
  live_trading_enabled = some f.live_trading_enabled;
  controlled_live_enabled = some f.controlled_live_enabled;
  manual_first_order_approved = some f.manual_first_order_approved;
  real_order_execution_enabled = some (
      not f.dry_run
      && f.live_trading_enabled
      && f.controlled_live_enabled
      && f.manual_first_order_approved);
  deployment_id = deployment;
  replica_id = replica;
  last_start_cause = some (start_cause r.deployment_id deployment);
  last_db_write_at = now;
  updated_at = now;
}

-- `if not record or record.instance_id != instance_id: raise RuntimeError(...)`, and the changes.
unfoldable pub change_owned :
    String → String → String → (CollectorState → CollectorState) → Action Leases (Unit {0})
change_owned protocol_id instance_id lost change leases = elim (lookup protocol_id leases) [
  | none ↦ (err (Error.runtime_error lost), leases)
  | some r ↦
      if r.instance_id == instance_id
      then (ok tt, insert protocol_id (change r) leases)
      else (err (Error.runtime_error lost), leases)
]

unfoldable pub record_collector_runtime :
    String → String → RuntimeFlags → Option String → Option String → ℕ → Action Leases (Unit {0})
record_collector_runtime protocol_id instance_id flags deployment replica now =
    change_owned protocol_id instance_id "Collector lease lost before runtime flags were recorded"
      (with_runtime flags deployment replica now)

abbrev pub with_heartbeat : String → ℕ → ℕ → Option String → CollectorState → CollectorState
with_heartbeat status now lease_seconds error r = record r {
  status = status;
  heartbeat_at = now;
  last_db_write_at = now;
  lease_expires_at = expiry now lease_seconds;
  last_error = error;
  updated_at = now;
}

unfoldable pub heartbeat :
    String → String → String → ℕ → ℕ → Option String → Action Leases (Unit {0})
heartbeat protocol_id instance_id status now lease_seconds error =
    change_owned protocol_id instance_id "Collector lease lost"
      (with_heartbeat status now lease_seconds error)

abbrev pub stopped : ℕ → CollectorState → CollectorState
stopped now r = record r {
  status = "STOPPED";
  heartbeat_at = now;
  last_db_write_at = now;
  lease_expires_at = now;
  updated_at = now;
}

unfoldable pub release_collector_lease : String → String → ℕ → Leases → Leases
release_collector_lease protocol_id instance_id now leases = elim (lookup protocol_id leases) [
  | none ↦ leases
  | some r ↦
      if r.instance_id == instance_id then insert protocol_id (stopped now r) leases else leases
]
