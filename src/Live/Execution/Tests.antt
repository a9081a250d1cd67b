-- ===== src/Live/Execution/Tests.antt =====
-- One execution that returns, and its end.
use syn_antona.Prelude.{◌≡◌, refl, true, false, none, some, [], ◌∷◌}
use syn_antona.Prelude.Errors.{ok}
use syn_antona.Decimal.{dec, evaluation}
use syn_antona.Live.Profile.{controlled_live_v1}
use syn_antona.Live.Repository.{is_allowed, internal_symbol, verify_hash, verify_selection}
use syn_antona.Live.Claims.{check_claim, claim_submission}
use syn_antona.Live.Outcomes.{LiveFill, update_execution}
use syn_antona.Live.Execution.{
  ArmingGates, Submission, Replies, World, is_armed, authorizes, require_all,
  validate_current_instrument, admit, settle_protection, protect, settle_submission, submit,
  execute_first_order,
}
use syn_antona.Live.Execution.Ended.{EndsFrom}
use syn_antona.Live.Execution.Ending.{execute_ended}
use syn_antona.Live.Examples.{instrument, digests, preview, database}

abbrev gates : ArmingGates
gates = record {
  live_trading_enabled = true;
  controlled_live_enabled = true;
  manual_first_order_approved = true;
  first_symbol = some "XRPUSDT";
}

abbrev fill : LiveFill
fill = record {
  order_id = "o-1";
  position_id = "x-1";
  filled_quantity = dec 25 2;
  average_price = dec 20 0;
  fee = dec 3 3;
}

abbrev replies : Replies
replies = record {
  current = ok (record {
    symbol = "XRPUSDT";
    status = "Trading";
    ask_price = dec 20 0;
    minimum_quantity = dec 1 2;
    quantity_step = dec 1 2;
    minimum_notional = dec 5 0;
  });
  dry_run = false;
  prepared = ok tt;
  submission = Submission.filled fill;
  protection = none;
  close = none;
}

abbrev world : World
world = record { db = database; sent = [] }

returned :
    (execute_first_order controlled_live_v1 instrument digests
      (7 ∷ [])
      7
      preview
      "account"
      gates
      replies
      3
      world).0
    ≡ ok fill
unfolding evaluation is_allowed internal_symbol verify_hash verify_selection check_claim
    claim_submission update_execution is_armed authorizes require_all validate_current_instrument
    admit settle_protection protect settle_submission submit execute_first_order
returned = refl

execute_ended_example : EndsFrom controlled_live_v1 instrument digests preview world (
    execute_first_order controlled_live_v1 instrument digests
      (7 ∷ [])
      7
      preview
      "account"
      gates
      replies
      3
      world)
execute_ended_example =
    execute_ended controlled_live_v1 instrument digests (7 ∷ []) 7 preview "account" gates replies 3
      world
