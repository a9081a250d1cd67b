-- ===== src/Live/Emergency/Tests.antt =====
-- A stop with two positions of the scanner and a foreign one, whose second close fails.
use syn_antona.Prelude.{arith, ◌≡◌, refl, true, some, false, String, if◌then◌else◌, List, [], ◌∷◌}
use syn_antona.Prelude.Keys.{text_key, ◌==◌}
use syn_antona.Prelude.Errors.{Error, ok, err}
use syn_antona.Decimal.{dec, evaluation}
use syn_antona.Live.Profile.{controlled_live_v1}
use syn_antona.Live.Records.{ProposalStatus, Proposal, Database}
use syn_antona.Live.Repository.{is_allowed, verify_hash}
use syn_antona.Live.Claims.{claim_submission, claim_ai_submission}
use syn_antona.Live.Outcomes.{activate_kill_switch}
use syn_antona.Live.Calls.{Call, after_all}
use syn_antona.Live.Execution.{Request, World}
use syn_antona.Live.Emergency.{
  LivePositionSnapshot, LiveGatewaySnapshot, StopReplies, Reconciliation, emergency_fill,
  active_symbols, add_all, cancel_all, close_all, wind_down, emergency_stop, compare_record,
  reconcile,
}
use syn_antona.Live.Emergency.Stopping.{IsStopped, IsOfProfile, emergency_stops}
use syn_antona.Live.Examples.{instrument, digests, preview, database, approved, live_state}

abbrev position : String → String → LivePositionSnapshot
position id symbol = record { position_id = id; symbol = symbol; quantity = dec 25 2 }

abbrev snapshot : LiveGatewaySnapshot
snapshot = record {
  positions = position "x-1" "XRPUSDT" ∷ position "b-1" "BTCUSDT" ∷ position "a-1" "ADAUSDT" ∷ [];
  open_order_ids = [];
  fill_order_ids = "o-1" ∷ [];
}

abbrev replies : StopReplies
replies = record {
  snapshot = ok snapshot;
  cancelled = λ symbol. ok 1;
  closed = λ p. if p.symbol == "ADAUSDT" then err (Error.exchange_error "busy") else ok tt;
}

abbrev world : World
world = record { db = database; sent = [] }

-- The switch is set, and every order and proposal stands as before.
abbrev killed : Database
killed = record database { state = some (record live_state { kill_switch_active = true }) }

own_profile : IsOfProfile controlled_live_v1 instrument digests database
own_profile s h = ground (arith, h)

-- The orders of both symbols are cancelled, in the order of the alphabet, and both closes are sent.
sent_lem :
    (emergency_stop controlled_live_v1 instrument digests (7 ∷ []) 7 true replies world).1.sent
    ≡ Request.cancel_pending_orders "ADAUSDT"
      ∷ Request.cancel_pending_orders "XRPUSDT"
      ∷ Request.emergency_close_reduce_only (emergency_fill (position "x-1" "XRPUSDT")) "XRPUSDT"
      ∷ Request.emergency_close_reduce_only (emergency_fill (position "a-1" "ADAUSDT")) "ADAUSDT"
      ∷ []
unfolding emergency_stop wind_down cancel_all close_all active_symbols add_all is_allowed
    activate_kill_switch verify_hash
sent_lem = refl

abbrev later : List Call
later = Call.read_state ∷ Call.approve_hash "hash-p-1" 7 4 ∷ []

emergency_stops_example :
    IsStopped controlled_live_v1 instrument digests true replies world killed
      (emergency_stop controlled_live_v1 instrument digests (7 ∷ []) 7 true replies world)
    × ((e : Error) × (claim_submission controlled_live_v1 instrument digests preview "account" 5
            (after_all controlled_live_v1 instrument digests killed later)
          ≡ (err e, after_all controlled_live_v1 instrument digests killed later)))
    × ((e : Error) × (claim_ai_submission controlled_live_v1 instrument digests preview "account" 5
            (after_all controlled_live_v1 instrument digests killed later)
          ≡ (err e, after_all controlled_live_v1 instrument digests killed later)))
emergency_stops_example =
    emergency_stops controlled_live_v1 instrument digests (7 ∷ []) 7 true replies world preview
      "account" 5 later refl own_profile

abbrev held : Proposal
held = record approved {
  status = ProposalStatus.protected;
  exchange_order_id = some "o-1";
  position_id = some "x-1";
}

reconciled :
    (reconcile preview
      (ok snapshot)
      (record world { db = record database { proposals = held ∷ [] } })).0
    ≡ ok (Reconciliation.protected_report true true false)
unfolding reconcile compare_record evaluation
reconciled = refl
