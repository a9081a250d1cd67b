-- ===== src/Live/Locks/Tests.antt =====
-- The promises of the flags at one database.
use syn_antona.Prelude.{◌≡◌, refl, List, [], ◌∷◌}
use syn_antona.Prelude.Errors.{Error, ok, err}
use syn_antona.Live.Profile.{controlled_live_v1}
use syn_antona.Live.Records.{Database}
use syn_antona.Live.Repository.{is_allowed, internal_symbol, verify_hash, verify_selection}
use syn_antona.Live.Claims.{check_claim, claim_submission, claim_ai_submission}
use syn_antona.Live.Outcomes.{unknown_outcome, activate_kill_switch}
use syn_antona.Live.Calls.{Call, after_all}
use syn_antona.Live.Locks.{keeps}
use syn_antona.Live.Locks.Final.{second_claim_refused, killed_for_good}
use syn_antona.Live.Examples.{instrument, digests, preview, database}

abbrev claimed : Database
claimed = (claim_submission controlled_live_v1 instrument digests preview "account" 2 database).1

abbrev killed : Database
killed = (activate_kill_switch controlled_live_v1 instrument digests database).1

abbrev later : List Call
later =
    Call.update preview (unknown_outcome "TimeoutError") 3
    ∷ Call.read_state
    ∷ Call.cancel_id "p-1" 7 4
    ∷ []

claimed_lem :
    claim_submission controlled_live_v1 instrument digests preview "account" 2 database
    ≡ (ok tt, claimed)
unfolding claim_submission check_claim verify_hash verify_selection is_allowed internal_symbol
claimed_lem = refl

killed_lem : activate_kill_switch controlled_live_v1 instrument digests database ≡ (ok tt, killed)
unfolding activate_kill_switch verify_hash
killed_lem = refl

second_claim_refused_example :
    (e : Error) × (claim_submission controlled_live_v1 instrument digests preview "account" 5
        (after_all controlled_live_v1 instrument digests claimed later)
      ≡ (err e, after_all controlled_live_v1 instrument digests claimed later))
unfolding keeps
second_claim_refused_example =
    second_claim_refused controlled_live_v1 instrument digests preview preview "account" "account" 2
      5 later database claimed_lem refl

killed_for_good_example :
    ((e : Error) × (claim_submission controlled_live_v1 instrument digests preview "account" 5
          (after_all controlled_live_v1 instrument digests killed later)
        ≡ (err e, after_all controlled_live_v1 instrument digests killed later)))
    × ((e : Error) × (claim_ai_submission controlled_live_v1 instrument digests preview "account" 5
            (after_all controlled_live_v1 instrument digests killed later)
          ≡ (err e, after_all controlled_live_v1 instrument digests killed later)))
killed_for_good_example =
    killed_for_good controlled_live_v1 instrument digests preview "account" 5 later database
      killed_lem
