-- ===== src/Live/Emergency/Stopping.antt =====
-- What an emergency stop leaves behind: the kill switch, and requests that only reduce.
use mathlib.Core.Path.{subst}
use syn_antona.Prelude.Keys.{text_key, ==_self}
use syn_antona.Prelude.{
  Option, none, some, ℕ, ◌≡◌, refl, sym, String, Bool, true, false, List, [], ◌++◌, if◌then◌else◌,
  ◌&&◌, any, all, leb, filter, arith,
}
use syn_antona.Prelude.Errors.{Error, Result, ok, err}
use syn_antona.Prelude.Actions.{◌>>=◌, return}
use syn_antona.Live.Profile.{
  ControlledLiveProfile, FirstInstrumentSelection, ManualExecutionPreview,
}
use syn_antona.Live.Records.{Database, LiveState}
use syn_antona.Live.Repository.{Digests, verify_hash, initial_state}
use syn_antona.Live.Claims.{claim_submission, claim_ai_submission}
use syn_antona.Live.Outcomes.{activate_kill_switch}
use syn_antona.Live.Calls.{Call, after_all}
use syn_antona.Live.Locks.Final.{killed_for_good}
use syn_antona.Live.Execution.{Request, World}
use syn_antona.Live.Emergency.{
  LivePositionSnapshot, LiveGatewaySnapshot, StopReplies, StopReport, is_ours, active_symbols,
  cancel_all, close_all, wind_down, emergency_stop,
}
use syn_antona.Live.Emergency.Sent.{
  is_reducing, Sends, nothing_sent, reading-Sends, >>=-Sends, sent_last, cancels, closes,
  cancel_all-Sends, close_all-Sends,
}

-- What an emergency stop that ends well has sent.
abbrev pub stop_plan : FirstInstrumentSelection → Bool → LiveGatewaySnapshot → List Request
stop_plan instrument close_position snapshot =
    cancels (active_symbols instrument snapshot)
    ++ (if close_position then closes (filter is_ours snapshot.positions) else [])

module _ (profile : ControlledLiveProfile) (instrument : FirstInstrumentSelection)
    (digests : Digests) where
  -- What follows the snapshot.
  unwound-Sends :
      (close_position : Bool) (replies : StopReplies) (snapshot : LiveGatewaySnapshot) (w : World)
      → replies.snapshot ≡ ok snapshot
      → Sends
          (stop_plan instrument close_position snapshot)
          w
          (wind_down profile instrument digests close_position replies w)
  unfolding wind_down
  unwound-Sends close_position replies snapshot w read = rw read (
      >>=-Sends (cancel_all replies.cancelled (active_symbols instrument snapshot)) _
        (cancel_all-Sends replies.cancelled (active_symbols instrument snapshot) w)
        (λ n v. closing close_position n v))
    where
      ps : List LivePositionSnapshot
      ps = filter is_ours snapshot.positions

      report : ℕ → ℕ → StopReport
      report n m = record { cancelled_orders = n; closed_positions = m }

      closing :
          (b : Bool) (n : ℕ) (v : World)
          → Sends (if b then closes ps else []) v (
              ((if b then close_all replies.closed ps else return 0) >>= (λ m. return (report n m)))
                v)
      closing true n v =
          sent_last (close_all replies.closed ps) (report n) (close_all-Sends replies.closed ps v)
      closing false n v = sent_last (return 0) (report n) (reading-Sends (λ u. ok 0) v)

  -- The database whose state row has the kill switch on; a missing row is a new one.
  abbrev pub killed_db : Database → Database
  killed_db db = elim db.state [
    | none ↦ record db {
      state =
          some (record (initial_state profile instrument digests) { kill_switch_active = true });
    }
    | some s ↦ record db { state = some (record s { kill_switch_active = true }) }
  ]

  -- The state row, if there is one, was written under the profile.
  abbrev pub IsOfProfile : Database → Type 0
  IsOfProfile db = (s : LiveState) → db.state ≡ some s → s.profile_hash ≡ profile.config_hash

  activate-killed :
      (db : Database)
      → IsOfProfile db
      → activate_kill_switch profile instrument digests db ≡ (ok tt, killed_db db)
  unfolding activate_kill_switch verify_hash
  activate-killed db own = go db.state refl
    where
      go :
          (o : Option LiveState)
          → db.state ≡ o
          → activate_kill_switch profile instrument digests db ≡ (ok tt, killed_db db)
      go none e = ground (arith, e, ==_self profile.config_hash)
      go (some s) e = ground (arith, e, own s e, ==_self profile.config_hash)

  -- What the stop did to the world `w`, whatever it answered.
  pub record IsStopped (close_position : Bool) (replies : StopReplies) (w : World) (db' : Database)
      (r : Result StopReport × World) : Type 0 where
    pub sent : List Request
    pub reducing : all is_reducing sent ≡ true
    pub same : r.1 ≡ record w { db = db'; sent = w.sent ++ sent }
    pub complete :
        (report : StopReport)
        → r.0 ≡ ok report
        → (snapshot : LiveGatewaySnapshot) × (replies.snapshot ≡ ok snapshot)
          × (sent ≡ stop_plan instrument close_position snapshot)

  wind_down-IsStopped :
      (close_position : Bool) (replies : StopReplies) (w : World) (db' : Database)
      → IsStopped close_position replies w db'
          (wind_down profile instrument digests close_position replies (record w { db = db' }))
  unfolding wind_down
  wind_down-IsStopped close_position replies w db' = go replies.snapshot refl
    where
      go :
          (answer : Result LiveGatewaySnapshot)
          → replies.snapshot ≡ answer
          → IsStopped close_position replies w db'
              (wind_down profile instrument digests close_position replies (record w { db = db' }))
      go (ok snapshot) read =
          let s = unwound-Sends close_position replies snapshot (record w { db = db' }) read in
          record {
            sent = s.sent;
            reducing = s.reducing;
            same = s.same;
            complete = λ report h. (snapshot, read, s.complete report h);
          }
      go (err e) read = rw read (record {
        sent = [];
        reducing = refl;
        same = nothing_sent (record w { db = db' });
        complete = λ report h. ground arith;
      })

  -- When an administrator stops the trading and the state row, if there is one, was written under
  -- the profile, then, whatever the gateway answers, the database after is the one before but for
  -- the kill switch of its state row, which is set, in a new row if there was none; only
  -- cancellations and reduce-only closes are sent, and a stop that returns has sent those for all
  -- active symbols and, if asked, for all positions of the scanner; after any transactions since,
  -- the claims of both order paths raise and change nothing.
  pub emergency_stops :
      (admin_ids : List ℕ) (admin_id : ℕ) (close_position : Bool) (replies : StopReplies)
      (w : World) (v : ManualExecutionPreview) (account : String) (now : ℕ) (cs : List Call)
      → any (λ a. leb a admin_id && leb admin_id a) admin_ids ≡ true
      → IsOfProfile w.db
      → IsStopped close_position replies w
          (killed_db w.db)
          (emergency_stop profile instrument digests admin_ids admin_id close_position replies w)
        × ((e : Error) × (claim_submission profile instrument digests v account now
                (after_all profile instrument digests (killed_db w.db) cs)
              ≡ (err e, after_all profile instrument digests (killed_db w.db) cs)))
        × ((e : Error) × (claim_ai_submission profile instrument digests v account now
                (after_all profile instrument digests (killed_db w.db) cs)
              ≡ (err e, after_all profile instrument digests (killed_db w.db) cs)))
  unfolding emergency_stop
  emergency_stops admin_ids admin_id close_position replies w v account now cs admin own =
      let killed = activate-killed w.db own in
      let (manual, autonomous) =
        killed_for_good profile instrument digests v account now cs w.db killed in
      (
        rw admin (
            subst
              (λ x.
                IsStopped close_position replies w (killed_db w.db)
                  (elim x.0 as (λ _. Result StopReport × World) [
                    | err e ↦ (err e, record w { db = x.1 })
                    | ok _ ↦
                        wind_down profile instrument digests close_position replies
                          (record w { db = x.1 })
                  ]))
              (sym killed) (wind_down-IsStopped close_position replies w (killed_db w.db))),
        manual,
        autonomous,
      )
