-- ===== src/Shadow/Collector/Lease.antt =====
-- Who holds the lease.
use syn_antona.Prelude.{
  ℕ, suc, ltb, leb, String, Bool, true, false, not, ◌&&◌, ◌||◌, Option, none, some, List, [], ◌∷◌,
  ◌≡◌, refl, arith, all, all-cons,
}
use syn_antona.Prelude.Keys.{text_key, ◌==◌, ==_iff, ==_self, ==_comm}
use syn_antona.Prelude.Dict.{lookup, insert, lookup-insert}
use syn_antona.Prelude.Errors.{Error, err}
use syn_antona.Shadow.Records.{CollectorState}
use syn_antona.Shadow.Collector.{
  Leases, expiry, new_state, taken_over, acquire_collector_lease, RuntimeFlags, with_runtime,
  change_owned, record_collector_runtime, with_heartbeat, heartbeat, stopped,
  release_collector_lease,
}

-- What the instance of a call does to the lease of a protocol.
pub data LeaseCall : Type 0 where
  acquire : String → ℕ → ℕ → LeaseCall
  runtime : RuntimeFlags → Option String → Option String → LeaseCall
  beat : String → ℕ → Option String → LeaseCall
  release : LeaseCall

-- The call, of which protocol, by which instance and when.
pub record Request : Type 0 where
  pub protocol_id : String
  pub instance_id : String
  pub now : ℕ
  pub call : LeaseCall

unfoldable pub after_call : String → String → ℕ → LeaseCall → Leases → Leases
after_call p i now (acquire host pid lease) leases =
    (acquire_collector_lease p i host pid now lease leases).1
after_call p i now (runtime flags deployment replica) leases =
    (record_collector_runtime p i flags deployment replica now leases).1
after_call p i now (beat status lease error) leases =
    (heartbeat p i status now lease error leases).1
after_call p i now release leases = release_collector_lease p i now leases

abbrev pub after : Request → Leases → Leases
after q leases = after_call q.protocol_id q.instance_id q.now q.call leases

unfoldable pub after_all : List Request → Leases → Leases
after_all [] leases = leases
after_all (q ∷ qs) leases = after_all qs (after q leases)

-- A request about another protocol, or by another instance before the lease runs out.
abbrev pub is_foreign : String → CollectorState → Request → Bool
is_foreign p r q =
    not (q.protocol_id == p)
    || (not (q.instance_id == r.instance_id) && ltb q.now r.lease_expires_at)

after-foreign :
    (p : String) (r : CollectorState) (protocol_id instance_id : String) (now : ℕ) (c : LeaseCall)
    (leases : Leases)
    → (not (protocol_id == p) || (not (instance_id == r.instance_id) && ltb now r.lease_expires_at))
      ≡ true
    → lookup p leases ≡ some r
    → lookup p (after_call protocol_id instance_id now c leases) ≡ some r
unfolding after_call acquire_collector_lease record_collector_runtime heartbeat change_owned
    release_collector_lease
after-foreign p r q i now (acquire host pid lease) leases foreign held = go (lookup q leases) refl
  where
    go :
        (m : Option CollectorState)
        → lookup q leases ≡ m
        → lookup p (acquire_collector_lease q i host pid now lease leases).1 ≡ some r
    go none e = ground (
      arith,
      ==_iff q p,
      ==_comm i r.instance_id,
      lookup-insert q p (new_state i host pid now lease) leases,
    )
    go (some x) e = ground (
      arith,
      ==_iff q p,
      ==_comm i r.instance_id,
      lookup-insert q p (taken_over i host pid now lease x) leases,
    )
after-foreign p r q i now (runtime flags deployment replica) leases foreign held =
    go (lookup q leases) refl
  where
    go :
        (m : Option CollectorState)
        → lookup q leases ≡ m
        → lookup p (record_collector_runtime q i flags deployment replica now leases).1 ≡ some r
    go none e = ground arith
    go (some x) e = ground (
      arith,
      ==_iff q p,
      ==_comm i r.instance_id,
      lookup-insert q p (with_runtime flags deployment replica now x) leases,
    )
after-foreign p r q i now (beat status lease error) leases foreign held = go (lookup q leases) refl
  where
    go :
        (m : Option CollectorState)
        → lookup q leases ≡ m
        → lookup p (heartbeat q i status now lease error leases).1 ≡ some r
    go none e = ground arith
    go (some x) e = ground (
      arith,
      ==_iff q p,
      ==_comm i r.instance_id,
      lookup-insert q p (with_heartbeat status now lease error x) leases,
    )
after-foreign p r q i now release leases foreign held = go (lookup q leases) refl
  where
    go :
        (m : Option CollectorState)
        → lookup q leases ≡ m
        → lookup p (release_collector_lease q i now leases) ≡ some r
    go none e = ground arith
    go (some x) e =
        ground
          (arith, ==_iff q p, ==_comm i r.instance_id, lookup-insert q p (stopped now x) leases)

after_all-foreign :
    (p : String) (r : CollectorState) (qs : List Request) (leases : Leases)
    → all (is_foreign p r) qs ≡ true
    → lookup p leases ≡ some r
    → lookup p (after_all qs leases) ≡ some r
unfolding after_all
after_all-foreign p r [] leases foreign held = held
after_all-foreign p r (q ∷ qs) leases foreign held =
    let (this, rest) = all-cons (is_foreign p r) q qs foreign in
    after_all-foreign p r qs (after q leases) rest
      (after-foreign p r q.protocol_id q.instance_id q.now q.call leases this held)

module _ (p : String) (r : CollectorState) (qs : List Request) (leases : Leases) (i : String)
    (now : ℕ) where
  -- As long as the lease of a protocol has not run out, and after any calls of other protocols, and
  -- of other instances before that time, the row is unchanged, and another instance that asks for
  -- the lease is refused and whose heartbeat raises, both without a change.
  pub lease_kept :
      (host status : String) (pid lease_seconds : ℕ) (error : Option String)
      → lookup p leases ≡ some r
      → all (is_foreign p r) qs ≡ true
      → (i == r.instance_id) ≡ false
      → ltb now r.lease_expires_at ≡ true
      → (lookup p (after_all qs leases) ≡ some r)
        × (acquire_collector_lease p i host pid now lease_seconds (after_all qs leases)
            ≡ ((false, r.restart_count), after_all qs leases))
        × (heartbeat p i status now lease_seconds error (after_all qs leases)
            ≡ (err (Error.runtime_error "Collector lease lost"), after_all qs leases))
  unfolding acquire_collector_lease heartbeat change_owned
  lease_kept host status pid lease_seconds error held foreign other early =
      let kept = after_all-foreign p r qs leases foreign held in
      (
        kept,
        ground (arith, kept, other, early, ==_comm i r.instance_id),
        ground (arith, kept, other, ==_comm i r.instance_id),
      )

  -- Once the lease of a protocol has run out, and after any calls of other protocols, and of other
  -- instances before that time, any instance that asks for it gets it, with a new expiry and one
  -- restart more.
  pub lease_passes_on :
      (host : String) (pid lease_seconds : ℕ)
      → lookup p leases ≡ some r
      → all (is_foreign p r) qs ≡ true
      → leb r.lease_expires_at now ≡ true
      → (leases' : Leases) × (mine : CollectorState) × (acquire_collector_lease p i host pid now
            lease_seconds
            (after_all qs leases)
          ≡ ((true, suc r.restart_count), leases'))
        × (lookup p leases' ≡ some mine)
        × (mine.instance_id ≡ i)
        × (mine.lease_expires_at ≡ expiry now lease_seconds)
        × (mine.restart_count ≡ suc r.restart_count)
  unfolding acquire_collector_lease taken_over
  lease_passes_on host pid lease_seconds held foreign late =
      let kept = after_all-foreign p r qs leases foreign held in
      let mine : CollectorState = taken_over i host pid now lease_seconds r in
      (
        insert p mine (after_all qs leases),
        mine,
        ground (arith, kept, late),
        ground (arith, lookup-insert p p mine (after_all qs leases), ==_self p),
        refl,
        refl,
        refl,
      )
