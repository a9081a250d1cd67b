-- ===== src/Shadow/Watch/Alerts.antt =====
-- Alerts that are not lost, and reports that are sent once.
use syn_antona.Prelude.{
  ℕ, String, Bool, true, false, not, Option, none, some, List, [], ◌∷◌, ◌++◌, ◌≡◌, refl, ◌∙◌, arith,
  all, all-cons, filter, any,
}
use syn_antona.Prelude.Keys.{text_key}
use syn_antona.Prelude.Tables.{find, update_first, is_found, is_found-update_first, is_found_kept}
use syn_antona.Shadow.Records.{SystemEvent, DailySnapshot}
use syn_antona.Shadow.Watch.{
  Events, Snapshots, record_system_event, mark_event_alerted, pending_trade_alerts, is_trade_alert,
  same_id, new_event, save_daily_snapshot, mark_daily_snapshot_sent, is_snapshot, new_snapshot,
  send_once,
}

pub data EventCall : Type 0 where
  recorded : String → String → String → String → Option String → String → Option ℕ → ℕ → EventCall
  alerted : ℕ → ℕ → EventCall

unfoldable pub after : EventCall → Events → Events
after (recorded p kind severity message exchange details since now) events =
    (record_system_event p kind severity message exchange details since now events).1
after (alerted id at) events = mark_event_alerted id at events

unfoldable pub after_all : List EventCall → Events → Events
after_all [] events = events
after_all (c ∷ cs) events = after_all cs (after c events)

-- The call marks the event of the id.
abbrev pub marks : ℕ → EventCall → Bool
marks n (alerted id at) = same_id id n
marks n _ = false

-- The event of the id is among the alerts that are due.
abbrev pub is_due : String → ℕ → Events → Bool
is_due p n events = any (λ v. same_id v.id n) (pending_trade_alerts p events)

module _ {A : Type 0} (test good changes : A → Bool) (f : A → A) where
  -- A row is added, and a row that the test does not look at is changed.
  any-append :
      (xs : List A) (x : A)
      → any test (filter good xs) ≡ true
      → any test (filter good (xs ++ x ∷ [])) ≡ true
  any-append [] x h = ground arith
  any-append (y ∷ xs) x h = let rest = any-append xs x in ground (arith, rest)

  any-update_first :
      (xs : List A)
      → ((y : A) → changes y ≡ true → (test y ≡ false) × (test (f y) ≡ false))
      → any test (filter good (update_first changes f xs)) ≡ any test (filter good xs)
  any-update_first [] apart = refl
  any-update_first (y ∷ xs) apart =
      let rest = any-update_first xs apart in ground (arith, rest, apart y)

due-append :
    (p : String) (n : ℕ) (events : Events) (v : SystemEvent)
    → is_due p n events ≡ true
    → is_due p n (events ++ v ∷ []) ≡ true
unfolding pending_trade_alerts
due-append p n events v due =
    any-append (λ w. same_id w.id n) (is_trade_alert p) (λ w. false) (λ w. w) events v due

ids_apart : (a b c : ℕ) → same_id b c ≡ false → same_id a b ≡ true → same_id a c ≡ false
ids_apart a b c other same = ground arith

due-marked :
    (p : String) (n id at : ℕ) (events : Events)
    → same_id id n ≡ false
    → is_due p n events ≡ true
    → is_due p n (mark_event_alerted id at events) ≡ true
unfolding pending_trade_alerts mark_event_alerted
due-marked p n id at events other due =
    any-update_first (λ w. same_id w.id n) (is_trade_alert p) (λ w. same_id w.id id)
      (λ w. record w { alerted_at = some at }) events
      (λ w same. (ids_apart w.id id n other same, ids_apart w.id id n other same))
    ∙ due

after-due :
    (p : String) (n : ℕ) (c : EventCall) (events : Events)
    → marks n c ≡ false
    → is_due p n events ≡ true
    → is_due p n (after c events) ≡ true
unfolding after record_system_event
after-due p n (recorded q kind severity message exchange details since now) events quiet due =
    ground
      (arith, due-append p n events (new_event q kind severity message exchange details now events))
after-due p n (alerted id at) events quiet due = due-marked p n id at events quiet due

-- An event of a trade whose alert is due is still due after any events that are recorded and any
-- alerts of other events that are marked.
pub alert_not_lost :
    (p : String) (n : ℕ) (cs : List EventCall) (events : Events)
    → all (λ c. not (marks n c)) cs ≡ true
    → is_due p n events ≡ true
    → is_due p n (after_all cs events) ≡ true
unfolding after_all
alert_not_lost p n [] events quiet due = due
alert_not_lost p n (c ∷ cs) events quiet due =
    let (this, rest) = all-cons (λ x. not (marks n x)) c cs quiet in
    alert_not_lost p n cs (after c events) rest (after-due p n c events (ground arith) due)

pub data SnapshotCall : Type 0 where
  saved : String → ℕ → String → ℕ → SnapshotCall
  sent : ℕ → ℕ → SnapshotCall

unfoldable pub after_snapshot : SnapshotCall → Snapshots → Snapshots
after_snapshot (saved p day payload now) rows = (save_daily_snapshot p day payload now rows).1
after_snapshot (sent id at) rows = mark_daily_snapshot_sent id at rows

unfoldable pub after_snapshots : List SnapshotCall → Snapshots → Snapshots
after_snapshots [] rows = rows
after_snapshots (c ∷ cs) rows = after_snapshots cs (after_snapshot c rows)

abbrev has_sent : ℕ → DailySnapshot → Bool
has_sent at s = elim s.report_sent_at [ none ↦ false | some t ↦ same_id t at ]

-- The report of the id was sent at the time.
abbrev pub is_sent_at : ℕ → ℕ → Snapshots → Bool
is_sent_at n at = is_found (λ s. same_id s.id n) (has_sent at)

send_once-has_sent :
    (t at : ℕ) (s : DailySnapshot) → has_sent at s ≡ true → has_sent at (send_once t s) ≡ true
send_once-has_sent t at s h = go s.report_sent_at refl
  where
    go : (m : Option ℕ) → s.report_sent_at ≡ m → has_sent at (send_once t s) ≡ true
    go none e = ground (arith, h, e)
    go (some x) e = ground (arith, h, e)

after-sent :
    (n at : ℕ) (c : SnapshotCall) (rows : Snapshots)
    → is_sent_at n at rows ≡ true
    → is_sent_at n at (after_snapshot c rows) ≡ true
unfolding after_snapshot save_daily_snapshot mark_daily_snapshot_sent
after-sent n at (saved p day payload now) rows done = go (find (is_snapshot p day) rows) refl
  where
    go :
        (m : Option DailySnapshot)
        → find (is_snapshot p day) rows ≡ m
        → is_sent_at n at (save_daily_snapshot p day payload now rows).1 ≡ true
    go (some s) e =
        let kept =
          is_found-update_first (λ s. same_id s.id n) (has_sent at) (is_snapshot p day)
            (λ r. record r { metrics_json = payload; updated_at = now }) rows (λ x. refl)
            (λ x _ _ h. h) done in
        ground (arith, kept, e)
    go none e =
        let kept =
          is_found_kept (λ s. same_id s.id n) (has_sent at) rows
            (new_snapshot p day payload now rows) done in
        ground (arith, kept, e)
after-sent n at (sent id t) rows done =
    is_found-update_first (λ s. same_id s.id n) (has_sent at) (λ s. same_id s.id id) (send_once t)
      rows (λ s. refl) (λ s _ _ h. send_once-has_sent t at s h) done

-- A daily report that was sent keeps the time at which it was sent, through any snapshots that are
-- saved and any reports that are marked as sent, its own included.
pub sent_once :
    (n at : ℕ) (cs : List SnapshotCall) (rows : Snapshots)
    → is_sent_at n at rows ≡ true
    → is_sent_at n at (after_snapshots cs rows) ≡ true
unfolding after_snapshots
sent_once n at [] rows done = done
sent_once n at (c ∷ cs) rows done =
    sent_once n at cs (after_snapshot c rows) (after-sent n at c rows done)
