-- ===== src/Live/Emergency/Sent.antt =====
-- What the calls of an emergency stop send: requests that only reduce.
use mathlib.Core.Path.{subst}
use mathlib.Core.List.{append-nil, append_assoc}
use syn_antona.Prelude.{
  ℕ, ◌+◌, ◌≡◌, refl, sym, ◌∙◌, ap, String, Bool, true, false, List, [], ◌∷◌, ◌++◌, all, map, arith,
}
use syn_antona.Prelude.Errors.{Result, ok, err}
use syn_antona.Prelude.Actions.{Action, ◌>>=◌, return, reading}
use syn_antona.Live.Execution.{Request, World, send}
use syn_antona.Live.Emergency.{LivePositionSnapshot, emergency_fill, cancel_all, close_all}

abbrev pub is_reducing : Request → Bool
is_reducing (Request.cancel_pending_orders symbol) = true
is_reducing (Request.emergency_close_reduce_only fill symbol) = true
is_reducing _ = false

all-append :
    (xs ys : List Request)
    → all is_reducing xs ≡ true
    → all is_reducing ys ≡ true
    → all is_reducing (xs ++ ys) ≡ true
all-append [] ys h g = g
all-append (x ∷ xs) ys h g = let rest = all-append xs ys in ground (arith, rest)

-- A call changes nothing but what was sent; it sends requests that reduce, and all of the plan if it
-- returns.
pub record Sends {A : Type 0} (plan : List Request) (w : World) (r : Result A × World)
    : Type 0 where
  pub sent : List Request
  pub reducing : all is_reducing sent ≡ true
  pub same : r.1 ≡ record w { sent = w.sent ++ sent }
  pub complete : (a : A) → r.0 ≡ ok a → sent ≡ plan

pub nothing_sent : (w : World) → w ≡ record w { sent = w.sent ++ [] }
nothing_sent w = ap (λ (l : List Request). record w { sent = l }) (sym (append-nil w.sent))

pub reading-Sends : {A : Type 0} (f : World → Result A) (w : World) → Sends [] w (reading f w)
reading-Sends f w = record {
  sent = [];
  reducing = refl;
  same = nothing_sent w;
  complete = λ a h. refl;
}

send-Sends : (q : Request) (w : World) → is_reducing q ≡ true → Sends (q ∷ []) w (send q w)
send-Sends q w h = record {
  sent = q ∷ [];
  reducing = ground (arith, h);
  same = refl;
  complete = λ a r. refl;
}

pub >>=-Sends :
    {A B : Type 0} {plan rest : List Request} {w : World} (call : Action World A)
    (next : A → Action World B)
    → Sends plan w (call w)
    → ((a : A) (v : World) → Sends rest v (next a v))
    → Sends (plan ++ rest) w ((call >>= next) w)
>>=-Sends {A} {B} {plan} {rest} {w} call next first later = go (call w) first
  where
    go :
        (r : Result A × World)
        → Sends plan w r
        → Sends
            (plan ++ rest)
            w
            (elim r.0 as (λ _. Result B × World) [ err e ↦ (err e, r.1) | ok a ↦ next a r.1 ])
    go (err e, v) s = record {
      sent = s.sent;
      reducing = s.reducing;
      same = s.same;
      complete = λ a h. ground arith;
    }
    go (ok a, v) s =
        let t : Sends rest v (next a v) = later a v in
        record {
          sent = s.sent ++ t.sent;
          reducing = all-append s.sent t.sent s.reducing t.reducing;
          same =
              t.same
              ∙ ap (λ (u : World). record u { sent = u.sent ++ t.sent }) s.same
              ∙ ap (λ (l : List Request). record w { sent = l })
                  (append_assoc w.sent s.sent t.sent);
          complete = λ b h.
              ap (λ (l : List Request). l ++ t.sent) (s.complete a refl)
              ∙ ap (λ (l : List Request). plan ++ l) (t.complete b h);
        }

-- A call whose answer is changed.
pub sent_last :
    {A B : Type 0} {plan : List Request} {w : World} (call : Action World A) (f : A → B)
    → Sends plan w (call w)
    → Sends plan w ((call >>= (λ a. return (f a))) w)
sent_last {A} {B} {plan} {w} call f s =
    subst (λ l. Sends l w ((call >>= (λ a. return (f a))) w)) (append-nil plan)
      (>>=-Sends call (λ a. return (f a)) s (λ a v. reading-Sends (λ u. ok (f a)) v))

abbrev pub cancels : List String → List Request
cancels = map Request.cancel_pending_orders

abbrev pub closes : List LivePositionSnapshot → List Request
closes = map (λ p. Request.emergency_close_reduce_only (emergency_fill p) p.symbol)

pub cancel_all-Sends :
    (answers : String → Result ℕ) (symbols : List String) (w : World)
    → Sends (cancels symbols) w (cancel_all answers symbols w)
unfolding cancel_all
cancel_all-Sends answers [] w = reading-Sends (λ v. ok 0) w
cancel_all-Sends answers (symbol ∷ symbols) w =
    >>=-Sends (send (Request.cancel_pending_orders symbol)) _
      (send-Sends (Request.cancel_pending_orders symbol) w refl)
      (λ a v.
        >>=-Sends (reading (λ u. answers symbol)) _ (reading-Sends (λ u. answers symbol) v) (λ n u.
          sent_last (cancel_all answers symbols) (λ rest. n + rest)
            (cancel_all-Sends answers symbols u)))

pub close_all-Sends :
    (answers : LivePositionSnapshot → Result (Unit {0})) (ps : List LivePositionSnapshot)
    (w : World)
    → Sends (closes ps) w (close_all answers ps w)
unfolding close_all
close_all-Sends answers [] w = reading-Sends (λ v. ok 0) w
close_all-Sends answers (p ∷ ps) w =
    >>=-Sends (send (Request.emergency_close_reduce_only (emergency_fill p) p.symbol)) _
      (send-Sends (Request.emergency_close_reduce_only (emergency_fill p) p.symbol) w refl)
      (λ a v.
        >>=-Sends (reading (λ u. answers p)) _ (reading-Sends (λ u. answers p) v) (λ b u.
          sent_last (close_all answers ps) (λ rest. 1 + rest) (close_all-Sends answers ps u)))
