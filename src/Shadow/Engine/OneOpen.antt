-- ===== src/Shadow/Engine/OneOpen.antt =====
-- What holds of the trades after any cycles.
use mathlib.Core.Path.{subst}
use syn_antona.Prelude.{
  ℕ, ◌+◌, ◌≤◌, String, Bool, true, false, some, List, [], ◌∷◌, ◌++◌, any, filter, length, ◌≡◌, ◌⊎◌,
  refl, sym, ◌∙◌, arith, if◌then◌else◌, inl, inr, Bool-cases,
}
use syn_antona.Prelude.Keys.{text_key, ◌==◌, ==_iff}
use syn_antona.Prelude.Tables.{find, update_first}
use syn_antona.Shadow.Records.{Closing, ShadowTrade}
use syn_antona.Shadow.Repository.{Journal, Texts}
use syn_antona.Shadow.Repository.Trades.{is_open, is_open_in, closed_by}
use syn_antona.Shadow.Engine.{Replies, process_exchanges}
use syn_antona.Shadow.Engine.Steps.{Move, Moves}
use syn_antona.Shadow.Engine.Steps.Cycle.{process_exchanges-Reached}

-- The open trades of the protocol, the exchange and the symbol.
abbrev pub open_count : String → String → String → List ShadowTrade → ℕ
open_count p e s ts = length (filter (is_open_in p e s) ts)

module _ {A : Type 0} (test : A → Bool) where
  length-filter-append :
      (xs : List A) (x : A)
      → length (filter test (xs ++ x ∷ [])) ≡ length (filter test xs) + (if test x then 1 else 0)
  length-filter-append [] x = ground arith
  length-filter-append (y ∷ xs) x = let rest = length-filter-append xs x in ground (arith, rest)

  length-filter-none : (xs : List A) → any test xs ≡ false → length (filter test xs) ≡ 0
  length-filter-none [] h = refl
  length-filter-none (y ∷ xs) h = let rest = length-filter-none xs in ground (arith, rest)

  length-filter-update_first :
      (changes : A → Bool) (f : A → A) (xs : List A)
      → ((x : A) → test (f x) ≡ false)
      → length (filter test (update_first changes f xs)) ≤ length (filter test xs)
  length-filter-update_first changes f [] out = ground arith
  length-filter-update_first changes f (x ∷ xs) out =
      let rest = length-filter-update_first changes f xs out in ground (arith, rest, out x)

-- An open trade of the key is of the key of the trade that is opened.
opened_count :
    (p e s : String) (ts : List ShadowTrade) (t : ShadowTrade)
    → any (is_open_in t.protocol_id t.exchange t.symbol) ts ≡ false
    → open_count p e s ts ≤ 1
    → open_count p e s (ts ++ t ∷ []) ≤ 1
opened_count p e s ts t free few = go (Bool-cases (is_open_in p e s t))
  where
    added :
        length (filter (is_open_in p e s) (ts ++ t ∷ []))
        ≡ length (filter (is_open_in p e s) ts) + (if is_open_in p e s t then 1 else 0)
    added = length-filter-append (is_open_in p e s) ts t

    none_open : length (filter (is_open_in t.protocol_id t.exchange t.symbol) ts) ≡ 0
    none_open = length-filter-none (is_open_in t.protocol_id t.exchange t.symbol) ts free

    go :
        (is_open_in p e s t ≡ true) ⊎ (is_open_in p e s t ≡ false)
        → open_count p e s (ts ++ t ∷ []) ≤ 1
    go (inl of_key) =
        let same : (t.protocol_id ≡ p) × (t.exchange ≡ e) × (t.symbol ≡ s) =
          ground (arith, of_key, ==_iff t.protocol_id p, ==_iff t.exchange e, ==_iff t.symbol s) in
        let empty : open_count p e s ts ≡ 0 = rw (← same.0, ← same.1, ← same.2) none_open in
        ground (arith, added, empty)
    go (inr other) = ground (arith, added, other, few)

closed_apart :
    (p e s : String) (values : Closing) (t : ShadowTrade)
    → is_open_in p e s (closed_by values t) ≡ false
closed_apart p e s values t = ground arith

Move-open_count :
    (p e s : String) {ts ts' : List ShadowTrade}
    → Move ts ts'
    → open_count p e s ts ≤ 1
    → open_count p e s ts' ≤ 1
Move-open_count p e s {ts} (Move.opened t fresh free opens same) few =
    subst (λ l. open_count p e s l ≤ 1) (sym same) (opened_count p e s ts t free few)
Move-open_count p e s {ts} (Move.closed id t values found opens same) few =
    let less =
      length-filter-update_first (is_open_in p e s) (λ x. x.id == id) (closed_by values) ts
        (closed_apart p e s values) in
    subst (λ l. open_count p e s l ≤ 1) (sym same) (omega (arith, less, few))

Moves-open_count :
    (p e s : String) {ts ts' : List ShadowTrade}
    → Moves ts ts'
    → open_count p e s ts ≤ 1
    → open_count p e s ts' ≤ 1
Moves-open_count p e s Moves.none_made few = few
Moves-open_count p e s (Moves.and_then moves move) few =
    Move-open_count p e s move (Moves-open_count p e s moves few)

-- When a journal has at most one open trade of a protocol, an exchange and a symbol, then so it has
-- after the shadow engine processed its exchanges in a cycle, whatever the market, the strategy and
-- the notifier answer.
pub one_open :
    (texts : Texts) (strategy_hash : String) (locked_at : ℕ) (rs : List Replies) (j : Journal)
    (p e s : String)
    → open_count p e s j.trades ≤ 1
    → open_count p e s (process_exchanges texts strategy_hash locked_at rs j).1.trades ≤ 1
one_open texts strategy_hash locked_at rs j p e s few =
    Moves-open_count p e s
      (process_exchanges-Reached j.trades texts strategy_hash locked_at rs j Moves.none_made) few

-- A closed trade under its id.
abbrev has_id : String → ShadowTrade → Bool
has_id id t = t.id == id

find-append :
    (id : String) (ts : List ShadowTrade) (t : ShadowTrade) {x : ShadowTrade}
    → find (has_id id) ts ≡ some x
    → find (has_id id) (ts ++ t ∷ []) ≡ some x
find-append id [] t found = ground arith
find-append id (y ∷ ts) t {x} found =
    let rest = find-append id ts t {x = x} in ground (arith, rest, found)

find-update_other :
    (id other : String) (f : ShadowTrade → ShadowTrade) (ts : List ShadowTrade)
    → ((t : ShadowTrade) → (f t).id ≡ t.id)
    → (id == other) ≡ false
    → find (has_id id) (update_first (has_id other) f ts) ≡ find (has_id id) ts
find-update_other id other f [] keeps apart = refl
find-update_other id other f (t ∷ ts) keeps apart =
    let rest = find-update_other id other f ts keeps apart in
    ground (arith, rest, keeps t, apart, ==_iff t.id id, ==_iff t.id other, ==_iff id other)

Move-closed :
    (id : String) {ts ts' : List ShadowTrade} {x : ShadowTrade}
    → Move ts ts'
    → is_open x ≡ false
    → find (has_id id) ts ≡ some x
    → find (has_id id) ts' ≡ some x
Move-closed id {ts} {ts'} {x} (Move.opened t fresh free opens same) done held =
    subst (λ l. find (has_id id) l ≡ some x) (sym same) (find-append id ts t held)
Move-closed id {ts} {ts'} {x} (Move.closed other t values found opens same) done held =
    go (Bool-cases (id == other))
  where
    go : ((id == other) ≡ true) ⊎ ((id == other) ≡ false) → find (has_id id) ts' ≡ some x
    go (inl e) =
        let mine =
          subst (λ k. find (λ y. y.id == k) ts ≡ some t) (sym ((==_iff id other).0 e)) found in
        ground (arith, mine, held, opens, done)
    go (inr e) =
        subst (λ l. find (has_id id) l ≡ some x) (sym same)
          (find-update_other id other (closed_by values) ts (λ t. refl) e ∙ held)

Moves-closed :
    (id : String) {ts ts' : List ShadowTrade} {x : ShadowTrade}
    → Moves ts ts'
    → is_open x ≡ false
    → find (has_id id) ts ≡ some x
    → find (has_id id) ts' ≡ some x
Moves-closed id Moves.none_made done held = held
Moves-closed id (Moves.and_then moves move) done held =
    Move-closed id move done (Moves-closed id moves done held)

-- A trade that is closed is found under its id, unchanged, after the shadow engine processed its
-- exchanges in a cycle.
pub closed_for_good :
    (texts : Texts) (strategy_hash : String) (locked_at : ℕ) (rs : List Replies) (j : Journal)
    (id : String) (x : ShadowTrade)
    → is_open x ≡ false
    → find (λ t. t.id == id) j.trades ≡ some x
    → find (λ t. t.id == id) (process_exchanges texts strategy_hash locked_at rs j).1.trades
      ≡ some x
closed_for_good texts strategy_hash locked_at rs j id x done held =
    Moves-closed id
      (process_exchanges-Reached j.trades texts strategy_hash locked_at rs j Moves.none_made) done
      held
