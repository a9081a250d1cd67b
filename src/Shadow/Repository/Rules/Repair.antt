-- ===== src/Shadow/Repository/Rules/Repair.antt =====
-- After a repair every candle of the protocol has its decision.
use mathlib.Core.Path.{subst}
use syn_antona.Prelude.{
  ℕ, String, Bool, true, not, ◌&&◌, ◌||◌, List, [], ◌∷◌, ◌++◌, any, all, filter, ◌≡◌, refl, sym,
  ◌∙◌, arith,
}
use syn_antona.Prelude.Keys.{text_key, ◌==◌, ==_self}
use syn_antona.Prelude.Errors.{Result, ok, err}
use syn_antona.Shadow.Records.{ShadowCandle, ShadowDecision}
use syn_antona.Shadow.Repository.{
  Journal, Texts, is_decision, add_decision, interrupted_decision, quote_of, repair_all, counted,
  all_or_nothing, orphans, repair_orphan_decisions,
}

-- There is a decision for the candle.
abbrev pub is_covered : Journal → ShadowCandle → Bool
is_covered j c = any (is_decision c.protocol_id c.exchange c.symbol c.candle.timestamp) j.decisions

any_more :
    {A : Type 0} (test : A → Bool) (xs : List A) (x : A)
    → any test (xs ++ x ∷ []) ≡ (any test xs || test x)
any_more test [] x = ground arith
any_more test (y ∷ xs) x = let rest = any_more test xs x in ground (arith, rest)

-- What a journal covers, another covers too.
abbrev pub Grows : Journal → Journal → Type 0
Grows j j' = (c : ShadowCandle) → is_covered j c ≡ true → is_covered j' c ≡ true

add_decision-Grows :
    (d : ShadowDecision) (j : Journal) {j' : Journal}
    → add_decision d j ≡ (ok tt, j')
    → Grows j j' × (j'.candles ≡ j.candles) × (j'.decisions ≡ j.decisions ++ d ∷ [])
unfolding add_decision
add_decision-Grows d j {j'} added = (
  λ c covered. ground (
    arith,
    added,
    covered,
    any_more (is_decision c.protocol_id c.exchange c.symbol c.candle.timestamp) j.decisions d,
  ),
  ground (arith, added),
  ground (arith, added),
)

wait-covers :
    (texts : Texts) (p strategy : String) (c : ShadowCandle) (j : Journal)
    → is_decision c.protocol_id c.exchange c.symbol c.candle.timestamp
        (interrupted_decision texts c (quote_of p c j) strategy)
      ≡ true
wait-covers texts p strategy c j =
    ground (arith, ==_self c.protocol_id, ==_self c.exchange, ==_self c.symbol)

uncounted :
    (r : Result ℕ × Journal) {n : ℕ} {j' : Journal}
    → counted r ≡ (ok n, j')
    → (m : ℕ) × (r ≡ (ok m, j'))
uncounted (ok m, k) h = (m, ground arith)
uncounted (err e, k) h = ground arith

repair_all-covers :
    (texts : Texts) (p strategy : String) (cs : List ShadowCandle) (j : Journal) {n : ℕ}
    {j' : Journal}
    → repair_all texts p strategy cs j ≡ (ok n, j')
    → Grows j j' × (j'.candles ≡ j.candles) × (all (is_covered j') cs ≡ true)
unfolding repair_all
repair_all-covers texts p strategy [] j {n} {j'} done =
    (λ c h. ground (arith, done, h), ground (arith, done), refl)
repair_all-covers texts p strategy (c ∷ cs) j {n} {j'} done =
    go (add_decision d j) refl done
      (λ k m k'. repair_all-covers texts p strategy cs k {n = m} {j' = k'})
  where
    d : ShadowDecision
    d = interrupted_decision texts c (quote_of p c j) strategy

    covered_by : (k : Journal) → k.decisions ≡ j.decisions ++ d ∷ [] → is_covered k c ≡ true
    covered_by k placed =
        let more =
          any_more (is_decision c.protocol_id c.exchange c.symbol c.candle.timestamp) j.decisions
            d in
        let it = wait-covers texts p strategy c j in ground (arith, placed, more, it)

    go :
        (r : Result (Unit {0}) × Journal)
        → add_decision d j ≡ r
        → elim r.0 as (λ _. Result ℕ × Journal) [
          | err e ↦ (err e, r.1)
          | ok _ ↦ counted (repair_all texts p strategy cs r.1)
        ]
          ≡ (ok n, j')
        → ((k : Journal) (m : ℕ) (k' : Journal)
            → repair_all texts p strategy cs k ≡ (ok m, k')
            → Grows k k' × (k'.candles ≡ k.candles) × (all (is_covered k') cs ≡ true))
        → Grows j j' × (j'.candles ≡ j.candles) × (all (is_covered j') (c ∷ cs) ≡ true)
    go (err e, k) added ran rest = ground arith
    go (ok _, k) added ran rest =
        let (m, inner) = uncounted (repair_all texts p strategy cs k) ran in
        let (grows, kept, all_covered) = rest k m j' inner in
        let (grows0, kept0, placed) = add_decision-Grows d j added in
        let mine = grows c (covered_by k placed) in
        (λ x h. grows x (grows0 x h), kept ∙ kept0, ground (arith, mine, all_covered))

filter_covered :
    (p : String) (j j' : Journal) (cs : List ShadowCandle)
    → Grows j j'
    → all (is_covered j') (filter (λ c. (c.protocol_id == p) && not (is_covered j c)) cs) ≡ true
    → filter (λ c. (c.protocol_id == p) && not (is_covered j' c)) cs ≡ []
filter_covered p j j' [] grows covered = refl
filter_covered p j j' (c ∷ cs) grows covered =
    let rest = filter_covered p j j' cs grows in let more = grows c in ground (arith, rest, more)

kept_whole :
    (before : Journal) (r : Result ℕ × Journal) {n : ℕ} {j' : Journal}
    → all_or_nothing before r ≡ (ok n, j')
    → r ≡ (ok n, j')
kept_whole before (ok m, k) h = h
kept_whole before (err e, k) h = ground arith

-- When a repair returns, no candle of the protocol is without a decision, the candles are as
-- before, and every candle that had a decision still has one.
pub repair_leaves_none :
    (texts : Texts) (p strategy : String) (j : Journal) {n : ℕ} {j' : Journal}
    → repair_orphan_decisions texts p strategy j ≡ (ok n, j')
    → (orphans p j' ≡ []) × (j'.candles ≡ j.candles) × Grows j j'
unfolding repair_orphan_decisions orphans
repair_leaves_none texts p strategy j {n} {j'} done =
    let ran = kept_whole j (repair_all texts p strategy (orphans p j) j) done in
    let (grows, kept, covered) = repair_all-covers texts p strategy (orphans p j) j ran in
    (
      subst (λ cs. filter (λ c. (c.protocol_id == p) && not (is_covered j' c)) cs ≡ []) (sym kept)
          (filter_covered p j j' j.candles grows covered),
      kept,
      grows,
    )
