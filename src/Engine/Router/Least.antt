-- ===== src/Engine/Router/Least.antt =====
-- Which venue `ExchangeSelector` selects.
use mathlib.Core.Path.{subst}
use syn_antona.Prelude.{
  String, true, Option, List, [], ◌∷◌, ◌≡◌, arith, filter, All, if◌then◌else◌, inl, inr, Bool-cases,
}
use syn_antona.Prelude.Errors.{ok, >>=-ok, ok_injective}
use syn_antona.Decimal.{Decimal, ◌≤D◌, ◌<D◌}
use syn_antona.Decimal.Order.{≤D_refl, ≤D_trans, <D→≤D}
use syn_antona.Engine.Market.{VenueQuote}
use syn_antona.Engine.Router.{
  SelectionMode, execution_cost_score, least_from, least, is_usable, best_of, select,
}

-- The quote's score is known, and is not below the given one.
pub record CostsAtLeast (score : Decimal) (q : VenueQuote) : Type 0 where
  pub own : Decimal
  pub scored : execution_cost_score q ≡ ok own
  pub no_less : (score ≤D own) ≡ true

-- A chosen quote: its score, and that it is one of the quotes.
pub data IsOneOf (q : VenueQuote) : List VenueQuote → Type 0 where
  here : {qs : List VenueQuote} → IsOneOf q (q ∷ qs)
  there : {x : VenueQuote} {qs : List VenueQuote} → IsOneOf q qs → IsOneOf q (x ∷ qs)

behind :
    {q best x : VenueQuote} {qs : List VenueQuote}
    → IsOneOf q (best ∷ qs)
    → IsOneOf q (best ∷ x ∷ qs)
behind here = here
behind (there one) = there (there one)

-- The search keeps the least of what it began with and what it saw.
least_from-least :
    (best : VenueQuote) (score : Decimal) (qs : List VenueQuote) {q : VenueQuote}
    → execution_cost_score best ≡ ok score
    → least_from best score qs ≡ ok q
    → (own : Decimal) × (execution_cost_score q ≡ ok own)
      × ((own ≤D score) ≡ true)
      × All (CostsAtLeast own) qs
      × IsOneOf q (best ∷ qs)
unfolding least_from
least_from-least best score [] {q} scored found = (
  score,
  subst (λ x. execution_cost_score x ≡ ok score) (ok_injective found) scored,
  ≤D_refl score,
  tt,
  subst (λ x. IsOneOf x (best ∷ [])) (ok_injective found) here,
)
least_from-least best score (x ∷ qs) {q} scored found =
    let (other, score_x, rest) =
      >>=-ok (execution_cost_score x)
        (λ s. least_from (if s <D score then x else best) (if s <D score then s else score) qs)
        found in
    step other score_x rest (least_from-least x other qs {q = q} score_x)
      (least_from-least best score qs {q = q} scored)
  where
    step :
        (other : Decimal)
        → execution_cost_score x ≡ ok other
        → least_from
            (if other <D score then x else best)
            (if other <D score then other else score)
            qs
          ≡ ok q
        → (least_from x other qs ≡ ok q
            → (own : Decimal) × (execution_cost_score q ≡ ok own)
              × ((own ≤D other) ≡ true)
              × All (CostsAtLeast own) qs
              × IsOneOf q (x ∷ qs))
        → (least_from best score qs ≡ ok q
            → (own : Decimal) × (execution_cost_score q ≡ ok own)
              × ((own ≤D score) ≡ true)
              × All (CostsAtLeast own) qs
              × IsOneOf q (best ∷ qs))
        → (own : Decimal) × (execution_cost_score q ≡ ok own)
          × ((own ≤D score) ≡ true)
          × All (CostsAtLeast own) (x ∷ qs)
          × IsOneOf q (best ∷ x ∷ qs)
    step other score_x rest ih_new ih_old = elim (Bool-cases (other <D score)) [
      | inl e ↦
          let (own, scored_q, less, costs, one) = ih_new (rw e at rest) in
          (
            own,
            scored_q,
            ≤D_trans own other score less (<D→≤D other score e),
            (record { own = other; scored = score_x; no_less = less }, costs),
            there one,
          )
      | inr e ↦
          let (own, scored_q, less, costs, one) = ih_old (rw e at rest) in
          (
            own,
            scored_q,
            less,
            (
              record {
                own = other;
                scored = score_x;
                no_less = ≤D_trans own score other less (ground (arith, e));
              },
              costs,
            ),
            behind one,
          )
    ]

-- When best execution selects, it selects one quote, which is one of the quotes whose exchange is
-- not unavailable, and no such quote has a lower cost score.
pub select_least :
    (quotes : List VenueQuote) (selected : Option String) (chosen : List VenueQuote)
    → select SelectionMode.best_execution quotes selected ≡ ok chosen
    → (q : VenueQuote) × (own : Decimal) × (chosen ≡ q ∷ [])
      × (execution_cost_score q ≡ ok own)
      × IsOneOf q (filter is_usable quotes)
      × All (CostsAtLeast own) (filter is_usable quotes)
unfolding select least
select_least quotes selected chosen found = go (filter is_usable quotes) found
  where
    go :
        (usable : List VenueQuote)
        → best_of usable ≡ ok chosen
        → (q : VenueQuote) × (own : Decimal) × (chosen ≡ q ∷ [])
          × (execution_cost_score q ≡ ok own)
          × IsOneOf q usable
          × All (CostsAtLeast own) usable
    go [] e = ground arith
    go (x ∷ xs) e =
        let (q, picked, last) = >>=-ok (least x xs) (λ best. ok (best ∷ [])) e in
        let (score, scored, rest) =
          >>=-ok (execution_cost_score x) (λ s. least_from x s xs) picked in
        let (own, scored_q, less, costs, one) = least_from-least x score xs scored rest in
        (
          q,
          own,
          ground arith,
          scored_q,
          one,
          (record { own = score; scored = scored; no_less = less }, costs),
        )
