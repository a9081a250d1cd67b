-- ===== src/Risk/Portfolio/Book.antt =====
-- The book of positions once an approved proposal has become one of them.
use syn_antona.Prelude.{
  ◌≡◌, refl, ap, sym, ◌∙◌, ◌+◌, ◌≤◌, leb, String, Bool, true, false, List, [], ◌∷◌, ◌++◌, map,
  length, filter, arith,
}
use syn_antona.Prelude.Keys.{text_key, pair_key}
use syn_antona.Prelude.Dict.{Dict, values}
use syn_antona.Prelude.Errors.{Result, ok, err}
use syn_antona.Decimal.{Decimal, zero_d, ◌+D◌, ◌*D◌, ◌/D◌, ◌≤D◌, sum_d}
use syn_antona.Risk.Portfolio.{
  HealthStatus, ManagedPosition, position_notional, position_open_risk, ExchangeRiskLimits,
  GlobalRiskLimits, ProposedExposure, PortfolioRiskDecision, is_of_account, account_exposure,
  total_exposure, leveraged_exposure, total_open_risk, approve_risk, approve_global,
  approve_account, account_value, approve,
}

sum_d-append : (acc x : Decimal) (xs : List Decimal) → sum_d acc (xs ++ x ∷ []) ≡ sum_d acc xs +D x
unfolding sum_d
sum_d-append acc x [] = refl
sum_d-append acc x (y ∷ xs) = sum_d-append (acc +D y) x xs

map-append :
    {A : Type 0} (f : A → Decimal) (xs : List A) (x : A)
    → map f (xs ++ x ∷ []) ≡ map f xs ++ f x ∷ []
map-append f [] x = refl
map-append f (y ∷ xs) x = ap (λ l. f y ∷ l) (map-append f xs x)

filter-append :
    {A : Type 0} (test : A → Bool) (xs : List A) (x : A)
    → test x ≡ true
    → filter test (xs ++ x ∷ []) ≡ filter test xs ++ x ∷ []
filter-append test [] x h = ground arith
filter-append test (y ∷ xs) x h = let rest = filter-append test xs x h in ground (arith, rest)

length-append : {A : Type 0} (xs : List A) (x : A) → length (xs ++ x ∷ []) ≡ length xs + 1
length-append [] x = refl
length-append (y ∷ xs) x = let rest = length-append xs x in ground (arith, rest)

-- What a list of positions sums to once one more stands at its end.
sum-append :
    (f : ManagedPosition → Decimal) (ps : List ManagedPosition) (p : ManagedPosition)
    → sum_d zero_d (map f (ps ++ p ∷ [])) ≡ sum_d zero_d (map f ps) +D f p
sum-append f ps p = ap (sum_d zero_d) (map-append f ps p) ∙ sum_d-append zero_d (f p) (map f ps)

-- The limits on the book of an account with this equity.
pub record WithinAccount (q : ProposedExposure) (book : List ManagedPosition) (equity : Decimal)
    (l : ExchangeRiskLimits) : Type 0 where
  pub few : length (filter (is_of_account q) book) ≤ l.max_positions
  pub exposure :
      (sum_d zero_d (map position_notional (filter (is_of_account q) book))
        ≤D (equity *D l.max_exposure_pct))
      ≡ true

-- The limits on the whole book.
pub record WithinGlobal (book : List ManagedPosition) (equity : Decimal) (l : GlobalRiskLimits)
    : Type 0 where
  pub exposure :
      (sum_d zero_d (map position_notional book) ≤D (equity *D l.max_total_exposure_pct)) ≡ true
  pub ratio : Decimal
  pub leverage_ratio :
      sum_d zero_d (map (λ p. position_notional p *D p.leverage) book) /D equity ≡ ok ratio
  pub leverage : (ratio ≤D l.max_total_leverage) ≡ true
  pub open_risk :
      (sum_d zero_d (map position_open_risk book) ≤D (equity *D l.max_open_risk_pct)) ≡ true

-- The position that the exchange reports for a proposal that was executed as it was proposed.
pub record IsOpened (q : ProposedExposure) (p : ManagedPosition) : Type 0 where
  pub of_account : is_of_account q p ≡ true
  pub notional : position_notional p ≡ q.notional
  pub leverage : p.leverage ≡ q.leverage
  pub open_risk : position_open_risk p ≡ q.open_risk

module _ (q : ProposedExposure) (ps : List ManagedPosition) {d : PortfolioRiskDecision} where
  account-passed :
      (equity pnl : Decimal) (l : ExchangeRiskLimits) (rest : Result PortfolioRiskDecision)
      → approve_account q ps equity pnl l rest ≡ ok d
      → d.approved ≡ true
      → (leb l.max_positions (length (filter (is_of_account q) ps)) ≡ false)
        × ((account_exposure q ps ≤D (equity *D l.max_exposure_pct)) ≡ true)
        × (rest ≡ ok d)
  unfolding approve_account
  account-passed equity pnl l rest h granted = (ground arith, ground arith, ground arith)

  risk-passed :
      (equity : Decimal) (l : GlobalRiskLimits)
      → approve_risk q ps equity l ≡ ok d
      → d.approved ≡ true
      → (total_open_risk q ps ≤D (equity *D l.max_open_risk_pct)) ≡ true
  unfolding approve_risk
  risk-passed equity l h granted = ground arith

  global-passed :
      (equity pnl : Decimal) (l : GlobalRiskLimits)
      → approve_global q ps equity pnl l ≡ ok d
      → d.approved ≡ true
      → ((total_exposure q ps ≤D (equity *D l.max_total_exposure_pct)) ≡ true)
        × ((ratio : Decimal) × (leveraged_exposure q ps /D equity ≡ ok ratio)
            × ((ratio ≤D l.max_total_leverage) ≡ true)
            × (approve_risk q ps equity l ≡ ok d))
  unfolding approve_global
  global-passed equity pnl l h granted =
      (ground arith, split (leveraged_exposure q ps /D equity) refl)
    where
      split :
          (r : Result Decimal)
          → leveraged_exposure q ps /D equity ≡ r
          → (ratio : Decimal) × (leveraged_exposure q ps /D equity ≡ ok ratio)
            × ((ratio ≤D l.max_total_leverage) ≡ true)
            × (approve_risk q ps equity l ≡ ok d)
      split (ok ratio) e = (ratio, e, ground arith, ground arith)
      split (err x) e = ground arith

module _ (q : ProposedExposure) (ps : List ManagedPosition) (p : ManagedPosition)
    (o : IsOpened q p) where
  total_exposure-book : total_exposure q ps ≡ sum_d zero_d (map position_notional (ps ++ p ∷ []))
  unfolding total_exposure
  total_exposure-book = rw (← o.notional) (sym (sum-append position_notional ps p))

  total_open_risk-book : total_open_risk q ps ≡ sum_d zero_d (map position_open_risk (ps ++ p ∷ []))
  unfolding total_open_risk
  total_open_risk-book = rw (← o.open_risk) (sym (sum-append position_open_risk ps p))

  leveraged_exposure-book :
      leveraged_exposure q ps
      ≡ sum_d zero_d (map (λ x. position_notional x *D x.leverage) (ps ++ p ∷ []))
  unfolding leveraged_exposure
  leveraged_exposure-book =
      rw (← o.notional, ← o.leverage)
        (sym (sum-append (λ x. position_notional x *D x.leverage) ps p))

  account_exposure-book :
      account_exposure q ps
      ≡ sum_d zero_d (map position_notional (filter (is_of_account q) (ps ++ p ∷ [])))
  unfolding account_exposure
  account_exposure-book =
      rw (filter-append (is_of_account q) ps p o.of_account, ← o.notional)
        (sym (sum-append position_notional (filter (is_of_account q) ps) p))

  -- Once an approved proposal has become a position as it was proposed, the account holds no more
  -- positions and no more exposure than its limits allow, and the whole book no more exposure, leverage
  -- and open risk than the global limits allow.
  pub approved_book :
      (equities pnls : Dict (String × String) Decimal) (exchange_health : HealthStatus)
      (exchange_limits : ExchangeRiskLimits) (global_limits : GlobalRiskLimits)
      {d : PortfolioRiskDecision}
      → approve q ps equities pnls exchange_health exchange_limits global_limits ≡ ok d
      → d.approved ≡ true
      → WithinAccount q (ps ++ p ∷ []) (account_value q equities) exchange_limits
        × WithinGlobal (ps ++ p ∷ []) (sum_d zero_d (values equities)) global_limits
  unfolding approve
  approved_book equities pnls exchange_health exchange_limits global_limits {d} h granted =
      let equity : Decimal = account_value q equities in
      let total : Decimal = sum_d zero_d (values equities) in
      let pnl : Decimal = account_value q pnls in
      let all_pnl : Decimal = sum_d zero_d (values pnls) in
      let gates : approve_account q ps equity pnl exchange_limits
            (approve_global q ps total all_pnl global_limits)
          ≡ ok d =
        ground arith in
      let (few, exposed, gates') = account-passed q ps equity pnl exchange_limits _ gates granted in
      let (total_ok, (ratio, ratio_eq, leverage_ok, gates'')) =
        global-passed q ps total all_pnl global_limits gates' granted in
      let risk_ok = risk-passed q ps total global_limits gates'' granted in
      (
        record {
          few =
              rw
                (
                  filter-append (is_of_account q) ps p o.of_account,
                  length-append (filter (is_of_account q) ps) p,
                )
                (ground arith);
          exposure = rw (← account_exposure-book) exposed;
        },
        record {
          exposure = rw (← total_exposure-book) total_ok;
          ratio = ratio;
          leverage_ratio = sym (ap (λ x. x /D total) leveraged_exposure-book) ∙ ratio_eq;
          leverage = leverage_ok;
          open_risk = rw (← total_open_risk-book) risk_ok;
        },
      )
