-- ===== src/Shadow/Watch/Failures.antt =====
-- What the counter of failures of an exchange counts.
use syn_antona.Prelude.{
  ℕ, suc, String, Bool, Option, none, some, List, [], ◌∷◌, ◌≡◌, refl, arith, if◌then◌else◌,
}
use syn_antona.Prelude.Keys.{text_key, pair_key, ◌==◌, ==_iff}
use syn_antona.Prelude.Dict.{lookup, lookup-insert}
use syn_antona.Shadow.Records.{ExchangeHealth}
use syn_antona.Shadow.Watch.{
  HealthRows, is_healthy, new_health, next_health, update_exchange_health,
}

-- One call of `update_exchange_health`.
pub record Check : Type 0 where
  pub protocol_id : String
  pub exchange : String
  pub status : String
  pub reason : String
  pub checked_at : ℕ
  pub last_quote_at : Option ℕ

unfoldable pub after_all : List Check → HealthRows → HealthRows
after_all [] rows = rows
after_all (c ∷ cs) rows =
    after_all cs
      (update_exchange_health c.protocol_id c.exchange c.status c.reason c.checked_at
        c.last_quote_at rows).1

abbrev pub is_of : String × String → Check → Bool
is_of key c = (c.protocol_id, c.exchange) == key

-- The unhealthy checks of the key since the last healthy one, on top of the `n` before.
abbrev pub failures_since : String × String → ℕ → List Check → ℕ
failures_since key n [] = n
failures_since key n (c ∷ cs) =
    failures_since key (if is_of key c then if is_healthy c.status then 0 else suc n else n) cs

abbrev pub failures_of : String × String → HealthRows → ℕ
failures_of key rows = elim (lookup key rows) [ none ↦ 0 | some r ↦ r.consecutive_failures ]

update-failures :
    (key : String × String) (c : Check) (rows : HealthRows)
    → failures_of key
        (update_exchange_health c.protocol_id c.exchange c.status c.reason c.checked_at
          c.last_quote_at rows).1
      ≡ (if is_of key c
          then if is_healthy c.status then 0 else suc (failures_of key rows)
          else failures_of key rows)
unfolding update_exchange_health new_health next_health
update-failures key c rows = go (lookup (c.protocol_id, c.exchange) rows) refl
  where
    this : String × String
    this = (c.protocol_id, c.exchange)

    go :
        (m : Option ExchangeHealth)
        → lookup (c.protocol_id, c.exchange) rows ≡ m
        → failures_of key
            (update_exchange_health c.protocol_id c.exchange c.status c.reason c.checked_at
              c.last_quote_at rows).1
          ≡ (if is_of key c
              then if is_healthy c.status then 0 else suc (failures_of key rows)
              else failures_of key rows)
    go none e = ground (
      arith,
      ==_iff this key,
      lookup-insert this key (new_health c.status c.reason c.checked_at c.last_quote_at) rows,
    )
    go (some r) e = ground (
      arith,
      ==_iff this key,
      lookup-insert this key (next_health c.status c.reason c.checked_at c.last_quote_at r) rows,
    )

-- After any checks of any exchanges, the counter of failures of an exchange is the number of its
-- unhealthy checks since its last healthy one, on top of the counter before if there was no healthy
-- one.
pub failures_counted :
    (key : String × String) (cs : List Check) (rows : HealthRows)
    → failures_of key (after_all cs rows) ≡ failures_since key (failures_of key rows) cs
unfolding after_all
failures_counted key [] rows = refl
failures_counted key (c ∷ cs) rows = rw (← update-failures key c rows) (
    failures_counted key cs
      (update_exchange_health c.protocol_id c.exchange c.status c.reason c.checked_at
        c.last_quote_at rows).1)
