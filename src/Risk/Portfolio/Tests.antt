-- ===== src/Risk/Portfolio/Tests.antt =====
-- One approval, and the book that it leads to.
use syn_antona.Prelude.{◌≡◌, refl, String, true, [], ◌∷◌}
use syn_antona.Prelude.Keys.{text_key, pair_key}
use syn_antona.Prelude.Dict.{Dict, lookup, values}
use syn_antona.Prelude.Errors.{ok}
use syn_antona.Decimal.{Decimal, dec, zero_d, sum_d, evaluation}
use syn_antona.Risk.Portfolio.{
  HealthStatus, ManagedPosition, position_notional, position_open_risk, default_exchange_limits,
  default_global_limits, ProposedExposure, Reason, PortfolioRiskDecision, base_from,
  correlation_group, add_correlated, correlated_exposure, account_exposure, total_exposure,
  leveraged_exposure, total_open_risk, approve_risk, approve_global, approve_account, account_value,
  approve,
}
use syn_antona.Risk.Portfolio.Book.{WithinAccount, WithinGlobal, IsOpened, approved_book}

abbrev held : ManagedPosition
held = record {
  exchange = "bybit";
  account_id = "a";
  symbol = "SOL/USDT";
  position_id = "1";
  strategy_version = "v";
  side = "LONG";
  quantity = dec 2 0;
  entry_price = dec 20 0;
  leverage = dec 1 0;
  stop_loss = dec 19 0;
  current_price = dec 20 0;
}

abbrev opened : ManagedPosition
opened = record held {
  symbol = "BTC/USDT";
  position_id = "2";
  quantity = dec 1 0;
  entry_price = dec 100 0;
  stop_loss = dec 98 0;
  current_price = dec 100 0;
}

abbrev proposal : ProposedExposure
proposal = record {
  exchange = "bybit";
  account_id = "a";
  symbol = "BTC/USDT";
  side = "LONG";
  notional = dec 100 0;
  leverage = dec 1 0;
  open_risk = dec 2 0;
}

abbrev equities : Dict (String × String) Decimal
equities = (("bybit", "a"), dec 1000 0) ∷ []

abbrev decision : PortfolioRiskDecision
decision = record { approved = true; reason = Reason.allow }

approved_lem :
    approve proposal
      (held ∷ [])
      equities
      []
      HealthStatus.healthy
      default_exchange_limits
      default_global_limits
    ≡ ok decision
unfolding evaluation lookup position_notional position_open_risk base_from correlation_group
    add_correlated correlated_exposure account_exposure total_exposure leveraged_exposure
    total_open_risk approve_risk approve_global approve_account approve
approved_lem = refl

opens : IsOpened proposal opened
unfolding evaluation position_notional position_open_risk
opens = record { of_account = refl; notional = refl; leverage = refl; open_risk = refl }

approved_book_example :
    WithinAccount proposal
      (held ∷ opened ∷ [])
      (account_value proposal equities)
      default_exchange_limits
    × WithinGlobal (held ∷ opened ∷ []) (sum_d zero_d (values equities)) default_global_limits
approved_book_example =
    approved_book proposal (held ∷ []) opened opens equities [] HealthStatus.healthy
      default_exchange_limits default_global_limits approved_lem refl
