-- ===== src/Protector/Owners/Owner.antt =====
-- What is read of a position: it is that of an owner.
use syn_antona.Prelude.{◌≡◌, refl, Option, none, some, arith}
use syn_antona.Prelude.Errors.{Result, ok, >>=-ok}
use syn_antona.Live.Records.{Database, Proposal}
use syn_antona.Protector.Owners.{
  OpenPosition, Answers, Tracked, owner_for_symbol, read_position, fill_average, observed,
}

-- The position is the reported one, under the client order of the proposal.
pub record IsReadOf (p : Proposal) (raw : OpenPosition) (t : Tracked) : Type 0 where
  pub client : t.position.entry_client_order_id ≡ p.client_order_id
  pub side : t.position.side ≡ raw.side
  pub symbol : t.position.symbol ≡ raw.symbol

read_position-IsReadOf :
    (p : Proposal) (raw : OpenPosition) (answers : Answers) {t : Tracked}
    → read_position p raw answers ≡ ok (some t)
    → IsReadOf p raw t
unfolding read_position
read_position-IsReadOf p raw answers {t} h =
    let (es, _, h1) = >>=-ok answers.executions _ h in
    let (rate, _, h2) = >>=-ok answers.fee_rate _ h1 in
    let (instrument, _, h3) = >>=-ok answers.instrument _ h2 in
    let (ticker, _, h4) = >>=-ok answers.ticker _ h3 in
    let (average, _, h5) = >>=-ok (fill_average es) _ h4 in
    record { client = ground (arith, h5); side = ground (arith, h5); symbol = ground (arith, h5) }

-- A position that is read has an owner.
pub observed-owner :
    (db : Database) (raw : OpenPosition) (answers : Answers) {t : Tracked}
    → observed db raw answers ≡ ok (some t)
    → (p : Proposal) × (owner_for_symbol db raw.symbol ≡ some p) × IsReadOf p raw t
unfolding observed
observed-owner db raw answers {t} h = go (owner_for_symbol db raw.symbol) refl h
  where
    go :
        (o : Option Proposal)
        → owner_for_symbol db raw.symbol ≡ o
        → (elim o as (λ _. Result (Option Tracked)) [
          | none ↦ ok none
          | some p ↦ read_position p raw answers
        ])
          ≡ ok (some t)
        → (p : Proposal) × (owner_for_symbol db raw.symbol ≡ some p) × IsReadOf p raw t
    go none e g = ground (arith, g)
    go (some p) e g = (p, e, read_position-IsReadOf p raw answers g)
