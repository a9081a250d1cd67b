-- ===== src/Shadow/Orders/Sound.antt =====
-- What a paper order went through.
use syn_antona.Prelude.{String, true, Option, none, some, ◌≡◌, refl, arith}
use syn_antona.Prelude.Errors.{Result, ok, err, >>=-ok}
use syn_antona.Decimal.{Decimal, ◌*D◌, ◌≤D◌}
use syn_antona.Domain.{TradeIntent, RiskDecision, default_profile}
use syn_antona.Risk.Manager.{approve}
use syn_antona.Risk.Manager.Limits.{IsWithinLimits, HasReward, approve_limits}
use syn_antona.Shadow.Records.{Candle, ShadowTrade}
use syn_antona.Shadow.Repository.{Journal}
use syn_antona.Shadow.Repository.Trades.{open_trade}
use syn_antona.Shadow.Orders.{
  StrategyAction, OrderOutcome, protocol, floor_quantity, entry_price, selected, intent_of,
  trade_of, size_order, price_order, shadow_order,
}
use syn_antona.Shadow.Market.{
  LiveMarketSnapshot, CostProfile, midpoint, snapshot_spread_pct, spot_profile,
}

-- The order's quantity and price, from what was approved.
pub record IsSized (s : LiveMarketSnapshot) (a : StrategyAction) (p : CostProfile)
    (approved : Decimal) (t : ShadowTrade) : Type 0 where
  pub floored : floor_quantity approved s.constraints.quantity_step ≡ ok t.quantity
  pub entry : t.entry_price ≡ entry_price s a.side p
  pub enough : (s.constraints.minimum_quantity ≤D t.quantity) ≡ true
  pub worth : (s.constraints.minimum_notional ≤D (t.entry_price *D t.quantity)) ≡ true
  pub stop : t.stop_loss ≡ a.stop_loss
  pub target : t.take_profit ≡ a.take_profit

module _ (s : LiveMarketSnapshot) (a : StrategyAction) (id hash : String) (c : Candle)
    (t : ShadowTrade) where
  size_order-IsSized :
      (p : CostProfile) (approved : Decimal)
      → size_order s a id hash c p (entry_price s a.side p) approved ≡ ok (OrderOutcome.ordered t)
      → IsSized s a p approved t
  unfolding size_order trade_of
  size_order-IsSized p approved h =
      go (floor_quantity approved s.constraints.quantity_step) (midpoint s) refl refl
    where
      go :
          (q : Result Decimal) (m : Result Decimal)
          → floor_quantity approved s.constraints.quantity_step ≡ q
          → midpoint s ≡ m
          → IsSized s a p approved t
      go (ok q) (ok m) e f = record {
        floored = ground (arith, h, e, f);
        entry = ground (arith, h, e, f);
        enough = ground (arith, h, e, f);
        worth = ground (arith, h, e, f);
        stop = ground (arith, h, e, f);
        target = ground (arith, h, e, f);
      }
      go (err x) m e f = ground (arith, h, e)
      go (ok q) (err x) e f = ground (arith, h, e, f)

  -- What stands behind an order: no open trade, the costs of the exchange, the spread that was seen,
  -- and the decision of the risk manager on the intent, which holds the quantity.
  pub record IsApproved (j : Journal) : Type 0 where
    pub free : open_trade protocol s.exchange s.symbol j ≡ none
    pub costs : CostProfile
    pub of_exchange : spot_profile s.exchange ≡ ok costs
    pub spread_pct : Decimal
    pub seen : snapshot_spread_pct s ≡ ok spread_pct
    pub decision : RiskDecision
    pub decided :
        approve
          (intent_of s a id (entry_price s a.side costs) spread_pct (selected s j))
          default_profile
        ≡ ok decision
    pub granted : decision.approved ≡ true
    pub within :
        IsWithinLimits
          (intent_of s a id (entry_price s a.side costs) spread_pct (selected s j))
          default_profile
    pub reward :
        HasReward
          (intent_of s a id (entry_price s a.side costs) spread_pct (selected s j))
          default_profile
    pub sized : IsSized s a costs decision.quantity t

  -- When the engine orders a paper trade, no trade of its exchange and symbol is open, and the
  -- intent at the top of the book after the costs of the profile of its exchange, with the spread
  -- of the snapshot, meets every gate of the profile and its reward ratio; the risk manager
  -- approves that intent, and the quantity of the trade is the one of this decision in whole steps,
  -- no less than the minimum of the exchange in size and in value, at that entry, with the stop and
  -- the target of the strategy.
  pub order_sound :
      (j : Journal) → shadow_order s a id hash c j ≡ ok (OrderOutcome.ordered t) → IsApproved j
  unfolding shadow_order price_order
  order_sound j h = go (open_trade protocol s.exchange s.symbol j) refl
    where
      go :
          (found : Option ShadowTrade)
          → open_trade protocol s.exchange s.symbol j ≡ found
          → IsApproved j
      go (some x) e = ground (arith, h, e)
      go none e =
          let priced : price_order s a id hash c j ≡ ok (OrderOutcome.ordered t) =
            ground (arith, h, e) in
          let (p, profiled, h1) = >>=-ok (spot_profile s.exchange) _ priced in
          let (x, spread, h2) = >>=-ok (snapshot_spread_pct s) _ h1 in
          let intent : TradeIntent = intent_of s a id (entry_price s a.side p) x (selected s j) in
          let (d, approval, h3) = >>=-ok (approve intent default_profile) _ h2 in
          let granted : d.approved ≡ true = ground (arith, h3) in
          let (within, reward, _) = approve_limits intent default_profile approval granted in
          record {
            free = e;
            costs = p;
            of_exchange = profiled;
            spread_pct = x;
            seen = spread;
            decision = d;
            decided = approval;
            granted = granted;
            within = within;
            reward = reward;
            sized = size_order-IsSized p d.quantity (ground (arith, h3, granted));
          }
