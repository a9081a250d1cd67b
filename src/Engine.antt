-- ===== src/Engine.antt =====
-- The multi-exchange engine of app/trading/multi_exchange.py and what it is built from: the health
-- monitor, the portfolio, the router of app/exchanges, and an order store of the ledger.
pub mod Market
pub mod Health
pub mod Positions
pub mod Router
pub mod Gates
pub mod Execute
pub mod Calls
pub mod RateLimit
mod Examples
mod Tests
