-- ===== src/Protector.antt =====
-- The profit protector of open positions: app/trading/profit_protector.py.
pub mod Costs
pub mod Momentum
pub mod Decision
pub mod Store
pub mod Owners
pub mod Ticker
pub mod Sync
pub mod Moves
