-- ===== src/Live.antt =====
-- Controlled live trading: app/trading/controlled_live.py.
pub mod Profile
pub mod Preview
pub mod Records
pub mod Repository
pub mod Claims
pub mod Execution
pub mod Outcomes
pub mod Calls
pub mod Locks
pub mod Emergency
pub mod Service
pub mod Examples
