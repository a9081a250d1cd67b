-- ===== src/Ledger.antt =====
-- The order-attempt ledger of app/trading/execution_store.py. Its rows are the execution orders of
-- app/db.py; the digest of a request, SHA-256 over its JSON text, is the parameter `request_hash`.
pub mod Attempt
pub mod Memory
pub mod Sql
pub mod Spec
pub mod Simulation
pub mod Store
pub mod Refine
pub mod Keeps
pub mod Once
pub mod Race
pub mod Examples
mod Tests
