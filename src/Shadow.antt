-- ===== src/Shadow.antt =====
-- The prospective shadow run of app/shadow: the records of app/db.py that it keeps, the repository,
-- the metrics of its trades, and the engine that decides and tracks paper positions.
pub mod Records
pub mod Collector
pub mod Watch
pub mod Metrics
pub mod Repository
pub mod Market
pub mod Orders
pub mod Exits
pub mod Reports
pub mod Engine
mod Tests
