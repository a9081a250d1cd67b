-- ===== src/Risk.antt =====
-- Risk authorization: app/risk/manager.py and app/risk/portfolio.py.
pub mod Manager
pub mod Portfolio
