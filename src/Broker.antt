-- ===== src/Broker.antt =====
-- `PaperBroker` of app/trading/paper_broker.py: the in-memory exchange.
mod Account
mod Orders
mod Owned
mod Effects
mod Book
pub mod Protection
pub mod Calls
pub use Account.*
unfoldable pub use Orders.{
  open_market, mark_price, close_market, replace_position, close_each, close_all,
}
