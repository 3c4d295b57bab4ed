-- ===== src/Trading.antt =====
-- The trading process: the arithmetic of a position, what its orders leave open, the order and
-- session services, and the loop that watches a position.
pub mod Types
pub mod Outside
pub mod Exchange
pub mod Math
pub mod Orders
pub mod Exposure
pub mod Reconciliation
pub mod Sessions
pub mod Balances
pub mod SessionService
pub mod Settings
pub mod Trader
mod Simulated
mod Tests
