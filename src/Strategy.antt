-- ===== src/Strategy.antt =====
-- app/strategy: the decisions to leave and to enter a position, and the backtest, in parts.
pub mod Reentry
pub mod Confirmation
pub mod Exit
pub mod Intrabar
pub mod Leaving
pub mod Bounds
mod Tests
pub mod Momentum
pub mod Backtest
pub mod Lookahead
