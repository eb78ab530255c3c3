-- ===== src/Portfolio.antt =====
-- app/portfolio: the ledger of positions and cash, and the journal that rebuilds it, in parts.
pub mod Ledger
pub mod Valuation
pub mod Held
pub mod Solvent
pub mod Again
pub mod Symbols
pub mod Journal
pub mod Rebuild
mod Tests
