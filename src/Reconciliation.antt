-- ===== src/Reconciliation.antt =====
-- app/oms/reconciliation.py: orders and portfolio set right against what the broker reports.
pub mod Truth
pub mod Order
pub mod Steps
pub mod Stuck
pub mod Resolution
pub mod Proof
pub mod Account
pub mod Agreement
mod Tests
