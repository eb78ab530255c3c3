-- ===== src/Amendments.antt =====
-- app/execution/order_mutation_executor.py: cancels and replaces at the broker.
pub mod World
pub mod Truth
pub mod Executor
pub mod Quiet
pub mod Recovery
pub mod Once
pub mod Evidence
pub mod Late
pub mod Verdict
pub mod Resolved
pub mod Orders
mod Tests
