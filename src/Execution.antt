-- ===== src/Execution.antt =====
-- The packages app/execution and app/runtime/paper_broker_contract_v99.py: what the broker answers,
-- the inbox of exact executions, the checkpoints of aggregate ones, and the submit executor.
pub mod Broker
pub mod Checkpoints
pub mod Facts
pub mod World
pub mod Claims
pub mod Adopt
pub mod Works
pub mod Submit
pub mod Unposted
pub mod Once
pub mod Projected
pub mod Barrier
pub mod Gate
pub mod Quarantine
pub mod Accounting
pub mod Blockers
pub mod Adopted
pub mod Journaled
pub mod Settled
pub mod Tests
