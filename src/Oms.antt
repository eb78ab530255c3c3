-- ===== src/Oms.antt =====
-- app/oms/store.py: the transactional order store, in parts.
pub mod State
pub mod Tables
pub mod Events
pub mod Orders
pub mod Fills
pub mod Outbox
pub mod Lookup
pub mod Steps
pub mod Paths
pub mod Evolution
pub mod Soundness
pub mod Calls
pub mod Atomic
pub mod Replay
pub mod Tests
pub mod Runs
pub mod Accepted
