-- ===== src/Indexed.antt =====
-- app/oms/indexed.py: the order store with reservations, in parts.
pub mod Lineage
pub mod Edges
pub mod Reserve
pub mod Committed
pub mod Approval
mod Tests
