-- ===== src/Mutations.antt =====
-- app/oms/order_mutations.py: durable cancel and replace requests, in parts.
pub mod Tables
pub mod Lineage
pub mod Store
pub mod Lifecycle
pub mod Lookup
pub mod Steps
pub mod Active
pub mod Claims
pub mod Tests
