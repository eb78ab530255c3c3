-- ===== src/Risk.antt =====
-- app/risk/pretrade.py, app/oms/risk_reservations.py and app/application/order_lifecycle.py: the
-- checks that stand before an order is queued.
pub mod Context
pub mod Engine
pub mod Reservation
pub mod Lifecycle
pub mod Approval
pub mod Prepare
pub mod Capacity
mod Tests
