-- ===== src/Dispatch.antt =====
-- app/runtime/paper_dispatch_control.py: the ARM / HALT control of paper dispatch, in parts.
pub mod Control
pub mod Sqlite
pub mod Postgres
pub mod Calls
pub mod Safety
mod Tests
