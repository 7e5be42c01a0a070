-- ===== src/Diagnostics.antt =====
-- The evaluations in the background (apps/core/src/zigbeelens/diagnostics/coordinator.py and
-- service.py).
pub mod Periodic
pub mod Service
pub mod Coordinator
mod Examples
