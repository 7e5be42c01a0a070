-- ===== src/Dashboard.antt =====
-- Debounced dashboard publishing (apps/core/src/zigbeelens/mqtt/dashboard_scheduler.py).
pub mod Scheduler
pub mod Threads
