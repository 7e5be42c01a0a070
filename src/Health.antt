-- ===== src/Health.antt =====
-- Health classification of devices, bridges and networks (apps/core/src/zigbeelens/diagnostics).
pub mod Types
pub mod Device
pub mod Bridge
pub mod Network
