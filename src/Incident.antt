-- ===== src/Incident.antt =====
-- Incidents (apps/core/src/zigbeelens/diagnostics/incidents): their data, the tables that hold
-- them, and the lifecycle that synchronises them with the candidates of a diagnostic cycle.
pub mod Types
pub mod Store
pub mod Lifecycle
pub mod Identity
pub mod Priority
pub mod Rules
pub mod Correlation
