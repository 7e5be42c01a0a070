-- ===== src/Topology.antt =====
-- The captures of the network map: topology/scheduler.py.
pub mod Scheduler
pub mod Startup
mod Examples
