-- ===== src/Availability.antt =====
-- Times at which devices went offline together: topology/passive_hints.py (the clustering) and
-- decisions/availability_event_groups.py.
pub mod Windows
pub mod Clusters
pub mod Transitions
pub mod Groups
mod Examples
