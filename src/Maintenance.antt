-- ===== src/Maintenance.antt =====
-- Storage maintenance (apps/core/src/zigbeelens/storage): the policy, purging in batches, the executor.
pub mod Policy
pub mod Purge
pub mod Tables
pub mod Executor
pub mod Result
mod Examples
