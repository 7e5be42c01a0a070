-- ===== src/Rhythm.antt =====
-- The reporting rhythm of sleepy battery devices and the silence measured against it
-- (apps/core/src/zigbeelens/decisions/reporting_rhythm.py and reporting_silence.py).
pub mod Sorted
pub mod Quantile
pub mod Reporting
pub mod Silence
pub mod Trend
mod Examples
