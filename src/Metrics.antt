-- ===== src/Metrics.antt =====
-- The metrics (pkg/metrics).
pub mod Snapshot
pub mod Instruments
pub mod Histogram
pub mod Registry
