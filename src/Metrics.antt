-- ===== src/Metrics.antt =====
-- metrics/: the registry of metrics, and the observation of validators by epoch.
pub mod Epoch
pub mod Registry
pub mod Package
