-- ===== src/Tests.antt =====
-- The theorems at concrete inputs.
pub mod Fixtures
pub mod Chain
pub mod Grpc
pub mod Observed
pub mod Racing
pub mod Served
pub mod Started
pub mod Requests
pub mod Padding
pub mod Sqlite
pub mod Snapshots
pub mod Starting
pub mod Stopping
pub mod Restarted
pub mod Beside
