-- ===== src/Tests.antt =====
-- The theorems at concrete inputs, and runs of the code on small data.
pub mod Vehicles
pub mod Views
pub mod Polling
pub mod Pollers
pub mod Orders
pub mod Deviations
pub mod Params
pub mod Stops
pub mod Blocks
pub mod Shifts
pub mod Timelines
pub mod Snapshots
pub mod Predictions
pub mod Batches
pub mod Windows
pub mod Polylines
