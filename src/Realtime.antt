-- ===== src/Realtime.antt =====
-- The realtime store of internal/gtfs: the feeds' data, the filters, the merged view and the
-- poller, one child module each. The definitions stand in `Types`, `Vehicles`, `Agency`, ….
pub mod Types
pub mod Vehicles
pub mod Agency
pub mod Merge
pub mod Alerts
pub mod Feed
pub mod Poller
pub mod Config
