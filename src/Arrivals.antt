-- ===== src/Arrivals.antt =====
-- internal/restapi: the arrivals and departures of a stop.
pub mod Predictions
pub mod Visits
pub mod Windows
pub mod Batched
pub mod StopAgencies
pub mod Retained
