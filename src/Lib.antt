-- ===== src/Lib.antt =====
-- Maglev, the OneBusAway REST server: verification of its realtime core, of the blocks and trips
-- that the handlers read it for, and of the helpers they share.
--
-- A poller per GTFS-RT feed fetches trip updates, vehicle positions and service alerts, filters them
-- by agency, stores them under the feed, and publishes one merged, immutable view of all feeds. The
-- API handlers read that view.
--
-- Realtime/Types: the structs of internal/gtfs/realtime.go and the realtime maps of `Manager`
--   (internal/gtfs/gtfs_manager.go). Of the structs of github.com/OneBusAway/go-gtfs, which are not
--   in the repository, a record has the fields that the code reads and a `rest`.
-- Realtime/Vehicles: what one feed holds of its vehicles. `apply_snapshot` is the body of
--   `if applyVehicleUpdate` in `updateFeedRealtime`, `cleanup_expired` is `cleanupExpiredVehicles`.
--   Its child modules hold the proofs: Snapshot and Freshness (reports), Retention, Trips, Cleanup.
-- Realtime/Agency: the agency filter, from `collectRealtimeRouteIDs` to `filterAlertsByAgency`.
--   The two queries of the database are a record `Db` of functions.
-- Realtime/Merge: `rebuildMergedRealtimeLocked` as the function `merge` from the feeds' maps to
--   the merged view, and the readers of that view. `Found` tells a missing ID from a read that is
--   out of range, where Go would panic.
-- Realtime/Alerts: `GetAlertsByIDs` and the lookups by trip, route and stop.
-- Realtime/Feed: `updateFeedRealtime`, one poll, as `fetch`, `filter_by_agency` and `store`;
--   `clearFeedData`; in Feed/Polls the sequences of polls and clearings as a step relation.
-- Realtime/Poller: `pollFeed`, one step for each tick of its timer, and `calculateBackoff`; what
--   happens to the store between two ticks of a poller is any change that leaves its feed alone.
-- Realtime/Config: the polled feeds and their agency filters (internal/gtfs/config.go).
-- Ordering: the natural order of names and the order of routes (internal/utils/string_utils.go,
--   internal/utils/sort.go).
-- Deviation: how the schedule deviation of a block is picked from its trip updates
--   (internal/restapi/trip_updates_helper.go). Block holds `GetScheduleDeviationForBlock` and the
--   schedules that it loads, StopDelays the delay of each visit to a stop. The queries are parameters,
--   and so is what package time says of a time in a location, the record `Calendar`.
-- Blocks: the trips of a block on a service date, in order, and the shift around one of them
--   (internal/restapi/scheduled_block_helper.go, trip_updates_helper.go). `slices.SortFunc` is a parameter.
--   Snapshots holds the snapshot of a block at a time and the cache of a request; the trips that
--   `loadBlockTripData` loads and the stops that `emitBlockStops` emits are a parameter there, the record
--   `BlockData`, and so is float64. A time there is an `Instant`, its UnixNano and its location; the key of
--   the cache drops the location.
-- Timeline: the next stop of a block and the distance along it at a time, by binary search or scan
--   (internal/restapi/scheduled_block_helper.go); `slices.BinarySearchFunc` and float64 are parameters.
-- StopOrder: `OrderStopsAlongRoute` (internal/utils/stop_order.go): the graph of the stop sequences and its
--   topological sort. Paths, Reaching, Acyclic, Sources, Picking, Sorting, Stops and Distances hold the lemmas,
--   Order the results. float64, its `max` and `>`, and `Distance` are a record `Metric`.
-- Arrivals: the arrivals and departures of a stop. Predictions holds `getPredictedTimes` and Visits
--   `findStopTimeForTripStop` (internal/restapi/arrival_and_departure_for_stop_handler.go), Windows the stop
--   times of a request's window in the time zones of the agencies and Batched the same for many stops at
--   once (internal/restapi/arrivals_core.go), StopAgencies the agencies of the stops and Retained the
--   references of a truncated response (internal/restapi/arrivals_and_departures_for_location_handler.go).
-- ServiceDates: service dates on the calendar of package time, the record `TimePackage`
--   (internal/servicedate/servicedate.go).
-- Polyline: `EncodePolyline` (internal/utils/polyline.go) after its floors, and a decoder of the format.
-- Ids, Paging: the combined IDs, the counts and limits, and the pages of internal/utils/api.go.
-- Batches: `QueryInBatchesReserving` of internal/utils/batches.go.
-- Prelude: lists, maps, strings and Boolean tests; Tests: runs at concrete values and the examples
--   of the theorems.
--
-- Conventions. A map of Go is an association list: `insert` replaces, `lookup` finds the first entry.
-- Where Go ranges over a map, the code's result does not depend on the order or sorts the keys; the
-- model sorts where the code sorts, and `mostCommonAgency` goes through its map in any order, a `MapOrder`. A string is the list of its bytes. A time is a number of
-- nanoseconds since a start; `now - seen` stops at 0, where Go's difference is negative, and both are
-- within the timeout. The mutex makes each poll's store and each clearing one step. The clock's
-- readings are arguments. The backoff is computed in exact arithmetic, where Go uses float64: a base
-- interval times a power of two is exact there too; the jitter may differ by rounding.
--
-- A signed integer has no bound: seconds of a service date and delays are far inside an int64. The counts
-- of inbound edges are natural numbers; an edge is taken off a count that holds it.
-- `matchScheduleEntryBySequence` ranges over a map, in the model in the order of its insertions; a stop
-- sequence stands once in a trip.
--
-- The loop of `QueryInBatchesReserving` runs on fuel, one unit for each ID: a batch takes at least one
-- ID, so that is enough. The loop of `NaturalCompare` runs on a unit for each character of both texts; a turn takes at least one character of each.
--
-- The loop of `encodeNumber` runs on one unit of fuel for each unit of its number, which each turn divides by
-- 32; the shift of a signed number is exact, since a coordinate times 1e5 is far inside an int.
--
-- The recursions of the stop graph run on one unit more than the graph has stops: each call visits a
-- stop that is not among those before it.
--
-- Not modelled: logging, metrics, HTTP and protobuf parsing (the fetch of a URL is an argument that
-- gives the parsed data or an error), SQL, JSON responses, floating-point geometry.
pub mod Prelude
pub mod Arrivals
pub mod Batches
pub mod Blocks
pub mod Deviation
pub mod Ids
pub mod Ordering
pub mod Paging
pub mod Polyline
pub mod Realtime
pub mod ServiceDates
pub mod StopOrder
pub mod Timeline
pub mod Tests
