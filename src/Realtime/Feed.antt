-- ===== src/Realtime/Feed.antt =====
-- internal/gtfs/realtime.go: `updateFeedRealtime`, one poll of one feed, and `clearFeedData` of
-- internal/gtfs/gtfs_manager.go. The fetch of a URL is an argument: it returns the parsed data, or
-- `none` for an error. The three fetches run side by side and touch nothing shared; the rest runs
-- under the realtime mutex. `now` and `done` are the readings of the clock.
pub mod Effects
pub mod Timestamps
pub mod Stages
pub mod Polls
pub mod Isolation
use maglev.Prelude.{
  ℕ, Bool, true, false, ◌&&◌, ◌||◌, not, Option, none, some, List, [], ◌∷◌, Text, text_eq, is_empty,
  is_some, Map, lookup, insert, delete, get_or, leb, if◌then◌else◌, ◌>>=◌,
}
use maglev.Realtime.Types.{Trip, Vehicle, VehicleKey, Alert, Manager}
use maglev.Realtime.Vehicles.{Fleet, apply_snapshot, cleanup_expired}
use maglev.Realtime.Agency.{
  Db, collect_realtime_route_ids, build_route_agency_map, trip_agency_ids, filter_trips_by_agency,
  filter_vehicles_by_agency, filter_alerts_by_agency,
}
use maglev.Realtime.Merge.{rebuild_merged_realtime}

-- `gtfs.Realtime`; `created_at` is `none` for the zero time
pub record RealtimeData : Type 0 where
  pub created_at : Option ℕ
  pub trips : List Trip
  pub vehicles : List Vehicle
  pub alerts : List Alert

-- `RTFeedConfig`, of which the headers go to the fetch
pub record FeedConfig : Type 0 where
  pub id : Text
  pub agency_ids : List Text
  pub trip_updates_url : Text
  pub vehicle_positions_url : Text
  pub service_alerts_url : Text
  pub refresh_interval : ℕ
  pub enabled : Bool

-- what a poll works on: `none` is data that is nil or came with an error
pub record Fetched : Type 0 where
  pub trips : Option (List Trip)
  pub unattributed : List Trip
  pub created_at : Option ℕ
  pub vehicles : Option (List Vehicle)
  pub alerts : Option (List Alert)

-- `if url != "" { data, err = loadRealtimeData(…) }`
unfoldable pub load_url : (Text → Option RealtimeData) → Text → Option RealtimeData
load_url load url = if is_empty url then none else load url

unfoldable pub fetch : (Text → Option RealtimeData) → FeedConfig → Fetched
unfolding load_url
fetch load cfg =
    let vehicle_data : Option RealtimeData = load_url load cfg.vehicle_positions_url in
    record {
      trips = load_url load cfg.trip_updates_url >>= λ d. some d.trips;
      unattributed = [];
      created_at = vehicle_data >>= λ d. d.created_at;
      vehicles = vehicle_data >>= λ d. some d.vehicles;
      alerts = load_url load cfg.service_alerts_url >>= λ d. some d.alerts;
    }

-- the trip updates that the filter keeps and those that it sets aside, or an error
unfoldable pub filter_trips :
    Option Db
    → Map Text Bool
    → Map Text Text
    → Option (List Trip)
    → Option (Option (List Trip) × List Trip)
filter_trips db allowed routes none = some (none, [])
filter_trips db allowed routes (some trips) = do
  agencies ← trip_agency_ids db trips routes
  some (
    some (filter_trips_by_agency trips allowed agencies).0,
    (filter_trips_by_agency trips allowed agencies).1,
  )

-- the block `if len(agencyFilter) > 0`; `none` is its early return
unfoldable pub filter_by_agency : Option Db → Map Text Bool → Fetched → Option Fetched
unfolding filter_trips
filter_by_agency db [] d = some d
filter_by_agency db (a ∷ allowed) d = do
  routes ← build_route_agency_map db (collect_realtime_route_ids d.trips d.vehicles d.alerts)
  trips ← filter_trips db (a ∷ allowed) routes d.trips
  some (record d {
    trips = trips.0;
    unattributed = trips.1;
    vehicles = d.vehicles >>= λ vs. some (filter_vehicles_by_agency vs (a ∷ allowed) routes);
    alerts = d.alerts >>= λ as'. some (filter_alerts_by_agency as' (a ∷ allowed) routes);
  })

-- `if tripData != nil && tripErr == nil`, under the mutex
unfoldable pub store_trips : Text → Fetched → Manager → Manager
store_trips feed d m = elim d.trips [
  | none ↦ m
  | some trips ↦ record m {
    feed_trips = insert feed trips m.feed_trips;
    feed_unattributed_trips = insert feed d.unattributed m.feed_unattributed_trips;
  }
]

-- the feed's vehicles and last-seen times, absent ones read as empty
unfoldable pub fleet : Text → Manager → Fleet
fleet feed m = record {
  vehicles = get_or [] feed m.feed_vehicles;
  last_seen = get_or [] feed m.feed_vehicle_last_seen;
}

unfoldable pub store_fleet : Text → Fleet → Manager → Manager
store_fleet feed f m = record m {
  feed_vehicles = insert feed f.vehicles m.feed_vehicles;
  feed_vehicle_last_seen = insert feed f.last_seen m.feed_vehicle_last_seen;
}

-- `cleanupExpiredVehicles`
unfoldable pub cleanup_expired_vehicles : ℕ → Text → Manager → Manager
unfolding fleet store_fleet
cleanup_expired_vehicles now feed m = elim (lookup feed m.feed_vehicle_last_seen) [
  | none ↦ m
  | some seen ↦ store_fleet feed (cleanup_expired now (fleet feed m)) m
]

-- a snapshot that carries a time is applied only if it is newer than the last one applied
unfoldable pub is_old_snapshot : Text → Option ℕ → Manager → Bool
is_old_snapshot feed none m = false
is_old_snapshot feed (some created) m = leb created (get_or 0 feed m.feed_vehicle_timestamp)

unfoldable pub note_timestamp : Text → Option ℕ → Manager → Manager
note_timestamp feed none m = m
note_timestamp feed (some created) m = record m {
  feed_vehicle_timestamp = insert feed created m.feed_vehicle_timestamp;
}

unfoldable pub store_snapshot : ℕ → Text → Option ℕ → List Vehicle → Manager → Manager
unfolding is_old_snapshot note_timestamp fleet store_fleet cleanup_expired_vehicles
store_snapshot now feed created vehicles m =
    if is_old_snapshot feed created m
    then cleanup_expired_vehicles now feed m
    else store_fleet feed (apply_snapshot now vehicles (fleet feed m))
        (note_timestamp feed created m)

-- `if vehicleData != nil && vehicleErr == nil`
unfoldable pub store_vehicles : ℕ → Text → Fetched → Manager → Manager
unfolding store_snapshot
store_vehicles now feed d m = elim d.vehicles [
  | none ↦ m
  | some vehicles ↦ store_snapshot now feed d.created_at vehicles m
]

-- `if alertData != nil && alertErr == nil`
unfoldable pub store_alerts : Text → Fetched → Manager → Manager
store_alerts feed d m = elim d.alerts [
  | none ↦ m
  | some alerts ↦ record m { feed_alerts = insert feed alerts m.feed_alerts }
]

-- `hasNewData`: a URL is configured, and its data came
unfoldable pub has_new_data : FeedConfig → Fetched → Bool
has_new_data cfg d =
    (not (is_empty cfg.trip_updates_url) && is_some d.trips)
    || ((not (is_empty cfg.vehicle_positions_url) && is_some d.vehicles)
        || (not (is_empty cfg.service_alerts_url) && is_some d.alerts))

-- the three blocks that store what came
unfoldable pub store_data : ℕ → FeedConfig → Fetched → Manager → Manager
unfolding store_trips store_vehicles store_alerts
store_data now cfg d m =
    store_alerts cfg.id d (store_vehicles now cfg.id d (store_trips cfg.id d m))

-- the end of the poll: the merged view, and the time of the update if new data came
unfoldable pub publish : Bool → ℕ → Text → Manager → Manager
publish true done feed m = record (rebuild_merged_realtime m) {
  feed_last_update = insert feed done m.feed_last_update;
}
publish false done feed m = rebuild_merged_realtime m

unfoldable pub store : ℕ → ℕ → FeedConfig → Fetched → Manager → Manager × Bool
unfolding store_data has_new_data publish
store now done cfg d m =
    (publish (has_new_data cfg d) done cfg.id (store_data now cfg d m), has_new_data cfg d)

-- the rest of a poll after the agency filter
unfoldable pub complete_poll : ℕ → ℕ → FeedConfig → Manager → Option Fetched → Manager × Bool
unfolding store
complete_poll now done cfg m none = (m, false)
complete_poll now done cfg m (some d) = store now done cfg d m

-- `updateFeedRealtime`
unfoldable pub update_feed_realtime :
    (Text → Option RealtimeData) → Option Db → Bool → ℕ → ℕ → FeedConfig → Manager → Manager × Bool
unfolding fetch filter_by_agency complete_poll
update_feed_realtime load db cancelled now done cfg m =
    if cancelled
    then (m, false)
    else complete_poll now done cfg m
        (filter_by_agency db (get_or [] cfg.id m.feed_agency_filter) (fetch load cfg))

-- `clearFeedData`
unfoldable pub clear_feed_data : Text → Manager → Manager
clear_feed_data feed m = rebuild_merged_realtime (record m {
  feed_trips = insert feed [] m.feed_trips;
  feed_unattributed_trips = delete feed m.feed_unattributed_trips;
  feed_vehicles = insert feed [] m.feed_vehicles;
  feed_alerts = insert feed [] m.feed_alerts;
  feed_vehicle_timestamp = delete feed m.feed_vehicle_timestamp;
  feed_vehicle_last_seen = delete feed m.feed_vehicle_last_seen;
  feed_last_update = delete feed m.feed_last_update;
})
