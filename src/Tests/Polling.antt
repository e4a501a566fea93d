-- ===== src/Tests/Polling.antt =====
-- Polls of a feed by concrete fetches.
use maglev.Prelude.{true, ◌≤◌, ◌<◌, false, some, none, [], ◌∷◌, text_eq, bytes, ◌≡◌, ◌⊎◌}
use maglev.Realtime.Types.{Manager}
use maglev.Realtime.Vehicles.{apply_snapshot}
use maglev.Realtime.Feed.{
  RealtimeData, FeedConfig, update_feed_realtime, store_snapshot, cleanup_expired_vehicles, fleet,
}
use maglev.Realtime.Feed.Polls.{IsConsistent, here, next, poll, new_manager, Reach-IsConsistent}
use maglev.Realtime.Feed.Timestamps.{last_applied, Snapshots, store_all, newest, newest_applied}
use maglev.Tests.Vehicles.{bus_1, bus_2}

abbrev pub north : FeedConfig
north = record {
  id = bytes "north";
  agency_ids = bytes "40" ∷ [];
  trip_updates_url = [];
  vehicle_positions_url = bytes "v";
  service_alerts_url = [];
  refresh_interval = 30;
  enabled = true;
}

abbrev two_positions : RealtimeData
two_positions = record {
  created_at = some 5000;
  trips = [];
  vehicles = bus_1 ∷ bus_2 ∷ [];
  alerts = [];
}

abbrev pub start : Manager
start = new_manager []

abbrev polled : Manager
polled = (update_feed_realtime (λ url. some two_positions) none false 1000 1001 north start).0

Reach-IsConsistent_example : IsConsistent polled
Reach-IsConsistent_example =
    Reach-IsConsistent [] polled
      (next here (poll (λ url. some two_positions) none false 1000 1001 north))

-- three snapshots, of which the second is late
abbrev sent : Snapshots
sent = (1000, 5000, bus_1 ∷ []) ∷ (1010, 4000, []) ∷ (1020, 5500, bus_1 ∷ []) ∷ []

newest_applied_example :
    (last_applied (bytes "north") (store_all (bytes "north") sent start)
      ≡ newest sent (last_applied (bytes "north") start))
    × (((newest sent (last_applied (bytes "north") start) < 5400)
          × (fleet (bytes "north") (
                store_snapshot 1030
                  (bytes "north")
                  (some 5400)
                  []
                  (store_all (bytes "north") sent start))
              ≡ apply_snapshot 1030 []
                  (fleet (bytes "north") (store_all (bytes "north") sent start))))
        ⊎ ((5400 ≤ newest sent (last_applied (bytes "north") start))
            × (store_snapshot 1030
                  (bytes "north")
                  (some 5400)
                  []
                  (store_all (bytes "north") sent start)
                ≡ cleanup_expired_vehicles 1030
                    (bytes "north")
                    (store_all (bytes "north") sent start))))
newest_applied_example = newest_applied (bytes "north") sent start 1030 5400 []
