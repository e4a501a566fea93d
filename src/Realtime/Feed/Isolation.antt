-- ===== src/Realtime/Feed/Isolation.antt =====
-- A poll of one feed, or clearing it, leaves the data of the other feeds alone.
use maglev.Prelude.{
  ℕ, Bool, true, false, Option, none, some, Text, text_eq, lookup, lookup-insert_ne, lookup-delete,
  get_or, List, [], ◌==◌, ◌≡◌, arith, Bool-cases, Option-cases, inl, inr,
}
use maglev.Realtime.Types.{Manager, Vehicle}
use maglev.Realtime.Agency.{Db}
use maglev.Realtime.Merge.{rebuild_merged_realtime}
use maglev.Realtime.Feed.{
  RealtimeData, FeedConfig, Fetched, filter_by_agency, fetch, fleet, store_trips, store_vehicles,
  store_snapshot, is_old_snapshot, note_timestamp, store_fleet, cleanup_expired_vehicles,
  store_alerts, has_new_data, store, store_data, publish, complete_poll, update_feed_realtime,
  clear_feed_data,
}
use maglev.Realtime.Vehicles.{Fleet, apply_snapshot, cleanup_expired}

-- the two stores hold the same of a feed
pub record SameFeed (feed : Text) (m m' : Manager) : Type 0 where
  pub trips : lookup feed m'.feed_trips ≡ lookup feed m.feed_trips
  pub unattributed : lookup feed m'.feed_unattributed_trips ≡ lookup feed m.feed_unattributed_trips
  pub vehicles : lookup feed m'.feed_vehicles ≡ lookup feed m.feed_vehicles
  pub alerts : lookup feed m'.feed_alerts ≡ lookup feed m.feed_alerts
  pub timestamp : lookup feed m'.feed_vehicle_timestamp ≡ lookup feed m.feed_vehicle_timestamp
  pub last_seen : lookup feed m'.feed_vehicle_last_seen ≡ lookup feed m.feed_vehicle_last_seen
  pub last_update : lookup feed m'.feed_last_update ≡ lookup feed m.feed_last_update
  pub filters : m'.feed_agency_filter ≡ m.feed_agency_filter

pub SameFeed-refl : (feed : Text) (m : Manager) → SameFeed feed m m
SameFeed-refl feed m = ground arith

SameFeed-trans :
    {feed : Text} {m n p : Manager} → SameFeed feed m n → SameFeed feed n p → SameFeed feed m p
SameFeed-trans s t = ground arith

module _ (feed other : Text) (apart : (feed == other) ≡ false) where
  store_trips-SameFeed : (d : Fetched) (m : Manager) → SameFeed other m (store_trips feed d m)
  unfolding store_trips
  store_trips-SameFeed d m = elim (Option-cases d.trips) [
    | inl n ↦ rw (n, store_trips) (SameFeed-refl other m)
    | inr (ts, e) ↦
        rw (e, store_trips)
          (ground (
            arith,
            lookup-insert_ne feed other ts m.feed_trips apart,
            lookup-insert_ne feed other d.unattributed m.feed_unattributed_trips apart,
          ))
  ]

  store_fleet-SameFeed : (f : Fleet) (m : Manager) → SameFeed other m (store_fleet feed f m)
  unfolding store_fleet
  store_fleet-SameFeed f m = ground (
    arith,
    lookup-insert_ne feed other f.vehicles m.feed_vehicles apart,
    lookup-insert_ne feed other f.last_seen m.feed_vehicle_last_seen apart,
  )

  note_timestamp-SameFeed :
      (created : Option ℕ) (m : Manager) → SameFeed other m (note_timestamp feed created m)
  unfolding note_timestamp
  note_timestamp-SameFeed none m = SameFeed-refl other m
  note_timestamp-SameFeed (some t) m =
      ground (arith, lookup-insert_ne feed other t m.feed_vehicle_timestamp apart)

  cleanup-SameFeed :
      (now : ℕ) (m : Manager) → SameFeed other m (cleanup_expired_vehicles now feed m)
  unfolding cleanup_expired_vehicles
  cleanup-SameFeed now m = elim (Option-cases (lookup feed m.feed_vehicle_last_seen)) [
    | inl n ↦ rw (n, cleanup_expired_vehicles) (SameFeed-refl other m)
    | inr (seen, e) ↦
        rw (e, cleanup_expired_vehicles)
          (store_fleet-SameFeed (cleanup_expired now (fleet feed m)) m)
  ]

  store_snapshot-SameFeed :
      (now : ℕ) (created : Option ℕ) (vehicles : List Vehicle) (m : Manager)
      → SameFeed other m (store_snapshot now feed created vehicles m)
  unfolding store_snapshot
  store_snapshot-SameFeed now created vehicles m =
      elim (Bool-cases (is_old_snapshot feed created m)) [
        | inl e ↦ rw (store_snapshot, e) (cleanup-SameFeed now m)
        | inr e ↦
            rw (store_snapshot, e)
              (SameFeed-trans (note_timestamp-SameFeed created m) (
                store_fleet-SameFeed (apply_snapshot now vehicles (fleet feed m))
                  (note_timestamp feed created m)))
      ]

  store_vehicles-SameFeed :
      (now : ℕ) (d : Fetched) (m : Manager) → SameFeed other m (store_vehicles now feed d m)
  unfolding store_vehicles
  store_vehicles-SameFeed now d m = elim (Option-cases d.vehicles) [
    | inl n ↦ rw (n, store_vehicles) (SameFeed-refl other m)
    | inr (vs, e) ↦ rw (e, store_vehicles) (store_snapshot-SameFeed now d.created_at vs m)
  ]

  store_alerts-SameFeed : (d : Fetched) (m : Manager) → SameFeed other m (store_alerts feed d m)
  unfolding store_alerts
  store_alerts-SameFeed d m = elim (Option-cases d.alerts) [
    | inl n ↦ rw (n, store_alerts) (SameFeed-refl other m)
    | inr (alerts, e) ↦
        rw (e, store_alerts)
          (ground (arith, lookup-insert_ne feed other alerts m.feed_alerts apart))
  ]

module _ (cfg : FeedConfig) (other : Text) (apart : (cfg.id == other) ≡ false) (now done : ℕ)
    (m : Manager) where
  store_data-SameFeed : (d : Fetched) → SameFeed other m (store_data now cfg d m)
  unfolding store_data
  store_data-SameFeed d =
      let a = store_trips cfg.id d m in
      let b = store_vehicles now cfg.id d a in
      SameFeed-trans (store_trips-SameFeed cfg.id other apart d m) (
        SameFeed-trans (store_vehicles-SameFeed cfg.id other apart now d a)
          (store_alerts-SameFeed cfg.id other apart d b))

  publish-SameFeed :
      (new : Bool) (n : Manager) → SameFeed other m n → SameFeed other m (publish new done cfg.id n)
  unfolding publish rebuild_merged_realtime
  publish-SameFeed true n s =
      ground (arith, lookup-insert_ne cfg.id other done n.feed_last_update apart)
  publish-SameFeed false n s = ground arith

  store-SameFeed : (d : Fetched) → SameFeed other m (store now done cfg d m).0
  unfolding store
  store-SameFeed d =
      publish-SameFeed (has_new_data cfg d) (store_data now cfg d m) (store_data-SameFeed d)

  complete_poll-SameFeed :
      (o : Option Fetched) → SameFeed other m (complete_poll now done cfg m o).0
  unfolding complete_poll
  complete_poll-SameFeed none = SameFeed-refl other m
  complete_poll-SameFeed (some d) = store-SameFeed d

  -- A poll of a feed, whatever it fetches, changes nothing that is held of another feed.
  pub update_feed_realtime-SameFeed :
      (load : Text → Option RealtimeData) (db : Option Db) (cancelled : Bool)
      → SameFeed other m (update_feed_realtime load db cancelled now done cfg m).0
  unfolding update_feed_realtime
  update_feed_realtime-SameFeed load db true = SameFeed-refl other m
  update_feed_realtime-SameFeed load db false =
      complete_poll-SameFeed
        (filter_by_agency db (get_or [] cfg.id m.feed_agency_filter) (fetch load cfg))

-- Clearing a feed changes nothing that is held of another feed.
pub clear_feed_data-SameFeed :
    (feed other : Text) (m : Manager)
    → (feed == other) ≡ false
    → SameFeed other m (clear_feed_data feed m)
unfolding clear_feed_data rebuild_merged_realtime
clear_feed_data-SameFeed feed other m apart = ground (
  arith,
  lookup-insert_ne feed other [] m.feed_trips apart,
  lookup-insert_ne feed other [] m.feed_vehicles apart,
  lookup-insert_ne feed other [] m.feed_alerts apart,
  lookup-delete feed other m.feed_unattributed_trips,
  lookup-delete feed other m.feed_vehicle_timestamp,
  lookup-delete feed other m.feed_vehicle_last_seen,
  lookup-delete feed other m.feed_last_update,
)
