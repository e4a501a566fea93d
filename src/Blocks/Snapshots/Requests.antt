-- ===== src/Blocks/Snapshots/Requests.antt =====
-- internal/restapi/scheduled_block_helper.go: `computeScheduledBlockSnapshot` and its cache, which
-- answers for every trip of a shift that has been computed.
use maglev.Prelude.{Option, none, some, List, [], ◌∷◌, Text, Map, lookup, insert}
use maglev.Blocks.{BlockTrip, Sort, keep_shift_containing_trip, block_trip_ids_for_service_date}
use maglev.Deviation.Block.{calculate_seconds_since_service_date}
use maglev.Timeline.{Searching, Floats}
use maglev.Blocks.Snapshots.{
  CacheKey, cache_key_eq, Instant, Snapshot, FloatOrder, BlockData, snapshot_of_stops,
}

abbrev pub SnapshotCache : Type 0 → Type 0
SnapshotCache N = Map CacheKey (Snapshot N)

-- `makeSnapshotCacheKey`
unfoldable pub make_snapshot_cache_key : {L : Type 0} → Text → Instant L → Instant L → CacheKey
make_snapshot_cache_key trip_id current service = record {
  trip_id = trip_id;
  current_time_unix = current.unix_nano;
  service_date_unix = service.unix_nano;
}

-- `populateSnapshotCache`
unfoldable pub populate_snapshot_cache :
    {N L : Type 0}
    → Snapshot N
    → List BlockTrip
    → Instant L
    → Instant L
    → SnapshotCache N
    → SnapshotCache N
populate_snapshot_cache snap [] current service cache = cache
populate_snapshot_cache snap (t ∷ ts) current service cache =
    populate_snapshot_cache snap ts current service
      (insert (make_snapshot_cache_key t.id current service) snap cache)

module _ {N L : Type 0} (data_of : BlockData N L) (sort : Sort) where
  -- the part of `loadShiftTrips` after the IDs of the block
  unfoldable pub shift_among : List Text → Text → List BlockTrip
  shift_among [] target = []
  shift_among (id ∷ ids) target = elim (data_of.load_block_trip_data (id ∷ ids)) [
    | [] ↦ []
    | t ∷ ts ↦
        keep_shift_containing_trip (sort.sort_by (λ (x : BlockTrip). x.first_seconds) (t ∷ ts))
          target
  ]

  -- `loadShiftTrips`
  unfoldable pub load_shift_trips : Text → Instant L → List BlockTrip
  load_shift_trips target service =
      shift_among (block_trip_ids_for_service_date (data_of.queries service) target) target

module _ {N L : Type 0} (floats : Floats N) (order : FloatOrder N) (search : Searching)
    (sort : Sort) (data_of : BlockData N L) where
  unfoldable pub snapshot_of_shift : List BlockTrip → Instant L → Instant L → Option (Snapshot N)
  snapshot_of_shift [] current service = none
  snapshot_of_shift (t ∷ ts) current service =
      let emitted = data_of.emit_block_stops (t ∷ ts) in
      snapshot_of_stops floats order search emitted.0 emitted.1 (t ∷ ts)
        (calculate_seconds_since_service_date data_of.calendar current service)

  -- `computeScheduledBlockSnapshot` where the request has no cache
  unfoldable pub compute_uncached : Text → Instant L → Instant L → Option (Snapshot N)
  compute_uncached target current service =
      snapshot_of_shift (load_shift_trips data_of sort target service) current service

  -- `computeScheduledBlockSnapshot`, with the cache before and after
  unfoldable pub compute_scheduled_block_snapshot :
      Text → Instant L → Instant L → SnapshotCache N → Option (Snapshot N) × SnapshotCache N
  compute_scheduled_block_snapshot target current service cache =
      elim (lookup (make_snapshot_cache_key target current service) cache) [
        | some hit ↦ (some hit, cache)
        | none ↦ elim (compute_uncached target current service) [
          | none ↦ (none, cache)
          | some snap ↦ (
            some snap,
            populate_snapshot_cache snap (load_shift_trips data_of sort target service) current
                service cache,
          )
        ]
      ]
