-- ===== src/Blocks/Snapshots.antt =====
-- internal/restapi/scheduled_block_helper.go: the snapshot of a block at a time and its cache. The trips of
-- a block with their stop times, the stops that they emit and float64 are parameters.
pub mod Requests
pub mod Cache
use maglev.Prelude.{
  ℕ, zero, suc, Bool, true, false, ◌&&◌, not, Option, none, some, List, [], ◌∷◌, get_elem?, Text,
  text_eq, Map, Eq, ◌==◌, lookup, insert, if◌then◌else◌, ◌≡◌, ◌↔◌, refl, arith, ℤ, lt_int, sub_int,
  int_eq, int_beq, int_beq_iff, add_text, is_empty,
}
use maglev.Blocks.{
  BlockTrip, BlockQueries, Sort, keep_shift_containing_trip, block_trip_ids_for_service_date,
}
use maglev.Deviation.Block.{Calendar}
use maglev.Timeline.{
  BlockStop, Searching, Floats, stops_are_monotonic, find_next_stop_index, last_stop,
  interpolate_block_distance,
}

-- `snapshotCacheEntryKey`
pub record CacheKey : Type 0 where
  pub trip_id : Text
  pub current_time_unix : ℤ
  pub service_date_unix : ℤ

unfoldable pub cache_key_beq : CacheKey → CacheKey → Bool
cache_key_beq a b =
    a.trip_id == b.trip_id
    && (int_beq a.current_time_unix b.current_time_unix
        && int_beq a.service_date_unix b.service_date_unix)

pub cache_key_beq_iff : (a b : CacheKey) → (cache_key_beq a b ≡ true) ↔ (a ≡ b)
unfolding cache_key_beq
cache_key_beq_iff a b = (λ h. eq_of_beq h, λ h. beq_of_eq h)
  where
    eq_of_beq : cache_key_beq a b ≡ true → a ≡ b
    eq_of_beq h = ground (
      arith,
      text_eq.beq_iff a.trip_id b.trip_id,
      int_beq_iff a.current_time_unix b.current_time_unix,
      int_beq_iff a.service_date_unix b.service_date_unix,
    )

    beq_of_eq : a ≡ b → cache_key_beq a b ≡ true
    beq_of_eq h = ground (
      arith,
      text_eq.beq_iff a.trip_id b.trip_id,
      int_beq_iff a.current_time_unix b.current_time_unix,
      int_beq_iff a.service_date_unix b.service_date_unix,
    )

instance abbrev pub cache_key_eq : Eq CacheKey
cache_key_eq = record { beq = cache_key_beq; beq_iff = cache_key_beq_iff }

-- `scheduledStopKey`
pub record ScheduledStopKey : Type 0 where
  pub trip_id : Text
  pub stop_sequence_in_trip : ℤ

unfoldable pub stop_key_beq : ScheduledStopKey → ScheduledStopKey → Bool
stop_key_beq a b = a.trip_id == b.trip_id && int_beq a.stop_sequence_in_trip b.stop_sequence_in_trip

pub stop_key_beq_iff : (a b : ScheduledStopKey) → (stop_key_beq a b ≡ true) ↔ (a ≡ b)
unfolding stop_key_beq
stop_key_beq_iff a b = (λ h. eq_of_beq h, λ h. beq_of_eq h)
  where
    eq_of_beq : stop_key_beq a b ≡ true → a ≡ b
    eq_of_beq h = ground (
      arith,
      text_eq.beq_iff a.trip_id b.trip_id,
      int_beq_iff a.stop_sequence_in_trip b.stop_sequence_in_trip,
    )

    beq_of_eq : a ≡ b → stop_key_beq a b ≡ true
    beq_of_eq h = ground (
      arith,
      text_eq.beq_iff a.trip_id b.trip_id,
      int_beq_iff a.stop_sequence_in_trip b.stop_sequence_in_trip,
    )

instance abbrev pub stop_key_eq : Eq ScheduledStopKey
stop_key_eq = record { beq = stop_key_beq; beq_iff = stop_key_beq_iff }

-- `blockStopMetric`, with the stop that it is of
pub record EmittedStop (N : Type 0) : Type 0 where
  pub key : ScheduledStopKey
  pub metric : BlockStop N

-- `scheduledBlockSnapshot`, less the shape of the active trip; `none` is a next stop of -1
pub record Snapshot (N : Type 0) : Type 0 where
  pub stops : List (BlockStop N)
  pub stop_index : Map ScheduledStopKey ℕ
  pub next_stop_index : Option ℕ
  pub distance_along_block : N
  pub in_range : Bool
  pub active_trip_id : Text
  pub active_trip_scheduled_distance : N
  pub shift_trip_ids : List Text

-- `>=` and `math.Max(0, …)` of float64
pub record FloatOrder (N : Type 0) : Type 0 where
  pub at_least : N → N → Bool
  pub max_zero : N → N

-- a `time.Time`: its `UnixNano` and its location
pub record Instant (L : Type 0) : Type 0 where
  pub unix_nano : ℤ
  pub location : L

-- what the database has of blocks on a service date: the queries, which read the date in its location,
-- `loadBlockTripData` and `emitBlockStops`; and what `time` tells of a time in the location of a date
pub record BlockData (N L : Type 0) : Type 0 where
  pub queries : Instant L → BlockQueries
  pub load_block_trip_data : List Text → List BlockTrip
  pub emit_block_stops : List BlockTrip → List (EmittedStop N) × List N
  pub calendar : Calendar (Instant L)

unfoldable pub metrics_of : {N : Type 0} → List (EmittedStop N) → List (BlockStop N)
metrics_of [] = []
metrics_of (s ∷ ss) = s.metric ∷ metrics_of ss

-- the loop that fills `stopIndex`
unfoldable pub stop_index_of :
    {N : Type 0} → ℕ → List (EmittedStop N) → Map ScheduledStopKey ℕ → Map ScheduledStopKey ℕ
stop_index_of i [] m = m
stop_index_of i (s ∷ ss) m = stop_index_of (suc i) ss (insert s.key i m)

-- the loop that fills `shiftTripIDs`
unfoldable pub shift_trip_ids_of : List BlockTrip → List Text → List Text
shift_trip_ids_of [] ids = ids
shift_trip_ids_of (t ∷ ts) ids = shift_trip_ids_of ts (add_text t.id ids)

unfoldable pub is_in_range : {N : Type 0} → BlockStop N → List (BlockStop N) → ℤ → Bool
is_in_range s ss current =
    not (lt_int current s.effective_stop_seconds)
    && not (lt_int (last_stop s ss).effective_stop_seconds current)

module _ {N : Type 0} (floats : Floats N) (order : FloatOrder N) where
  -- the loop of `assignActiveTrip`: the offset and the index of the latest trip that has started
  unfoldable pub active_index : N → ℕ → List N → Option (ℕ × N) → Option (ℕ × N)
  active_index distance i [] best = best
  active_index distance i (offset ∷ offsets) best =
      active_index distance (suc i) offsets
        (if order.at_least distance offset then some (i, offset) else best)

  -- `assignActiveTrip`; there is an offset for each trip
  unfoldable pub assign_active_trip : List BlockTrip → List N → Snapshot N → Snapshot N
  assign_active_trip trips offsets snap =
      elim (active_index snap.distance_along_block 0 offsets none) [
        | none ↦ snap
        | some active ↦ elim (get_elem? trips active.0) [
          | none ↦ snap
          | some t ↦ record snap {
            active_trip_id = t.id;
            active_trip_scheduled_distance =
                order.max_zero (floats.sub snap.distance_along_block active.1);
          }
        ]
      ]

  module _ (search : Searching) where
    -- `buildSnapshotFromStops`, for at least one stop; `none` is a bracket that is out of range
    unfoldable pub build_snapshot_from_stops :
        BlockStop N
        → List (BlockStop N)
        → Map ScheduledStopKey ℕ
        → List BlockTrip
        → ℤ
        → Option (Snapshot N)
    build_snapshot_from_stops s ss index trips current =
        let monotonic = stops_are_monotonic (s ∷ ss) in
        elim (interpolate_block_distance floats search (s ∷ ss) current monotonic) [
          | none ↦ none
          | some distance ↦ some (record {
            stops = s ∷ ss;
            stop_index = index;
            next_stop_index = find_next_stop_index search (s ∷ ss) current monotonic;
            distance_along_block = distance;
            in_range = is_in_range s ss current;
            active_trip_id = [];
            active_trip_scheduled_distance = floats.zero_distance;
            shift_trip_ids = shift_trip_ids_of trips [];
          })
        ]

    -- the snapshot of the stops that a shift emits; `none` is nil, and a bracket out of range
    unfoldable pub snapshot_of_stops :
        List (EmittedStop N) → List N → List BlockTrip → ℤ → Option (Snapshot N)
    snapshot_of_stops [] offsets trips current = none
    snapshot_of_stops (s ∷ ss) offsets trips current =
        elim (build_snapshot_from_stops s.metric (metrics_of ss) (stop_index_of 0 (s ∷ ss) []) trips
          current) [ none ↦ none | some snap ↦ some (assign_active_trip trips offsets snap) ]
