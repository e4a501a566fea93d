-- ===== src/Blocks.antt =====
-- internal/restapi/scheduled_block_helper.go and trip_updates_helper.go: which trips of a block one bus
-- runs on a service date, in the order of their start. The queries are parameters, and so is
-- `slices.SortFunc`.
pub mod Shifts
pub mod Orders
pub mod Mates
pub mod Snapshots
use maglev.Prelude.{
  ℕ, zero, suc, ◌-◌, Bool, true, false, Option, none, some, List, [], ◌∷◌, length, take, drop,
  get_elem?, Text, text_eq, ◌==◌, is_empty, contains_text, Map, lookup, insert, is_some,
  if◌then◌else◌, not, ◌&&◌, ◌||◌, ℤ, pos, quot_int, lt_int, map,
}

-- `blockTripData`, the fields that bound a trip
pub record BlockTrip : Type 0 where
  pub id : Text
  pub first_seconds : ℤ
  pub last_seconds : ℤ

-- `targetIdx`
unfoldable pub target_index : Text → List BlockTrip → Option ℕ
target_index target [] = none
target_index target (t ∷ ts) =
    let rest = target_index target ts in
    if t.id == target then some 0 else elim rest [ none ↦ none | some i ↦ some (suc i) ]

-- `trips[i+1].firstSeconds < trips[i].lastSeconds`
unfoldable pub overlaps : List BlockTrip → ℕ → Bool
overlaps trips i = elim (get_elem? trips i) [
  | none ↦ false
  | some t ↦ elim (get_elem? trips (suc i)) [
    | none ↦ false
    | some u ↦ lt_int u.first_seconds t.last_seconds
  ]
]

-- the walk back, from an index down
unfoldable pub shift_start : List BlockTrip → ℕ → ℕ
shift_start trips zero = 0
shift_start trips (suc i) =
    let before = shift_start trips i in if overlaps trips i then suc i else before

-- the walk forward, from an index, over as many trips as follow it
unfoldable pub shift_end : List BlockTrip → ℕ → ℕ → ℕ
shift_end trips i zero = length trips
shift_end trips i (suc following) =
    let after = shift_end trips (suc i) following in if overlaps trips i then suc i else after

-- `keepShiftContainingTrip`
unfoldable pub keep_shift_containing_trip : List BlockTrip → Text → List BlockTrip
keep_shift_containing_trip trips target = elim (target_index target trips) [
  | none ↦ []
  | some i ↦ drop (shift_start trips i) (take (shift_end trips i (length trips - 1 - i)) trips)
]

-- a row of `GetTripsByBlockID`
pub record BlockRow : Type 0 where
  pub id : Text
  pub service_id : Text

-- the queries of `blockTripIDsForServiceDate`, on the service date; `none` is an error
pub record BlockQueries : Type 0 where
  pub get_block_id_by_trip_id : Text → Option Text
  pub get_trips_by_block_id : Text → Option (List BlockRow)
  pub get_active_service_ids_for_date : Option (List Text)

unfoldable pub active_ids : List Text → List BlockRow → List Text
active_ids active [] = []
active_ids active (r ∷ rs) =
    let rest = active_ids active rs in
    if contains_text r.service_id active then r.id ∷ rest else rest

unfoldable pub or_fallback : Text → List Text → List Text
or_fallback target [] = target ∷ []
or_fallback target (id ∷ ids) = id ∷ ids

-- `blockTripIDsForServiceDate`
unfoldable pub block_trip_ids_for_service_date : BlockQueries → Text → List Text
block_trip_ids_for_service_date q target = elim (q.get_block_id_by_trip_id target) [
  | none ↦ target ∷ []
  | some block_id ↦
      if is_empty block_id then target ∷ [] else elim (q.get_trips_by_block_id block_id) [
        | none ↦ target ∷ []
        | some rows ↦ elim q.get_active_service_ids_for_date [
          | none ↦ target ∷ []
          | some active ↦ or_fallback target (active_ids active rows)
        ]
      ]
]

-- a row of `GetTripTimeBoundsByIDs`, in nanoseconds
pub record BoundsRow : Type 0 where
  pub id : Text
  pub min_arrival_time : Option ℤ
  pub max_departure_time : Option ℤ

-- `slices.SortFunc` by an int64 key
pub record Sort : Type 1 where
  pub sort_by : {A : Type 0} → (A → ℤ) → List A → List A

-- `startByID`
unfoldable pub start_by_id : List BoundsRow → Map Text ℤ → Map Text ℤ
start_by_id [] m = m
start_by_id (r ∷ rs) m =
    start_by_id rs (elim r.min_arrival_time [ none ↦ m | some t ↦ insert r.id t m ])

unfoldable pub all_present : Map Text ℤ → List Text → Bool
all_present m [] = true
all_present m (id ∷ ids) = is_some (lookup id m) && all_present m ids

-- at most one trip
unfoldable pub is_short : List Text → Bool
is_short [] = true
is_short (id ∷ []) = true
is_short (id ∷ jd ∷ ids) = false

unfoldable pub start_of : Map Text ℤ → Text → ℤ
start_of m id = elim (lookup id m) [ none ↦ pos 0 | some t ↦ t ]

-- a second, in nanoseconds
abbrev pub second_of_nanos : ℕ
second_of_nanos = 1000000000

unfoldable pub minimal_trip : BoundsRow → Option BlockTrip
minimal_trip r = elim r.min_arrival_time [
  | none ↦ none
  | some first ↦ elim r.max_departure_time [
    | none ↦ none
    | some last ↦ some (record {
      id = r.id;
      first_seconds = quot_int first second_of_nanos;
      last_seconds = quot_int last second_of_nanos;
    })
  ]
]

unfoldable pub minimal_trips : List BoundsRow → List BlockTrip
minimal_trips [] = []
minimal_trips (r ∷ rs) = elim (minimal_trip r) [
  | none ↦ minimal_trips rs
  | some t ↦ t ∷ minimal_trips rs
]

unfoldable pub ids_of : List BlockTrip → List Text
ids_of [] = []
ids_of (t ∷ ts) = t.id ∷ ids_of ts

unfoldable pub all_contained : List Text → List Text → Bool
all_contained present [] = true
all_contained present (id ∷ ids) = contains_text id present && all_contained present ids

module _ (sort : Sort) (bounds : List Text → Option (List BoundsRow)) where
  -- `blockTripIDsSortedByStartTime`
  unfoldable pub block_trip_ids_sorted_by_start_time : List Text → List Text
  block_trip_ids_sorted_by_start_time ids = if is_short ids then ids else elim (bounds ids) [
    | none ↦ ids
    | some rows ↦
        if all_present (start_by_id rows []) ids
        then sort.sort_by (start_of (start_by_id rows [])) ids
        else ids
  ]

  -- what is returned of the shift of the target
  unfoldable pub shift_or : List Text → List BlockTrip → List Text
  shift_or raw [] = block_trip_ids_sorted_by_start_time raw
  shift_or raw (t ∷ ts) = ids_of (t ∷ ts)

  unfoldable pub shift_of_rows : Text → List Text → List BoundsRow → List Text
  shift_of_rows target raw rows =
      if all_contained (ids_of (minimal_trips rows)) raw
      then shift_or raw (
          keep_shift_containing_trip
            (sort.sort_by (λ (t : BlockTrip). t.first_seconds) (minimal_trips rows)) target)
      else block_trip_ids_sorted_by_start_time raw

  -- `blockShiftTripIDsSortedByStartTime`
  unfoldable pub block_shift_trip_ids_sorted_by_start_time : BlockQueries → Text → List Text
  block_shift_trip_ids_sorted_by_start_time q target =
      let raw = block_trip_ids_for_service_date q target in
      if is_short raw then raw else elim (bounds raw) [
        | none ↦ block_trip_ids_sorted_by_start_time raw
        | some rows ↦ shift_of_rows target raw rows
      ]
