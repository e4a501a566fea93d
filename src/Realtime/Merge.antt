-- ===== src/Realtime/Merge.antt =====
-- internal/gtfs/realtime.go: `rebuildMergedRealtimeLocked`, which joins the feeds' data in the
-- order of the feed IDs and indexes it, and the readers of the merged view
-- (internal/gtfs/gtfs_manager.go).
pub mod Positions
pub mod Duplicated
pub mod Routes
pub mod AlertIndexes
use maglev.Prelude.{
  ℕ, zero, suc, Bool, true, false, ◌&&◌, not, Option, none, some, List, [], ◌∷◌, ◌++◌, Text,
  text_eq, is_empty, is_some, Map, lookup, insert, get_or, contains_text, add_text, sort_texts,
  get_elem?, map, if◌then◌else◌, ◌>>=◌,
}
use maglev.Realtime.Types.{
  TripId, Trip, VehicleId, Vehicle, InformedEntity, Alert, AlertIndex, MergedRealtime, Manager,
}

module _ {V : Type 0} where
  -- the lists of all feeds, joined in the order of the sorted feed IDs
  unfoldable pub join_feeds : Map Text (List V) → List Text → List V
  join_feeds m [] = []
  join_feeds m (id ∷ ids) = get_or [] id m ++ join_feeds m ids

  unfoldable pub all_feeds : Map Text (List V) → List V
  unfolding join_feeds
  all_feeds m = join_feeds m (sort_texts (map (λ (e : Text × List V). e.0) m))

  -- `m[k] = append(m[k], v)`
  unfoldable pub push : Text → V → Map Text (List V) → Map Text (List V)
  push k v m = insert k (get_or [] k m ++ (v ∷ [])) m

abbrev pub set_unless_empty : Text → ℕ → Map Text ℕ → Map Text ℕ
set_unless_empty id i m = if is_empty id then m else insert id i m

-- a loop that notes the position of each element under its ID, unless that is ""
unfoldable pub positions : {A : Type 0} → (A → Text) → ℕ → List A → Map Text ℕ → Map Text ℕ
positions key i [] m = m
positions key i (x ∷ xs) m = positions key (suc i) xs (set_unless_empty (key x) i m)

-- the loop that fills `tripLookup`
abbrev pub trip_id_of_update : Trip → Text
trip_id_of_update t = t.trip_id.id

unfoldable pub trip_positions : List Trip → Map Text ℕ
unfolding positions
trip_positions trips = positions trip_id_of_update 0 trips []

-- what the loop over the vehicles fills
pub record VehicleIndex : Type 0 where
  pub by_trip : Map Text ℕ
  pub by_vehicle : Map Text ℕ
  pub duplicated : Map Text (List Vehicle)
  pub by_route : Map Text (List Vehicle)

-- the route of a DUPLICATED trip, from its descriptor or else from the trip updates
unfoldable pub duplicated_route : List Trip → Map Text ℕ → Trip → Text
duplicated_route trips lookups t =
    if is_empty t.trip_id.route_id && not (is_empty t.trip_id.id)
    then (elim (lookup t.trip_id.id lookups) [
      | none ↦ t.trip_id.route_id
      | some i ↦ elim (get_elem? trips i) [
        | none ↦ t.trip_id.route_id
        | some u ↦ u.trip_id.route_id
      ]
    ])
    else t.trip_id.route_id

abbrev pub push_unless_empty : Text → Vehicle → Map Text (List Vehicle) → Map Text (List Vehicle)
push_unless_empty k v m = if is_empty k then m else push k v m

-- the trip and route IDs that the vehicle's trip has; "" without a trip
unfoldable pub vehicle_trip_id : Vehicle → Text
vehicle_trip_id v = elim v.trip [ none ↦ [] | some t ↦ t.trip_id.id ]

unfoldable pub vehicle_route_id : Vehicle → Text
vehicle_route_id v = elim v.trip [ none ↦ [] | some t ↦ t.trip_id.route_id ]

unfoldable pub vehicle_id : Vehicle → Text
vehicle_id v = elim v.id [ none ↦ [] | some i ↦ i.id ]

-- the route under which a vehicle of a DUPLICATED trip is listed; "" for none
unfoldable pub duplicated_route_of : List Trip → Map Text ℕ → Vehicle → Text
duplicated_route_of trips lookups v = elim v.trip [
  | none ↦ []
  | some t ↦ if t.trip_id.duplicated then duplicated_route trips lookups t else []
]

-- one round of the loop over the vehicles
unfoldable pub index_vehicle : List Trip → Map Text ℕ → ℕ → Vehicle → VehicleIndex → VehicleIndex
index_vehicle trips lookups i v idx = record {
  by_trip = set_unless_empty (vehicle_trip_id v) i idx.by_trip;
  by_vehicle = set_unless_empty (vehicle_id v) i idx.by_vehicle;
  duplicated = push_unless_empty (duplicated_route_of trips lookups v) v idx.duplicated;
  by_route = push_unless_empty (vehicle_route_id v) v idx.by_route;
}

unfoldable pub index_vehicles :
    List Trip → Map Text ℕ → ℕ → List Vehicle → VehicleIndex → VehicleIndex
index_vehicles trips lookups i [] idx = idx
index_vehicles trips lookups i (v ∷ vs) idx =
    index_vehicles trips lookups (suc i) vs (index_vehicle trips lookups i v idx)

-- the key that an entity gives one of the four indexes, if any
unfoldable pub trip_key : InformedEntity → Option Text
trip_key e = elim e.trip_id [ none ↦ none | some t ↦ some t.id ]

unfoldable pub route_key : InformedEntity → Option Text
route_key e = if is_some e.stop_id then none else if is_some e.trip_id then none else e.route_id

unfoldable pub agency_key : InformedEntity → Option Text
agency_key e = if is_some e.route_id then none else if is_some e.trip_id then none else e.agency_id

unfoldable pub stop_key : InformedEntity → Option Text
stop_key e = e.stop_id

-- `if … && !seen[k] { seen[k] = true; idx[k] = append(idx[k], alert) }`
unfoldable pub index_key :
    Alert → Option Text → List Text → Map Text (List Alert) → List Text × Map Text (List Alert)
index_key a none seen m = (seen, m)
index_key a (some k) seen m = if contains_text k seen then (seen, m) else (k ∷ seen, push k a m)

-- the loop over the entities of one alert, for one index
unfoldable pub index_entities :
    (InformedEntity → Option Text)
    → Alert
    → List InformedEntity
    → List Text
    → Map Text (List Alert)
    → Map Text (List Alert)
index_entities key a [] seen m = m
index_entities key a (e ∷ es) seen m =
    let (seen', m') = index_key a (key e) seen m in index_entities key a es seen' m'

unfoldable pub index_alerts :
    (InformedEntity → Option Text) → List Alert → Map Text (List Alert) → Map Text (List Alert)
index_alerts key [] m = m
index_alerts key (a ∷ alerts) m =
    index_alerts key alerts
      (if is_empty a.id then m else index_entities key a a.informed_entities [] m)

-- the four indexes; the loop fills them side by side, and none reads another
unfoldable pub alert_index : List Alert → AlertIndex
alert_index alerts = record {
  by_trip = index_alerts trip_key alerts [];
  by_route = index_alerts route_key alerts [];
  by_agency = index_alerts agency_key alerts [];
  by_stop = index_alerts stop_key alerts [];
}

abbrev pub no_index : VehicleIndex
no_index = record { by_trip = []; by_vehicle = []; duplicated = []; by_route = [] }

-- the value that `rebuildMergedRealtimeLocked` publishes
unfoldable pub merge : Manager → MergedRealtime
merge m =
    let trips = all_feeds m.feed_trips in
    let vehicles = all_feeds m.feed_vehicles in
    let lookups = trip_positions trips in
    let idx = index_vehicles trips lookups 0 vehicles no_index in
    record {
      trips = trips;
      vehicles = vehicles;
      trip_lookup = lookups;
      vehicle_lookup_by_trip = idx.by_trip;
      vehicle_lookup_by_vehicle = idx.by_vehicle;
      duplicated_vehicle_by_route = idx.duplicated;
      vehicles_by_route = idx.by_route;
      alerts = alert_index (all_feeds m.feed_alerts);
    }

-- `rebuildMergedRealtimeLocked`
unfoldable pub rebuild_merged_realtime : Manager → Manager
rebuild_merged_realtime m = record m { merged = some (merge m) }

-- `emptyMergedRealtime` and `mergedRealtime()`
unfoldable pub empty_merged_realtime : MergedRealtime
empty_merged_realtime = record {
  trips = [];
  vehicles = [];
  trip_lookup = [];
  vehicle_lookup_by_trip = [];
  vehicle_lookup_by_vehicle = [];
  duplicated_vehicle_by_route = [];
  vehicles_by_route = [];
  alerts = record { by_trip = []; by_route = []; by_agency = []; by_stop = [] };
}

unfoldable pub merged_realtime : Manager → MergedRealtime
merged_realtime m = elim m.merged [ none ↦ empty_merged_realtime | some r ↦ r ]

-- what an index finds: `xs[i]` would panic where `i` is out of range
pub data Found (A : Type 0) : Type 0 where
  found : A → Found A
  missing : Found A
  out_of_range : Found A

unfoldable pub read_at : {A : Type 0} → List A → Map Text ℕ → Text → Found A
read_at xs lookups id = elim (lookup id lookups) [
  | none ↦ missing
  | some i ↦ elim (get_elem? xs i) [ none ↦ out_of_range | some x ↦ found x ]
]

-- `GetTripUpdateByID`, and `GetTripUpdatesForTrip`, which returns it as a list
unfoldable pub get_trip_update_by_id : MergedRealtime → Text → Found Trip
unfolding read_at
get_trip_update_by_id r id = read_at r.trips r.trip_lookup id

-- `GetVehicleByID`
unfoldable pub get_vehicle_by_id : MergedRealtime → Text → Found Vehicle
unfolding read_at
get_vehicle_by_id r id = read_at r.vehicles r.vehicle_lookup_by_vehicle id

-- the loop of `GetVehicleForTrip` over the vehicles, for a trip of the block
unfoldable first_serving : List Text → List Vehicle → Found Vehicle
first_serving block [] = missing
first_serving block (v ∷ vs) =
    if not (is_empty (vehicle_trip_id v)) && contains_text (vehicle_trip_id v) block
    then found v
    else first_serving block vs

-- `GetVehicleForTrip`; `block_trips` stands for the two database queries: the IDs of the trips of
-- the block, or `none` after an error or for a trip without a block
unfoldable get_vehicle_for_trip :
    (Text → Option (List Text)) → MergedRealtime → Text → Found Vehicle
unfolding read_at first_serving
get_vehicle_for_trip block_trips r id = elim (read_at r.vehicles r.vehicle_lookup_by_trip id) [
  | missing ↦ elim (block_trips id) [ none ↦ missing | some block ↦ first_serving block r.vehicles ]
  | found v ↦ found v
  | out_of_range ↦ out_of_range
]

-- `GetDuplicatedVehiclesForRoute`
unfoldable pub get_duplicated_vehicles_for_route : MergedRealtime → Text → List Vehicle
get_duplicated_vehicles_for_route r route = get_or [] route r.duplicated_vehicle_by_route
