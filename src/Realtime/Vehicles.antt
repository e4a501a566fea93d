-- ===== src/Realtime/Vehicles.antt =====
-- internal/gtfs/realtime.go, vehicle positions: what `updateFeedRealtime` does with one vehicle
-- snapshot of a feed, and `cleanupExpiredVehicles`. Times are nanoseconds; a subtraction of times
-- is only compared with a positive timeout, so that stopping at 0 changes no test. A Go map that
-- the code only fills and tests is a list of its keys.
pub mod Snapshot
pub mod Freshness
pub mod Retention
pub mod Trips
pub mod Cleanup
use maglev.Prelude.{
  contains_text, ℕ, ◌-◌, ◌*◌, Bool, true, false, ◌&&◌, ◌||◌, Option, none, some, List, [], ◌∷◌,
  ◌++◌, Map, lookup, insert, ◌==◌, text_eq, Text, is_empty, is_some, ltb, not, if◌then◌else◌,
  keep_if,
}
use mathlib.Core.List.{filter_map}
use maglev.Realtime.Types.{Vehicle, VehicleKey, vehicle_key_eq, new_vehicle_key}

-- `staleVehicleTimeout`
abbrev pub stale_vehicle_timeout : ℕ
stale_vehicle_timeout = 15 * 60 * 1_000_000_000

-- `isVehicleStale`
abbrev before : Option ℕ → Option ℕ → Bool
before none existing = false
before (some t) none = false
before (some t) (some s) = ltb t s

unfoldable pub is_vehicle_stale : Vehicle → Vehicle → Bool
is_vehicle_stale existing incoming = before incoming.timestamp existing.timestamp

-- `_, ok := set[k]`
unfoldable pub contains_key : VehicleKey → List VehicleKey → Bool
contains_key k [] = false
contains_key k (j ∷ ks) = j == k || contains_key k ks

-- the trip ID of a vehicle, if it has a trip and the ID is not ""
unfoldable pub trip_id_of : Vehicle → Option Text
trip_id_of v = elim v.trip [
  | none ↦ none
  | some t ↦ if is_empty t.trip_id.id then none else some t.trip_id.id
]

-- `tripIDsServedBy`
unfoldable pub trip_ids_served_by : List Vehicle → List Text
trip_ids_served_by = filter_map trip_id_of

-- `releaseTakenTrip`
unfoldable pub release_taken_trip : Vehicle → List Text → Vehicle
release_taken_trip retained live = elim retained.trip [
  | none ↦ retained
  | some t ↦ if contains_text t.trip_id.id live then record retained { trip = none } else retained
]

-- the key of a vehicle that has an ID
unfoldable pub key_of : Vehicle → Option VehicleKey
key_of v = elim v.id [ none ↦ none | some i ↦ some (new_vehicle_key i) ]

-- the loop that fills `prevByID`; a later vehicle of a key replaces an earlier one
unfoldable pub index_vehicle : Vehicle → Map VehicleKey Vehicle → Map VehicleKey Vehicle
index_vehicle v m = elim (key_of v) [ none ↦ m | some k ↦ insert k v m ]

unfoldable pub index_by_key : List Vehicle → Map VehicleKey Vehicle → Map VehicleKey Vehicle
index_by_key [] m = m
index_by_key (v ∷ vs) m = index_by_key vs (index_vehicle v m)

-- the choice for one reported vehicle: the stored one where the report is older
unfoldable pub choose : Map VehicleKey Vehicle → VehicleKey → Vehicle → Vehicle
choose prev k v = elim (lookup k prev) [ none ↦ v | some p ↦ if is_vehicle_stale p v then p else v ]

-- the loop that fills `validVehicles`
unfoldable pub validate : Map VehicleKey Vehicle → Vehicle → Option Vehicle
validate prev v = elim (key_of v) [ none ↦ none | some k ↦ some (choose prev k v) ]

unfoldable pub valid_vehicles : Map VehicleKey Vehicle → List Vehicle → List Vehicle
valid_vehicles prev = filter_map (validate prev)

-- the keys of `currentVehicleIDs`
unfoldable pub keys_of : List Vehicle → List VehicleKey
keys_of = filter_map key_of

-- `lastSeenMap[key] = now` for every current key
unfoldable pub mark_seen : ℕ → List VehicleKey → Map VehicleKey ℕ → Map VehicleKey ℕ
mark_seen now [] m = m
mark_seen now (k ∷ ks) m = mark_seen now ks (insert k now m)

-- `now.Sub(lastSeen) > staleVehicleTimeout`
abbrev pub expired : ℕ → ℕ → Bool
expired now seen = ltb stale_vehicle_timeout (now - seen)

-- the loop that deletes the expired entries of vehicles that are not current
unfoldable pub drop_expired : ℕ → List VehicleKey → Map VehicleKey ℕ → Map VehicleKey ℕ
drop_expired now current =
    keep_if (λ (e : VehicleKey × ℕ). contains_key e.0 current || not (expired now e.1))

-- the loop that appends the vehicles which the snapshot no longer reports
unfoldable pub retain :
    ℕ → List VehicleKey → Map VehicleKey ℕ → List Text → Vehicle → Option Vehicle
retain now current seen live pv = elim (key_of pv) [
  | none ↦ none
  | some k ↦ if contains_key k current then none else elim (lookup k seen) [
    | none ↦ none
    | some at ↦ if expired now at then none else some (release_taken_trip pv live)
  ]
]

unfoldable pub retained :
    ℕ → List VehicleKey → Map VehicleKey ℕ → List Text → List Vehicle → List Vehicle
retained now current seen live = filter_map (retain now current seen live)

-- what a feed keeps of its vehicles: `feedVehicles[feedID]` and `feedVehicleLastSeen[feedID]`
pub record Fleet : Type 0 where
  pub vehicles : List Vehicle
  pub last_seen : Map VehicleKey ℕ

-- the body of `if applyVehicleUpdate`
unfoldable pub apply_snapshot : ℕ → List Vehicle → Fleet → Fleet
apply_snapshot now incoming f =
    let valid = valid_vehicles (index_by_key f.vehicles []) incoming in
    let current = keys_of valid in
    let seen = drop_expired now current (mark_seen now current f.last_seen) in
    let live = trip_ids_served_by valid in
    record { vehicles = valid ++ retained now current seen live f.vehicles; last_seen = seen }

-- `cleanupExpiredVehicles`, where the feed has a last-seen map
unfoldable pub cleanup_expired : ℕ → Fleet → Fleet
cleanup_expired now f =
    let seen = keep_if (λ (e : VehicleKey × ℕ). not (expired now e.1)) f.last_seen in
    record {
      vehicles =
          keep_if (λ v. elim (key_of v) [ none ↦ false | some k ↦ is_some (lookup k seen) ])
            f.vehicles;
      last_seen = seen;
    }
