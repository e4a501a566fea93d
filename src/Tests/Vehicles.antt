-- ===== src/Tests/Vehicles.antt =====
-- One feed's vehicles: a fleet of two buses, and a snapshot that reports one of them late.
use maglev.Prelude.{
  contains_text, ap, ◌∙◌, ℕ, ◌+◌, ◌≤◌, ◌↔◌, false, some, none, List, [], ◌∷◌, Text, bytes, lookup,
  insert, list_beq, In, inl, inr, refl, ◌≡◌, ◌≢◌, arith,
}
use maglev.Realtime.Types.{
  VehicleKey, Vehicle, VehicleId, Trip, vehicle_key_eq, vehicle_key_beq, new_vehicle_key,
}
use mathlib.Core.List.{filter_map}
use maglev.Realtime.Vehicles.{
  valid_vehicles, validate, choose, index_by_key, index_vehicle, keys_of, mark_seen, drop_expired,
  trip_ids_served_by, retained, retain, release_taken_trip, contains_key, stale_vehicle_timeout,
  is_vehicle_stale, key_of, trip_id_of, Fleet, apply_snapshot, cleanup_expired,
}
use maglev.Realtime.Vehicles.Snapshot.{IsReported}
use maglev.Realtime.Vehicles.Freshness.{OnePerKey, report_served, never_older}
use maglev.Realtime.Vehicles.Retention.{IsTracked, unreported_iff}
use maglev.Realtime.Vehicles.Trips.{trips_exclusive}
use maglev.Realtime.Vehicles.Cleanup.{cleanup_expired_iff}

abbrev pub named : Text → VehicleId
named s = record { id = s; label = []; license_plate = [] }

abbrev pub key : Text → VehicleKey
key s = record { id = s; label = []; license_plate = [] }

abbrev pub on_trip : Text → Text → Trip
on_trip t r = record { trip_id = record { id = t; route_id = r; duplicated = false }; rest = 0 }

abbrev pub bus_1 : Vehicle
bus_1 = record {
  id = some (named (bytes "b1"));
  trip = some (on_trip (bytes "t1") (bytes "r1"));
  timestamp = some 100;
  rest = 1;
}

abbrev pub bus_2 : Vehicle
bus_2 = record {
  id = some (named (bytes "b2"));
  trip = some (on_trip (bytes "t2") (bytes "r1"));
  timestamp = some 200;
  rest = 2;
}

-- a late report of the first bus, and a new one on the second bus's trip
abbrev late_bus_1 : Vehicle
late_bus_1 = record { id = some (named (bytes "b1")); trip = none; timestamp = some 50; rest = 3 }

abbrev bus_3 : Vehicle
bus_3 = record {
  id = some (named (bytes "b3"));
  trip = some (on_trip (bytes "t2") (bytes "r1"));
  timestamp = some 300;
  rest = 4;
}

abbrev two_buses : Fleet
two_buses = record {
  vehicles = bus_1 ∷ bus_2 ∷ [];
  last_seen = (key (bytes "b1"), 1000) ∷ (key (bytes "b2"), 1000) ∷ [];
}

abbrev reports : List Vehicle
reports = late_bus_1 ∷ bus_3 ∷ []

-- the first bus stays as it was, the third is new, the second is kept without its trip
snapshot_run :
    (apply_snapshot 2000 reports two_buses).vehicles
    ≡ bus_1 ∷ bus_3 ∷ record bus_2 { trip = none } ∷ []
unfolding apply_snapshot key_of new_vehicle_key valid_vehicles validate choose is_vehicle_stale
    index_by_key index_vehicle keys_of mark_seen drop_expired trip_ids_served_by trip_id_of retained
    retain release_taken_trip contains_key contains_text lookup insert vehicle_key_beq list_beq
    filter_map
snapshot_run = refl

two_buses_once : OnePerKey two_buses.vehicles
unfolding key_of new_vehicle_key
two_buses_once p q k i j e d = ground arith

reports_once : OnePerKey reports
unfolding key_of new_vehicle_key
reports_once p q k i j e d = ground arith

two_buses-IsTracked : IsTracked two_buses
unfolding key_of new_vehicle_key lookup vehicle_key_beq list_beq
two_buses-IsTracked = record { unique = (refl, (refl, tt)); seen = λ v h. by_bus v h }
  where
    by_bus :
        (v : Vehicle)
        → In v two_buses.vehicles
        → (k : VehicleKey) × (at : ℕ) × (key_of v ≡ some k)
          × (lookup k two_buses.last_seen ≡ some at)
    by_bus v (inl e) = (key (bytes "b1"), 1000, ap key_of e ∙ refl, refl)
    by_bus v (inr (inl e)) = (key (bytes "b2"), 1000, ap key_of e ∙ refl, refl)
    by_bus v (inr (inr e)) = absurd e

b2_unreported : ¬ IsReported (key (bytes "b2")) reports
unfolding key_of new_vehicle_key
b2_unreported r = ground (arith, r.1, r.2)

report_served_example :
    (w : Vehicle) × In w (apply_snapshot 2000 reports two_buses).vehicles
    × (key_of w ≡ some (key (bytes "b1")))
    × (is_vehicle_stale late_bus_1 w ≡ false)
unfolding key_of new_vehicle_key
report_served_example =
    report_served 2000 reports two_buses late_bus_1 (key (bytes "b1")) (inl refl) refl

never_older_example : is_vehicle_stale bus_2 (record bus_2 { trip = none }) ≡ false
unfolding key_of new_vehicle_key
never_older_example =
    never_older 2000 reports two_buses two_buses_once bus_2 (record bus_2 { trip = none })
      (key (bytes "b2")) (inr (inl refl)) refl (rw snapshot_run (inr (inr (inl refl)))) refl

unreported_iff_example :
    ((w : Vehicle) × In w (apply_snapshot 2000 reports two_buses).vehicles
      × (key_of w ≡ some (key (bytes "b2"))))
    ↔ ((p : Vehicle) × (at : ℕ) × In p two_buses.vehicles
        × (key_of p ≡ some (key (bytes "b2")))
        × (lookup (key (bytes "b2")) two_buses.last_seen ≡ some at)
        × (2000 ≤ at + stale_vehicle_timeout))
unreported_iff_example =
    unreported_iff 2000 reports two_buses two_buses-IsTracked (key (bytes "b2")) b2_unreported

abbrev bus_4 : Vehicle
bus_4 = record {
  id = some (named (bytes "b4"));
  trip = some (on_trip (bytes "t9") (bytes "r1"));
  timestamp = some 300;
  rest = 5;
}

other_run : (apply_snapshot 2000 (bus_4 ∷ []) two_buses).vehicles ≡ bus_4 ∷ bus_1 ∷ bus_2 ∷ []
unfolding apply_snapshot key_of new_vehicle_key valid_vehicles validate choose is_vehicle_stale
    index_by_key index_vehicle keys_of mark_seen drop_expired trip_ids_served_by trip_id_of retained
    retain release_taken_trip contains_key contains_text lookup insert vehicle_key_beq list_beq
    filter_map
other_run = refl

b2_not_b4 : ¬ IsReported (key (bytes "b2")) (bus_4 ∷ [])
unfolding key_of new_vehicle_key
b2_not_b4 r = ground (arith, r.1, r.2)

trips_exclusive_example : trip_id_of bus_4 ≢ some (bytes "t2")
unfolding key_of new_vehicle_key trip_id_of
trips_exclusive_example =
    trips_exclusive 2000 (bus_4 ∷ []) two_buses bus_2 bus_4 (key (bytes "b2")) (key (bytes "b4"))
      (bytes "t2") (rw other_run (inr (inr (inl refl)))) refl b2_not_b4 (rw other_run (inl refl))
      refl (bus_4, inl refl, refl) refl

cleanup_expired_iff_example : In bus_1 (cleanup_expired 2000 two_buses).vehicles ↔ (
    In bus_1 two_buses.vehicles
    × ((k : VehicleKey) × (at : ℕ) × (key_of bus_1 ≡ some k)
        × (lookup k two_buses.last_seen ≡ some at)
        × (2000 ≤ at + stale_vehicle_timeout)))
cleanup_expired_iff_example = cleanup_expired_iff 2000 two_buses bus_1 two_buses-IsTracked
