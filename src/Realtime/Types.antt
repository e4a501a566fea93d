-- ===== src/Realtime/Types.antt =====
-- The data of internal/gtfs/realtime.go. The structs of github.com/OneBusAway/go-gtfs are not
-- under this repository: a record here has the fields that the code reads, and `rest` stands for
-- everything else that the struct carries along.
use maglev.Prelude.{
  ℕ, Bool, true, ◌&&◌, ◌≡◌, ◌↔◌, Option, List, [], Map, Text, Eq, ◌==◌, text_eq, is_empty,
  if◌then◌else◌, arith,
}

-- `gtfs.TripID`; `duplicated` is `ScheduleRelationship == TripDescriptor_DUPLICATED`
pub record TripId : Type 0 where
  pub id : Text
  pub route_id : Text
  pub duplicated : Bool

pub record Trip : Type 0 where
  pub trip_id : TripId
  pub rest : ℕ

pub record VehicleId : Type 0 where
  pub id : Text
  pub label : Text
  pub license_plate : Text

-- `gtfs.Vehicle`; `timestamp` in nanoseconds
pub record Vehicle : Type 0 where
  pub id : Option VehicleId
  pub trip : Option Trip
  pub timestamp : Option ℕ
  pub rest : ℕ

pub record InformedEntity : Type 0 where
  pub agency_id : Option Text
  pub route_id : Option Text
  pub trip_id : Option TripId
  pub stop_id : Option Text

pub record Alert : Type 0 where
  pub id : Text
  pub informed_entities : List InformedEntity
  pub rest : ℕ

-- `vehicleKey`
pub record VehicleKey : Type 0 where
  pub id : Text
  pub label : Text
  pub license_plate : Text

unfoldable pub vehicle_key_beq : VehicleKey → VehicleKey → Bool
vehicle_key_beq a b = a.id == b.id && (a.label == b.label && a.license_plate == b.license_plate)

pub vehicle_key_beq_iff : (a b : VehicleKey) → (vehicle_key_beq a b ≡ true) ↔ (a ≡ b)
unfolding vehicle_key_beq
vehicle_key_beq_iff a b = (λ h. eq_of_beq h, λ h. beq_of_eq h)
  where
    eq_of_beq : vehicle_key_beq a b ≡ true → a ≡ b
    eq_of_beq h = ground (
      arith,
      text_eq.beq_iff a.id b.id,
      text_eq.beq_iff a.label b.label,
      text_eq.beq_iff a.license_plate b.license_plate,
    )

    beq_of_eq : a ≡ b → vehicle_key_beq a b ≡ true
    beq_of_eq h = ground (
      arith,
      text_eq.beq_iff a.id b.id,
      text_eq.beq_iff a.label b.label,
      text_eq.beq_iff a.license_plate b.license_plate,
    )

instance abbrev pub vehicle_key_eq : Eq VehicleKey
vehicle_key_eq = record { beq = vehicle_key_beq; beq_iff = vehicle_key_beq_iff }

-- `newVehicleKey`
unfoldable pub new_vehicle_key : VehicleId → VehicleKey
new_vehicle_key v =
    if is_empty v.id
    then (if is_empty v.label
        then record { id = []; label = []; license_plate = v.license_plate }
        else record { id = []; label = v.label; license_plate = [] })
    else record { id = v.id; label = []; license_plate = [] }

-- `alertIndex`
pub record AlertIndex : Type 0 where
  pub by_trip : Map Text (List Alert)
  pub by_route : Map Text (List Alert)
  pub by_agency : Map Text (List Alert)
  pub by_stop : Map Text (List Alert)

-- `mergedRealtime`
pub record MergedRealtime : Type 0 where
  pub trips : List Trip
  pub vehicles : List Vehicle
  pub trip_lookup : Map Text ℕ
  pub vehicle_lookup_by_trip : Map Text ℕ
  pub vehicle_lookup_by_vehicle : Map Text ℕ
  pub duplicated_vehicle_by_route : Map Text (List Vehicle)
  pub vehicles_by_route : Map Text (List Vehicle)
  pub alerts : AlertIndex

-- the realtime part of `Manager`; `merged` is `none` before the first rebuild
pub record Manager : Type 0 where
  pub feed_trips : Map Text (List Trip)
  pub feed_unattributed_trips : Map Text (List Trip)
  pub feed_vehicles : Map Text (List Vehicle)
  pub feed_alerts : Map Text (List Alert)
  pub feed_agency_filter : Map Text (Map Text Bool)
  pub feed_vehicle_timestamp : Map Text ℕ
  pub feed_vehicle_last_seen : Map Text (Map VehicleKey ℕ)
  pub feed_last_update : Map Text ℕ
  pub merged : Option MergedRealtime
