-- ===== src/Arrivals/Retained.antt =====
-- internal/restapi/arrivals_and_departures_for_location_handler.go: `retainedAccumulator`, the stops, trips
-- and routes that the references of a truncated response still need.
pub mod Needed
pub mod Kept
use maglev.Prelude.{Option, none, some, List, [], ◌∷◌, Text, text_eq, Map, lookup, insert, add_text}
use maglev.Ids.{extract_agency_id_and_code_id}

-- `models.TripStatus`, the IDs that it names
pub record StatusIds : Type 0 where
  pub next_stop : Text
  pub closest_stop : Text
  pub active_trip_id : Text

-- `models.ArrivalAndDeparture`, the combined IDs that it emits
pub record ArrivalIds : Type 0 where
  pub stop_id : Text
  pub trip_id : Text
  pub route_id : Text
  pub trip_status : Option StatusIds

-- `arrivalsAccumulator`, for trips of type `T` and routes of type `R`
pub record Accumulator (T R : Type 0) : Type 0 where
  pub trips : Map Text T
  pub routes : Map Text R
  pub stop_ids : List Text

module _ {T R : Type 0} where
  -- `newArrivalsAccumulator`
  abbrev pub new_accumulator : Accumulator T R
  new_accumulator = record { trips = []; routes = []; stop_ids = [] }

  -- `retainStop`
  unfoldable pub retain_stop : Text → Accumulator T R → Accumulator T R
  retain_stop combined ref = elim (extract_agency_id_and_code_id combined) [
    | none ↦ ref
    | some p ↦ record ref { stop_ids = add_text p.1 ref.stop_ids }
  ]

  -- `retainTrip`
  unfoldable pub retain_trip : Accumulator T R → Text → Accumulator T R → Accumulator T R
  retain_trip acc combined ref = elim (extract_agency_id_and_code_id combined) [
    | none ↦ ref
    | some p ↦ elim (lookup p.1 acc.trips) [
      | none ↦ ref
      | some trip ↦ record ref { trips = insert p.1 trip ref.trips }
    ]
  ]

  -- `retainRoute`
  unfoldable pub retain_route : Accumulator T R → Text → Accumulator T R → Accumulator T R
  retain_route acc combined ref = elim (extract_agency_id_and_code_id combined) [
    | none ↦ ref
    | some p ↦ elim (lookup p.1 acc.routes) [
      | none ↦ ref
      | some route ↦ record ref { routes = insert p.1 route ref.routes }
    ]
  ]

  -- `retainTripStatusEntities`
  unfoldable pub retain_trip_status_entities :
      Accumulator T R → Option StatusIds → Accumulator T R → Accumulator T R
  retain_trip_status_entities acc none ref = ref
  retain_trip_status_entities acc (some status) ref =
      retain_trip acc status.active_trip_id
        (retain_stop status.closest_stop (retain_stop status.next_stop ref))

  -- the body of the loop over the arrivals
  unfoldable pub retain_arrival : Accumulator T R → ArrivalIds → Accumulator T R → Accumulator T R
  retain_arrival acc a ref =
      retain_trip_status_entities acc a.trip_status
        (retain_route acc a.route_id (retain_trip acc a.trip_id (retain_stop a.stop_id ref)))

  -- the loop over the arrivals
  unfoldable pub retain_arrivals :
      Accumulator T R → List ArrivalIds → Accumulator T R → Accumulator T R
  retain_arrivals acc [] ref = ref
  retain_arrivals acc (a ∷ others) ref = retain_arrivals acc others (retain_arrival acc a ref)

  -- the two loops over the stop lists
  unfoldable pub retain_stops : List Text → Accumulator T R → Accumulator T R
  retain_stops [] ref = ref
  retain_stops (id ∷ ids) ref = retain_stops ids (retain_stop id ref)

  -- `retainedAccumulator`
  unfoldable pub retained_accumulator :
      List ArrivalIds → List Text → List Text → Accumulator T R → Accumulator T R
  retained_accumulator arrivals stop_ids nearby acc =
      retain_arrivals acc arrivals (retain_stops nearby (retain_stops stop_ids new_accumulator))
