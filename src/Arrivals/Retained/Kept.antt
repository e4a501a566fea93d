-- ===== src/Arrivals/Retained/Kept.antt =====
-- What `retainedAccumulator` keeps.
use maglev.Prelude.{
  Bool, false, ◌||◌, Option, none, some, List, [], ◌∷◌, Text, text_eq, lookup, contains_text,
  if◌then◌else◌, ◌≡◌, refl, ◌∙◌, ap, arith,
}
use maglev.Arrivals.Retained.{
  StatusIds, ArrivalIds, Accumulator, new_accumulator, retain_stop, retain_trip, retain_route,
  retain_trip_status_entities, retain_arrival, retain_arrivals, retain_stops, retained_accumulator,
}
use maglev.Arrivals.Retained.Needed.{
  names, any_names, emits_stop, emits_trip, any_arrival, HoldsTrip, HoldsRoute,
  contains-retain_arrivals, contains-retain_stops, retain_trip-HoldsTrip, retain_route-HoldsRoute,
}

module _ {T R : Type 0} where
  retain_stop_entities :
      (combined : Text) (ref : Accumulator T R)
      → ((retain_stop combined ref).trips ≡ ref.trips)
        × ((retain_stop combined ref).routes ≡ ref.routes)
  unfolding retain_stop
  retain_stop_entities combined ref = ground arith

  retain_stops_entities :
      (ids : List Text) (ref : Accumulator T R)
      → ((retain_stops ids ref).trips ≡ ref.trips) × ((retain_stops ids ref).routes ≡ ref.routes)
  unfolding retain_stops
  retain_stops_entities [] ref = (refl, refl)
  retain_stops_entities (id ∷ ids) ref =
      let (t, r) = retain_stops_entities ids (retain_stop id ref) in
      let (u, s) = retain_stop_entities id ref in (t ∙ u, r ∙ s)

  trips-retain_route :
      (acc : Accumulator T R) (combined : Text) (ref : Accumulator T R)
      → (retain_route acc combined ref).trips ≡ ref.trips
  unfolding retain_route
  trips-retain_route acc combined ref = ground arith

  routes-retain_trip :
      (acc : Accumulator T R) (combined : Text) (ref : Accumulator T R)
      → (retain_trip acc combined ref).routes ≡ ref.routes
  unfolding retain_trip
  routes-retain_trip acc combined ref = ground arith

module _ {T R : Type 0} (bare : Text) where
  retain_status-HoldsTrip :
      (acc : Accumulator T R) (status : Option StatusIds) (ref : Accumulator T R) (p : Bool)
      → HoldsTrip bare acc ref p
      → HoldsTrip bare acc
          (retain_trip_status_entities acc status ref)
          (elim status [ none ↦ false | some s ↦ names bare s.active_trip_id ] || p)
  unfolding retain_trip_status_entities
  retain_status-HoldsTrip acc none ref p h = h
  retain_status-HoldsTrip acc (some s) ref p h =
      let next = retain_stop s.next_stop ref in
      retain_trip-HoldsTrip bare acc s.active_trip_id (retain_stop s.closest_stop next) p (
        ap (lookup bare)
          ((retain_stop_entities s.closest_stop next).0 ∙ (retain_stop_entities s.next_stop ref).0)
        ∙ h)

  retain_status-HoldsRoute :
      (acc : Accumulator T R) (status : Option StatusIds) (ref : Accumulator T R) (p : Bool)
      → HoldsRoute bare acc ref p
      → HoldsRoute bare acc (retain_trip_status_entities acc status ref) p
  unfolding retain_trip_status_entities
  retain_status-HoldsRoute acc none ref p h = h
  retain_status-HoldsRoute acc (some s) ref p h =
      let next = retain_stop s.next_stop ref in
      ap (lookup bare) (
        routes-retain_trip acc s.active_trip_id (retain_stop s.closest_stop next)
        ∙ (retain_stop_entities s.closest_stop next).1
        ∙ (retain_stop_entities s.next_stop ref).1)
      ∙ h

  retain_arrival-HoldsTrip :
      (acc : Accumulator T R) (a : ArrivalIds) (ref : Accumulator T R) (p : Bool)
      → HoldsTrip bare acc ref p
      → HoldsTrip bare acc (retain_arrival acc a ref) (emits_trip bare a || p)
  unfolding retain_arrival
  retain_arrival-HoldsTrip acc a ref p h =
      let stopped = retain_stop a.stop_id ref in
      let tripped = retain_trip acc a.trip_id stopped in
      let trip =
        retain_trip-HoldsTrip bare acc a.trip_id stopped p
          (ap (lookup bare) (retain_stop_entities a.stop_id ref).0 ∙ h) in
      let routed : HoldsTrip bare acc (retain_route acc a.route_id tripped)
          (names bare a.trip_id || p) =
        ap (lookup bare) (trips-retain_route acc a.route_id tripped) ∙ trip in
      let held =
        retain_status-HoldsTrip acc a.trip_status (retain_route acc a.route_id tripped)
          (names bare a.trip_id || p) routed in
      held ∙ ground arith

  retain_arrival-HoldsRoute :
      (acc : Accumulator T R) (a : ArrivalIds) (ref : Accumulator T R) (p : Bool)
      → HoldsRoute bare acc ref p
      → HoldsRoute bare acc (retain_arrival acc a ref) (names bare a.route_id || p)
  unfolding retain_arrival
  retain_arrival-HoldsRoute acc a ref p h =
      let stopped = retain_stop a.stop_id ref in
      let tripped = retain_trip acc a.trip_id stopped in
      retain_status-HoldsRoute acc a.trip_status (retain_route acc a.route_id tripped)
        (names bare a.route_id || p)
        (retain_route-HoldsRoute bare acc a.route_id tripped p (
          ap (lookup bare)
            (routes-retain_trip acc a.trip_id stopped ∙ (retain_stop_entities a.stop_id ref).1)
          ∙ h))

  retain_arrivals-HoldsTrip :
      (acc : Accumulator T R) (arrivals : List ArrivalIds) (ref : Accumulator T R) (p : Bool)
      → HoldsTrip bare acc ref p
      → HoldsTrip bare acc
          (retain_arrivals acc arrivals ref)
          (any_arrival (emits_trip bare) arrivals || p)
  unfolding retain_arrivals
  retain_arrivals-HoldsTrip acc [] ref p h = h
  retain_arrivals-HoldsTrip acc (a ∷ others) ref p h =
      retain_arrivals-HoldsTrip acc others (retain_arrival acc a ref) (emits_trip bare a || p)
        (retain_arrival-HoldsTrip acc a ref p h)
      ∙ ground arith

  retain_arrivals-HoldsRoute :
      (acc : Accumulator T R) (arrivals : List ArrivalIds) (ref : Accumulator T R) (p : Bool)
      → HoldsRoute bare acc ref p
      → HoldsRoute bare acc
          (retain_arrivals acc arrivals ref)
          (any_arrival (λ (a : ArrivalIds). names bare a.route_id) arrivals || p)
  unfolding retain_arrivals
  retain_arrivals-HoldsRoute acc [] ref p h = h
  retain_arrivals-HoldsRoute acc (a ∷ others) ref p h =
      retain_arrivals-HoldsRoute acc others (retain_arrival acc a ref) (names bare a.route_id || p)
        (retain_arrival-HoldsRoute acc a ref p h)
      ∙ ground arith

  -- For any accumulator and any code ID, `retainedAccumulator` lists the stop exactly if a kept stop, a
  -- nearby stop or a kept arrival names it, with the stops of the arrival's trip status, and has the
  -- accumulator's trip or route of that ID exactly if a kept arrival names it, with the active trip.
  pub retained_accumulator_lem :
      (arrivals : List ArrivalIds) (stop_ids nearby : List Text) (acc : Accumulator T R)
      → (contains_text bare (retained_accumulator arrivals stop_ids nearby acc).stop_ids ≡ (
          any_arrival (emits_stop bare) arrivals
          || (any_names bare nearby || any_names bare stop_ids)))
        × (lookup bare (retained_accumulator arrivals stop_ids nearby acc).trips
            ≡ (if any_arrival (emits_trip bare) arrivals then lookup bare acc.trips else none))
        × (lookup bare (retained_accumulator arrivals stop_ids nearby acc).routes ≡ (
            if any_arrival (λ (a : ArrivalIds). names bare a.route_id) arrivals
            then lookup bare acc.routes
            else none))
  unfolding retained_accumulator contains_text lookup
  retained_accumulator_lem arrivals stop_ids nearby acc =
      let first = retain_stops stop_ids new_accumulator in
      let start = retain_stops nearby first in
      let empty = retain_stops_entities stop_ids new_accumulator in
      let filled = retain_stops_entities nearby first in
      (
        contains-retain_arrivals bare acc arrivals start
            ∙ ground (
              arith,
              contains-retain_stops {T = T} {R = R} bare nearby first,
              contains-retain_stops {T = T} {R = R} bare stop_ids new_accumulator,
            ),
        retain_arrivals-HoldsTrip acc arrivals start false (ap (lookup bare) (filled.0 ∙ empty.0))
            ∙ ground arith,
        retain_arrivals-HoldsRoute acc arrivals start false (ap (lookup bare) (filled.1 ∙ empty.1))
            ∙ ground arith,
      )
