-- ===== src/Realtime/Merge/Duplicated.antt =====
-- Under which route the merged view lists a vehicle, by the fields of its trip and the trip updates.
use maglev.Prelude.{
  Bool, true, false, ◌&&◌, not, Option, none, some, List, [], ◌∷◌, Text, text_eq, is_empty, lookup,
  get_elem?, if◌then◌else◌, ◌==◌, ◌≡◌, refl, arith, Bool-cases, Option-cases, inl, inr,
}
use maglev.Realtime.Types.{Trip, Vehicle}
use maglev.Realtime.Merge.{
  trip_id_of_update, trip_positions, duplicated_route, duplicated_route_of, vehicle_route_id,
}
use maglev.Realtime.Merge.Positions.{last_match, positions_cases}

-- the route of the last trip update with an ID
abbrev pub last_route : List Trip → Text → Option Text
last_route [] id = none
last_route (u ∷ us) id = elim (last_route us id) [
  | some route ↦ some route
  | none ↦ if u.trip_id.id == id then some u.trip_id.route_id else none
]

-- the route of a trip, or the route of its update where it has an ID and no route
abbrev pub route_or_updated : List Trip → Trip → Text
route_or_updated trips t =
    if is_empty t.trip_id.route_id && not (is_empty t.trip_id.id)
    then (elim (last_route trips t.trip_id.id) [ some route ↦ route | none ↦ [] ])
    else t.trip_id.route_id

-- the vehicle has a trip with the route, which is not ""
abbrev pub is_under : Text → Vehicle → Bool
is_under route v = elim v.trip [
  | none ↦ false
  | some t ↦ not (is_empty t.trip_id.route_id) && t.trip_id.route_id == route
]

-- the vehicle has a DUPLICATED trip of the route, which is not ""
abbrev pub is_duplicated_under : List Trip → Text → Vehicle → Bool
is_duplicated_under trips route v = elim v.trip [
  | none ↦ false
  | some t ↦
      t.trip_id.duplicated
      && (not (is_empty (route_or_updated trips t)) && route_or_updated trips t == route)
]

last_route-match :
    (id : Text) (full : is_empty id ≡ false) (us : List Trip)
    → last_route us id ≡ elim (last_match trip_id_of_update id full us) [
      | none ↦ none
      | some u ↦ some u.trip_id.route_id
    ]
unfolding last_match
last_route-match id full [] = refl
last_route-match id full (u ∷ us) = ground (arith, last_route-match id full us)

empty_route : (route : Text) → is_empty route ≡ true → route ≡ []
empty_route [] e = refl
empty_route (c ∷ cs) e = absurd (cc e)

read_route :
    (trips : List Trip) (id own : Text)
    → is_empty id ≡ false
    → is_empty own ≡ true
    → elim (lookup id (trip_positions trips)) [
      | none ↦ own
      | some i ↦ elim (get_elem? trips i) [ none ↦ own | some u ↦ u.trip_id.route_id ]
    ]
      ≡ elim (last_route trips id) [ some route ↦ route | none ↦ [] ]
unfolding trip_positions lookup
read_route trips id own full e = elim (positions_cases trip_id_of_update id full 0 trips []) [
  | inl (n, p) ↦ ground (arith, n, p, last_route-match id full trips, empty_route own e)
  | inr (x, j, l, g, p) ↦ ground (arith, l, g, p, last_route-match id full trips)
]

duplicated_route-updated :
    (trips : List Trip) (t : Trip)
    → duplicated_route trips (trip_positions trips) t ≡ route_or_updated trips t
unfolding duplicated_route
duplicated_route-updated trips t =
    elim (Bool-cases (is_empty t.trip_id.route_id && not (is_empty t.trip_id.id))) [
      | inr e ↦ rw e refl
      | inl e ↦
          rw e (
            read_route trips t.trip_id.id t.trip_id.route_id (ground (arith, e))
              (ground (arith, e)))
    ]

-- an element is selected by its key where that is not "" and is the given one
abbrev pub selected : Text → Text → Bool
selected key route = not (is_empty key) && key == route

pub selected-is_under :
    (route : Text) (v : Vehicle) → selected (vehicle_route_id v) route ≡ is_under route v
unfolding vehicle_route_id
selected-is_under route v = elim (Option-cases v.trip) [
  | inl e ↦ ground (arith, e)
  | inr (t, e) ↦ ground (arith, e)
]

pub selected-is_duplicated_under :
    (trips : List Trip) (route : Text) (v : Vehicle)
    → selected (duplicated_route_of trips (trip_positions trips) v) route
      ≡ is_duplicated_under trips route v
unfolding duplicated_route_of
selected-is_duplicated_under trips route v = elim (Option-cases v.trip) [
  | inl e ↦ ground (arith, e)
  | inr (t, e) ↦ ground (arith, e, duplicated_route-updated trips t)
]
