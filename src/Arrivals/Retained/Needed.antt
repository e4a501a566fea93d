-- ===== src/Arrivals/Retained/Needed.antt =====
-- What each step of `retainedAccumulator` keeps.
use maglev.Prelude.{
  Bool, false, ◌||◌, Option, none, some, List, [], ◌∷◌, Text, text_eq, ◌==◌, lookup, lookup-insert,
  contains_text, contains_text-add_text, if◌then◌else◌, ◌≡◌, refl, ◌∙◌, ap, arith, inl, inr,
  Option-cases,
}
use maglev.Ids.{extract_agency_id_and_code_id}
use maglev.Arrivals.Retained.{
  StatusIds, ArrivalIds, Accumulator, retain_stop, retain_trip, retain_route,
  retain_trip_status_entities, retain_arrival, retain_arrivals, retain_stops,
}

-- the combined ID has the code ID `bare`
abbrev pub names : Text → Text → Bool
names bare combined = elim (extract_agency_id_and_code_id combined) [
  | none ↦ false
  | some p ↦ p.1 == bare
]

abbrev pub any_names : Text → List Text → Bool
any_names bare [] = false
any_names bare (id ∷ ids) = let later = any_names bare ids in names bare id || later

-- the arrival emits the ID of the stop, the trip or the route
abbrev pub emits_stop : Text → ArrivalIds → Bool
emits_stop bare a = names bare a.stop_id || elim a.trip_status [
  | none ↦ false
  | some s ↦ names bare s.next_stop || names bare s.closest_stop
]

abbrev pub emits_trip : Text → ArrivalIds → Bool
emits_trip bare a =
    names bare a.trip_id
    || elim a.trip_status [ none ↦ false | some s ↦ names bare s.active_trip_id ]

abbrev pub any_arrival : (ArrivalIds → Bool) → List ArrivalIds → Bool
any_arrival p [] = false
any_arrival p (a ∷ others) = let later = any_arrival p others in p a || later

module _ {T R : Type 0} (bare : Text) where
  -- a step adds the stop if the ID names it
  contains-retain_stop :
      (combined : Text) (ref : Accumulator T R)
      → contains_text bare (retain_stop combined ref).stop_ids
        ≡ (names bare combined || contains_text bare ref.stop_ids)
  unfolding retain_stop
  contains-retain_stop combined ref = elim (Option-cases (extract_agency_id_and_code_id combined)) [
    | inl e ↦ rw (e, retain_stop, names) refl
    | inr (p, e) ↦ rw (e, retain_stop, names) (contains_text-add_text bare p.1 ref.stop_ids)
  ]

  stops-retain_trip :
      (acc : Accumulator T R) (combined : Text) (ref : Accumulator T R)
      → (retain_trip acc combined ref).stop_ids ≡ ref.stop_ids
  unfolding retain_trip
  stops-retain_trip acc combined ref = ground arith

  stops-retain_route :
      (acc : Accumulator T R) (combined : Text) (ref : Accumulator T R)
      → (retain_route acc combined ref).stop_ids ≡ ref.stop_ids
  unfolding retain_route
  stops-retain_route acc combined ref = ground arith

  contains-retain_status :
      (acc : Accumulator T R) (status : Option StatusIds) (ref : Accumulator T R)
      → contains_text bare (retain_trip_status_entities acc status ref).stop_ids ≡ (
          elim status [
            | none ↦ false
            | some s ↦ names bare s.next_stop || names bare s.closest_stop
          ]
          || contains_text bare ref.stop_ids)
  unfolding retain_trip_status_entities
  contains-retain_status acc none ref = refl
  contains-retain_status acc (some s) ref =
      ap (contains_text bare) (
        stops-retain_trip acc s.active_trip_id
          (retain_stop s.closest_stop (retain_stop s.next_stop ref)))
      ∙ contains-retain_stop s.closest_stop (retain_stop s.next_stop ref)
      ∙ ground (arith, contains-retain_stop s.next_stop ref)

  contains-retain_arrival :
      (acc : Accumulator T R) (a : ArrivalIds) (ref : Accumulator T R)
      → contains_text bare (retain_arrival acc a ref).stop_ids
        ≡ (emits_stop bare a || contains_text bare ref.stop_ids)
  unfolding retain_arrival
  contains-retain_arrival acc a ref =
      let stopped = retain_stop a.stop_id ref in
      let tripped = retain_trip acc a.trip_id stopped in
      contains-retain_status acc a.trip_status (retain_route acc a.route_id tripped)
      ∙ ground (
        arith,
        stops-retain_route acc a.route_id tripped,
        stops-retain_trip acc a.trip_id stopped,
        contains-retain_stop a.stop_id ref,
      )

  pub contains-retain_arrivals :
      (acc : Accumulator T R) (arrivals : List ArrivalIds) (ref : Accumulator T R)
      → contains_text bare (retain_arrivals acc arrivals ref).stop_ids
        ≡ (any_arrival (emits_stop bare) arrivals || contains_text bare ref.stop_ids)
  unfolding retain_arrivals
  contains-retain_arrivals acc [] ref = refl
  contains-retain_arrivals acc (a ∷ others) ref =
      contains-retain_arrivals acc others (retain_arrival acc a ref)
      ∙ ground (arith, contains-retain_arrival acc a ref)

  pub contains-retain_stops :
      (ids : List Text) (ref : Accumulator T R)
      → contains_text bare (retain_stops ids ref).stop_ids
        ≡ (any_names bare ids || contains_text bare ref.stop_ids)
  unfolding retain_stops
  contains-retain_stops [] ref = refl
  contains-retain_stops (id ∷ ids) ref =
      contains-retain_stops ids (retain_stop id ref) ∙ ground (arith, contains-retain_stop id ref)

  -- the trip `bare` is that of `acc` where `p` holds, and else it is missing
  abbrev pub HoldsTrip : Accumulator T R → Accumulator T R → Bool → Type 0
  HoldsTrip acc ref p = lookup bare ref.trips ≡ (if p then lookup bare acc.trips else none)

  abbrev pub HoldsRoute : Accumulator T R → Accumulator T R → Bool → Type 0
  HoldsRoute acc ref p = lookup bare ref.routes ≡ (if p then lookup bare acc.routes else none)

  pub retain_trip-HoldsTrip :
      (acc : Accumulator T R) (combined : Text) (ref : Accumulator T R) (p : Bool)
      → HoldsTrip acc ref p
      → HoldsTrip acc (retain_trip acc combined ref) (names bare combined || p)
  unfolding retain_trip
  retain_trip-HoldsTrip acc combined ref p h =
      elim (Option-cases (extract_agency_id_and_code_id combined)) [
        | inl e ↦ rw (e, retain_trip, names) h
        | inr (q, e) ↦ elim (Option-cases (lookup q.1 acc.trips)) [
          | inl l ↦ rw (e, retain_trip, names, l) (ground (arith, h, l, text_eq.beq_iff q.1 bare))
          | inr (trip, l) ↦
              rw (e, retain_trip, names, l)
                (ground (
                  arith,
                  h,
                  l,
                  text_eq.beq_iff q.1 bare,
                  lookup-insert {V = T} q.1 bare trip ref.trips,
                ))
        ]
      ]

  pub retain_route-HoldsRoute :
      (acc : Accumulator T R) (combined : Text) (ref : Accumulator T R) (p : Bool)
      → HoldsRoute acc ref p
      → HoldsRoute acc (retain_route acc combined ref) (names bare combined || p)
  unfolding retain_route
  retain_route-HoldsRoute acc combined ref p h =
      elim (Option-cases (extract_agency_id_and_code_id combined)) [
        | inl e ↦ rw (e, retain_route, names) h
        | inr (q, e) ↦ elim (Option-cases (lookup q.1 acc.routes)) [
          | inl l ↦ rw (e, retain_route, names, l) (ground (arith, h, l, text_eq.beq_iff q.1 bare))
          | inr (route, l) ↦
              rw (e, retain_route, names, l)
                (ground (
                  arith,
                  h,
                  l,
                  text_eq.beq_iff q.1 bare,
                  lookup-insert {V = R} q.1 bare route ref.routes,
                ))
        ]
      ]
