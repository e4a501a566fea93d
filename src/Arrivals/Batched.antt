-- ===== src/Arrivals/Batched.antt =====
-- internal/restapi/arrivals_core.go: the stop times of many stops inside the window of a request
-- (`loadBatchedStopTimes`), by the agencies of the stops, with the active services of a date read once
-- for the whole request. `stopAgencyIndex` is that of arrivals_and_departures_for_location_handler.go.
pub mod Memo
use maglev.Prelude.{
  ℕ, Bool, true, false, Option, none, some, List, [], ◌∷◌, ◌++◌, Text, text_eq, ◌==◌, is_empty,
  contains_text, Map, lookup, insert, if◌then◌else◌, ◌>>=◌, ℤ, pos, negsuc, lt_int, int_beq,
  sub_int,
}
use maglev.ServiceDates.{Date, TimePackage, add_days, start_of_date}
use maglev.Arrivals.Windows.{WindowRow}

-- `stopAgencyIndex`
pub record StopAgencyIndex (L : Type 0) : Type 0 where
  pub by_stop_id : Map Text Text
  pub locations : Map Text L
  pub fallback_agency_id : Text
  pub fallback_location : L

-- `agencyIDFor`
unfoldable pub agency_id_for : {L : Type 0} → StopAgencyIndex L → Text → Text
agency_id_for index stop_id = elim (lookup stop_id index.by_stop_id) [
  | none ↦ index.fallback_agency_id
  | some agency_id ↦ if is_empty agency_id then index.fallback_agency_id else agency_id
]

-- `locationFor`
unfoldable pub location_for : {L : Type 0} → StopAgencyIndex L → Text → L
location_for index stop_id = elim (lookup (agency_id_for index stop_id) index.locations) [
  | none ↦ index.fallback_location
  | some loc ↦ loc
]

-- `agencyGroup`; its query time is that of the request, in the group's location
pub record AgencyGroup (L : Type 0) : Type 0 where
  pub agency_id : Text
  pub location : L
  pub stop_ids : List Text

-- the body of the loop of `groupStopsByAgency`; its map of the groups' places is a search for the agency
unfoldable pub add_stop :
    {L : Type 0} → Text → L → Text → List (AgencyGroup L) → List (AgencyGroup L)
add_stop agency_id loc stop_id [] =
    record { agency_id = agency_id; location = loc; stop_ids = stop_id ∷ [] } ∷ []
add_stop agency_id loc stop_id (g ∷ gs) =
    if g.agency_id == agency_id
    then record g { stop_ids = g.stop_ids ++ (stop_id ∷ []) } ∷ gs
    else g ∷ add_stop agency_id loc stop_id gs

-- `groupStopsByAgency`, over the IDs of the stops
unfoldable pub group_stops_by_agency :
    {L : Type 0} → StopAgencyIndex L → List Text → List (AgencyGroup L) → List (AgencyGroup L)
group_stops_by_agency index [] groups = groups
group_stops_by_agency index (s ∷ ss) groups =
    group_stops_by_agency index ss
      (add_stop (agency_id_for index s) (location_for index s) s groups)

-- `multiStopArrivalsInput`, the fields that select the stop times
pub record MultiStopInput (T : Type 0) : Type 0 where
  pub query_time : T
  pub before : ℤ
  pub after : ℤ

-- the queries, `none` where they fail, and `Date.String`
pub record BatchQueries : Type 0 where
  pub active_service_ids : Text → Option (List Text)
  pub stop_times_in_window : List Text → ℤ → ℤ → Option (List WindowRow)
  pub date_string : Date → Text

-- `batchedActiveStopTime`; its stop code is the row's
pub record BatchedStopTime (L : Type 0) : Type 0 where
  pub row : WindowRow
  pub service_date : Date
  pub agency_id : Text
  pub location : L

-- `activeByDate`: the set of the services of a date
abbrev pub ActiveByDate : Type 0
ActiveByDate = Map Text (List Text)

-- the loop over the rows of a day
unfoldable pub batched_rows :
    {L : Type 0} → AgencyGroup L → Date → List Text → List WindowRow → List (BatchedStopTime L)
batched_rows group date services [] = []
batched_rows group date services (row ∷ rows) =
    let rest = batched_rows group date services rows in
    if contains_text row.service_id services
    then record {
      row = row;
      service_date = date;
      agency_id = group.agency_id;
      location = group.location;
    }
      ∷ rest
    else rest

module _ (queries : BatchQueries) where
  -- `activeServicesForDate`: `none` is the fatal error, an inner `none` the nil map
  unfoldable pub active_services_for_date :
      Text → ℤ → ActiveByDate → Option (Option (List Text) × ActiveByDate)
  active_services_for_date date day_offset by_date = elim (lookup date by_date) [
    | some services ↦ some (some services, by_date)
    | none ↦ elim (queries.active_service_ids date) [
      | none ↦ if int_beq day_offset (pos 0) then none else some (none, by_date)
      | some services ↦ some (some services, insert date services by_date)
    ]
  ]

module _ {T L : Type 0} (time : TimePackage T L) (input : MultiStopInput T) where
  unfoldable pub batched_day : AgencyGroup L → ℤ → Date
  batched_day group day_offset =
      add_days time (time.date_in input.query_time group.location) day_offset

  unfoldable pub batched_start : AgencyGroup L → ℤ → ℤ
  batched_start group day_offset =
      time.sub (time.add input.query_time (sub_int (pos 0) input.before))
        (start_of_date time (batched_day group day_offset) group.location)

  unfoldable pub batched_end : AgencyGroup L → ℤ → ℤ
  batched_end group day_offset =
      time.sub (time.add input.query_time input.after)
        (start_of_date time (batched_day group day_offset) group.location)

module _ {T L : Type 0} (time : TimePackage T L) (queries : BatchQueries)
    (input : MultiStopInput T) where
  -- the part of `appendBatchedStopTimesForDay` after the services are known
  unfoldable pub batched_stop_times :
      AgencyGroup L → ℤ → Option (List Text) → List (BatchedStopTime L)
  batched_stop_times group day_offset none = []
  batched_stop_times group day_offset (some []) = []
  batched_stop_times group day_offset (some (s ∷ services)) =
      if lt_int (batched_end time input group day_offset) (pos 0)
      then []
      else elim (queries.stop_times_in_window group.stop_ids
          (batched_start time input group day_offset) (batched_end time input group day_offset)) [
            | none ↦ []
            | some rows ↦
                batched_rows group (batched_day time input group day_offset) (s ∷ services) rows
          ]

  -- `appendBatchedStopTimesForDay`
  unfoldable pub append_batched_stop_times_for_day :
      AgencyGroup L
      → ℤ
      → List (BatchedStopTime L) × ActiveByDate
      → Option (List (BatchedStopTime L) × ActiveByDate)
  append_batched_stop_times_for_day group day_offset (all_active, by_date) =
      active_services_for_date queries
        (queries.date_string (batched_day time input group day_offset)) day_offset by_date
      >>= λ r. some (all_active ++ batched_stop_times group day_offset r.0, r.1)

  -- the inner loop of `loadBatchedStopTimes`
  unfoldable pub append_days :
      AgencyGroup L
      → List ℤ
      → List (BatchedStopTime L) × ActiveByDate
      → Option (List (BatchedStopTime L) × ActiveByDate)
  append_days group [] state = some state
  append_days group (day ∷ days) state =
      append_batched_stop_times_for_day group day state >>= append_days group days

  -- the outer loop
  unfoldable pub append_groups :
      List (AgencyGroup L)
      → List (BatchedStopTime L) × ActiveByDate
      → Option (List (BatchedStopTime L) × ActiveByDate)
  append_groups [] state = some state
  append_groups (g ∷ gs) state =
      append_days g (negsuc 0 ∷ pos 0 ∷ pos 1 ∷ []) state >>= append_groups gs

  -- `loadBatchedStopTimes`, with the empty map that `arrivalsForStops` makes
  unfoldable pub load_batched_stop_times : List (AgencyGroup L) → Option (List (BatchedStopTime L))
  load_batched_stop_times groups = append_groups groups ([], []) >>= λ r. some r.0
