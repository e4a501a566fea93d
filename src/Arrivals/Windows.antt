-- ===== src/Arrivals/Windows.antt =====
-- internal/restapi/arrivals_core.go: the stop times of a stop inside the window of a request
-- (`activeStopTimesForWindow`), over yesterday, today and tomorrow in the time zone of each agency that
-- serves the stop. The queries and `time` are parameters; a cancelled request is not modelled.
pub mod Groups
pub mod Agencies
pub mod Days
pub mod Dated
pub mod Zones
pub mod Served
pub mod Undiscovered
pub mod Failures
use maglev.Prelude.{
  ℕ, Bool, true, false, ◌&&◌, ◌||◌, not, Option, none, some, List, [], ◌∷◌, ◌++◌, map, keep_if,
  Text, text_eq, text_lt, ◌==◌, is_empty, contains_text, add_text, sort_texts, Map, lookup, insert,
  if◌then◌else◌, ◌>>=◌, ℤ, pos, negsuc, lt_int, int_beq, sub_int,
}
use maglev.ServiceDates.{Date, TimePackage, add_days, start_of_date}

-- a row of `GetStopTimesForStopInWindow`; `rest` stands for the columns that are only passed on
pub record WindowRow : Type 0 where
  pub trip_id : Text
  pub arrival_time : ℤ
  pub departure_time : ℤ
  pub stop_id : Text
  pub stop_sequence : ℤ
  pub route_id : Text
  pub service_id : Text
  pub rest : ℕ

-- a row of `GetRoutesForStop`
pub record StopRoute : Type 0 where
  pub id : Text
  pub agency_id : Text

-- the answers of `GetAgency`: the time zone of the row, `sql.ErrNoRows`, or another error
pub data AgencyAnswer : Type 0 where
  found_agency : Text → AgencyAnswer
  missing_agency : AgencyAnswer
  failed_agency : AgencyAnswer

-- the queries, `none` where they fail, `time.LoadLocation`, `Location.String` and `Date.String`
pub record WindowQueries (L : Type 0) : Type 0 where
  pub routes_for_stop : Text → Option (List StopRoute)
  pub agency : Text → AgencyAnswer
  pub active_service_ids : Text → Option (List Text)
  pub stop_times_in_window : Text → ℤ → ℤ → Option (List WindowRow)
  pub load_location : Text → Option L
  pub location_name : L → Text
  pub date_string : Date → Text

-- `stopArrivalsInput`
pub record StopArrivalsInput (T L : Type 0) : Type 0 where
  pub stop_code : Text
  pub agency_id : Text
  pub location : L
  pub query_time : T
  pub before : ℤ
  pub after : ℤ
  pub route_types : List ℤ

-- `activeStopTime`
pub record ActiveStopTime (L : Type 0) : Type 0 where
  pub row : WindowRow
  pub service_date : Date
  pub location : L

-- `stopAgencyDiscovery`
pub record Discovery (L : Type 0) : Type 0 where
  pub route_agency : Map Text Text
  pub locations : Map Text L

-- `timezoneGroup`
pub record TimezoneGroup (L : Type 0) : Type 0 where
  pub location : L
  pub agencies : List Text

module _ {L : Type 0} (queries : WindowQueries L) where
  -- `resolveAgencyLocation`; the inner `none` is the nil location of a missing agency
  unfoldable pub resolve_agency_location : Text → Option (Option L)
  resolve_agency_location agency_id = elim (queries.agency agency_id) [
    | found_agency timezone ↦ elim (queries.load_location timezone) [
      | none ↦ none
      | some loc ↦ some (some loc)
    ]
    | missing_agency ↦ some none
    | failed_agency ↦ none
  ]

  -- the loop over the agencies without a location
  unfoldable pub resolve_all : Map Text (Option L) → Option (Map Text L)
  resolve_all [] = some []
  resolve_all ((agency_id, some loc) ∷ m) = resolve_all m >>= λ rest. some ((agency_id, loc) ∷ rest)
  resolve_all ((agency_id, none) ∷ m) =
      let later = resolve_all m in
      elim (resolve_agency_location agency_id) [
        | none ↦ none
        | some none ↦ later
        | some (some loc) ↦ later >>= λ rest. some ((agency_id, loc) ∷ rest)
      ]

-- `discovery.locations[r.AgencyID] = nil`, where the agency is new
unfoldable pub note_agency : {L : Type 0} → Text → Map Text (Option L) → Map Text (Option L)
note_agency agency_id m = elim (lookup agency_id m) [ some _ ↦ m | none ↦ insert agency_id none m ]

-- the two maps that the loop over the routes fills
unfoldable pub note_agencies :
    {L : Type 0} → List StopRoute → Map Text (Option L) → Map Text (Option L)
note_agencies [] m = m
note_agencies (r ∷ rs) m = note_agencies rs (note_agency r.agency_id m)

unfoldable pub note_routes : List StopRoute → Map Text Text → Map Text Text
note_routes [] m = m
note_routes (r ∷ rs) m = note_routes rs (insert r.id r.agency_id m)

module _ {T L : Type 0} (queries : WindowQueries L) where
  -- `discoverStopAgencies`, for the routes of the query
  unfoldable pub discover_from : StopArrivalsInput T L → List StopRoute → Option (Discovery L)
  discover_from input routes =
      resolve_all queries (insert input.agency_id (some input.location) (note_agencies routes []))
      >>= λ locations. some (record { route_agency = note_routes routes []; locations = locations })

  -- `discoverStopAgencies`
  unfoldable pub discover_stop_agencies : StopArrivalsInput T L → Option (Discovery L)
  discover_stop_agencies input = queries.routes_for_stop input.stop_code >>= discover_from input

module _ {L : Type 0} (location_name : L → Text) where
  -- the body of the loop of `groupAgenciesByTimezone`
  unfoldable pub add_agency : Text → L → Map Text (TimezoneGroup L) → Map Text (TimezoneGroup L)
  add_agency agency_id loc groups = elim (lookup (location_name loc) groups) [
    | none ↦
        insert (location_name loc) (record { location = loc; agencies = agency_id ∷ [] }) groups
    | some g ↦
        insert (location_name loc) (record g { agencies = add_text agency_id g.agencies }) groups
  ]

  -- `groupAgenciesByTimezone`: the groups
  unfoldable pub group_agencies_by_timezone :
      Map Text L → Map Text (TimezoneGroup L) → Map Text (TimezoneGroup L)
  group_agencies_by_timezone [] groups = groups
  group_agencies_by_timezone ((agency_id, loc) ∷ m) groups =
      group_agencies_by_timezone m (add_agency agency_id loc groups)

-- `groupAgenciesByTimezone`: the keys
unfoldable pub group_keys : {L : Type 0} → Map Text (TimezoneGroup L) → List Text
group_keys {L} groups = sort_texts (map (λ (e : Text × TimezoneGroup L). e.0) groups)

-- whether a row's route belongs to the group
unfoldable pub is_in_group :
    {L : Type 0} → Map Text Text → TimezoneGroup L → Bool → WindowRow → Bool
is_in_group route_agency group is_primary row = elim (lookup row.route_id route_agency) [
  | some agency_id ↦ contains_text agency_id group.agencies
  | none ↦ is_primary
]

-- the loop over the rows of a day
unfoldable pub active_rows :
    {L : Type 0}
    → (WindowRow → Bool)
    → List Text
    → Date
    → L
    → List WindowRow
    → List (ActiveStopTime L)
active_rows is_kept services date loc [] = []
active_rows is_kept services date loc (row ∷ rows) =
    let rest = active_rows is_kept services date loc rows in
    if is_kept row && contains_text row.service_id services
    then record { row = row; service_date = date; location = loc } ∷ rest
    else rest

module _ {T L : Type 0} (time : TimePackage T L) (queries : WindowQueries L)
    (input : StopArrivalsInput T L) where
  -- `serviceDate`, `windowStart.Sub(serviceStart)` and `endOffset`
  unfoldable pub service_day : L → ℤ → Date
  service_day loc day_offset = add_days time (time.date_in input.query_time loc) day_offset

  unfoldable pub window_start : L → ℤ → ℤ
  window_start loc day_offset =
      time.sub (time.add input.query_time (sub_int (pos 0) input.before))
        (start_of_date time (service_day loc day_offset) loc)

  unfoldable pub window_end : L → ℤ → ℤ
  window_end loc day_offset =
      time.sub (time.add input.query_time input.after)
        (start_of_date time (service_day loc day_offset) loc)

  -- the part of `stopTimesForGroupServiceDay` after the query of the services
  unfoldable pub stop_times_of_services :
      Map Text Text → TimezoneGroup L → Bool → ℤ → List Text → List (ActiveStopTime L)
  stop_times_of_services route_agency group is_primary day_offset [] = []
  stop_times_of_services route_agency group is_primary day_offset (s ∷ services) =
      if lt_int (window_end group.location day_offset) (pos 0)
      then []
      else elim (queries.stop_times_in_window input.stop_code
          (window_start group.location day_offset) (window_end group.location day_offset)) [
            | none ↦ []
            | some rows ↦
                active_rows (is_in_group route_agency group is_primary) (s ∷ services)
                  (service_day group.location day_offset) group.location rows
          ]

  -- `stopTimesForGroupServiceDay`
  unfoldable pub stop_times_for_group_service_day :
      Map Text Text → TimezoneGroup L → Bool → ℤ → Option (List (ActiveStopTime L))
  stop_times_for_group_service_day route_agency group is_primary day_offset =
      queries.active_service_ids (queries.date_string (service_day group.location day_offset))
      >>= λ services.
          some (stop_times_of_services route_agency group is_primary day_offset services)

  -- the loop of `collectGroupWindow`: a failure is fatal on the day itself only
  unfoldable pub collect_days :
      Map Text Text → TimezoneGroup L → Bool → List ℤ → Option (List (ActiveStopTime L))
  collect_days route_agency group is_primary [] = some []
  collect_days route_agency group is_primary (day ∷ days) =
      let later = collect_days route_agency group is_primary days in
      elim (stop_times_for_group_service_day route_agency group is_primary day) [
        | none ↦ if int_beq day (pos 0) then none else later
        | some rows ↦ later >>= λ rest. some (rows ++ rest)
      ]

  -- `collectGroupWindow`
  unfoldable pub collect_group_window :
      Map Text Text → TimezoneGroup L → Bool → Option (List (ActiveStopTime L))
  collect_group_window route_agency group is_primary =
      collect_days route_agency group is_primary (negsuc 0 ∷ pos 0 ∷ pos 1 ∷ [])

  -- the loop over the groups; each of `groupKeys` is a key of the groups
  unfoldable pub collect_groups :
      Map Text Text → Map Text (TimezoneGroup L) → List Text → Option (List (ActiveStopTime L))
  collect_groups route_agency groups [] = some []
  collect_groups route_agency groups (key ∷ keys) =
      let later = collect_groups route_agency groups keys in
      elim (lookup key groups) [
        | none ↦ later
        | some group ↦
            collect_group_window route_agency group (key == queries.location_name input.location)
            >>= λ rows. later >>= λ rest. some (rows ++ rest)
      ]

-- `slices.SortStableFunc`
pub record StableSort : Type 1 where
  pub sort_stable : {A : Type 0} → (A → A → ℤ) → List A → List A

-- `cmp.Compare` of integers and of strings
unfoldable pub compare_int : ℤ → ℤ → ℤ
compare_int a b = if lt_int a b then negsuc 0 else if lt_int b a then pos 1 else pos 0

unfoldable pub compare_text : Text → Text → ℤ
compare_text a b = if text_lt a b then negsuc 0 else if text_lt b a then pos 1 else pos 0

-- `if c := …; c != 0 { return c }`
unfoldable pub unless_zero : ℤ → ℤ → ℤ
unless_zero c d = if int_beq c (pos 0) then d else c

module _ {T L : Type 0} (time : TimePackage T L) where
  -- `timeA`
  unfoldable pub scheduled_time : ActiveStopTime L → T
  scheduled_time a = time.add (start_of_date time a.service_date a.location) (a.row).arrival_time

  -- the comparison of `activeStopTimesForWindow`
  unfoldable pub compare_active : ActiveStopTime L → ActiveStopTime L → ℤ
  compare_active a b =
      unless_zero (compare_int (time.sub (scheduled_time a) (scheduled_time b)) (pos 0)) (
        unless_zero (compare_text (a.row).trip_id (b.row).trip_id)
          (compare_int (a.row).stop_sequence (b.row).stop_sequence))

  -- `activeStopTimesForWindow`, for what `discoverStopAgencies` finds
  unfoldable pub active_stop_times_of :
      StableSort
      → WindowQueries L
      → StopArrivalsInput T L
      → Discovery L
      → Option (List (ActiveStopTime L))
  active_stop_times_of sort queries input d =
      let groups = group_agencies_by_timezone queries.location_name d.locations [] in
      collect_groups time queries input d.route_agency groups (group_keys groups) >>= λ rows.
      some (sort.sort_stable compare_active rows)

  -- `activeStopTimesForWindow`
  unfoldable pub active_stop_times_for_window :
      StableSort → WindowQueries L → StopArrivalsInput T L → Option (List (ActiveStopTime L))
  active_stop_times_for_window sort queries input =
      discover_stop_agencies queries input >>= active_stop_times_of sort queries input
