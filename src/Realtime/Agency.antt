-- ===== src/Realtime/Agency.antt =====
-- internal/gtfs/realtime.go, the agency filter: which records of a poll belong to the agencies
-- that a feed is configured for. The database is an argument: a query returns its rows, or `none`
-- for an error; a nil `GtfsDB` is `none`.
pub mod Routes
pub mod Filters
use maglev.Prelude.{
  ℕ, Bool, true, false, ◌&&◌, ◌||◌, Option, none, some, List, [], ◌∷◌, ◌++◌, ◌>>=◌, Text, text_eq,
  is_empty, Map, lookup, insert, get_or, contains_text, add_text, sort_texts, keep_if, not,
  if◌then◌else◌,
}
use maglev.Batches.{Outcome, done, query_in_batches}
use maglev.Realtime.Types.{TripId, Trip, Vehicle, InformedEntity, Alert}

-- the columns that are read of `gtfsdb.Route` and `gtfsdb.Trip`
pub record RouteRow : Type 0 where
  pub id : Text
  pub agency_id : Text

pub record TripRow : Type 0 where
  pub id : Text
  pub route_id : Text

pub record Db : Type 0 where
  pub get_routes_by_ids : List Text → Option (List RouteRow)
  pub get_trips_by_ids : List Text → Option (List TripRow)

abbrev add_non_empty : Text → List Text → List Text
add_non_empty t set = if is_empty t then set else add_text t set

-- `collectTripRouteIDs`
unfoldable pub collect_trip_route_ids : List Text → List Trip → List Text
collect_trip_route_ids set [] = set
collect_trip_route_ids set (t ∷ ts) =
    collect_trip_route_ids (add_non_empty t.trip_id.route_id set) ts

-- `collectVehicleRouteIDs`
unfoldable pub vehicle_route_id : Vehicle → Text
vehicle_route_id v = elim v.trip [ none ↦ [] | some t ↦ t.trip_id.route_id ]

unfoldable pub collect_vehicle_route_ids : List Text → List Vehicle → List Text
collect_vehicle_route_ids set [] = set
collect_vehicle_route_ids set (v ∷ vs) =
    collect_vehicle_route_ids (add_non_empty (vehicle_route_id v) set) vs

-- `collectAlertRouteIDs`
unfoldable pub collect_entity_route_ids : List Text → List InformedEntity → List Text
collect_entity_route_ids set [] = set
collect_entity_route_ids set (e ∷ es) =
    let with_route : List Text = elim e.route_id [ none ↦ set | some r ↦ add_non_empty r set ] in
    let with_trip : List Text = elim e.trip_id [
      | none ↦ with_route
      | some t ↦ add_non_empty t.route_id with_route
    ] in
    collect_entity_route_ids with_trip es

unfoldable pub collect_alert_route_ids : List Text → List Alert → List Text
collect_alert_route_ids set [] = set
collect_alert_route_ids set (a ∷ alerts) =
    collect_alert_route_ids (collect_entity_route_ids set a.informed_entities) alerts

-- `collectRealtimeRouteIDs`: `none` is data that is nil or came with an error
unfoldable pub collect_realtime_route_ids :
    Option (List Trip) → Option (List Vehicle) → Option (List Alert) → List Text
collect_realtime_route_ids trips vehicles alerts =
    let s : List Text = elim trips [ none ↦ [] | some ts ↦ collect_trip_route_ids [] ts ] in
    let s' : List Text = elim vehicles [ none ↦ s | some vs ↦ collect_vehicle_route_ids s vs ] in
    elim alerts [ none ↦ s' | some found ↦ collect_alert_route_ids s' found ]

-- the rows of a batched query; running out of fuel does not happen (`Batches.Results`)
abbrev rows : {A : Type 0} → Outcome A → Option (List A)
rows (done xs) = some xs
rows _ = none

unfoldable pub agency_map : List RouteRow → Map Text Text → Map Text Text
agency_map [] m = m
agency_map (r ∷ rs) m = agency_map rs (insert r.id r.agency_id m)

-- `buildRouteAgencyMap`
unfoldable pub build_route_agency_map : Option Db → List Text → Option (Map Text Text)
build_route_agency_map db [] = some []
build_route_agency_map none (r ∷ rs) = none
build_route_agency_map (some db) (r ∷ rs) = do
  routes ← rows (query_in_batches (sort_texts (r ∷ rs)) db.get_routes_by_ids)
  some (agency_map routes [])

-- the first loop of `tripAgencyIDs`: the agencies by trip, and the trips with no known route
unfoldable split_trips :
    Map Text Text → List Trip → Map Text Text → List Text → Map Text Text × List Text
split_trips routes [] m unresolved = (m, unresolved)
split_trips routes (t ∷ ts) m unresolved =
    let rest = λ (m' : Map Text Text) (u : List Text). split_trips routes ts m' u in
    elim (lookup t.trip_id.route_id routes) [
      | some agency ↦ rest (insert t.trip_id.id agency m) unresolved
      | none ↦ rest m (unresolved ++ (t.trip_id.id ∷ []))
    ]

unfoldable pub static_route_ids : List TripRow → List Text → List Text
static_route_ids [] set = set
static_route_ids (t ∷ ts) set = static_route_ids ts (add_text t.route_id set)

unfoldable pub add_static_trips : Map Text Text → List TripRow → Map Text Text → Map Text Text
add_static_trips agencies [] m = m
add_static_trips agencies (t ∷ ts) m =
    add_static_trips agencies ts
      (elim (lookup t.route_id agencies) [ none ↦ m | some agency ↦ insert t.id agency m ])

-- `tripAgencyIDs`
unfoldable static_trip_agencies : Option Db → Map Text Text → List Text → Option (Map Text Text)
static_trip_agencies db m [] = some m
static_trip_agencies none m (t ∷ ts) = none
static_trip_agencies (some db) m (t ∷ ts) = do
  static ← rows (query_in_batches (t ∷ ts) db.get_trips_by_ids)
  agencies ← build_route_agency_map (some db) (static_route_ids static [])
  some (add_static_trips agencies static m)

unfoldable pub trip_agency_ids : Option Db → List Trip → Map Text Text → Option (Map Text Text)
unfolding split_trips static_trip_agencies
trip_agency_ids db trips routes =
    let (m, unresolved) = split_trips routes trips [] [] in static_trip_agencies db m unresolved

abbrev pub is_allowed : Map Text Bool → Text → Bool
is_allowed allowed agency = get_or false agency allowed

-- `filterTripsByAgency`: the trips kept, and those that no agency is known of
unfoldable pub filter_trips_by_agency :
    List Trip → Map Text Bool → Map Text Text → List Trip × List Trip
filter_trips_by_agency [] allowed agencies = ([], [])
filter_trips_by_agency (t ∷ ts) allowed agencies =
    let (filtered, unattributed) = filter_trips_by_agency ts allowed agencies in
    elim (lookup t.trip_id.id agencies) [
      | none ↦ (filtered, t ∷ unattributed)
      | some agency ↦ (if is_allowed allowed agency then t ∷ filtered else filtered, unattributed)
    ]

-- `routeBelongsToAllowedAgency`
unfoldable pub route_belongs_to_allowed_agency : Text → Map Text Bool → Map Text Text → Bool
route_belongs_to_allowed_agency route allowed routes =
    if is_empty route
    then false
    else elim (lookup route routes) [ none ↦ false | some agency ↦ is_allowed allowed agency ]

-- `filterVehiclesByAgency`
unfoldable pub filter_vehicles_by_agency :
    List Vehicle → Map Text Bool → Map Text Text → List Vehicle
filter_vehicles_by_agency vehicles allowed routes =
    keep_if
      (λ v. elim v.trip [
        | none ↦ false
        | some t ↦
            if is_empty t.trip_id.route_id then false else elim (lookup t.trip_id.route_id routes) [
              | none ↦ false
              | some agency ↦ is_allowed allowed agency
            ]
      ])
      vehicles

-- `informedEntityMatchesAgency`
unfoldable pub informed_entity_matches_agency :
    InformedEntity → Map Text Bool → Map Text Text → Bool
informed_entity_matches_agency e allowed routes =
    (elim e.agency_id [ none ↦ false | some a ↦ is_allowed allowed a ])
    || ((elim e.route_id [
      | none ↦ false
      | some r ↦ route_belongs_to_allowed_agency r allowed routes
    ])
        || (elim e.trip_id [
          | none ↦ false
          | some t ↦ route_belongs_to_allowed_agency t.route_id allowed routes
        ]))

-- `alertMatchesAgency`
unfoldable pub alert_matches_agency : List InformedEntity → Map Text Bool → Map Text Text → Bool
alert_matches_agency [] allowed routes = false
alert_matches_agency (e ∷ es) allowed routes =
    informed_entity_matches_agency e allowed routes || alert_matches_agency es allowed routes

-- `filterAlertsByAgency`
unfoldable pub filter_alerts_by_agency : List Alert → Map Text Bool → Map Text Text → List Alert
filter_alerts_by_agency alerts allowed routes =
    keep_if (λ a. alert_matches_agency a.informed_entities allowed routes) alerts
