-- ===== src/Realtime/Alerts.antt =====
-- internal/gtfs/realtime.go: `GetAlertsByIDs`, `GetAlertsForTrip`, `GetAlertsForStop` and
-- `GetAlertsForRoute`, over the alert indexes of the merged view.
pub mod Unique
use maglev.Prelude.{
  Bool, true, false, Option, none, some, List, [], ◌∷◌, ◌++◌, Text, is_empty, get_or, text_eq,
  contains_text, if◌then◌else◌,
}
use maglev.Realtime.Types.{Alert, AlertIndex}

-- `addUnique`: the alert IDs seen afterwards, and the alerts that are appended
unfoldable pub add_unique : List Text → List Alert → List Text × List Alert
add_unique seen [] = (seen, [])
add_unique seen (a ∷ candidates) =
    let old = contains_text a.id seen in
    let (seen', alerts) = add_unique (if old then seen else a.id ∷ seen) candidates in
    (seen', if old then alerts else a ∷ alerts)

-- the candidates under an ID; an ID of "" has none
unfoldable pub candidates_of : Text → (Text → List Alert) → List Alert
candidates_of id index = if is_empty id then [] else index id

-- `GetAlertsByIDs`
unfoldable pub get_alerts_by_ids : AlertIndex → Text → Text → Text → List Alert
unfolding add_unique candidates_of
get_alerts_by_ids idx trip route agency =
    let (seen, by_trip) = add_unique [] (candidates_of trip (λ k. get_or [] k idx.by_trip)) in
    let (seen', by_route) = add_unique seen (candidates_of route (λ k. get_or [] k idx.by_route)) in
    let (seen'', by_agency) =
      add_unique seen' (candidates_of agency (λ k. get_or [] k idx.by_agency)) in
    by_trip ++ (by_route ++ by_agency)

-- `GetAlertsForRoute`
unfoldable get_alerts_for_route : AlertIndex → Text → List Alert
get_alerts_for_route idx route = get_alerts_by_ids idx [] route []

-- `GetAlertsForTrip`: the trip's route and the route's agency come from the database, "" where a
-- query fails; `route_of` and `agency_of` return `none` then
unfoldable get_alerts_for_trip :
    (Text → Option Text) → (Text → Option Text) → AlertIndex → Text → List Alert
unfolding get_alerts_by_ids
get_alerts_for_trip route_of agency_of idx trip = elim (route_of trip) [
  | none ↦ get_alerts_by_ids idx trip [] []
  | some route ↦ elim (agency_of route) [
    | none ↦ get_alerts_by_ids idx trip route []
    | some agency ↦ get_alerts_by_ids idx trip route agency
  ]
]

-- `GetAlertsForStop`
unfoldable get_alerts_for_stop : AlertIndex → Text → List Alert
unfolding add_unique
get_alerts_for_stop idx stop = (add_unique [] (get_or [] stop idx.by_stop)).1
