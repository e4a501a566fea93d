-- ===== src/Tests/Views.antt =====
-- The merged view, the alert lookup and the agency filter on a store of two feeds.
use maglev.Prelude.{
  ℕ, ◌↔◌, ◌++◌, true, Option, some, none, List, [], ◌∷◌, Text, text_eq, bytes, lookup, get_or,
  keep_if, In, inl, inr, refl, ◌≡◌, Map, Bool, ap, sym, ◌∙◌,
}
use mathlib.Core.Path.{ap₂}
use maglev.Realtime.Types.{InformedEntity, Alert, Manager}
use maglev.Realtime.Agency.{RouteRow, Db, filter_trips_by_agency, filter_alerts_by_agency}
use maglev.Realtime.Agency.Routes.{RouteRows}
use maglev.Realtime.Agency.Filters.{
  Permits, Concerns, filter_trips_by_agency_iff, filter_alerts_by_agency_iff,
}
use maglev.Realtime.Merge.{
  all_feeds, found, missing, merge, get_trip_update_by_id, get_vehicle_by_id, trip_id_of_update,
  vehicle_id, get_duplicated_vehicles_for_route,
}
use maglev.Realtime.Merge.Positions.{last_match, merge-reads}
use maglev.Realtime.Merge.Duplicated.{is_under, is_duplicated_under}
use maglev.Realtime.Merge.Routes.{merge-routes}
use maglev.Realtime.Alerts.{get_alerts_by_ids}
use maglev.Realtime.Alerts.Unique.{Matches, DistinctIds, get_alerts_by_ids-merge}
use maglev.Batches.{done, query_in_batches_reserving}
use maglev.Batches.Results.{IsAdditive, Answers, query_in_batches_reserving_lem}
use maglev.Tests.Vehicles.{bus_1, bus_2, on_trip}

abbrev entity : Option Text → Option Text → InformedEntity
entity route stop = record { agency_id = none; route_id = route; trip_id = none; stop_id = stop }

abbrev detour : Alert
detour = record {
  id = bytes "a1";
  informed_entities = entity (some (bytes "r1")) none ∷ entity (some (bytes "r1")) none ∷ [];
  rest = 0;
}

abbrev two_feeds : Manager
two_feeds = record {
  feed_trips =
      (bytes "north", on_trip (bytes "t1") (bytes "r1") ∷ [])
      ∷ (bytes "east", on_trip (bytes "t1") (bytes "r2") ∷ [])
      ∷ [];
  feed_unattributed_trips = [];
  feed_vehicles = (bytes "north", bus_1 ∷ []) ∷ (bytes "east", bus_2 ∷ []) ∷ [];
  feed_alerts = (bytes "north", detour ∷ []) ∷ [];
  feed_agency_filter = [];
  feed_vehicle_timestamp = [];
  feed_vehicle_last_seen = [];
  feed_last_update = [];
  merged = none;
}

merge-reads_example :
    (get_trip_update_by_id (merge two_feeds) (bytes "t1")
      ≡ elim (last_match trip_id_of_update (bytes "t1") refl (all_feeds two_feeds.feed_trips)) [
        | none ↦ missing
        | some t ↦ found t
      ])
    × (get_vehicle_by_id (merge two_feeds) (bytes "t1")
        ≡ elim (last_match vehicle_id (bytes "t1") refl (all_feeds two_feeds.feed_vehicles)) [
          | none ↦ missing
          | some v ↦ found v
        ])
merge-reads_example = merge-reads two_feeds (bytes "t1") refl

merge-routes_example :
    (get_or [] (bytes "r1") (merge two_feeds).vehicles_by_route
      ≡ keep_if (is_under (bytes "r1")) (all_feeds two_feeds.feed_vehicles))
    × (get_duplicated_vehicles_for_route (merge two_feeds) (bytes "r1")
        ≡ keep_if
            (is_duplicated_under (all_feeds two_feeds.feed_trips) (bytes "r1"))
            (all_feeds two_feeds.feed_vehicles))
merge-routes_example = merge-routes two_feeds (bytes "r1")

get_alerts_by_ids-merge_example :
    ((a : Alert)
      → In a (get_alerts_by_ids (merge two_feeds).alerts [] (bytes "r1") [])
      → In a (all_feeds two_feeds.feed_alerts) × Matches two_feeds [] (bytes "r1") [] a)
    × DistinctIds (get_alerts_by_ids (merge two_feeds).alerts [] (bytes "r1") [])
    × ((a : Alert)
        → In a (all_feeds two_feeds.feed_alerts)
        → Matches two_feeds [] (bytes "r1") [] a
        → (b : Alert) × In b (get_alerts_by_ids (merge two_feeds).alerts [] (bytes "r1") [])
          × (b.id ≡ a.id))
get_alerts_by_ids-merge_example = get_alerts_by_ids-merge two_feeds [] (bytes "r1") []

abbrev allowed : Map Text Bool
allowed = (bytes "40", true) ∷ []

abbrev route_agencies : Map Text Text
route_agencies = (bytes "r1", bytes "40") ∷ (bytes "r2", bytes "1") ∷ []

filter_trips_by_agency_iff_example :
    (In
        (on_trip (bytes "r1") [])
        (filter_trips_by_agency (on_trip (bytes "r1") [] ∷ []) allowed route_agencies).0
      ↔ (In (on_trip (bytes "r1") []) (on_trip (bytes "r1") [] ∷ [])
          × Permits allowed route_agencies (bytes "r1")))
    × (In
          (on_trip (bytes "r1") [])
          (filter_trips_by_agency (on_trip (bytes "r1") [] ∷ []) allowed route_agencies).1
        ↔ (In (on_trip (bytes "r1") []) (on_trip (bytes "r1") [] ∷ [])
            × (lookup (bytes "r1") route_agencies ≡ none)))
filter_trips_by_agency_iff_example =
    filter_trips_by_agency_iff allowed route_agencies (on_trip (bytes "r1") [])
      (on_trip (bytes "r1") [] ∷ [])

filter_alerts_by_agency_iff_example :
    In detour (filter_alerts_by_agency (detour ∷ []) allowed route_agencies) ↔ (
      In detour (detour ∷ [])
      × ((e : InformedEntity) × In e detour.informed_entities × Concerns allowed route_agencies e))
filter_alerts_by_agency_iff_example =
    filter_alerts_by_agency_iff allowed route_agencies detour (detour ∷ [])

-- a database that answers ID by ID: every route belongs to the agency with its own ID
row_for : Text → RouteRow
row_for r = record { id = r; agency_id = r }

own_rows : List Text → List RouteRow
unfolding row_for
own_rows [] = []
own_rows (r ∷ rs) = row_for r ∷ own_rows rs

abbrev own_db : Db
own_db = record {
  get_routes_by_ids = λ ids. some (own_rows ids);
  get_trips_by_ids = λ ids. some [];
}

own_rows-RouteRows : (ids : List Text) → RouteRows some ids (own_rows ids)
unfolding own_rows
own_rows-RouteRows [] = record { sound = λ x h. absurd h; complete = λ r a h e. absurd h }
own_rows-RouteRows (r ∷ rs) = record {
  sound = λ x h. of_row (own_rows-RouteRows rs) x h;
  complete = λ q a h e. to_row (own_rows-RouteRows rs) q a h e;
}
  where
    of_row :
        RouteRows some rs (own_rows rs)
        → (x : RouteRow) → In x (own_rows (r ∷ rs))
        → In x.id (r ∷ rs) × (some x.id ≡ some x.agency_id)
    of_row rest x (inl e) = (
      inl (ap (λ (y : RouteRow). y.id) e),
      ap (λ (y : RouteRow). some y.id) e ∙ sym (ap (λ (y : RouteRow). some y.agency_id) e),
    )
    of_row rest x (inr h) = let (i, e) = rest.sound x h in (inr i, e)

    to_row :
        RouteRows some rs (own_rows rs)
        → (q a : Text) → In q (r ∷ rs)
        → some q ≡ some a
        → (x : RouteRow) × In x (own_rows (r ∷ rs)) × (x.id ≡ q)
    to_row rest q a (inl e) s = (row_for r, inl refl, sym e)
    to_row rest q a (inr h) s = let (x, i, e) = rest.complete q a h s in (x, inr i, e)

own_db-Answers : (size : ℕ) → Answers size own_db.get_routes_by_ids (RouteRows some)
own_db-Answers size xs h l = (own_rows xs, refl, own_rows-RouteRows xs)

-- a query that repeats its IDs
echo-IsAdditive : IsAdditive {A = ℕ} {B = ℕ} (λ xs ys. xs ≡ ys)
echo-IsAdditive = record { of_nil = refl; of_append = λ xs xs' ys ys' p q. ap₂ (◌++◌) p q }

query_in_batches_reserving_lem_example :
    (ys : List ℕ) × (query_in_batches_reserving (1 ∷ 2 ∷ 3 ∷ []) 898 some ≡ done ys)
    × (1 ∷ 2 ∷ 3 ∷ [] ≡ ys)
query_in_batches_reserving_lem_example =
    query_in_batches_reserving_lem (1 ∷ 2 ∷ 3 ∷ []) 898 some (λ xs ys. xs ≡ ys) echo-IsAdditive
      (λ xs h l. (xs, refl, refl))
