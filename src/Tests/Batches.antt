-- ===== src/Tests/Batches.antt =====
-- Stops of three agencies, and what a truncated response keeps.
use maglev.Prelude.{
  Map, ◌⊎◌, ◌↔◌, In, inl, inr, ℕ, ◌≤◌, ◌<◌, true, false, none, some, List, [], ◌∷◌, ◌||◌, Text,
  text_eq, text_lt, bytes, contains_text, is_empty, lookup, insert, if◌then◌else◌, list_beq, ℤ, pos,
  ◌≡◌, refl,
}
use maglev.Ids.{extract_agency_id_and_code_id, split_id}
use maglev.Arrivals.Batched.{
  AgencyGroup, MultiStopInput, BatchQueries, StopAgencyIndex, agency_id_for, location_for, add_stop,
  group_stops_by_agency, load_batched_stop_times,
}
use maglev.Arrivals.Batched.Memo.{fresh_groups, load_batched_stop_times-fresh}
use maglev.Arrivals.StopAgencies.{
  AgencyRow, MapOrder, Zones, agencies_for_stops, index_of_rows, most_common_agency,
  most_common_among, is_more_common, counts_of, count_agency, by_stop_id_of, locations_of,
  insert_new, agency_location_or_utc,
}
use maglev.Arrivals.StopAgencies.MostCommon.{IsOrder, count_rows}
use maglev.Arrivals.StopAgencies.Owners.{first_agency, agencies_for_stops_lem}
use maglev.Arrivals.Retained.{ArrivalIds, Accumulator, retained_accumulator}
use maglev.Arrivals.Retained.Needed.{names, any_names, emits_stop, emits_trip, any_arrival}
use maglev.Arrivals.Retained.Kept.{retained_accumulator_lem}
use maglev.Tests.Windows.{nanos, day_text, rows}

abbrev agency_rows : List AgencyRow
agency_rows =
    record { id = bytes "b"; stop_id = bytes "s1"; timezone = bytes "east" }
    ∷ record { id = bytes "a"; stop_id = bytes "s1"; timezone = bytes "west" }
    ∷ record { id = bytes "b"; stop_id = bytes "s2"; timezone = bytes "east" }
    ∷ record { id = bytes "a"; stop_id = bytes "s3"; timezone = bytes "west" }
    ∷ []

abbrev zones : Zones Text
zones = record { load_location = λ name. some name; utc = bytes "UTC" }

-- the last entry first
unfoldable range_back : Map Text ℕ → Map Text ℕ → Map Text ℕ
range_back [] seen = seen
range_back (e ∷ m) seen = range_back m (e ∷ seen)

range_back-In :
    (e : Text × ℕ) (m seen : Map Text ℕ) → In e (range_back m seen) ↔ (In e m ⊎ In e seen)
unfolding range_back
range_back-In e [] seen = (λ i. inr i, λ c. elim c [ inl i ↦ absurd i | inr i ↦ i ])
range_back-In e (x ∷ m) seen =
    let (fwd, bwd) = range_back-In e m (x ∷ seen) in
    (
      λ i. elim (fwd i) [ inl j ↦ inl (inr j) | inr (inl j) ↦ inl (inl j) | inr (inr j) ↦ inr j ],
      λ c. bwd (elim c [ inl (inl j) ↦ inr (inl j) | inl (inr j) ↦ inl j | inr j ↦ inr (inr j) ]),
    )

abbrev backwards : MapOrder
backwards = record { range = λ m. range_back m [] }

backwards-IsOrder : IsOrder backwards
backwards-IsOrder m e = (
  λ i. elim ((range_back-In e m []).0 i) [ inl j ↦ j | inr j ↦ absurd j ],
  λ i. (range_back-In e m []).1 (inl i),
)

agencies_for_stops_lem_example :
    (index : StopAgencyIndex Text) × (agencies_for_stops backwards zones
        (λ ids. some agency_rows)
        []
      ≡ some index)
    × ((stop_id : Text)
        → agency_id_for index stop_id ≡ elim (first_agency stop_id agency_rows) [
          | none ↦ index.fallback_agency_id
          | some id ↦ if is_empty id then index.fallback_agency_id else id
        ])
    × ((id : Text)
        → (count_rows id agency_rows ≤ count_rows index.fallback_agency_id agency_rows)
          × (0 < count_rows id agency_rows
              → count_rows id agency_rows ≡ count_rows index.fallback_agency_id agency_rows
              → text_lt id index.fallback_agency_id ≡ false))
agencies_for_stops_lem_example =
    agencies_for_stops_lem backwards zones (λ ids. some agency_rows) [] agency_rows
      backwards-IsOrder refl

-- two agencies have two rows each, and the first of them is the fallback
tied : most_common_agency backwards (counts_of agency_rows []) ≡ bytes "a"
unfolding most_common_agency range_back most_common_among is_more_common counts_of count_agency
    lookup insert text_lt list_beq
tied = refl

abbrev batch : BatchQueries
batch = record {
  active_service_ids = λ date. some (bytes "wk" ∷ []);
  stop_times_in_window = λ stops start end. some rows;
  date_string = day_text;
}

abbrev stops_of_b : AgencyGroup Text
stops_of_b = record {
  agency_id = bytes "b";
  location = bytes "east";
  stop_ids = bytes "s1" ∷ bytes "s2" ∷ [];
}

abbrev stops_of_a : AgencyGroup Text
stops_of_a = record { agency_id = bytes "a"; location = bytes "west"; stop_ids = bytes "s3" ∷ [] }

abbrev batch_input : MultiStopInput ℤ
batch_input = record { query_time = pos 50; before = pos 40; after = pos 90 }

load_batched_stop_times-fresh_example :
    load_batched_stop_times nanos batch batch_input (stops_of_b ∷ stops_of_a ∷ [])
    ≡ fresh_groups nanos batch batch_input (stops_of_b ∷ stops_of_a ∷ [])
load_batched_stop_times-fresh_example =
    load_batched_stop_times-fresh nanos batch batch_input (stops_of_b ∷ stops_of_a ∷ [])

-- the groups of the three stops, in the order of their first stops
grouped :
    group_stops_by_agency
      (index_of_rows backwards zones agency_rows)
      (bytes "s1" ∷ bytes "s2" ∷ bytes "s3" ∷ [])
      []
    ≡ stops_of_b ∷ stops_of_a ∷ []
unfolding group_stops_by_agency add_stop agency_id_for location_for index_of_rows by_stop_id_of
    locations_of insert_new agency_location_or_utc most_common_agency range_back most_common_among
    is_more_common counts_of count_agency lookup insert text_lt list_beq
grouped = refl

abbrev arrival : ArrivalIds
arrival = record {
  stop_id = bytes "1_s1";
  trip_id = bytes "1_t1";
  route_id = bytes "1_r1";
  trip_status = some (record {
    next_stop = bytes "1_s2";
    closest_stop = bytes "1_s1";
    active_trip_id = bytes "1_t2";
  });
}

abbrev all_entities : Accumulator ℕ ℕ
all_entities = record {
  trips = (bytes "t1", 1) ∷ (bytes "t2", 2) ∷ (bytes "t3", 3) ∷ [];
  routes = (bytes "r1", 1) ∷ (bytes "r2", 2) ∷ [];
  stop_ids = bytes "s1" ∷ bytes "s9" ∷ [];
}

retained_accumulator_lem_example :
    (contains_text (bytes "t2") (retained_accumulator (arrival ∷ []) [] [] all_entities).stop_ids
      ≡ (any_arrival (emits_stop (bytes "t2")) (arrival ∷ [])
          || (any_names (bytes "t2") [] || any_names (bytes "t2") [])))
    × (lookup (bytes "t2") (retained_accumulator (arrival ∷ []) [] [] all_entities).trips ≡ (
        if any_arrival (emits_trip (bytes "t2")) (arrival ∷ [])
        then lookup (bytes "t2") all_entities.trips
        else none))
    × (lookup (bytes "t2") (retained_accumulator (arrival ∷ []) [] [] all_entities).routes ≡ (
        if any_arrival (λ (a : ArrivalIds). names (bytes "t2") a.route_id) (arrival ∷ [])
        then lookup (bytes "t2") all_entities.routes
        else none))
retained_accumulator_lem_example =
    retained_accumulator_lem (bytes "t2") (arrival ∷ []) [] [] all_entities

-- the reassigned active trip stays
active_trip : any_arrival (emits_trip (bytes "t2")) (arrival ∷ []) ≡ true
unfolding extract_agency_id_and_code_id split_id list_beq
active_trip = refl
