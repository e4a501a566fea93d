-- ===== src/Tests/Windows.antt =====
-- A stop that two agencies in two time zones serve; instants are nanoseconds, and a zone is its name.
use maglev.Prelude.{
  ℕ, ◌+◌, ◌*◌, ◌^◌, none, some, List, [], ◌∷◌, ◌==◌, In, Text, text_eq, text_lt, bytes,
  contains_text, add_text, lookup, insert, if◌then◌else◌, list_beq, sort_texts, insert_sorted, ℤ,
  pos, negsuc, add_int, sub_int, scale_int, quot_int, lt_int, int_beq, ◌≡◌, ◌⊎◌, ◌↔◌, refl,
}
use maglev.ServiceDates.{Date, TimePackage, add_days, new_date, start_of_date}
use maglev.Arrivals.Windows.{
  WindowRow, WindowQueries, StopArrivalsInput, ActiveStopTime, Discovery, found_agency, StableSort,
  active_stop_times_for_window, active_stop_times_of, discover_stop_agencies, discover_from,
  resolve_all, resolve_agency_location, note_agency, note_agencies, note_routes, add_agency,
  group_agencies_by_timezone, group_keys, is_in_group, active_rows, service_day, window_start,
  window_end, stop_times_of_services, stop_times_for_group_service_day, collect_days,
  collect_group_window, collect_groups,
}
use maglev.Arrivals.Windows.Served.{StableSortLaws, IsServed, active_stop_times_for_window_iff}
use maglev.Arrivals.Windows.Undiscovered.{IsUndiscovered}
use maglev.Arrivals.Windows.Failures.{IsTodayUnread, active_stop_times_for_window-none}

abbrev pub day_nanos : ℕ
day_nanos = 24 * 3600 * 10 ^ 9

abbrev pub nanos : TimePackage ℤ Text
nanos = record {
  sub = sub_int;
  add = add_int;
  equal = int_beq;
  utc = bytes "UTC";
  date_in = λ t loc. record { year = pos 0; month = pos 0; day = quot_int t day_nanos };
  at_hour =
      λ year month day hour loc. add_int (scale_int day day_nanos) (pos (hour * 3600 * 10 ^ 9));
}

abbrev row : Text → Text → WindowRow
row trip route = record {
  trip_id = trip;
  arrival_time = pos 100;
  departure_time = pos 100;
  stop_id = bytes "s";
  stop_sequence = pos 1;
  route_id = route;
  service_id = bytes "wk";
  rest = 0;
}

abbrev pub rows : List WindowRow
rows =
    row (bytes "t1") (bytes "r1")
    ∷ row (bytes "t2") (bytes "r2")
    ∷ row (bytes "t3") (bytes "r3")
    ∷ []

abbrev pub day_text : Date → Text
day_text d = elim d.day [ pos n ↦ n ∷ [] | negsuc n ↦ [] ]

abbrev queries : WindowQueries Text
queries = record {
  routes_for_stop = λ stop. some (
      record { id = bytes "r1"; agency_id = bytes "a" }
      ∷ record { id = bytes "r2"; agency_id = bytes "b" }
      ∷ []);
  agency = λ id. found_agency (bytes "east");
  active_service_ids = λ date. some (if date == (5 ∷ []) then bytes "wk" ∷ [] else []);
  stop_times_in_window = λ stop start end. some rows;
  load_location = λ name. some name;
  location_name = λ loc. loc;
  date_string = day_text;
}

abbrev request : StopArrivalsInput ℤ Text
request = record {
  stop_code = bytes "s";
  agency_id = bytes "a";
  location = bytes "west";
  query_time = pos (5 * day_nanos + 50);
  before = pos 40;
  after = pos 90;
  route_types = [];
}

abbrev unsorted : StableSort
unsorted = record { sort_stable = λ {A} compare xs. xs }

unsorted_laws : StableSortLaws unsorted
unsorted_laws = record { members = λ {A} compare xs a. (λ i. i, λ i. i) }

abbrev answer : List (ActiveStopTime Text)
answer =
    record {
      row = row (bytes "t2") (bytes "r2");
      service_date = record { year = pos 0; month = pos 0; day = pos 5 };
      location = bytes "east";
    }
    ∷ record {
      row = row (bytes "t1") (bytes "r1");
      service_date = record { year = pos 0; month = pos 0; day = pos 5 };
      location = bytes "west";
    }
    ∷ record {
      row = row (bytes "t3") (bytes "r3");
      service_date = record { year = pos 0; month = pos 0; day = pos 5 };
      location = bytes "west";
    }
    ∷ []

-- each row is read in the zone of its agency, the one of an unknown route in the zone of the stop
answered : active_stop_times_for_window nanos unsorted queries request ≡ some answer
unfolding active_stop_times_for_window active_stop_times_of discover_stop_agencies discover_from
    resolve_all resolve_agency_location note_agency note_agencies note_routes add_agency
    group_agencies_by_timezone group_keys is_in_group active_rows service_day window_start
    window_end stop_times_of_services stop_times_for_group_service_day collect_days
    collect_group_window collect_groups add_days new_date start_of_date add_int sub_int scale_int
    quot_int lt_int int_beq lookup insert contains_text add_text sort_texts insert_sorted text_lt
    list_beq
answered = refl

active_stop_times_for_window_iff_example :
    (d : Discovery Text) × (discover_stop_agencies queries request ≡ some d)
    × ((a : ActiveStopTime Text) → In a answer ↔ IsServed nanos queries request d a)
active_stop_times_for_window_iff_example =
    active_stop_times_for_window_iff nanos queries request unsorted answer unsorted_laws answered

active_stop_times_for_window-none_example :
    (active_stop_times_for_window nanos unsorted queries request ≡ none) ↔ (
      IsUndiscovered queries request
      ⊎ ((d : Discovery Text) × (discover_stop_agencies queries request ≡ some d)
          × IsTodayUnread nanos queries request d))
active_stop_times_for_window-none_example =
    active_stop_times_for_window-none nanos queries request unsorted
