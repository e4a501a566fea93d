-- ===== src/Tests/Predictions.antt =====
-- A loop trip of three stops, in seconds.
use maglev.Prelude.{
  none, some, [], ◌∷◌, ℤ, pos, sub_int, add_int, add_int-sub_int, lt_int, int_beq, List, ◌≡◌, refl,
  Text, bytes, lookup, insert, list_beq,
}
use maglev.Deviation.{StopTimeUpdate, StopTimeEvent, TripUpdate, event_delay}
use maglev.Deviation.Block.{StopTimeRow}
use maglev.Deviation.StopDelays.{static_stops_by_sequence, sequence_identifies_visit, agrees}
use maglev.Arrivals.Predictions.{
  Clock, get_predicted_times, is_silent, scan, choose, names_visit, sequence_of, matches_stop,
  try_fallback, static_stops_for, load_static_stops, entries, note_prior, passed_on, predict,
  tier_offsets, final_target, complete_offsets, event_offset,
}
use maglev.Arrivals.Visits.{find_stop_time_for_trip_stop, find_stop_time_by_position, exact_hit}
use maglev.Arrivals.Visits.Scans.{IsNearest}
use maglev.Arrivals.Visits.Nearest.{measure_for, find_stop_time_for_trip_stop-IsNearest}
use maglev.Arrivals.Predictions.Targets.{visit_update}
use maglev.Arrivals.Predictions.Times.{
  Predicts, get_predicted_times-Predicts, get_predicted_times_exact,
}

abbrev seconds : Clock ℤ
seconds = record { sub = sub_int; add = add_int }

abbrev row : Text → ℤ → StopTimeRow
row stop seq = record {
  trip_id = bytes "t1";
  stop_id = stop;
  stop_sequence = seq;
  arrival_time = pos 0;
  departure_time = pos 0;
}

abbrev rows : List StopTimeRow
rows = row (bytes "a") (pos 1) ∷ row (bytes "b") (pos 2) ∷ row (bytes "a") (pos 3) ∷ []

abbrev left_late : StopTimeEvent ℤ
left_late = record { time = none; delay = some (pos 30) }

abbrev at_time : ℤ → StopTimeEvent ℤ
at_time t = record { time = some t; delay = none }

abbrev first_visit : StopTimeUpdate ℤ
first_visit = record {
  stop_id = some (bytes "a");
  stop_sequence = some 1;
  arrival = none;
  departure = some left_late;
}

abbrev last_visit : StopTimeUpdate ℤ
last_visit = record {
  stop_id = some (bytes "a");
  stop_sequence = some 3;
  arrival = some (at_time (pos 1100));
  departure = some (at_time (pos 1160));
}

abbrev on_loop : TripUpdate ℤ
on_loop = record {
  trip_id = bytes "t1";
  delay = none;
  stop_time_updates = first_visit ∷ last_visit ∷ [];
}

between_visits :
    get_predicted_times seconds (some on_loop) (some rows) (bytes "b") (pos 2) (pos 1000) (pos 1010)
    ≡ some (pos 1030, pos 1040)
unfolding get_predicted_times is_silent scan choose names_visit sequence_of matches_stop
    try_fallback static_stops_for load_static_stops entries sequence_identifies_visit agrees lookup
    insert static_stops_by_sequence list_beq note_prior passed_on event_delay predict tier_offsets
    final_target complete_offsets event_offset add_int sub_int lt_int int_beq
between_visits = refl

at_last_visit :
    visit_update (some rows) (bytes "a") (pos 3) (on_loop.stop_time_updates) ≡ some last_visit
unfolding names_visit sequence_of matches_stop load_static_stops entries sequence_identifies_visit
    agrees lookup insert static_stops_by_sequence list_beq int_beq
at_last_visit = refl

get_predicted_times-Predicts_example :
    Predicts (some rows) (bytes "b") (pos 2) seconds on_loop (pos 1000) (pos 1010) (
      get_predicted_times seconds
        (some on_loop)
        (some rows)
        (bytes "b")
        (pos 2)
        (pos 1000)
        (pos 1010))
get_predicted_times-Predicts_example =
    get_predicted_times-Predicts (some rows) (bytes "b") (pos 2) seconds on_loop (pos 1000)
      (pos 1010)

get_predicted_times_exact_example :
    get_predicted_times seconds (some on_loop) (some rows) (bytes "a") (pos 3) (pos 1000) (pos 1010)
    ≡ some (pos 1100, pos 1160)
get_predicted_times_exact_example =
    get_predicted_times_exact (some rows) (bytes "a") (pos 3) seconds on_loop (pos 1000) (pos 1010)
      (record { add-sub = add_int-sub_int }) last_visit (at_time (pos 1100)) (at_time (pos 1160))
      (pos 1100) (pos 1160) at_last_visit refl refl refl refl

find_stop_time_for_trip_stop-IsNearest_example :
    IsNearest
      (measure_for rows (some (pos 7)) (pos 0))
      rows
      (bytes "a")
      (find_stop_time_for_trip_stop rows (bytes "a") (some (pos 7)) (pos 0))
find_stop_time_for_trip_stop-IsNearest_example =
    find_stop_time_for_trip_stop-IsNearest rows (bytes "a") (some (pos 7)) (pos 0)

past_the_end :
    find_stop_time_for_trip_stop rows (bytes "a") (some (pos 7)) (pos 0)
    ≡ some (row (bytes "a") (pos 3), 2)
unfolding find_stop_time_for_trip_stop find_stop_time_by_position exact_hit list_beq
past_the_end = refl
