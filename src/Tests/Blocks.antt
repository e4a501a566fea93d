-- ===== src/Tests/Blocks.antt =====
-- A block of two trips at noon of its service date.
use maglev.Prelude.{
  ℕ, ◌/◌, ◌%◌, some, none, Option, List, [], ◌∷◌, bytes, Text, text_eq, int_eq, int_beq, list_beq,
  lookup, insert, contains_text, if◌then◌else◌, ◌==◌, ◌*◌, ℤ, pos, sub_int, add_int, scale_int,
  quot_int, abs_int, lt_int, ◌≡◌, ◌⊎◌, refl,
}
use maglev.Deviation.{
  StopTimeUpdate, TripUpdate, event_delay, last_delay, judge, pick_trip_level_deviation,
  exceeds_block_not_active_threshold, new_picker, should_replace, offer, is_usable, consider,
}
use maglev.Deviation.Schedule.{has_sequence, find_sequence, match_entry, match_schedule_entry}
use maglev.Deviation.Block.{
  Calendar, StopTimeRow, Schedules, entry_of, no_schedules, add_rows, load_scheduled_for_trips,
  match_schedule_entry_by_sequence, distinct_trip_ids, under_trip, collect_block_trip_updates,
  within_threshold, from_stop_times, deviation_of, calculate_seconds_since_service_date,
  reference_of, stu_reference_time, predicted_of, stu_predicted_from_event, scheduled_of,
  consider_stop_times, consider_trip_updates, pick_closest_stu_deviation, deviation_of_updates,
  get_schedule_deviation_for_block,
}
use maglev.Deviation.StopDelays.{
  delay_for, static_stops_by_sequence, agrees, or_on_time, sequence_identifies_visit, info_of,
  note_stop, note_visit, note, note_all, get_stop_delays_from_trip_updates,
}
use maglev.Deviation.StopDelays.Scheduled.{names_visit_in}
use maglev.Deviation.StopDelays.Visits.{DelayOf, delay_for-get_stop_delays}

-- seconds of one day
abbrev one_day : Calendar ℕ
one_day = record {
  hour = λ t sd. t / 3600;
  minute = λ t sd. (t / 60) % 60;
  second = λ t sd. t % 60;
  day = λ t sd. pos 0;
}

abbrev row : Text → Text → ℕ → ℕ → StopTimeRow
row trip stop n seconds = record {
  trip_id = trip;
  stop_id = stop;
  stop_sequence = pos n;
  arrival_time = pos (seconds * 1000000000);
  departure_time = pos (seconds * 1000000000);
}

-- a loop from "a" to "a"
abbrev loop_rows : List StopTimeRow
loop_rows =
    row (bytes "t1") (bytes "a") 1 42000
    ∷ row (bytes "t1") (bytes "b") 2 43100
    ∷ row (bytes "t1") (bytes "a") 3 43300
    ∷ []

abbrev query : List Text → Option (List StopTimeRow)
query ids = if contains_text (bytes "t1") ids then some loop_rows else some []

abbrev update : Option Text → Option ℕ → ℤ → StopTimeUpdate ℕ
update stop n d = record {
  stop_id = stop;
  stop_sequence = n;
  arrival = some (record { time = none; delay = some d });
  departure = none;
}

abbrev updates_for : Text → List (TripUpdate ℕ)
updates_for id =
    if id == bytes "t1"
    then record {
      trip_id = [];
      delay = none;
      stop_time_updates =
          update (some (bytes "a")) (some 3) (pos 60) ∷ update none (some 2) (pos 45) ∷ [];
    }
      ∷ []
    else []

-- "b" is 55 seconds ago, the second "a" in 160 seconds
closest_by_sequence :
    get_schedule_deviation_for_block one_day 0 43200 query updates_for
      (bytes "t1" ∷ bytes "t2" ∷ [])
    ≡ some (some (pos 45))
unfolding get_schedule_deviation_for_block collect_block_trip_updates under_trip
    deviation_of_updates pick_trip_level_deviation last_delay judge pick_closest_stu_deviation
    load_scheduled_for_trips distinct_trip_ids no_schedules add_rows entry_of consider_trip_updates
    consider_stop_times scheduled_of match_schedule_entry match_entry find_sequence has_sequence
    match_schedule_entry_by_sequence stu_reference_time reference_of stu_predicted_from_event
    predicted_of calculate_seconds_since_service_date consider is_usable offer should_replace
    new_picker deviation_of from_stop_times within_threshold exceeds_block_not_active_threshold
    sub_int add_int scale_int quot_int abs_int lt_int contains_text lookup insert list_beq
closest_by_sequence = refl

-- the first visit to "a" does not read the delay of the second
loop_visits :
    (delay_for
        (bytes "a")
        (pos 1)
        (get_stop_delays_from_trip_updates updates_for (bytes "t1") loop_rows)
      ≡ none)
    × (delay_for
          (bytes "a")
          (pos 3)
          (get_stop_delays_from_trip_updates updates_for (bytes "t1") loop_rows)
        ≡ some (record { arrival_delay = pos 60; departure_delay = pos 0 }))
unfolding delay_for get_stop_delays_from_trip_updates note_all note note_visit note_stop
    sequence_identifies_visit agrees static_stops_by_sequence info_of or_on_time event_delay lookup
    insert list_beq int_beq
loop_visits = (refl, refl)

abbrev block : List Text
block = bytes "t1" ∷ bytes "t2" ∷ []

abbrev block_updates : List (TripUpdate ℕ)
block_updates = collect_block_trip_updates updates_for block

abbrev loaded_schedules : Schedules
loaded_schedules = elim (load_scheduled_for_trips query (distinct_trip_ids block_updates [])) [
  | some m ↦ m
  | none ↦ []
]

delay_for-get_stop_delays_example :
    ((updates_for (bytes "t1") ≡ [])
      × (delay_for
            (bytes "a")
            (pos 3)
            (get_stop_delays_from_trip_updates updates_for (bytes "t1") loop_rows)
          ≡ none))
    ⊎ ((t : TripUpdate ℕ) × (ts : List (TripUpdate ℕ)) × (updates_for (bytes "t1") ≡ t ∷ ts)
        × DelayOf (names_visit_in loop_rows) (bytes "a") (pos 3) t.stop_time_updates (
            delay_for
              (bytes "a")
              (pos 3)
              (get_stop_delays_from_trip_updates updates_for (bytes "t1") loop_rows)))
delay_for-get_stop_delays_example =
    delay_for-get_stop_delays updates_for (bytes "t1") (bytes "a") (pos 3) loop_rows
