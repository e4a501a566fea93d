-- ===== src/Tests/Deviations.antt =====
-- Deviations of a block at noon.
use maglev.Prelude.{
  ℕ, none, some, List, [], ◌∷◌, ℤ, pos, sub_int, abs_int, lt_int, bytes, refl, ◌≡◌,
}
use maglev.Deviation.{
  TripUpdate, new_picker, consider_all, consider, offer, should_replace, is_usable,
  pick_first_available_stu_delay, first_delay, event_delay,
}
use maglev.Deviation.Schedule.{
  SchedEntry, match_schedule_entry, Matches, match_schedule_entry-Matches,
}

abbrev late : ℤ → TripUpdate ℕ
late d = record {
  trip_id = bytes "t1";
  delay = some d;
  stop_time_updates =
      record {
        stop_id = some (bytes "a");
        stop_sequence = none;
        arrival = none;
        departure = some (record { time = none; delay = some d });
      }
      ∷ [];
}

abbrev silent : TripUpdate ℕ
silent = record { trip_id = bytes "t2"; delay = none; stop_time_updates = [] }

first_departure : pick_first_available_stu_delay (silent ∷ late (pos 90) ∷ []) ≡ some (pos 90)
unfolding pick_first_available_stu_delay first_delay event_delay
first_departure = refl

-- one stop a minute ago, 30 seconds late, and one in a minute, 50 seconds late
abbrev stops : List (ℤ × ℤ)
stops = (pos 43110, pos 43140) ∷ (pos 43210, pos 43260) ∷ []

upcoming : (consider_all stops (new_picker (pos 43200))).best_deviation ≡ pos 50
unfolding consider_all consider offer should_replace is_usable new_picker sub_int abs_int lt_int
upcoming = refl

-- a stop at the start and the end of a loop
abbrev first_call : SchedEntry
first_call = record { seq = pos 1; arr = pos 36000; dep = pos 36000 }

abbrev last_call : SchedEntry
last_call = record { seq = pos 9; arr = pos 39600; dep = pos 39660 }

match_schedule_entry-Matches_example :
    Matches
      (first_call ∷ last_call ∷ [])
      none
      (pos 39000)
      (match_schedule_entry (first_call ∷ last_call ∷ []) none (pos 39000))
match_schedule_entry-Matches_example =
    match_schedule_entry-Matches (first_call ∷ last_call ∷ []) none (pos 39000)
