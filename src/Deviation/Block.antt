-- ===== src/Deviation/Block.antt =====
-- internal/restapi/trip_updates_helper.go: `GetScheduleDeviationForBlock` and what it composes.
-- `CalculateSecondsSinceServiceDate` of internal/utils/api.go stands on the calendar of the `time`
-- package, a parameter, as is the query of the stop times.
pub mod Candidates
pub mod Loading
pub mod Levels
pub mod FirstDelays
pub mod Decision
use maglev.Prelude.{
  ℕ, ◌+◌, ◌*◌, ◌^◌, Bool, true, false, ◌||◌, not, Option, none, some, List, [], ◌∷◌, ◌++◌, Text,
  text_eq, is_empty, contains_text, Map, lookup, insert, get_or, if◌then◌else◌, ◌>>=◌, ℤ, pos,
  negsuc, sub_int, add_int, scale_int, quot_int, lt_int,
}
use maglev.Deviation.{
  StopTimeEvent, StopTimeUpdate, TripUpdate, TripLevel, deviation, discard, no_delay,
  exceeds_block_not_active_threshold, pick_trip_level_deviation, Picker, new_picker, consider,
  pick_first_available_stu_delay,
}
use maglev.Deviation.Schedule.{SchedEntry, has_sequence, find_sequence, match_schedule_entry}

-- what `time.Time` tells of a time in the location of a service date
pub record Calendar (T : Type 0) : Type 0 where
  pub hour : T → T → ℕ
  pub minute : T → T → ℕ
  pub second : T → T → ℕ
  pub day : T → T → ℤ

-- a row of `GetStopTimesForTripIDs`, with times in nanoseconds
pub record StopTimeRow : Type 0 where
  pub trip_id : Text
  pub stop_id : Text
  pub stop_sequence : ℤ
  pub arrival_time : ℤ
  pub departure_time : ℤ

-- `int64(time.Second)`
abbrev pub second_nanos : ℕ
second_nanos = 10 ^ 9

unfoldable pub entry_of : StopTimeRow → SchedEntry
entry_of r = record {
  seq = r.stop_sequence;
  arr = quot_int r.arrival_time second_nanos;
  dep = quot_int r.departure_time second_nanos;
}

abbrev pub Schedules : Type 0
Schedules = Map Text (Map Text (List SchedEntry))

unfoldable pub no_schedules : List Text → Schedules → Schedules
no_schedules [] out = out
no_schedules (id ∷ ids) out = no_schedules ids (insert id [] out)

-- the loop over the rows; `none` is the write to the nil map of a trip that was not asked for
unfoldable pub add_rows : List StopTimeRow → Schedules → Option Schedules
add_rows [] out = some out
add_rows (r ∷ rs) out = elim (lookup r.trip_id out) [
  | none ↦ none
  | some m ↦
      add_rows rs
        (insert r.trip_id (insert r.stop_id (get_or [] r.stop_id m ++ (entry_of r ∷ [])) m) out)
]

-- `loadScheduledForTrips`; the query returns no rows where it fails
unfoldable pub load_scheduled_for_trips :
    (List Text → Option (List StopTimeRow)) → List Text → Option Schedules
load_scheduled_for_trips query [] = some []
load_scheduled_for_trips query (id ∷ ids) = elim (query (id ∷ ids)) [
  | none ↦ some (no_schedules (id ∷ ids) [])
  | some rows ↦ add_rows rows (no_schedules (id ∷ ids) [])
]

-- `matchScheduleEntryBySequence`
unfoldable pub match_schedule_entry_by_sequence : Map Text (List SchedEntry) → ℕ → ℤ × ℤ
match_schedule_entry_by_sequence [] n = (pos 0, pos 0)
match_schedule_entry_by_sequence ((stop, es) ∷ m) n =
    let rest = match_schedule_entry_by_sequence m n in
    elim (find_sequence n es) [ some e ↦ (e.arr, e.dep) | none ↦ rest ]

-- the IDs of the updates, each once
unfoldable pub distinct_trip_ids : {T : Type 0} → List (TripUpdate T) → List Text → List Text
distinct_trip_ids [] seen = []
distinct_trip_ids (t ∷ ts) seen =
    let skipped = distinct_trip_ids ts seen in
    let added = distinct_trip_ids ts (t.trip_id ∷ seen) in
    if contains_text t.trip_id seen then skipped else t.trip_id ∷ added

-- the gate on a deviation of a stop time update
unfoldable pub within_threshold : ℤ → Option ℤ
within_threshold d = if exceeds_block_not_active_threshold d then none else some d

unfoldable pub deviation_of : Picker → Option ℤ
deviation_of p = if p.found then some p.best_deviation else none

-- the two ways by stop times
unfoldable pub from_stop_times : {T : Type 0} → List (TripUpdate T) → Option ℤ → Option ℤ
from_stop_times ts (some d) = within_threshold d
from_stop_times ts none = pick_first_available_stu_delay ts >>= within_threshold

unfoldable pub under_trip : {T : Type 0} → Text → List (TripUpdate T) → List (TripUpdate T)
under_trip id [] = []
under_trip id (t ∷ ts) = record t { trip_id = id } ∷ under_trip id ts

module _ {T : Type 0} (updates_for : Text → List (TripUpdate T)) where
  -- `collectBlockTripUpdates`, by `GetTripUpdatesForTrip`
  unfoldable pub collect_block_trip_updates : List Text → List (TripUpdate T)
  collect_block_trip_updates [] = []
  collect_block_trip_updates (id ∷ ids) =
      under_trip id (updates_for id) ++ collect_block_trip_updates ids

module _ {T : Type 0} (calendar : Calendar T) where
  -- `CalculateSecondsSinceServiceDate`
  unfoldable pub calculate_seconds_since_service_date : T → T → ℤ
  calculate_seconds_since_service_date t service_date =
      add_int
        (pos (
          calendar.hour t service_date * 3600
          + calendar.minute t service_date * 60
          + calendar.second t service_date))
        (scale_int (sub_int (calendar.day t service_date) (calendar.day service_date service_date))
          86400)

  module _ (service_date current_time : T) where
    -- an event of `stuReferenceTime`
    unfoldable pub reference_of : Option (StopTimeEvent T) → Option ℤ
    reference_of none = none
    reference_of (some e) = elim e.time [
      | some t ↦ some (calculate_seconds_since_service_date t service_date)
      | none ↦ elim e.delay [
        | some d ↦ some (sub_int (calculate_seconds_since_service_date current_time service_date) d)
        | none ↦ none
      ]
    ]

    -- `stuReferenceTime`
    unfoldable pub stu_reference_time : StopTimeUpdate T → ℤ
    stu_reference_time stu = elim (reference_of stu.arrival) [
      | some r ↦ r
      | none ↦ elim (reference_of stu.departure) [ some r ↦ r | none ↦ negsuc 0 ]
    ]

    unfoldable pub predicted_of : StopTimeEvent T → ℤ → ℤ
    predicted_of e sched = elim e.time [
      | some t ↦ calculate_seconds_since_service_date t service_date
      | none ↦ elim e.delay [ some d ↦ add_int sched d | none ↦ pos 0 ]
    ]

    -- `stuPredictedFromEvent`
    unfoldable pub stu_predicted_from_event : Option (StopTimeEvent T) → ℤ → ℤ
    stu_predicted_from_event none sched = pos 0
    stu_predicted_from_event (some e) sched =
        if not (lt_int (pos 0) sched) then pos 0 else predicted_of e sched

    -- the `switch` of `pickClosestSTUDeviation`
    unfoldable pub scheduled_of : Map Text (List SchedEntry) → StopTimeUpdate T → ℤ × ℤ
    scheduled_of sched_map stu = elim stu.stop_id [
      | some stop ↦
          match_schedule_entry (get_or [] stop sched_map) stu.stop_sequence (stu_reference_time stu)
      | none ↦ elim stu.stop_sequence [
        | some n ↦ match_schedule_entry_by_sequence sched_map n
        | none ↦ (pos 0, pos 0)
      ]
    ]

    -- the loop over the stop time updates
    unfoldable pub consider_stop_times :
        Map Text (List SchedEntry) → List (StopTimeUpdate T) → Picker → Picker
    consider_stop_times sched_map [] p = p
    consider_stop_times sched_map (stu ∷ stus) p =
        let sched = scheduled_of sched_map stu in
        consider_stop_times sched_map stus (
          consider sched.1 (stu_predicted_from_event stu.departure sched.1)
            (consider sched.0 (stu_predicted_from_event stu.arrival sched.0) p))

    -- the loop over the trip updates
    unfoldable pub consider_trip_updates : Schedules → List (TripUpdate T) → Picker → Picker
    consider_trip_updates scheduled [] p = p
    consider_trip_updates scheduled (t ∷ ts) p =
        consider_trip_updates scheduled ts
          (consider_stop_times (get_or [] t.trip_id scheduled) t.stop_time_updates p)

    module _ (query : List Text → Option (List StopTimeRow)) where
      -- `pickClosestSTUDeviation`; the outer `none` is the panic of `loadScheduledForTrips`
      unfoldable pub pick_closest_stu_deviation : List (TripUpdate T) → Option (Option ℤ)
      pick_closest_stu_deviation ts =
          load_scheduled_for_trips query (distinct_trip_ids ts []) >>= λ scheduled. some (
            deviation_of (
              consider_trip_updates scheduled ts
                (new_picker (calculate_seconds_since_service_date current_time service_date))))

      unfoldable pub deviation_of_updates : List (TripUpdate T) → Option (Option ℤ)
      deviation_of_updates [] = some none
      deviation_of_updates (t ∷ ts) = elim (pick_trip_level_deviation (t ∷ ts)) [
        | discard ↦ some none
        | deviation d ↦ some (some d)
        | no_delay ↦ pick_closest_stu_deviation (t ∷ ts) >>= λ d. some (from_stop_times (t ∷ ts) d)
      ]

      -- `GetScheduleDeviationForBlock`; `none` inside is `(0, false)`
      unfoldable pub get_schedule_deviation_for_block :
          (Text → List (TripUpdate T)) → List Text → Option (Option ℤ)
      get_schedule_deviation_for_block updates_for [] = some none
      get_schedule_deviation_for_block updates_for (id ∷ ids) =
          deviation_of_updates (collect_block_trip_updates updates_for (id ∷ ids))
