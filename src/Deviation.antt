-- ===== src/Deviation.antt =====
-- internal/restapi/trip_updates_helper.go: how the schedule deviation of a block is picked from its
-- trip updates: the last delay of a trip, else the stop time that is predicted closest to now, else
-- the first delay of a stop. Times are seconds since the start of the service date, computed
-- elsewhere.
pub mod Closest
pub mod Delays
pub mod Schedule
pub mod Block
pub mod StopDelays
use maglev.Prelude.{
  ℕ, ◌+◌, ◌*◌, ◌-◌, ◌^◌, Bool, true, false, ◌&&◌, ◌||◌, not, Option, none, some, List, [], ◌∷◌, ltb,
  leb, if◌then◌else◌, ℤ, pos, negsuc, sub_int, abs_int, lt_int, Text,
}

-- `blockNotActiveThresholdSeconds`
abbrev pub block_not_active_threshold_seconds : ℕ
block_not_active_threshold_seconds = 60 * 60

-- `exceedsBlockNotActiveThreshold`
unfoldable pub exceeds_block_not_active_threshold : ℤ → Bool
exceeds_block_not_active_threshold (pos d) = ltb block_not_active_threshold_seconds d
exceeds_block_not_active_threshold (negsuc d) = ltb block_not_active_threshold_seconds (d + 1)

-- `gtfs.StopTimeEvent`, with the delay in seconds; `T` is `time.Time`
pub record StopTimeEvent (T : Type 0) : Type 0 where
  pub time : Option T
  pub delay : Option ℤ

-- `gtfs.StopTimeUpdate`
pub record StopTimeUpdate (T : Type 0) : Type 0 where
  pub stop_id : Option Text
  pub stop_sequence : Option ℕ
  pub arrival : Option (StopTimeEvent T)
  pub departure : Option (StopTimeEvent T)

-- `tripUpdateForTrip`
pub record TripUpdate (T : Type 0) : Type 0 where
  pub trip_id : Text
  pub delay : Option ℤ
  pub stop_time_updates : List (StopTimeUpdate T)

-- `event.Delay`, where there is an event
unfoldable pub event_delay : {T : Type 0} → Option (StopTimeEvent T) → Option ℤ
event_delay none = none
event_delay (some e) = e.delay

-- the three ways in which `pickTripLevelDeviation` returns
pub data TripLevel : Type 0 where
  deviation : ℤ → TripLevel
  discard : TripLevel
  no_delay : TripLevel

-- the loop of `pickTripLevelDeviation`
unfoldable pub last_delay : {T : Type 0} → List (TripUpdate T) → Option ℤ → Option ℤ
last_delay [] found = found
last_delay (t ∷ ts) found = last_delay ts (elim t.delay [ none ↦ found | some d ↦ some d ])

unfoldable pub judge : Option ℤ → TripLevel
judge none = no_delay
judge (some d) = if exceeds_block_not_active_threshold d then discard else deviation d

-- `pickTripLevelDeviation`
unfoldable pub pick_trip_level_deviation : {T : Type 0} → List (TripUpdate T) → TripLevel
pick_trip_level_deviation ts = judge (last_delay ts none)

-- `stuDeviationPicker`
pub record Picker : Type 0 where
  pub current_seconds : ℤ
  pub best_delta : ℕ
  pub best_deviation : ℤ
  pub best_is_in_past : Bool
  pub found : Bool

-- `math.MaxInt64`
abbrev pub max_int64 : ℕ
max_int64 = 2 ^ 63 - 1

-- `newSTUDeviationPicker`
unfoldable pub new_picker : ℤ → Picker
new_picker current = record {
  current_seconds = current;
  best_delta = max_int64;
  best_deviation = pos 0;
  best_is_in_past = true;
  found = false;
}

-- `shouldReplace`
unfoldable pub should_replace : ℕ → Bool → Picker → Bool
should_replace delta is_in_past p =
    ltb delta p.best_delta || (not is_in_past && (p.best_is_in_past && leb delta p.best_delta))

unfoldable pub offer : ℕ → Bool → ℤ → Picker → Picker
offer delta is_in_past dev p =
    if should_replace delta is_in_past p
    then record p {
      best_delta = delta;
      best_deviation = dev;
      best_is_in_past = is_in_past;
      found = true;
    }
    else p

-- both times are positive
unfoldable pub is_usable : ℤ → ℤ → Bool
is_usable scheduled predicted = lt_int (pos 0) scheduled && lt_int (pos 0) predicted

-- `consider`
unfoldable pub consider : ℤ → ℤ → Picker → Picker
consider scheduled predicted p =
    if is_usable scheduled predicted
    then offer (abs_int (sub_int predicted p.current_seconds)) (lt_int predicted p.current_seconds)
        (sub_int predicted scheduled) p
    else p

-- `consider` for one pair of a scheduled and a predicted time after another
unfoldable pub consider_all : List (ℤ × ℤ) → Picker → Picker
consider_all [] p = p
consider_all (c ∷ cs) p = consider_all cs (consider c.0 c.1 p)

-- `pickFirstAvailableSTUDelay`
unfoldable pub first_delay : {T : Type 0} → List (StopTimeUpdate T) → Option ℤ → Option ℤ
first_delay [] rest = rest
first_delay (s ∷ ss) rest =
    let later = first_delay ss rest in
    elim (event_delay s.arrival) [
      | some d ↦ some d
      | none ↦ elim (event_delay s.departure) [ some d ↦ some d | none ↦ later ]
    ]

unfoldable pub pick_first_available_stu_delay : {T : Type 0} → List (TripUpdate T) → Option ℤ
pick_first_available_stu_delay [] = none
pick_first_available_stu_delay (t ∷ ts) =
    let rest = pick_first_available_stu_delay ts in first_delay t.stop_time_updates rest
