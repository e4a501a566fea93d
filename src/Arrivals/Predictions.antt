-- ===== src/Arrivals/Predictions.antt =====
-- internal/restapi/arrival_and_departure_for_stop_handler.go: `getPredictedTimes`, the predicted
-- arrival and departure of a trip at a stop, from the update of the visit, else from the delay of the
-- closest stop before it, else from the delay of the trip.
pub mod Targets
pub mod Priors
pub mod Given
pub mod Times
use maglev.Prelude.{
  ℕ, Bool, true, false, ◌&&◌, ◌||◌, not, Option, none, some, List, [], ◌∷◌, Text, text_eq, ◌==◌,
  Map, if◌then◌else◌, ℤ, pos, negsuc, lt_int, int_beq, is_some,
}
use maglev.Deviation.{StopTimeEvent, StopTimeUpdate, TripUpdate, event_delay}
use maglev.Deviation.Block.{StopTimeRow}
use maglev.Deviation.StopDelays.{static_stops_by_sequence, sequence_identifies_visit}

-- what the code calls of `time.Time`: `u.Sub(t)` and `t.Add(d)`
pub record Clock (T : Type 0) : Type 0 where
  pub sub : T → T → ℤ
  pub add : T → ℤ → T

-- `-1`
abbrev pub minus_one : ℤ
minus_one = negsuc 0

-- `seq`
unfoldable pub sequence_of : {T : Type 0} → StopTimeUpdate T → ℤ
sequence_of stu = elim stu.stop_sequence [ none ↦ minus_one | some n ↦ pos n ]

-- `matchesStop`
unfoldable pub matches_stop : {T : Type 0} → Text → StopTimeUpdate T → Bool
matches_stop stop_code stu = elim stu.stop_id [ none ↦ false | some stop ↦ stop == stop_code ]

-- the variables of the loop, less `staticStops`
pub record Scan (T : Type 0) : Type 0 where
  pub target : Option (StopTimeUpdate T)
  pub stop_id_fallback : Option (StopTimeUpdate T)
  pub closest_prior_sequence : ℤ
  pub propagated_delay : ℤ

-- the result of `staticStopsForTrip`, an empty map where the query fails; `none` is nil
unfoldable pub load_static_stops : Option (List StopTimeRow) → Option (Map ℤ Text)
load_static_stops none = some []
load_static_stops (some rows) = some (static_stops_by_sequence rows [])

-- the entries of the map, which is empty where it is nil
unfoldable pub entries : Option (Map ℤ Text) → Map ℤ Text
entries none = []
entries (some m) = m

-- the delay that a stop before the target passes on
unfoldable pub passed_on : {T : Type 0} → StopTimeUpdate T → ℤ
passed_on stu = elim (event_delay stu.departure) [
  | some d ↦ d
  | none ↦ elim (event_delay stu.arrival) [ some d ↦ d | none ↦ pos 0 ]
]

-- the condition of the first case of the switch
unfoldable pub names_visit : {T : Type 0} → Text → ℤ → StopTimeUpdate T → Bool
names_visit stop_code target_sequence stu =
    int_beq (sequence_of stu) target_sequence
    && (not (is_some stu.stop_id) || matches_stop stop_code stu)

-- the closest stop before the target
unfoldable pub note_prior : {T : Type 0} → ℤ → StopTimeUpdate T → Scan T → Scan T
note_prior target_sequence stu s =
    if (not (int_beq (sequence_of stu) minus_one) && lt_int (sequence_of stu) target_sequence)
      && lt_int s.closest_prior_sequence (sequence_of stu)
    then record s { closest_prior_sequence = sequence_of stu; propagated_delay = passed_on stu }
    else s

module _ {T : Type 0} (query : Option (List StopTimeRow)) where
  -- `staticStops` where the second case reads it: loaded at its first use
  unfoldable pub static_stops_for : StopTimeUpdate T → Option (Map ℤ Text) → Option (Map ℤ Text)
  static_stops_for stu loaded =
      if not (int_beq (sequence_of stu) minus_one) && not (is_some loaded)
      then load_static_stops query
      else loaded

  -- the second case of the switch
  unfoldable pub try_fallback :
      StopTimeUpdate T → Option (Map ℤ Text) → Scan T → Option (Map ℤ Text) × Scan T
  try_fallback stu loaded s =
      if sequence_identifies_visit (entries (static_stops_for stu loaded)) stu
      then (static_stops_for stu loaded, s)
      else (static_stops_for stu loaded, record s { stop_id_fallback = some stu })

module _ {T : Type 0} (query : Option (List StopTimeRow)) (stop_code : Text)
    (target_sequence : ℤ) where
  -- the switch
  unfoldable pub choose :
      StopTimeUpdate T → Option (Map ℤ Text) → Scan T → Option (Map ℤ Text) × Scan T
  choose stu loaded s =
      if names_visit stop_code target_sequence stu
      then (if is_some s.target then (loaded, s) else (loaded, record s { target = some stu }))
      else (if matches_stop stop_code stu && not (is_some s.stop_id_fallback)
          then try_fallback query stu loaded s
          else (loaded, s))

  -- the loop over the updates of the trip
  unfoldable pub scan : List (StopTimeUpdate T) → Option (Map ℤ Text) → Scan T → Scan T
  scan [] loaded s = s
  scan (stu ∷ stus) loaded s =
      let next = choose stu loaded s in scan stus next.0 (note_prior target_sequence stu next.1)

abbrev pub nothing_seen : {T : Type 0} → Scan T
nothing_seen = record {
  target = none;
  stop_id_fallback = none;
  closest_prior_sequence = minus_one;
  propagated_delay = pos 0;
}

-- `target`, once the fallback stands in for it
unfoldable pub final_target : {T : Type 0} → Scan T → Option (StopTimeUpdate T)
final_target s = elim s.target [ some stu ↦ some stu | none ↦ s.stop_id_fallback ]

-- `arrivalOffset` or `departureOffset` of the target's event
unfoldable pub event_offset : {T : Type 0} → Clock T → T → Option (StopTimeEvent T) → Option ℤ
event_offset clock scheduled none = none
event_offset clock scheduled (some e) = elim e.time [
  | some t ↦ some (clock.sub t scheduled)
  | none ↦ e.delay
]

-- the two offsets before one side stands in for the other; `none` is the return without a prediction
unfoldable pub tier_offsets :
    {T : Type 0} → Clock T → T → T → TripUpdate T → Scan T → Option (Option ℤ × Option ℤ)
tier_offsets clock arrival departure trip s = elim (final_target s) [
  | some stu ↦
      some (event_offset clock arrival stu.arrival, event_offset clock departure stu.departure)
  | none ↦
      if not (int_beq s.closest_prior_sequence minus_one)
      then some (some s.propagated_delay, some s.propagated_delay)
      else elim trip.delay [ some d ↦ some (some d, some d) | none ↦ none ]
]

-- the present side is copied to the missing one, and `propagatedDelay` to both if both are missing
unfoldable pub complete_offsets : ℤ → Option ℤ × Option ℤ → ℤ × ℤ
complete_offsets propagated (some a, some d) = (a, d)
complete_offsets propagated (some a, none) = (a, a)
complete_offsets propagated (none, some d) = (d, d)
complete_offsets propagated (none, none) = (propagated, propagated)

unfoldable pub is_silent : {T : Type 0} → TripUpdate T → Bool
is_silent trip = elim trip.stop_time_updates [ [] ↦ not (is_some trip.delay) | _ ∷ _ ↦ false ]

-- the part of `getPredictedTimes` after its loop
unfoldable pub predict : {T : Type 0} → Clock T → T → T → TripUpdate T → Scan T → Option (T × T)
predict clock arrival departure trip s = elim (tier_offsets clock arrival departure trip s) [
  | none ↦ none
  | some offsets ↦
      let (a, d) = complete_offsets s.propagated_delay offsets in
      some (clock.add arrival a, clock.add departure d)
]

-- `getPredictedTimes`; `none` where it returns `predicted` as false. The trip update is that of
-- `GetTripUpdateByID`, the rows those of the trip's query.
unfoldable pub get_predicted_times :
    {T : Type 0}
    → Clock T
    → Option (TripUpdate T)
    → Option (List StopTimeRow)
    → Text
    → ℤ
    → T
    → T
    → Option (T × T)
get_predicted_times clock none query stop_code target_sequence arrival departure = none
get_predicted_times clock (some trip) query stop_code target_sequence arrival departure =
    if is_silent trip
    then none
    else predict clock arrival departure trip
        (scan query stop_code target_sequence trip.stop_time_updates none nothing_seen)
