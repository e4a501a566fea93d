-- ===== src/Deviation/StopDelays.antt =====
-- internal/restapi/trip_updates_helper.go: `GetStopDelaysFromTripUpdates`, the delay of each visit of
-- a trip to a stop, by the stop sequence where it names the visit and else by the stop.
pub mod Scheduled
pub mod Visits
use maglev.Prelude.{
  ℕ, ◌+◌, Bool, true, false, ◌&&◌, Option, none, some, List, [], ◌∷◌, length, Text, text_eq, ◌==◌,
  Map, lookup, insert, if◌then◌else◌, ℤ, pos, int_eq,
}
use maglev.Deviation.{StopTimeUpdate, TripUpdate, event_delay}
use maglev.Deviation.Block.{StopTimeRow}

-- `StopDelayInfo`
pub record StopDelayInfo : Type 0 where
  pub arrival_delay : ℤ
  pub departure_delay : ℤ

-- `StopDelays`
pub record StopDelays : Type 0 where
  pub by_sequence : Map ℤ StopDelayInfo
  pub by_stop_id : Map Text StopDelayInfo

-- `For`
unfoldable pub delay_for : Text → ℤ → StopDelays → Option StopDelayInfo
delay_for stop_id stop_sequence d = elim (lookup stop_sequence d.by_sequence) [
  | some info ↦ some info
  | none ↦ lookup stop_id d.by_stop_id
]

-- `Len`
unfoldable count_delays : StopDelays → ℕ
count_delays d = length d.by_sequence + length d.by_stop_id

-- `staticStopsBySequence`
unfoldable pub static_stops_by_sequence : List StopTimeRow → Map ℤ Text → Map ℤ Text
static_stops_by_sequence [] stops = stops
static_stops_by_sequence (r ∷ rs) stops =
    static_stops_by_sequence rs (insert r.stop_sequence r.stop_id stops)

-- `staticStopsForTrip`; the query returns no rows where it fails
unfoldable static_stops_for_trip : (Text → Option (List StopTimeRow)) → Text → Map ℤ Text
static_stops_for_trip query trip_id = elim (query trip_id) [
  | none ↦ []
  | some rows ↦ static_stops_by_sequence rows []
]

unfoldable pub agrees : Map ℤ Text → ℕ → Text → Bool
agrees [] n stop = true
agrees (s ∷ ss) n stop = elim (lookup (pos n) (s ∷ ss)) [
  | none ↦ false
  | some static_stop ↦ static_stop == stop
]

unfoldable pub or_on_time : Option ℤ → ℤ
or_on_time none = pos 0
or_on_time (some d) = d

unfoldable pub info_of : {T : Type 0} → StopTimeUpdate T → StopDelayInfo
info_of stu = record {
  arrival_delay = or_on_time (event_delay stu.arrival);
  departure_delay = or_on_time (event_delay stu.departure);
}

-- `delays.byStopID[*stu.StopID] = info`
unfoldable pub note_stop : Option Text → StopDelayInfo → StopDelays → StopDelays
note_stop none info d = d
note_stop (some stop) info d = record d { by_stop_id = insert stop info d.by_stop_id }

-- `delays.bySequence[int64(*stu.StopSequence)] = info`
unfoldable pub note_visit : Option ℕ → StopDelayInfo → StopDelays → StopDelays
note_visit none info d = d
note_visit (some n) info d = record d { by_sequence = insert (pos n) info d.by_sequence }

module _ {T : Type 0} (static_stops : Map ℤ Text) where
  -- `sequenceIdentifiesVisit`
  unfoldable pub sequence_identifies_visit : StopTimeUpdate T → Bool
  sequence_identifies_visit stu = elim stu.stop_sequence [
    | none ↦ false
    | some n ↦ elim stu.stop_id [ none ↦ true | some stop ↦ agrees static_stops n stop ]
  ]

  unfoldable pub note : StopTimeUpdate T → StopDelays → StopDelays
  note stu d =
      if sequence_identifies_visit stu
      then note_visit stu.stop_sequence (info_of stu) d
      else note_stop stu.stop_id (info_of stu) d

  -- the loop; an update with neither a stop nor a sequence changes nothing in `note`
  unfoldable pub note_all : List (StopTimeUpdate T) → StopDelays → StopDelays
  note_all [] d = d
  note_all (stu ∷ stus) d = note_all stus (note stu d)

abbrev pub no_delays : StopDelays
no_delays = record { by_sequence = []; by_stop_id = [] }

-- `GetStopDelaysFromTripUpdates`
unfoldable pub get_stop_delays_from_trip_updates :
    {T : Type 0} → (Text → List (TripUpdate T)) → Text → List StopTimeRow → StopDelays
get_stop_delays_from_trip_updates updates_for trip_id stop_times = elim (updates_for trip_id) [
  | [] ↦ no_delays
  | t ∷ ts ↦ note_all (static_stops_by_sequence stop_times []) t.stop_time_updates no_delays
]
