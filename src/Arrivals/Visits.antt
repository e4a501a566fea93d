-- ===== src/Arrivals/Visits.antt =====
-- internal/restapi/arrival_and_departure_for_stop_handler.go: `findStopTimeForTripStop`, the visit of a
-- trip to a stop, by its position among the stop times or by the time that is closest to the query's.
pub mod Scans
pub mod Nearest
use maglev.Prelude.{
  ℕ, zero, suc, ◌+◌, ◌-◌, min, Bool, true, false, ◌||◌, not, Option, none, some, List, [], ◌∷◌,
  length, get_elem?, Text, text_eq, ◌==◌, ltb, if◌then◌else◌, ℤ, pos, negsuc, sub_int, abs_int,
}
use maglev.Deviation.Block.{StopTimeRow}

-- the variables of both loops: the visit, its index and its distance, once one is found
pub record Best : Type 0 where
  pub visit : StopTimeRow
  pub index : ℕ
  pub delta : ℕ

-- `!found || delta < bestDelta`
unfoldable pub is_better : ℕ → Option Best → Bool
is_better delta none = true
is_better delta (some b) = ltb delta b.delta

unfoldable pub keep_better : StopTimeRow → ℕ → ℕ → Option Best → Option Best
keep_better st i delta best =
    if is_better delta best then some (record { visit = st; index = i; delta = delta }) else best

-- a loop over the rows from the index `i`, whose body measures the rows of the stop
unfoldable pub scan_visits :
    (ℕ → StopTimeRow → ℕ) → Text → ℕ → List StopTimeRow → Option Best → Option Best
scan_visits measure stop_code i [] best = best
scan_visits measure stop_code i (st ∷ sts) best =
    scan_visits measure stop_code (suc i) sts
      (if st.stop_id == stop_code then keep_better st i (measure i st) best else best)

-- `delta` of `findClosestStopTime`
unfoldable pub time_distance : ℤ → ℕ → StopTimeRow → ℕ
time_distance query_offset i st =
    min (abs_int (sub_int query_offset st.arrival_time))
      (abs_int (sub_int query_offset st.departure_time))

-- `dist` of `findStopTimeByPosition`
unfoldable pub index_distance : ℕ → ℕ → StopTimeRow → ℕ
index_distance idx i st = abs_int (sub_int (pos i) (pos idx))

-- the results of both functions, `none` where `found` is false
unfoldable pub found_visit : Option Best → Option (StopTimeRow × ℕ)
found_visit none = none
found_visit (some b) = some (b.visit, b.index)

-- `findClosestStopTime`
unfoldable pub find_closest_stop_time : List StopTimeRow → Text → ℤ → Option (StopTimeRow × ℕ)
find_closest_stop_time sts stop_code query_offset =
    found_visit (scan_visits (time_distance query_offset) stop_code 0 sts none)

-- the row at `idx`, if it is a visit to the stop
unfoldable pub exact_hit : List StopTimeRow → Text → ℕ → Option StopTimeRow
exact_hit sts stop_code idx = elim (get_elem? sts idx) [
  | none ↦ none
  | some st ↦ if st.stop_id == stop_code then some st else none
]

-- `findStopTimeByPosition`, for an index that is not negative, as its caller checks. Its loop keeps the
-- index of the best row, and the return reads the row there.
unfoldable pub find_stop_time_by_position : List StopTimeRow → Text → ℕ → Option (StopTimeRow × ℕ)
find_stop_time_by_position [] stop_code requested_index = none
find_stop_time_by_position (st ∷ sts) stop_code requested_index =
    let idx = min requested_index (length (st ∷ sts) - 1) in
    elim (exact_hit (st ∷ sts) stop_code idx) [
      | some hit ↦ some (hit, idx)
      | none ↦ found_visit (scan_visits (index_distance idx) stop_code 0 (st ∷ sts) none)
    ]

-- `findStopTimeForTripStop`
unfoldable pub find_stop_time_for_trip_stop :
    List StopTimeRow → Text → Option ℤ → ℤ → Option (StopTimeRow × ℕ)
find_stop_time_for_trip_stop sts stop_code none query_offset =
    find_closest_stop_time sts stop_code query_offset
find_stop_time_for_trip_stop sts stop_code (some (negsuc n)) query_offset =
    find_closest_stop_time sts stop_code query_offset
find_stop_time_for_trip_stop sts stop_code (some (pos n)) query_offset =
    find_stop_time_by_position sts stop_code n
