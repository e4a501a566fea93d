-- ===== src/Arrivals/Visits/Nearest.antt =====
-- The visit that `findStopTimeForTripStop` picks is the nearest one.
use maglev.Prelude.{
  ℕ, ◌+◌, ◌-◌, ◌<◌, min, Option, none, some, List, [], ◌∷◌, length, Text, text_eq, ℤ, pos, negsuc,
  sub_int, abs_int, ◌≡◌, refl, sym, subst, arith, inl, inr, Option-cases,
}
use maglev.Deviation.Block.{StopTimeRow}
use maglev.Arrivals.Visits.{
  scan_visits, time_distance, index_distance, found_visit, find_closest_stop_time, exact_hit,
  find_stop_time_by_position, find_stop_time_for_trip_stop,
}
use maglev.Arrivals.Visits.Scans.{IsVisit, IsNearest, scan_visits-IsNearest}

-- what `findStopTimeForTripStop` measures a visit by
abbrev pub time_gap : ℤ → StopTimeRow → ℕ
time_gap query_offset st =
    min (abs_int (sub_int st.arrival_time query_offset))
      (abs_int (sub_int st.departure_time query_offset))

abbrev pub index_gap : ℕ → ℕ → ℕ
index_gap idx i = (i - idx) + (idx - i)

abbrev pub measure_for : List StopTimeRow → Option ℤ → ℤ → ℕ → StopTimeRow → ℕ
measure_for sts none query_offset i st = time_gap query_offset st
measure_for sts (some (negsuc n)) query_offset i st = time_gap query_offset st
measure_for sts (some (pos n)) query_offset i st = index_gap (min n (length sts - 1)) i

abs_int-sub_int : (a b : ℤ) → abs_int (sub_int a b) ≡ abs_int (sub_int b a)
unfolding abs_int sub_int
abs_int-sub_int (pos a) (pos b) = ground arith
abs_int-sub_int (pos a) (negsuc b) = ground arith
abs_int-sub_int (negsuc a) (pos b) = ground arith
abs_int-sub_int (negsuc a) (negsuc b) = ground arith

time_distance-gap :
    (query_offset : ℤ) (i : ℕ) (st : StopTimeRow)
    → time_distance query_offset i st ≡ time_gap query_offset st
unfolding time_distance
time_distance-gap query_offset i st =
    rw
      (abs_int-sub_int query_offset st.arrival_time, abs_int-sub_int query_offset st.departure_time)
      refl

index_distance-gap : (idx i : ℕ) (st : StopTimeRow) → index_distance idx i st ≡ index_gap idx i
unfolding index_distance abs_int sub_int
index_distance-gap idx i st = ground arith

-- nearest by a measure is nearest by one that is equal
IsNearest-same :
    (f g : ℕ → StopTimeRow → ℕ) (sts : List StopTimeRow) (stop_code : Text)
    (r : Option (StopTimeRow × ℕ))
    → ((i : ℕ) (st : StopTimeRow) → f i st ≡ g i st)
    → IsNearest f sts stop_code r
    → IsNearest g sts stop_code r
IsNearest-same f g sts stop_code none same h = h
IsNearest-same f g sts stop_code (some (visit, index)) same h = (
  h.0,
  λ i st v. omega (arith, h.1 i st v, same i st, same index visit),
  λ i st v l. omega (arith, h.2 i st v l, same i st, same index visit),
)

exact_hit-IsVisit :
    (sts : List StopTimeRow) (stop_code : Text) (idx : ℕ) (st : StopTimeRow)
    → exact_hit sts stop_code idx ≡ some st
    → IsVisit sts stop_code idx st
unfolding exact_hit
exact_hit-IsVisit sts stop_code idx st e = ground arith

abs_int-sub_self :
    (n i : ℕ)
    → (abs_int (sub_int (pos n) (pos n)) ≡ 0) × (i < n → 0 < abs_int (sub_int (pos i) (pos n)))
unfolding abs_int sub_int
abs_int-sub_self n i = (ground arith, λ h. ground arith)

hit-IsNearest :
    (sts : List StopTimeRow) (stop_code : Text) (idx : ℕ) (st : StopTimeRow)
    → exact_hit sts stop_code idx ≡ some st
    → IsNearest (index_distance idx) sts stop_code (some (st, idx))
unfolding index_distance
hit-IsNearest sts stop_code idx st e = (
  exact_hit-IsVisit sts stop_code idx st e,
  λ i s v. omega (arith, (abs_int-sub_self idx i).0),
  λ i s v h. omega (arith, (abs_int-sub_self idx i).0, (abs_int-sub_self idx i).1 h),
)

by_position-IsNearest :
    (sts : List StopTimeRow) (stop_code : Text) (n : ℕ)
    → IsNearest
        (index_distance (min n (length sts - 1)))
        sts
        stop_code
        (find_stop_time_by_position sts stop_code n)
unfolding find_stop_time_by_position
by_position-IsNearest [] stop_code n = λ i st g. absurd (cc g)
by_position-IsNearest (st ∷ sts) stop_code n =
    let idx = min n (length (st ∷ sts) - 1) in
    elim (Option-cases (exact_hit (st ∷ sts) stop_code idx)) [
      | inl e ↦
          let scanned : find_stop_time_by_position (st ∷ sts) stop_code n
              ≡ found_visit (scan_visits (index_distance idx) stop_code 0 (st ∷ sts) none) =
            rw (e, find_stop_time_by_position) refl in
          subst (IsNearest (index_distance idx) (st ∷ sts) stop_code) (sym scanned)
            (scan_visits-IsNearest (index_distance idx) (st ∷ sts) stop_code)
      | inr (hit, e) ↦
          let at_once : find_stop_time_by_position (st ∷ sts) stop_code n ≡ some (hit, idx) =
            rw (e, find_stop_time_by_position) refl in
          subst (IsNearest (index_distance idx) (st ∷ sts) stop_code) (sym at_once)
            (hit-IsNearest (st ∷ sts) stop_code idx hit e)
    ]

-- For any rows of a trip, stop, requested position and query time, `findStopTimeForTripStop` returns a
-- visit to the stop exactly if there is one, and it is the first of the nearest: by the distance of its
-- index from the requested position, cut to the last row, or, where no position or a negative one is
-- requested, by the distance of its arrival or departure from the query time, whichever is less.
pub find_stop_time_for_trip_stop-IsNearest :
    (sts : List StopTimeRow) (stop_code : Text) (requested : Option ℤ) (query_offset : ℤ)
    → IsNearest
        (measure_for sts requested query_offset)
        sts
        stop_code
        (find_stop_time_for_trip_stop sts stop_code requested query_offset)
unfolding find_stop_time_for_trip_stop find_closest_stop_time
find_stop_time_for_trip_stop-IsNearest sts stop_code none query_offset =
    IsNearest-same (time_distance query_offset) (λ i st. time_gap query_offset st) sts stop_code
      (find_closest_stop_time sts stop_code query_offset) (time_distance-gap query_offset)
      (scan_visits-IsNearest (time_distance query_offset) sts stop_code)
find_stop_time_for_trip_stop-IsNearest sts stop_code (some (negsuc n)) query_offset =
    IsNearest-same (time_distance query_offset) (λ i st. time_gap query_offset st) sts stop_code
      (find_closest_stop_time sts stop_code query_offset) (time_distance-gap query_offset)
      (scan_visits-IsNearest (time_distance query_offset) sts stop_code)
find_stop_time_for_trip_stop-IsNearest sts stop_code (some (pos n)) query_offset =
    let idx = min n (length sts - 1) in
    IsNearest-same (index_distance idx) (λ i st. index_gap idx i) sts stop_code
      (find_stop_time_by_position sts stop_code n) (index_distance-gap idx)
      (by_position-IsNearest sts stop_code n)
