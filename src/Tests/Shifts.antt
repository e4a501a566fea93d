-- ===== src/Tests/Shifts.antt =====
-- Trips of a block that two buses run on one day.
use maglev.Prelude.{
  ℕ, ◌*◌, true, false, Option, some, List, [], ◌∷◌, bytes, Text, text_eq, list_beq, contains_text,
  In, if◌then◌else◌, ℤ, pos, negsuc, lt_int, quot_int, ◌≡◌, ◌⊎◌, ◌↔◌, refl, arith, Bool-cases, inl,
  inr,
}
use maglev.Blocks.{
  BlockQueries, BoundsRow, Sort, target_index, overlaps, shift_start, shift_end,
  keep_shift_containing_trip, active_ids, or_fallback, block_trip_ids_for_service_date, is_short,
  minimal_trip, minimal_trips, ids_of, all_contained, shift_or, shift_of_rows,
  block_shift_trip_ids_sorted_by_start_time,
}
use maglev.Blocks.Orders.{
  IsOrdered, SortLaws, Returns, block_shift_trip_ids_sorted_by_start_time_lem,
}

module _ {A : Type 0} (f : A → ℤ) where
  unfoldable pub put : A → List A → List A
  put t [] = t ∷ []
  put t (s ∷ ss) = let later = put t ss in if lt_int (f s) (f t) then s ∷ later else t ∷ s ∷ ss

  unfoldable pub put_all : List A → List A
  put_all [] = []
  put_all (t ∷ ts) = put t (put_all ts)

  put-In : (a t : A) (ss : List A) → In a (put t ss) ↔ ((a ≡ t) ⊎ In a ss)
  unfolding put
  put-In a t [] = (λ h. h, λ h. h)
  put-In a t (s ∷ ss) = elim (Bool-cases (lt_int (f s) (f t))) [
    | inl e ↦ rw e (λ h. ground (arith, (put-In a t ss).0), λ h. ground (arith, (put-In a t ss).1))
    | inr e ↦ rw e (λ h. h, λ h. h)
  ]

  put_all-In : (ts : List A) (a : A) → In a (put_all ts) ↔ In a ts
  unfolding put_all
  put_all-In [] a = (λ h. h, λ h. h)
  put_all-In (t ∷ ts) a = (
    λ h. ground (arith, (put-In a t (put_all ts)).0 h, (put_all-In ts a).0),
    λ h. (put-In a t (put_all ts)).1 (ground (arith, h, (put_all-In ts a).1)),
  )

  asymmetric : (x y : ℤ) → lt_int x y ≡ true → lt_int y x ≡ false
  unfolding lt_int
  asymmetric (pos a) (pos b) h = ground arith
  asymmetric (pos a) (negsuc b) h = absurd (cc h)
  asymmetric (negsuc a) (pos b) h = refl
  asymmetric (negsuc a) (negsuc b) h = ground arith

  put-IsOrdered_after :
      (s t : A) (ss : List A)
      → lt_int (f t) (f s) ≡ false
      → IsOrdered f (s ∷ ss)
      → IsOrdered f (s ∷ put t ss)
  unfolding put
  put-IsOrdered_after s t [] e o = (e, tt)
  put-IsOrdered_after s t (u ∷ ss) e o = elim (Bool-cases (lt_int (f u) (f t))) [
    | inl g ↦ rw g (o.0, put-IsOrdered_after u t ss (asymmetric (f u) (f t) g) o.1)
    | inr g ↦ rw g (e, (g, o.1))
  ]

  put-IsOrdered : (t : A) (ss : List A) → IsOrdered f ss → IsOrdered f (put t ss)
  unfolding put
  put-IsOrdered t [] o = tt
  put-IsOrdered t (u ∷ ss) o = elim (Bool-cases (lt_int (f u) (f t))) [
    | inl g ↦ rw g (put-IsOrdered_after u t ss (asymmetric (f u) (f t) g) o)
    | inr g ↦ rw g (g, o)
  ]

  put_all-IsOrdered : (ts : List A) → IsOrdered f (put_all ts)
  unfolding put_all
  put_all-IsOrdered [] = tt
  put_all-IsOrdered (t ∷ ts) = put-IsOrdered t (put_all ts) (put_all-IsOrdered ts)

abbrev pub insertion_sort : Sort
insertion_sort = record { sort_by = λ f xs. put_all f xs }

pub insertion_sort-SortLaws : SortLaws insertion_sort
insertion_sort-SortLaws = record {
  members = λ f xs a. put_all-In f xs a;
  ordered = λ f xs. put_all-IsOrdered f xs;
}

abbrev bounds_row : Text → ℕ → ℕ → BoundsRow
bounds_row id first last = record {
  id = id;
  min_arrival_time = some (pos (first * 1000000000));
  max_departure_time = some (pos (last * 1000000000));
}

-- "b" starts before "c" ends, so that "a" and "c" are one shift
abbrev bounds : List Text → Option (List BoundsRow)
bounds ids = some (
    bounds_row (bytes "b") 110 200
    ∷ bounds_row (bytes "a") 10 50
    ∷ bounds_row (bytes "c") 60 120
    ∷ [])

abbrev queries : BlockQueries
queries = record {
  get_block_id_by_trip_id = λ id. some (bytes "k");
  get_trips_by_block_id = λ id. some (
      record { id = bytes "a"; service_id = bytes "w" }
      ∷ record { id = bytes "b"; service_id = bytes "w" }
      ∷ record { id = bytes "c"; service_id = bytes "w" }
      ∷ record { id = bytes "d"; service_id = bytes "holiday" }
      ∷ []);
  get_active_service_ids_for_date = some (bytes "w" ∷ []);
}

morning_shift :
    block_shift_trip_ids_sorted_by_start_time insertion_sort bounds queries (bytes "c")
    ≡ bytes "a" ∷ bytes "c" ∷ []
unfolding block_shift_trip_ids_sorted_by_start_time block_trip_ids_for_service_date active_ids
    or_fallback is_short shift_of_rows shift_or all_contained ids_of minimal_trips minimal_trip
    keep_shift_containing_trip target_index shift_start shift_end overlaps put_all put lt_int
    quot_int contains_text list_beq
morning_shift = refl

block_shift_trip_ids_sorted_by_start_time_lem_example :
    In
      (bytes "c")
      (block_shift_trip_ids_sorted_by_start_time insertion_sort bounds queries (bytes "c"))
    × Returns insertion_sort insertion_sort-SortLaws bounds
        (bytes "c")
        (block_trip_ids_for_service_date queries (bytes "c"))
        (block_shift_trip_ids_sorted_by_start_time insertion_sort bounds queries (bytes "c"))
block_shift_trip_ids_sorted_by_start_time_lem_example =
    block_shift_trip_ids_sorted_by_start_time_lem insertion_sort insertion_sort-SortLaws bounds
      queries (bytes "c") in_block
  where
    in_block : In (bytes "c") (block_trip_ids_for_service_date queries (bytes "c"))
    in_block =
        unfold block_trip_ids_for_service_date active_ids or_fallback contains_text list_beq in
        inr (inr (inl refl))
