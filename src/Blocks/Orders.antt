-- ===== src/Blocks/Orders.antt =====
-- The trips that `blockShiftTripIDsSortedByStartTime` returns.
use maglev.Prelude.{
  ℕ, zero, suc, ◌≤◌, ◌<◌, true, false, Option, none, some, List, [], ◌∷◌, take, drop, get_elem?,
  Text, text_eq, contains_text-In, In, ℤ, lt_int, ◌≡◌, ◌⊎◌, ◌↔◌, refl, sym, ap, ◌∙◌, subst, arith,
  Bool-cases, Option-cases, inl, inr,
}
use maglev.Blocks.{
  BlockTrip, BlockQueries, BoundsRow, Sort, keep_shift_containing_trip,
  block_trip_ids_for_service_date, start_by_id, all_present, start_of, is_short,
  block_trip_ids_sorted_by_start_time, minimal_trips, ids_of, all_contained, shift_or,
  shift_of_rows, block_shift_trip_ids_sorted_by_start_time,
}
use maglev.Blocks.Shifts.{IsShift, StandsFirst, keep_shift_containing_trip-IsShift}

-- no element has a smaller key than the one before it
abbrev pub IsOrdered : {A : Type 0} → (A → ℤ) → List A → Type 0
IsOrdered f [] = Unit {0}
IsOrdered f (x ∷ []) = Unit {0}
IsOrdered f (x ∷ y ∷ xs) = (lt_int (f y) (f x) ≡ false) × IsOrdered f (y ∷ xs)

-- what `slices.SortFunc` promises
pub record SortLaws (sort : Sort) : Type 1 where
  pub members : {A : Type 0} (f : A → ℤ) (xs : List A) (a : A) → In a (sort.sort_by f xs) ↔ In a xs
  pub ordered : {A : Type 0} (f : A → ℤ) (xs : List A) → IsOrdered f (sort.sort_by f xs)

In-drop-take :
    {A : Type 0} (xs : List A) (start end i : ℕ) (t : A)
    → get_elem? xs i ≡ some t
    → start ≤ i
    → i < end
    → In t (drop start (take end xs))
In-drop-take [] start end i t g h k = absurd (cc g)
In-drop-take (x ∷ xs) start zero i t g h k = absurd (omega arith)
In-drop-take (x ∷ xs) zero (suc end) zero t g h k = inl (cc g)
In-drop-take (x ∷ xs) zero (suc end) (suc i) t g h k =
    inr (In-drop-take xs zero end i t g (omega arith) (omega arith))
In-drop-take (x ∷ xs) (suc start) (suc end) zero t g h k = absurd (omega arith)
In-drop-take (x ∷ xs) (suc start) (suc end) (suc i) t g h k =
    In-drop-take xs start end i t g (omega arith) (omega arith)

In-ids_of : (t : BlockTrip) (ts : List BlockTrip) → In t ts → In t.id (ids_of ts)
unfolding ids_of
In-ids_of t [] i = absurd i
In-ids_of t (u ∷ ts) (inl e) = inl (ap (λ (x : BlockTrip). x.id) e)
In-ids_of t (u ∷ ts) (inr i) = inr (In-ids_of t ts i)

ids_of-In :
    (target : Text) (ts : List BlockTrip)
    → In target (ids_of ts)
    → (t : BlockTrip) × In t ts × (t.id ≡ target)
unfolding ids_of
ids_of-In target [] i = absurd i
ids_of-In target (u ∷ ts) (inl e) = (u, inl refl, sym e)
ids_of-In target (u ∷ ts) (inr i) = let (t, j, e) = ids_of-In target ts i in (t, inr j, e)

all_contained-In :
    (present raw : List Text) (id : Text)
    → all_contained present raw ≡ true
    → In id raw
    → In id present
unfolding all_contained
all_contained-In present [] id a i = absurd i
all_contained-In present (r ∷ raw) id a (inl e) =
    contains_text-In id present (rw e (ground (arith, a)))
all_contained-In present (r ∷ raw) id a (inr i) =
    all_contained-In present raw id (ground (arith, a)) i

module _ (sort : Sort) (laws : SortLaws sort) (bounds : List Text → Option (List BoundsRow)) where
  -- the sort by start time keeps the trips
  block_trip_ids_sorted_by_start_time-In :
      (ids : List Text) (id : Text)
      → In id (block_trip_ids_sorted_by_start_time sort bounds ids) ↔ In id ids
  unfolding block_trip_ids_sorted_by_start_time
  block_trip_ids_sorted_by_start_time-In ids id = elim (Bool-cases (is_short ids)) [
    | inl s ↦ rw s (λ i. i, λ i. i)
    | inr s ↦ elim (Option-cases (bounds ids)) [
      | inl n ↦ rw (s, n) (λ i. i, λ i. i)
      | inr (rows, n) ↦ elim (Bool-cases (all_present (start_by_id rows []) ids)) [
        | inl p ↦ rw (s, n, p) (laws.members (start_of (start_by_id rows [])) ids id)
        | inr p ↦ rw (s, n, p) (λ i. i, λ i. i)
      ]
    ]
  ]

  abbrev by_start : List BoundsRow → List BlockTrip
  by_start rows = sort.sort_by (λ (t : BlockTrip). t.first_seconds) (minimal_trips rows)

  -- the ways in which the trips of a block are returned
  pub data Returns (target : Text) (raw : List Text) : List Text → Type 0 where
    as_they_are : is_short raw ≡ true → Returns target raw raw
    unsplit :
        (bounds raw ≡ none)
          ⊎ ((rows : List BoundsRow) × (bounds raw ≡ some rows)
              × (all_contained (ids_of (minimal_trips rows)) raw ≡ false))
        → Returns target raw (block_trip_ids_sorted_by_start_time sort bounds raw)
    shift :
        (rows : List BoundsRow) (i start end : ℕ)
        → bounds raw ≡ some rows
        → StandsFirst target (by_start rows) i
        → IsShift (by_start rows) i start end
        → IsOrdered (λ (t : BlockTrip). t.first_seconds) (by_start rows)
        → Returns target raw (ids_of (drop start (take end (by_start rows))))

  shift_or-In :
      (raw : List Text) (ts : List BlockTrip) (t : BlockTrip)
      → In t ts
      → shift_or sort bounds raw ts ≡ ids_of ts
  unfolding shift_or ids_of
  shift_or-In raw [] t i = absurd i
  shift_or-In raw (u ∷ ts) t i = refl

  abbrev Kept : Text → List Text → List Text → Type 0
  Kept target raw r = In target r × Returns target raw r

  Kept-unsplit :
      (target : Text) (raw : List Text)
      → In target raw
      → (bounds raw ≡ none)
        ⊎ ((rows : List BoundsRow) × (bounds raw ≡ some rows)
            × (all_contained (ids_of (minimal_trips rows)) raw ≡ false))
      → Kept target raw (block_trip_ids_sorted_by_start_time sort bounds raw)
  Kept-unsplit target raw i why =
      ((block_trip_ids_sorted_by_start_time-In raw target).1 i, unsplit why)

  Kept-shift :
      (target : Text) (raw : List Text) (rows : List BoundsRow)
      → In target raw
      → bounds raw ≡ some rows
      → all_contained (ids_of (minimal_trips rows)) raw ≡ true
      → Kept target raw
          (shift_or sort bounds raw (keep_shift_containing_trip (by_start rows) target))
  Kept-shift target raw rows i b a =
      elim (keep_shift_containing_trip-IsShift (by_start rows) target) [
        | inl (n, lacks) ↦
            let (t, j, e) =
              ids_of-In target (minimal_trips rows)
                (all_contained-In (ids_of (minimal_trips rows)) raw target a i) in
            absurd (
              lacks t
                ((laws.members (λ (x : BlockTrip). x.first_seconds) (minimal_trips rows) t).1 j) e)
        | inr (k, start, end, first, is_shift, e) ↦
            let (t, g, q) = first.0 in
            let inside = In-drop-take (by_start rows) start end k t g is_shift.from is_shift.to in
            let same : shift_or sort bounds raw (keep_shift_containing_trip (by_start rows) target)
                ≡ ids_of (drop start (take end (by_start rows))) =
              ap (shift_or sort bounds raw) e
              ∙ shift_or-In raw (drop start (take end (by_start rows))) t inside in
            subst (λ (r : List Text). In target r × Returns target raw r) (sym same)
              (
                subst (λ (x : Text). In x (ids_of (drop start (take end (by_start rows))))) q
                    (In-ids_of t (drop start (take end (by_start rows))) inside),
                shift rows k start end b first is_shift
                    (laws.ordered (λ (t : BlockTrip). t.first_seconds) (minimal_trips rows)),
              )
      ]

  -- Where a trip is among those of its block that run on the service date, it is among the trips
  -- returned for it, and those are the trips as they are if there is at most one; else those of the shift
  -- of the trip in the block's trips ordered by their start; else, only if the query of the bounds fails or lacks
  -- a bound of a trip, all of them, sorted where their starts are known. The sort is one that keeps
  -- the elements and orders them by the key.
  pub block_shift_trip_ids_sorted_by_start_time_lem :
      (q : BlockQueries) (target : Text)
      → In target (block_trip_ids_for_service_date q target)
      → In target (block_shift_trip_ids_sorted_by_start_time sort bounds q target)
        × Returns target
            (block_trip_ids_for_service_date q target)
            (block_shift_trip_ids_sorted_by_start_time sort bounds q target)
  unfolding block_shift_trip_ids_sorted_by_start_time shift_of_rows
  block_shift_trip_ids_sorted_by_start_time_lem q target i =
      let raw = block_trip_ids_for_service_date q target in
      elim (Bool-cases (is_short raw)) [
        | inl s ↦ rw (s, block_shift_trip_ids_sorted_by_start_time) (i, as_they_are s)
        | inr s ↦ elim (Option-cases (bounds raw)) [
          | inl n ↦
              rw (s, n, block_shift_trip_ids_sorted_by_start_time)
                (Kept-unsplit target raw i (inl n))
          | inr (rows, b) ↦ elim (Bool-cases (all_contained (ids_of (minimal_trips rows)) raw)) [
            | inl a ↦
                rw (s, b, a, block_shift_trip_ids_sorted_by_start_time)
                  (Kept-shift target raw rows i b a)
            | inr a ↦
                rw (s, b, a, block_shift_trip_ids_sorted_by_start_time)
                  (Kept-unsplit target raw i (inr (rows, b, a)))
          ]
        ]
      ]
