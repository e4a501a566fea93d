-- ===== src/Arrivals/Batched/Memo.antt =====
-- The services of a date that `arrivalsForStops` keeps change no result.
use maglev.Prelude.{
  Option, none, some, List, [], ◌∷◌, ◌++◌, Text, text_eq, lookup, insert, lookup-insert,
  if◌then◌else◌, ◌>>=◌, ℤ, pos, negsuc, int_beq, ◌≡◌, refl, sym, ◌∙◌, ap, arith, inl, inr,
  Bool-cases, Option-cases,
}
use mathlib.Core.List.{append-nil, append_assoc}
use maglev.ServiceDates.{TimePackage}
use maglev.Arrivals.Batched.{
  AgencyGroup, MultiStopInput, BatchQueries, BatchedStopTime, ActiveByDate,
  active_services_for_date, batched_day, batched_stop_times, append_batched_stop_times_for_day,
  append_days, append_groups, load_batched_stop_times,
}

module _ (queries : BatchQueries) where
  -- each kept set is the answer of the query
  abbrev pub IsMemo : ActiveByDate → Type 0
  IsMemo by_date =
      (date : Text) (services : List Text)
      → lookup date by_date ≡ some services
      → queries.active_service_ids date ≡ some services

  -- the services of a date, without the map
  abbrev pub services_of : Text → ℤ → Option (Option (List Text))
  services_of date day_offset = elim (queries.active_service_ids date) [
    | none ↦ if int_beq day_offset (pos 0) then none else some none
    | some services ↦ some (some services)
  ]

  insert-IsMemo :
      (date : Text) (services : List Text) (by_date : ActiveByDate)
      → queries.active_service_ids date ≡ some services
      → IsMemo by_date
      → IsMemo (insert date services by_date)
  insert-IsMemo date services by_date q memo d s e = ground (
    arith,
    lookup-insert {V = List Text} date d services by_date,
    text_eq.beq_iff date d,
    memo d s,
  )

  -- a call answers as the query does, and keeps the map true
  abbrev Answers : Text → ℤ → Option (Option (List Text) × ActiveByDate) → Type 0
  Answers date day_offset none = services_of date day_offset ≡ none
  Answers date day_offset (some (services, by_date)) =
      (services_of date day_offset ≡ some services) × IsMemo by_date

  active_services_for_date-Answers :
      (date : Text) (day_offset : ℤ) (by_date : ActiveByDate)
      → IsMemo by_date
      → Answers date day_offset (active_services_for_date queries date day_offset by_date)
  unfolding active_services_for_date
  active_services_for_date-Answers date day_offset by_date memo =
      elim (Option-cases (lookup date by_date)) [
        | inr (services, l) ↦
            rw (l, active_services_for_date) (rw (memo date services l, services_of) refl, memo)
        | inl l ↦ elim (Option-cases (queries.active_service_ids date)) [
          | inr (services, q) ↦
              rw (l, active_services_for_date, q)
                (rw (q, services_of) refl, insert-IsMemo date services by_date q memo)
          | inl q ↦ elim (Bool-cases (int_beq day_offset (pos 0))) [
            | inl z ↦
                let unread : services_of date day_offset ≡ none = rw (q, services_of, z) refl in
                rw (l, active_services_for_date, q, z) unread
            | inr z ↦
                let skipped : services_of date day_offset ≡ some none =
                  rw (q, services_of, z) refl in
                rw (l, active_services_for_date, q, z) (skipped, memo)
          ]
        ]
      ]

module _ {T L : Type 0} (time : TimePackage T L) (queries : BatchQueries)
    (input : MultiStopInput T) where
  -- the same loops, with each day's services read anew
  unfoldable pub fresh_day : AgencyGroup L → ℤ → Option (List (BatchedStopTime L))
  fresh_day group day =
      services_of queries (queries.date_string (batched_day time input group day)) day
      >>= λ services. some (batched_stop_times time queries input group day services)

  unfoldable pub fresh_days : AgencyGroup L → List ℤ → Option (List (BatchedStopTime L))
  fresh_days group [] = some []
  fresh_days group (day ∷ days) =
      fresh_day group day >>= λ rows. fresh_days group days >>= λ rest. some (rows ++ rest)

  unfoldable pub fresh_groups : List (AgencyGroup L) → Option (List (BatchedStopTime L))
  fresh_groups [] = some []
  fresh_groups (g ∷ gs) = fresh_days g (negsuc 0 ∷ pos 0 ∷ pos 1 ∷ []) >>= λ rows.
      fresh_groups gs >>= λ rest. some (rows ++ rest)

  abbrev State : Type 0
  State = List (BatchedStopTime L) × ActiveByDate

  -- a step fails where the fresh one does, and else appends the fresh rows and keeps the map true
  abbrev Appends :
      List (BatchedStopTime L) → Option (List (BatchedStopTime L)) → Option State → Type 0
  Appends before fresh none = fresh ≡ none
  Appends before fresh (some (after, by_date)) =
      (rows : List (BatchedStopTime L)) × (fresh ≡ some rows)
      × (after ≡ before ++ rows)
      × IsMemo queries by_date

  Appends-then :
      (before : List (BatchedStopTime L)) (fresh later : Option (List (BatchedStopTime L)))
      (r : Option State) (next : State → Option State)
      → Appends before fresh r
      → ((after : List (BatchedStopTime L)) (by_date : ActiveByDate)
          → IsMemo queries by_date
          → Appends after later (next (after, by_date)))
      → Appends before (fresh >>= λ rows. later >>= λ rest. some (rows ++ rest)) (r >>= next)
  Appends-then before fresh later none next a h = rw a refl
  Appends-then before fresh later (some (after, by_date)) next (rows, q, e, memo) h =
      rw q (of_next (next (after, by_date)) (h after by_date memo))
    where
      of_next :
          (r : Option State)
          → Appends after later r
          → Appends before (later >>= λ rest. some (rows ++ rest)) r
      of_next none a = rw a refl
      of_next (some (last, kept)) (rest, p, f, m) = (
        rows ++ rest,
        rw p refl,
        f ∙ ap (λ (x : List (BatchedStopTime L)). x ++ rest) e ∙ append_assoc before rows rest,
        m,
      )

  append_day-Appends :
      (group : AgencyGroup L) (day : ℤ) (before : List (BatchedStopTime L)) (by_date : ActiveByDate)
      → IsMemo queries by_date
      → Appends before
          (fresh_day group day)
          (append_batched_stop_times_for_day time queries input group day (before, by_date))
  unfolding append_batched_stop_times_for_day fresh_day
  append_day-Appends group day before by_date memo =
      let date = queries.date_string (batched_day time input group day) in
      of_answer (active_services_for_date queries date day by_date)
        (active_services_for_date-Answers queries date day by_date memo)
    where
      of_answer :
          (r : Option (Option (List Text) × ActiveByDate))
          → Answers queries (queries.date_string (batched_day time input group day)) day r
          → Appends before
              (fresh_day group day)
              (r >>= λ r. some (before ++ batched_stop_times time queries input group day r.0, r.1))
      of_answer none a = rw (a, fresh_day) refl
      of_answer (some (services, kept)) (a, m) = (
        batched_stop_times time queries input group day services,
        rw (a, fresh_day) refl,
        refl,
        m,
      )

  append_days-Appends :
      (group : AgencyGroup L) (days : List ℤ) (before : List (BatchedStopTime L))
      (by_date : ActiveByDate)
      → IsMemo queries by_date
      → Appends before
          (fresh_days group days)
          (append_days time queries input group days (before, by_date))
  unfolding append_days fresh_days
  append_days-Appends group [] before by_date memo = ([], refl, sym (append-nil before), memo)
  append_days-Appends group (day ∷ days) before by_date memo =
      Appends-then before (fresh_day group day) (fresh_days group days)
        (append_batched_stop_times_for_day time queries input group day (before, by_date))
        (append_days time queries input group days)
        (append_day-Appends group day before by_date memo) (append_days-Appends group days)

  append_groups-Appends :
      (groups : List (AgencyGroup L)) (before : List (BatchedStopTime L)) (by_date : ActiveByDate)
      → IsMemo queries by_date
      → Appends before
          (fresh_groups groups)
          (append_groups time queries input groups (before, by_date))
  unfolding append_groups fresh_groups
  append_groups-Appends [] before by_date memo = ([], refl, sym (append-nil before), memo)
  append_groups-Appends (g ∷ gs) before by_date memo =
      let days = negsuc 0 ∷ pos 0 ∷ pos 1 ∷ [] in
      Appends-then before (fresh_days g days) (fresh_groups gs)
        (append_days time queries input g days (before, by_date))
        (append_groups time queries input gs) (append_days-Appends g days before by_date memo)
        (append_groups-Appends gs)

  -- For any groups of stops, `loadBatchedStopTimes` with its map of the active services of each date
  -- returns the same rows in the same order, or fails alike, as the loops that read the services anew for
  -- every group and day, fail where those of the day itself cannot be read, and skip the other two days.
  pub load_batched_stop_times-fresh :
      (groups : List (AgencyGroup L))
      → load_batched_stop_times time queries input groups ≡ fresh_groups groups
  unfolding load_batched_stop_times lookup
  load_batched_stop_times-fresh groups =
      of_result (append_groups time queries input groups ([], []))
        (append_groups-Appends groups [] [] (λ date services e. absurd (cc e)))
    where
      of_result :
          (r : Option State)
          → Appends [] (fresh_groups groups) r
          → (r >>= λ r. some r.0) ≡ fresh_groups groups
      of_result none a = sym a
      of_result (some (after, by_date)) (rows, q, e, m) = rw (e, q) refl
