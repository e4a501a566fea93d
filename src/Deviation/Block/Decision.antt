-- ===== src/Deviation/Block/Decision.antt =====
-- What `GetScheduleDeviationForBlock` returns: the last delay of a trip, else the deviation of the stop
-- time predicted closest to now, else the first delay of a stop time update, and nothing beyond an hour.
use maglev.Prelude.{
  ◌≤◌, ◌<◌, true, false, Option, none, some, List, [], ◌∷◌, Text, In, ℤ, sub_int, abs_int, ◌≡◌, ◌⊎◌,
  refl, sym, ◌∙◌, subst, Option-cases, inl, inr,
}
use maglev.Deviation.{TripUpdate, max_int64, last_delay}
use maglev.Deviation.Block.FirstDelays.{first_listed, listed_delays}
use maglev.Deviation.Closest.{distance, has_passed, usable}
use maglev.Deviation.Block.{
  Calendar, StopTimeRow, Schedules, calculate_seconds_since_service_date, load_scheduled_for_trips,
  distinct_trip_ids, pick_closest_stu_deviation, deviation_of_updates, collect_block_trip_updates,
  get_schedule_deviation_for_block,
}
use maglev.Deviation.Block.Candidates.{candidates}
use maglev.Deviation.Block.Levels.{
  judge_cases, AreQuiet, LastDelay, trip_level, from_stop_times-within,
}

-- a pair that is predicted closest to now; of two that are as close, one that has not passed
pub record IsClosest (now : ℤ) (cs : List (ℤ × ℤ)) (c : ℤ × ℤ) : Type 0 where
  pub among : In c cs
  pub both_positive : usable c ≡ true
  pub closest : (d : ℤ × ℤ) → In d cs → usable d ≡ true → distance now c ≤ distance now d
  pub upcoming :
      (d : ℤ × ℤ)
      → In d cs
      → usable d ≡ true
      → distance now c ≡ distance now d
      → has_passed now d ≡ false
      → has_passed now c ≡ false

-- a delay counts up to an hour either way
abbrev pub IsGated : Option ℤ → Option ℤ → Type 0
IsGated none r = r ≡ none
IsGated (some d) r = ((abs_int d ≤ 3600) × (r ≡ some d)) ⊎ ((3600 < abs_int d) × (r ≡ none))

-- what the documentation of `GetScheduleDeviationForBlock` says of its result
pub data Decides {T : Type 0} (now : ℤ) (ts : List (TripUpdate T)) (cs : List (ℤ × ℤ))
    : Option ℤ → Type 0 where
  by_trip : (d : ℤ) (r : Option ℤ) → LastDelay ts d → IsGated (some d) r → Decides now ts cs r
  by_stop_time :
      AreQuiet ts
      → (c : ℤ × ℤ) (r : Option ℤ) → IsClosest now cs c
      → IsGated (some (sub_int c.1 c.0)) r
      → Decides now ts cs r
  by_first_delay :
      AreQuiet ts
      → ((c : ℤ × ℤ) → In c cs → usable c ≡ false)
      → (r : Option ℤ) → IsGated (first_listed (listed_delays ts)) r
      → Decides now ts cs r

module _ {T : Type 0} (calendar : Calendar T) (service_date current_time : T)
    (query : List Text → Option (List StopTimeRow)) where
  abbrev pub now_seconds : ℤ
  now_seconds = calculate_seconds_since_service_date calendar current_time service_date

  module _ (ts : List (TripUpdate T)) (m : Schedules)
      (loaded : load_scheduled_for_trips query (distinct_trip_ids ts []) ≡ some m) where
    abbrev pairs : List (ℤ × ℤ)
    pairs = candidates calendar service_date current_time m ts

    abbrev Near : Type 0
    Near = (c : ℤ × ℤ) → In c pairs → usable c ≡ true → distance now_seconds c < max_int64

  deviation_of_updates-collect :
      (updates_for : Text → List (TripUpdate T)) (ids : List Text)
      → get_schedule_deviation_for_block calendar service_date current_time query updates_for ids
        ≡ deviation_of_updates calendar service_date current_time query
            (collect_block_trip_updates updates_for ids)
  unfolding get_schedule_deviation_for_block collect_block_trip_updates deviation_of_updates
  deviation_of_updates-collect updates_for [] = refl
  deviation_of_updates-collect updates_for (id ∷ ids) = refl

  deviation_of_updates-within :
      (ts : List (TripUpdate T)) (d : ℤ)
      → deviation_of_updates calendar service_date current_time query ts ≡ some (some d)
      → abs_int d ≤ 3600
  unfolding deviation_of_updates
  deviation_of_updates-within [] d e = absurd (cc e)
  deviation_of_updates-within (t ∷ ts) d e = elim (judge_cases (last_delay (t ∷ ts) none)) [
    | inl (p, n) ↦
        elim (Option-cases
          (pick_closest_stu_deviation calendar service_date current_time query (t ∷ ts))) [
            | inl q ↦ absurd (cc (rw (trip_level (t ∷ ts) ∙ p, deviation_of_updates, q) at e))
            | inr (o, q) ↦
                from_stop_times-within (t ∷ ts) o d
                  (cc (rw (trip_level (t ∷ ts) ∙ p, deviation_of_updates, q) at e))
          ]
    | inr (inl p) ↦ absurd (cc (rw (trip_level (t ∷ ts) ∙ p, deviation_of_updates) at e))
    | inr (inr (c, p, h)) ↦
        let same : c ≡ d = cc (rw (trip_level (t ∷ ts) ∙ p, deviation_of_updates) at e) in
        subst (λ (x : ℤ). abs_int x ≤ 3600) same h
  ]

  -- A deviation that `GetScheduleDeviationForBlock` returns is at most an hour either way, whatever the
  -- updates and the schedules say.
  get_schedule_deviation_for_block-within :
      (updates_for : Text → List (TripUpdate T)) (ids : List Text) (d : ℤ)
      → get_schedule_deviation_for_block calendar service_date current_time query updates_for ids
        ≡ some (some d)
      → abs_int d ≤ 3600
  get_schedule_deviation_for_block-within updates_for ids d e =
      deviation_of_updates-within (collect_block_trip_updates updates_for ids) d
        (sym (deviation_of_updates-collect updates_for ids) ∙ e)
