-- ===== src/Deviation/Block/Levels.antt =====
-- What the delays of the trips decide in `GetScheduleDeviationForBlock`, and what they leave open.
use maglev.Prelude.{
  ◌≤◌, true, false, Option, none, some, List, [], ◌∷◌, ◌++◌, Text, In, ℤ, abs_int, ◌≡◌, ◌⊎◌, refl,
  ap, ◌∙◌, arith, Bool-cases, Option-cases, inl, inr,
}
use maglev.Deviation.{
  TripUpdate, deviation, discard, no_delay, exceeds_block_not_active_threshold, last_delay, judge,
  pick_trip_level_deviation, pick_first_available_stu_delay,
}
use maglev.Deviation.Delays.{exceeds-eq, pick_trip_level_deviation-last}
use maglev.Deviation.Block.{
  Calendar, StopTimeRow, pick_closest_stu_deviation, within_threshold, from_stop_times,
  deviation_of_updates,
}

within_threshold-bound : (d e : ℤ) → within_threshold d ≡ some e → abs_int e ≤ 3600
unfolding within_threshold
within_threshold-bound d e h = ground (arith, exceeds-eq d, exceeds-eq e)

pub judge_cases :
    (o : Option ℤ)
    → (judge o ≡ no_delay) × (o ≡ none)
      ⊎ (judge o ≡ discard)
      ⊎ ((d : ℤ) × (judge o ≡ deviation d) × (abs_int d ≤ 3600))
unfolding judge
judge_cases none = inl (refl, refl)
judge_cases (some d) = elim (Bool-cases (exceeds_block_not_active_threshold d)) [
  | inl e ↦ inr (inl (rw e refl))
  | inr e ↦ inr (inr (d, rw e refl, ground (arith, exceeds-eq d, e)))
]

no_last_delay :
    {T : Type 0} (ts : List (TripUpdate T))
    → ((t : TripUpdate T) → In t ts → t.delay ≡ none)
    → last_delay ts none ≡ none
unfolding last_delay
no_last_delay [] quiet = refl
no_last_delay (t ∷ ts) quiet = rw (quiet t (inl refl)) (no_last_delay ts (λ u i. quiet u (inr i)))

abbrev pub AreQuiet : {T : Type 0} → List (TripUpdate T) → Type 0
AreQuiet {T} ts = (t : TripUpdate T) → In t ts → t.delay ≡ none

-- the last update of a list with a delay, if there is one
abbrev pub LastDelay : {T : Type 0} → List (TripUpdate T) → ℤ → Type 0
LastDelay {T} ts d =
    (before : List (TripUpdate T)) × (t : TripUpdate T) × (after : List (TripUpdate T)) × (ts
      ≡ before ++ (t ∷ after))
    × (t.delay ≡ some d)
    × AreQuiet after

pub LastDelay-AreQuiet :
    {T : Type 0} (ts : List (TripUpdate T)) → ((d : ℤ) × LastDelay ts d) ⊎ AreQuiet ts
LastDelay-AreQuiet [] = inr (λ t i. absurd i)
LastDelay-AreQuiet (t ∷ ts) = elim (LastDelay-AreQuiet ts) [
  | inl (d, (before, u, after, e, f, quiet)) ↦
      inl (d, (t ∷ before, u, after, ap (◌∷◌ t) e, f, quiet))
  | inr quiet ↦ elim (Option-cases t.delay) [
    | inl n ↦ inr (λ u i. elim i [ inl q ↦ rw q n | inr j ↦ quiet u j ])
    | inr (d, e) ↦ inl (d, ([], t, ts, refl, e, quiet))
  ]
]

quiet_trip_level :
    {T : Type 0} (ts : List (TripUpdate T)) → AreQuiet ts → pick_trip_level_deviation ts ≡ no_delay
unfolding pick_trip_level_deviation judge
quiet_trip_level ts quiet = ap judge (no_last_delay ts quiet)

last_trip_level :
    {T : Type 0} (ts : List (TripUpdate T)) (d : ℤ)
    → LastDelay ts d
    → ((pick_trip_level_deviation ts ≡ deviation d)
        × (exceeds_block_not_active_threshold d ≡ false))
      ⊎ ((pick_trip_level_deviation ts ≡ discard) × (exceeds_block_not_active_threshold d ≡ true))
last_trip_level {T} ts d (before, t, after, e, f, quiet) =
    elim (pick_trip_level_deviation-last before after t d f quiet) [
      | inl (h, p) ↦ inl (ap pick_trip_level_deviation e ∙ p, ground (arith, exceeds-eq d, h))
      | inr (h, p) ↦ inr (ap pick_trip_level_deviation e ∙ p, ground (arith, exceeds-eq d, h))
    ]

not_nil : {A : Type 0} (before after : List A) (a : A) → [] ≡ before ++ (a ∷ after) → ⊥
not_nil [] after a e = cc e
not_nil (b ∷ before) after a e = cc e

pub trip_level :
    {T : Type 0} (ts : List (TripUpdate T))
    → pick_trip_level_deviation ts ≡ judge (last_delay ts none)
unfolding pick_trip_level_deviation
trip_level ts = refl

pub from_stop_times-within :
    {T : Type 0} (ts : List (TripUpdate T)) (o : Option ℤ) (d : ℤ)
    → from_stop_times ts o ≡ some d
    → abs_int d ≤ 3600
unfolding from_stop_times
from_stop_times-within ts (some c) d e = within_threshold-bound c d e
from_stop_times-within ts none d e = elim (Option-cases (pick_first_available_stu_delay ts)) [
  | inl n ↦ absurd (cc (rw n at e))
  | inr (c, n) ↦ within_threshold-bound c d (rw n at e)
]

module _ {T : Type 0} (calendar : Calendar T) (service_date current_time : T)
    (query : List Text → Option (List StopTimeRow)) where
  pub deviation_of_quiet :
      (t : TripUpdate T) (ts : List (TripUpdate T)) (o : Option ℤ)
      → AreQuiet (t ∷ ts)
      → pick_closest_stu_deviation calendar service_date current_time query (t ∷ ts) ≡ some o
      → deviation_of_updates calendar service_date current_time query (t ∷ ts)
        ≡ some (from_stop_times (t ∷ ts) o)
  unfolding deviation_of_updates
  deviation_of_quiet t ts o quiet e =
      rw (quiet_trip_level (t ∷ ts) quiet, deviation_of_updates) (rw e refl)

  pub deviation_of_last :
      (ts : List (TripUpdate T)) (d : ℤ)
      → LastDelay ts d
      → deviation_of_updates calendar service_date current_time query ts ≡ some (within_threshold d)
  unfolding deviation_of_updates within_threshold
  deviation_of_last [] d (before, t, after, e, f, quiet) = absurd (not_nil before after t e)
  deviation_of_last (u ∷ us) d last = elim (last_trip_level (u ∷ us) d last) [
    | inl (p, h) ↦ rw (p, deviation_of_updates) (rw h refl)
    | inr (p, h) ↦ rw (p, deviation_of_updates) (rw h refl)
  ]
