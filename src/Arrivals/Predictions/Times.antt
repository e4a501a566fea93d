-- ===== src/Arrivals/Predictions/Times.antt =====
-- `getPredictedTimes` on every branch.
use maglev.Prelude.{
  Option, none, some, List, Text, ℤ, pos, In, ◌≡◌, refl, sym, subst, ◌∙◌, arith, ◌⊎◌, inl, inr,
  int_beq, Bool-cases, Option-cases, true, false, [],
}
use maglev.Deviation.{StopTimeUpdate, StopTimeEvent, TripUpdate}
use maglev.Deviation.Block.{StopTimeRow}
use maglev.Arrivals.Predictions.{
  Clock, Scan, nothing_seen, minus_one, sequence_of, passed_on, scan, final_target, event_offset,
  tier_offsets, complete_offsets, is_silent, predict, get_predicted_times,
}
use maglev.Arrivals.Predictions.Given.{
  visit_of, visit_of-update, PassesOn, passed_on-PassesOn, Gives, event_offset-Gives, Completes,
  complete_offsets-Completes,
}
use maglev.Arrivals.Predictions.Targets.{visit_update, final_target-scan}
use maglev.Arrivals.Predictions.Priors.{IsClosest, NoneBefore, Seen, scan-Seen}

-- what `time.Time` promises: `t.Add(u.Sub(t))` is `u`
pub record ClockLaws {T : Type 0} (clock : Clock T) : Type 0 where
  pub add-sub : (t u : T) → clock.add t (clock.sub u t) ≡ u

module _ {T : Type 0} (target_sequence : ℤ) where
  sequence_of_closest :
      {stus : List (StopTimeUpdate T)} {stu : StopTimeUpdate T}
      → IsClosest target_sequence stus stu
      → int_beq (sequence_of stu) minus_one ≡ false
  sequence_of_closest c = let before = c.before in ground arith

  -- the delay that reaches the stop from the closest one before it
  abbrev pub Propagates : List (StopTimeUpdate T) → ℤ → Type 0
  Propagates stus d =
      (NoneBefore target_sequence stus × (d ≡ pos 0))
      ⊎ ((stu : StopTimeUpdate T) × IsClosest target_sequence stus stu × PassesOn stu d)

module _ {T : Type 0} (query : Option (List StopTimeRow)) (stop_code : Text)
    (target_sequence : ℤ) where
  -- what a prediction is made from
  pub data Predicts (clock : Clock T) (trip : TripUpdate T) (arrival departure : T)
      : Option (T × T) → Type 0 where
    from_visit :
        (stu : StopTimeUpdate T) (propagated : ℤ) (a d : Option ℤ) (late_by late_after : ℤ)
        → visit_of stop_code query target_sequence trip.stop_time_updates ≡ some stu
        → Propagates target_sequence trip.stop_time_updates propagated
        → Gives clock arrival stu.arrival a
        → Gives clock departure stu.departure d
        → Completes propagated a d late_by late_after
        → Predicts clock trip arrival departure
            (some (clock.add arrival late_by, clock.add departure late_after))
    from_prior :
        (stu : StopTimeUpdate T) (d : ℤ)
        → visit_of stop_code query target_sequence trip.stop_time_updates ≡ none
        → IsClosest target_sequence trip.stop_time_updates stu
        → PassesOn stu d
        → Predicts clock trip arrival departure (some (clock.add arrival d, clock.add departure d))
    from_trip :
        (d : ℤ)
        → visit_of stop_code query target_sequence trip.stop_time_updates ≡ none
        → NoneBefore target_sequence trip.stop_time_updates
        → trip.delay ≡ some d
        → Predicts clock trip arrival departure (some (clock.add arrival d, clock.add departure d))
    no_prediction :
        visit_of stop_code query target_sequence trip.stop_time_updates ≡ none
        → NoneBefore target_sequence trip.stop_time_updates
        → trip.delay ≡ none
        → Predicts clock trip arrival departure none

module _ {T : Type 0} (clock : Clock T) where
  event_offset_time :
      (scheduled : T) (e : StopTimeEvent T) (at : T)
      → e.time ≡ some at
      → event_offset clock scheduled (some e) ≡ some (clock.sub at scheduled)
  unfolding event_offset
  event_offset_time scheduled e at h = rw h refl

module _ {T : Type 0} (clock : Clock T) (arrival departure : T) (trip : TripUpdate T)
    (s : Scan T) where
  -- the times that two offsets give
  abbrev times : ℤ × ℤ → Option (T × T)
  times offsets = some (clock.add arrival offsets.0, clock.add departure offsets.1)

  predict-some :
      (offsets : Option ℤ × Option ℤ)
      → tier_offsets clock arrival departure trip s ≡ some offsets
      → predict clock arrival departure trip s ≡ times (complete_offsets s.propagated_delay offsets)
  unfolding predict
  predict-some offsets e = rw (e, predict) refl

  predict-none :
      tier_offsets clock arrival departure trip s ≡ none
      → predict clock arrival departure trip s ≡ none
  unfolding predict
  predict-none e = rw (e, predict) refl

  tier_visit :
      (stu : StopTimeUpdate T)
      → final_target s ≡ some stu
      → tier_offsets clock arrival departure trip s
        ≡ some (event_offset clock arrival stu.arrival, event_offset clock departure stu.departure)
  unfolding tier_offsets
  tier_visit stu e = rw (e, tier_offsets) refl

  tier_prior :
      (d : ℤ)
      → final_target s ≡ none
      → int_beq s.closest_prior_sequence minus_one ≡ false
      → s.propagated_delay ≡ d
      → tier_offsets clock arrival departure trip s ≡ some (some d, some d)
  unfolding tier_offsets
  tier_prior d e h p = rw (e, tier_offsets) (rw (h, p) refl)

  tier_trip :
      final_target s ≡ none
      → s.closest_prior_sequence ≡ minus_one
      → tier_offsets clock arrival departure trip s
        ≡ elim trip.delay [ some d ↦ some (some d, some d) | none ↦ none ]
  unfolding tier_offsets int_beq
  tier_trip e h = rw (e, tier_offsets) (rw h refl)

module _ {T : Type 0} (query : Option (List StopTimeRow)) (stop_code : Text) (target_sequence : ℤ)
    (clock : Clock T) (trip : TripUpdate T) (arrival departure : T) where
  abbrev Outcome : Option (T × T) → Type 0
  Outcome = Predicts query stop_code target_sequence clock trip arrival departure

  Seen-Propagates :
      (s : Scan T)
      → Seen target_sequence trip.stop_time_updates s
      → Propagates target_sequence trip.stop_time_updates s.propagated_delay
  Seen-Propagates s (inl (unseen, c, p)) = inl (unseen, p)
  Seen-Propagates s (inr (best, closest, c, p)) =
      inr (best, closest, subst (PassesOn best) (sym p) (passed_on-PassesOn best))

  untargeted-Predicts :
      (s : Scan T)
      → final_target s ≡ none
      → visit_of stop_code query target_sequence trip.stop_time_updates ≡ none
      → Seen target_sequence trip.stop_time_updates s
      → Predicts query stop_code target_sequence clock trip arrival departure
          (predict clock arrival departure trip s)
  unfolding complete_offsets
  untargeted-Predicts s e v (inl (unseen, c, p)) = elim (Option-cases trip.delay) [
    | inl n ↦
        subst Outcome
          (sym (
            predict-none clock arrival departure trip s
              (tier_trip clock arrival departure trip s e c ∙ rw n refl)))
          (no_prediction v unseen n)
    | inr (d, n) ↦
        subst Outcome
          (sym (
            predict-some clock arrival departure trip s (some d, some d)
              (tier_trip clock arrival departure trip s e c ∙ rw n refl)))
          (from_trip d v unseen n)
  ]
  untargeted-Predicts s e v (inr (best, closest, c, p)) =
      subst Outcome
        (sym (
          predict-some clock arrival departure trip s (some (passed_on best), some (passed_on best))
            (tier_prior clock arrival departure trip s (passed_on best) e
              (rw c (sequence_of_closest target_sequence closest)) p)))
        (from_prior best (passed_on best) v closest (passed_on-PassesOn best))

  predict-Predicts :
      (s : Scan T)
      → final_target s ≡ visit_update query stop_code target_sequence trip.stop_time_updates
      → Seen target_sequence trip.stop_time_updates s
      → Predicts query stop_code target_sequence clock trip arrival departure
          (predict clock arrival departure trip s)
  predict-Predicts s e seen =
      elim (Option-cases (visit_update query stop_code target_sequence trip.stop_time_updates)) [
        | inl v ↦ untargeted-Predicts s (e ∙ v) (visit ∙ v) seen
        | inr (stu, v) ↦
            subst Outcome
              (sym (
                predict-some clock arrival departure trip s
                  (
                    event_offset clock arrival stu.arrival,
                    event_offset clock departure stu.departure,
                  )
                  (tier_visit clock arrival departure trip s stu (e ∙ v))))
              (from_visit stu s.propagated_delay (event_offset clock arrival stu.arrival)
                (event_offset clock departure stu.departure)
                (complete_offsets s.propagated_delay (
                  event_offset clock arrival stu.arrival,
                  event_offset clock departure stu.departure,
                )).0
                (complete_offsets s.propagated_delay (
                  event_offset clock arrival stu.arrival,
                  event_offset clock departure stu.departure,
                )).1
                (visit ∙ v) (Seen-Propagates s seen) (event_offset-Gives clock arrival stu.arrival)
                (event_offset-Gives clock departure stu.departure)
                (complete_offsets-Completes s.propagated_delay
                  (event_offset clock arrival stu.arrival)
                  (event_offset clock departure stu.departure)))
      ]
    where
      visit :
          visit_of stop_code query target_sequence trip.stop_time_updates
          ≡ visit_update query stop_code target_sequence trip.stop_time_updates
      visit = visit_of-update stop_code query target_sequence trip.stop_time_updates

  silent_parts : is_silent trip ≡ true → (trip.stop_time_updates ≡ []) × (trip.delay ≡ none)
  unfolding is_silent
  silent_parts h = ground arith

  -- For any trip update, clock and query, `getPredictedTimes` predicts from the first update whose
  -- sequence names the visit, else the first at the stop whose sequence names no visit, else from the
  -- delay of the closest update before the stop (no other one before it is closer), else from the
  -- trip's delay, and makes no prediction where all four are missing. On the first branch the side that
  -- the update lacks takes the offset of the other, and both take the propagated delay if both are missing.
  pub get_predicted_times-Predicts :
      Predicts query stop_code target_sequence clock trip arrival departure
        (get_predicted_times clock (some trip) query stop_code target_sequence arrival departure)
  unfolding get_predicted_times
  get_predicted_times-Predicts = elim (Bool-cases (is_silent trip)) [
    | inl h ↦
        let (e, n) = silent_parts h in
        rw h (no_prediction (rw e refl) (λ x i. absurd (subst (In x) e i)) n)
    | inr h ↦ rw h (
        predict-Predicts
          (scan query stop_code target_sequence trip.stop_time_updates none nothing_seen)
          (final_target-scan query stop_code target_sequence trip.stop_time_updates)
          (scan-Seen query stop_code target_sequence trip.stop_time_updates))
  ]

  -- Where `t.Add(u.Sub(t))` is `u` and the update of the visit gives a time of arrival and one of
  -- departure, `getPredictedTimes` returns these two times, whatever their scheduled times and delays.
  pub get_predicted_times_exact :
      ClockLaws clock
      → (stu : StopTimeUpdate T) (a d : StopTimeEvent T) (arrives departs : T)
      → visit_update query stop_code target_sequence trip.stop_time_updates ≡ some stu
      → stu.arrival ≡ some a
      → a.time ≡ some arrives
      → stu.departure ≡ some d
      → d.time ≡ some departs
      → get_predicted_times clock (some trip) query stop_code target_sequence arrival departure
        ≡ some (arrives, departs)
  unfolding get_predicted_times complete_offsets
  get_predicted_times_exact laws stu a d arrives departs v ea ta ed td =
      elim (Bool-cases (is_silent trip)) [
        | inl h ↦ absurd (cc (v, silent_visit (silent_parts h).0))
        | inr h ↦ rw h (
            predict-some clock arrival departure trip reached
              (some (clock.sub arrives arrival), some (clock.sub departs departure))
              (tier_visit clock arrival departure trip reached stu
                  (final_target-scan query stop_code target_sequence trip.stop_time_updates ∙ v)
                ∙ rw
                    (
                      ea,
                      ed,
                      event_offset_time clock arrival a arrives ta,
                      event_offset_time clock departure d departs td,
                    )
                    refl)
            ∙ rw (laws.add-sub arrival arrives, laws.add-sub departure departs) refl)
      ]
    where
      reached : Scan T
      reached = scan query stop_code target_sequence trip.stop_time_updates none nothing_seen

      silent_visit :
          trip.stop_time_updates ≡ []
          → visit_update query stop_code target_sequence trip.stop_time_updates ≡ none
      silent_visit e = rw e refl
