-- ===== src/Deviation/Block/Candidates.antt =====
-- The pairs of a scheduled and a predicted time that `pickClosestSTUDeviation` considers.
use maglev.Prelude.{List, [], ◌∷◌, ◌++◌, Text, text_eq, Map, get_or, ℤ, ◌≡◌, refl, sym, ap, ◌∙◌}
use maglev.Deviation.{StopTimeUpdate, TripUpdate, Picker, consider, consider_all}
use maglev.Deviation.Schedule.{SchedEntry}
use maglev.Deviation.Block.{
  Calendar, Schedules, scheduled_of, stu_predicted_from_event, consider_stop_times,
  consider_trip_updates,
}

module _ {T : Type 0} (calendar : Calendar T) (service_date current_time : T) where
  abbrev pub stop_candidates : Map Text (List SchedEntry) → List (StopTimeUpdate T) → List (ℤ × ℤ)
  stop_candidates sched_map [] = []
  stop_candidates sched_map (stu ∷ stus) =
      let sched = scheduled_of calendar service_date current_time sched_map stu in
      (sched.0, stu_predicted_from_event calendar service_date current_time stu.arrival sched.0)
      ∷ (sched.1, stu_predicted_from_event calendar service_date current_time stu.departure sched.1)
      ∷ stop_candidates sched_map stus

  -- the pairs of all stop time updates, in the order of the loops
  abbrev pub candidates : Schedules → List (TripUpdate T) → List (ℤ × ℤ)
  candidates scheduled [] = []
  candidates scheduled (t ∷ ts) =
      stop_candidates (get_or [] t.trip_id scheduled) t.stop_time_updates ++ candidates scheduled ts

  consider_all-append :
      (cs ds : List (ℤ × ℤ)) (p : Picker)
      → consider_all (cs ++ ds) p ≡ consider_all ds (consider_all cs p)
  unfolding consider_all
  consider_all-append [] ds p = refl
  consider_all-append (c ∷ cs) ds p = consider_all-append cs ds (consider c.0 c.1 p)

  consider_stop_times-stop_candidates :
      (m : Map Text (List SchedEntry)) (stus : List (StopTimeUpdate T)) (p : Picker)
      → consider_stop_times calendar service_date current_time m stus p
        ≡ consider_all (stop_candidates m stus) p
  unfolding consider_stop_times consider_all
  consider_stop_times-stop_candidates m [] p = refl
  consider_stop_times-stop_candidates m (stu ∷ stus) p =
      consider_stop_times-stop_candidates m stus _

  pub consider_trip_updates-candidates :
      (scheduled : Schedules) (ts : List (TripUpdate T)) (p : Picker)
      → consider_trip_updates calendar service_date current_time scheduled ts p
        ≡ consider_all (candidates scheduled ts) p
  unfolding consider_trip_updates consider_all
  consider_trip_updates-candidates scheduled [] p = refl
  consider_trip_updates-candidates scheduled (t ∷ ts) p =
      consider_trip_updates-candidates scheduled ts _
      ∙ ap (consider_all (candidates scheduled ts)) (
          consider_stop_times-stop_candidates (get_or [] t.trip_id scheduled) t.stop_time_updates p)
      ∙ sym (
          consider_all-append (stop_candidates (get_or [] t.trip_id scheduled) t.stop_time_updates)
            (candidates scheduled ts) p)
