-- ===== src/Arrivals/Predictions/Targets.antt =====
-- The update that the loop of `getPredictedTimes` binds to the requested visit.
use maglev.Prelude.{
  Bool, ◌&&◌, not, Option, none, some, List, [], ◌∷◌, Text, text_eq, Map, if◌then◌else◌, ℤ, int_beq,
  ◌≡◌, refl, ◌∙◌, arith, ◌⊎◌, inl, inr, Option-cases,
}
use maglev.Deviation.{StopTimeUpdate}
use maglev.Deviation.Block.{StopTimeRow}
use maglev.Deviation.StopDelays.{sequence_identifies_visit}
use maglev.Arrivals.Predictions.{
  Scan, nothing_seen, load_static_stops, entries, sequence_of, names_visit, matches_stop,
  static_stops_for, try_fallback, choose, note_prior, scan, final_target,
}

abbrev pub first_of : {A : Type 0} → (A → Bool) → List A → Option A
first_of p [] = none
first_of p (x ∷ xs) = let later = first_of p xs in if p x then some x else later

abbrev pub or_else : {A : Type 0} → Option A → Option A → Option A
or_else none o = o
or_else (some a) o = some a

-- the loaded map is that of the query
abbrev IsLoaded : Option (List StopTimeRow) → Option (Map ℤ Text) → Type 0
IsLoaded query loaded = (loaded ≡ none) ⊎ (loaded ≡ load_static_stops query)

module _ {T : Type 0} where
  -- what the loop ends with, by what it has seen and what the rest of the updates holds
  abbrev pick :
      Scan T → Option (StopTimeUpdate T) → Option (StopTimeUpdate T) → Option (StopTimeUpdate T)
  pick s named at_stop = or_else s.target (or_else named (or_else s.stop_id_fallback at_stop))

  pick-note_prior :
      (target_sequence : ℤ) (stu : StopTimeUpdate T) (s : Scan T)
      (named at_stop : Option (StopTimeUpdate T))
      → pick (note_prior target_sequence stu s) named at_stop ≡ pick s named at_stop
  unfolding note_prior
  pick-note_prior target_sequence stu s named at_stop = ground arith

module _ {T : Type 0} (query : Option (List StopTimeRow)) where
  loaded_identifies :
      (stu : StopTimeUpdate T) (loaded : Option (Map ℤ Text))
      → IsLoaded query loaded
      → sequence_identifies_visit (entries (static_stops_for query stu loaded)) stu
        ≡ sequence_identifies_visit (entries (load_static_stops query)) stu
  unfolding static_stops_for sequence_identifies_visit sequence_of int_beq
  loaded_identifies stu loaded h = elim (Option-cases stu.stop_sequence) [
    | inl e ↦ rw e refl
    | inr (n, e) ↦ rw e (ground arith)
  ]

  static_stops_for-IsLoaded :
      (stu : StopTimeUpdate T) (loaded : Option (Map ℤ Text))
      → IsLoaded query loaded
      → IsLoaded query (static_stops_for query stu loaded)
  unfolding static_stops_for
  static_stops_for-IsLoaded stu loaded h = ground arith

module _ {T : Type 0} (query : Option (List StopTimeRow)) (stop_code : Text) where
  -- it is at the stop, and its sequence names no visit of the trip
  abbrev pub is_only_at_stop : StopTimeUpdate T → Bool
  is_only_at_stop stu =
      matches_stop stop_code stu
      && not (sequence_identifies_visit (entries (load_static_stops query)) stu)

module _ {T : Type 0} (query : Option (List StopTimeRow)) (stop_code : Text)
    (target_sequence : ℤ) where
  -- the first update of the visit, else the first that is only at the stop
  abbrev pub visit_update : List (StopTimeUpdate T) → Option (StopTimeUpdate T)
  visit_update stus =
      or_else (first_of (names_visit stop_code target_sequence) stus)
        (first_of (is_only_at_stop query stop_code) stus)

  choose-IsLoaded :
      (stu : StopTimeUpdate T) (loaded : Option (Map ℤ Text)) (s : Scan T)
      → IsLoaded query loaded
      → IsLoaded query (choose query stop_code target_sequence stu loaded s).0
  unfolding choose try_fallback
  choose-IsLoaded stu loaded s h = ground (arith, static_stops_for-IsLoaded query stu loaded h)

  pick-choose :
      (stu : StopTimeUpdate T) (loaded : Option (Map ℤ Text)) (s : Scan T)
      (named at_stop : Option (StopTimeUpdate T))
      → IsLoaded query loaded
      → pick (choose query stop_code target_sequence stu loaded s).1 named at_stop
        ≡ pick s
            (if names_visit stop_code target_sequence stu then some stu else named)
            (if is_only_at_stop query stop_code stu then some stu else at_stop)
  unfolding choose try_fallback
  pick-choose stu loaded s named at_stop h = ground (arith, loaded_identifies query stu loaded h)

  pick-scan :
      (stus : List (StopTimeUpdate T)) (loaded : Option (Map ℤ Text)) (s : Scan T)
      → IsLoaded query loaded
      → final_target (scan query stop_code target_sequence stus loaded s)
        ≡ pick s
            (first_of (names_visit stop_code target_sequence) stus)
            (first_of (is_only_at_stop query stop_code) stus)
  unfolding scan final_target
  pick-scan [] loaded s h = ground arith
  pick-scan (stu ∷ stus) loaded s h =
      let next = choose query stop_code target_sequence stu loaded s in
      pick-scan stus next.0 (note_prior target_sequence stu next.1) (choose-IsLoaded stu loaded s h)
      ∙ pick-note_prior target_sequence stu next.1
          (first_of (names_visit stop_code target_sequence) stus)
          (first_of (is_only_at_stop query stop_code) stus)
      ∙ pick-choose stu loaded s (first_of (names_visit stop_code target_sequence) stus)
          (first_of (is_only_at_stop query stop_code) stus) h

  pub final_target-scan :
      (stus : List (StopTimeUpdate T))
      → final_target (scan query stop_code target_sequence stus none nothing_seen)
        ≡ visit_update stus
  final_target-scan stus = pick-scan stus none nothing_seen (inl refl)
