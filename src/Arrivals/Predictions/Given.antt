-- ===== src/Arrivals/Predictions/Given.antt =====
-- What the updates of a trip say of a visit, as the fields of the updates give it.
use maglev.Prelude.{
  Bool, true, false, ◌&&◌, not, Option, none, some, List, [], Text, text_eq, ◌==◌, ◌>>=◌, Map, ℤ,
  pos, negsuc, int_beq, ◌≡◌, refl, sym, ap, ◌∙◌, Option-cases, inl, inr,
}
use maglev.Deviation.{StopTimeUpdate, StopTimeEvent, event_delay}
use maglev.Deviation.Block.{StopTimeRow}
use maglev.Deviation.StopDelays.{static_stops_by_sequence, sequence_identifies_visit}
use maglev.Deviation.StopDelays.Scheduled.{names_visit_in, sequence_identifies_visit_lem}
use maglev.Arrivals.Predictions.{
  Clock, sequence_of, matches_stop, load_static_stops, entries, names_visit, passed_on,
  event_offset, complete_offsets,
}
use maglev.Arrivals.Predictions.Targets.{first_of, or_else, is_only_at_stop, visit_update}

-- the rows of the trip, none where the query fails
abbrev pub rows_of : Option (List StopTimeRow) → List StopTimeRow
rows_of none = []
rows_of (some rows) = rows

module _ {T : Type 0} (stop_code : Text) where
  -- it has the sequence of the visit, -1 if it has none, and no stop or that of the visit
  abbrev pub is_of_target : ℤ → StopTimeUpdate T → Bool
  is_of_target target_sequence stu =
      elim stu.stop_sequence [
        | none ↦ int_beq (negsuc 0) target_sequence
        | some n ↦ int_beq (pos n) target_sequence
      ]
      && elim stu.stop_id [ none ↦ true | some stop ↦ stop == stop_code ]

  -- it has the stop of the visit, and names no visit of the trip by its sequence
  abbrev pub is_of_stop_only : List StopTimeRow → StopTimeUpdate T → Bool
  is_of_stop_only rows stu = elim stu.stop_id [
    | none ↦ false
    | some stop ↦ stop == stop_code && not (names_visit_in rows stu)
  ]

  names_visit-is_of_target :
      (target_sequence : ℤ) (stu : StopTimeUpdate T)
      → names_visit stop_code target_sequence stu ≡ is_of_target target_sequence stu
  unfolding names_visit matches_stop sequence_of
  names_visit-is_of_target target_sequence stu = elim (Option-cases stu.stop_sequence) [
    | inl e ↦ elim (Option-cases stu.stop_id) [
      | inl f ↦ rw (e, f) refl
      | inr (s, f) ↦ rw (e, f) refl
    ]
    | inr (n, e) ↦ elim (Option-cases stu.stop_id) [
      | inl f ↦ rw (e, f) refl
      | inr (s, f) ↦ rw (e, f) refl
    ]
  ]

  loaded_rows :
      (query : Option (List StopTimeRow)) (stu : StopTimeUpdate T)
      → sequence_identifies_visit (entries (load_static_stops query)) stu
        ≡ names_visit_in (rows_of query) stu
  unfolding entries load_static_stops
  loaded_rows none stu =
      ap (λ (m : Map ℤ Text). sequence_identifies_visit m stu) no_rows
      ∙ sequence_identifies_visit_lem [] stu
    where
      no_rows : [] ≡ static_stops_by_sequence [] []
      no_rows = unfold static_stops_by_sequence in refl
  loaded_rows (some rows) stu = sequence_identifies_visit_lem rows stu

  is_only_at_stop-of_stop :
      (query : Option (List StopTimeRow)) (stu : StopTimeUpdate T)
      → is_only_at_stop query stop_code stu ≡ is_of_stop_only (rows_of query) stu
  unfolding matches_stop
  is_only_at_stop-of_stop query stu =
      ap (λ (b : Bool). matches_stop stop_code stu && not b) (loaded_rows query stu)
      ∙ elim (Option-cases stu.stop_id) [ inl f ↦ rw f refl | inr (s, f) ↦ rw f refl ]

  -- the first update of the visit, else the first that is of the stop only
  abbrev pub visit_of :
      Option (List StopTimeRow) → ℤ → List (StopTimeUpdate T) → Option (StopTimeUpdate T)
  visit_of query target_sequence stus =
      or_else (first_of (is_of_target target_sequence) stus)
        (first_of (is_of_stop_only (rows_of query)) stus)

  pub visit_of-update :
      (query : Option (List StopTimeRow)) (target_sequence : ℤ) (stus : List (StopTimeUpdate T))
      → visit_of query target_sequence stus ≡ visit_update query stop_code target_sequence stus
  visit_of-update query target_sequence stus = sym (λ i.
      or_else (first_of (λ stu. names_visit-is_of_target target_sequence stu i) stus)
        (first_of (λ stu. is_only_at_stop-of_stop query stu i) stus))

-- the delay that a stop passes on: its departure's, else its arrival's, else none
pub data PassesOn {T : Type 0} (stu : StopTimeUpdate T) : ℤ → Type 0 where
  by_departure : (d : ℤ) → (stu.departure >>= λ e. e.delay) ≡ some d → PassesOn stu d
  by_arrival :
      (d : ℤ)
      → (stu.departure >>= λ e. e.delay) ≡ none
      → (stu.arrival >>= λ e. e.delay) ≡ some d
      → PassesOn stu d
  on_time :
      (stu.departure >>= λ e. e.delay) ≡ none
      → (stu.arrival >>= λ e. e.delay) ≡ none
      → PassesOn stu (pos 0)

event_delay-bind :
    {T : Type 0} (event : Option (StopTimeEvent T)) → event_delay event ≡ (event >>= λ e. e.delay)
unfolding event_delay
event_delay-bind none = refl
event_delay-bind (some e) = refl

pub passed_on-PassesOn : {T : Type 0} (stu : StopTimeUpdate T) → PassesOn stu (passed_on stu)
unfolding passed_on
passed_on-PassesOn stu = elim (Option-cases (event_delay stu.departure)) [
  | inr (d, e) ↦ rw (e, passed_on) (by_departure d (sym (event_delay-bind stu.departure) ∙ e))
  | inl e ↦
      let no_departure = sym (event_delay-bind stu.departure) ∙ e in
      elim (Option-cases (event_delay stu.arrival)) [
        | inr (d, f) ↦
            rw (e, passed_on, f)
              (by_arrival d no_departure (sym (event_delay-bind stu.arrival) ∙ f))
        | inl f ↦
            rw (e, passed_on, f) (on_time no_departure (sym (event_delay-bind stu.arrival) ∙ f))
      ]
]

-- the offset of an event from its scheduled time: by its time, else its delay, if it has one
pub data Gives {T : Type 0} (clock : Clock T) (scheduled : T) (event : Option (StopTimeEvent T))
    : Option ℤ → Type 0 where
  at_time :
      (e : StopTimeEvent T) (t : T)
      → event ≡ some e
      → e.time ≡ some t
      → Gives clock scheduled event (some (clock.sub t scheduled))
  by_delay :
      (e : StopTimeEvent T) → event ≡ some e → e.time ≡ none → Gives clock scheduled event e.delay
  no_event : event ≡ none → Gives clock scheduled event none

pub event_offset-Gives :
    {T : Type 0} (clock : Clock T) (scheduled : T) (event : Option (StopTimeEvent T))
    → Gives clock scheduled event (event_offset clock scheduled event)
unfolding event_offset
event_offset-Gives clock scheduled none = no_event refl
event_offset-Gives {T} clock scheduled (some e) = by_time e.time refl
  where
    by_time :
        (time : Option T)
        → e.time ≡ time
        → Gives clock scheduled
            (some e)
            (elim time [ some t ↦ some (clock.sub t scheduled) | none ↦ e.delay ])
    by_time none h = by_delay e refl h
    by_time (some t) h = at_time e t refl h

-- a missing offset is that of the other side, or the propagated delay where both are missing
pub data Completes (propagated : ℤ) : Option ℤ → Option ℤ → ℤ → ℤ → Type 0 where
  both : (a d : ℤ) → Completes propagated (some a) (some d) a d
  arrival_only : (a : ℤ) → Completes propagated (some a) none a a
  departure_only : (d : ℤ) → Completes propagated none (some d) d d
  neither : Completes propagated none none propagated propagated

pub complete_offsets-Completes :
    (propagated : ℤ) (a d : Option ℤ)
    → Completes propagated a d
        (complete_offsets propagated (a, d)).0
        (complete_offsets propagated (a, d)).1
unfolding complete_offsets
complete_offsets-Completes propagated (some a) (some d) = both a d
complete_offsets-Completes propagated (some a) none = arrival_only a
complete_offsets-Completes propagated none (some d) = departure_only d
complete_offsets-Completes propagated none none = neither
