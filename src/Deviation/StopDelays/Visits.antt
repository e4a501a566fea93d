-- ===== src/Deviation/StopDelays/Visits.antt =====
-- Which stop time update a visit of a trip to a stop takes its delay from.
use maglev.Prelude.{
  ℕ, Bool, true, false, ◌&&◌, not, Option, none, some, List, [], ◌∷◌, ◌++◌, Text, text_eq, ◌==◌,
  Map, lookup, lookup-insert, In, if◌then◌else◌, ℤ, pos, int_eq, ◌≡◌, ◌⊎◌, refl, ap, subst, ◌∙◌,
  ◌>>=◌, Option-cases, Bool-cases, inl, inr,
}
use maglev.Deviation.{StopTimeEvent, event_delay, StopTimeUpdate, TripUpdate}
use maglev.Deviation.Block.{StopTimeRow}
use maglev.Deviation.StopDelays.Scheduled.{names_visit_in, sequence_identifies_visit_lem}
use maglev.Deviation.StopDelays.{
  or_on_time, StopDelayInfo, StopDelays, delay_for, static_stops_by_sequence,
  sequence_identifies_visit, info_of, note_stop, note_visit, note, note_all, no_delays,
  get_stop_delays_from_trip_updates,
}

sequence_noted :
    (b : Bool) (n : Option ℕ) (stop : Option Text) (info : StopDelayInfo) (d : StopDelays) (seq : ℤ)
    → lookup seq (if b then note_visit n info d else note_stop stop info d).by_sequence ≡ (
        if elim n [ none ↦ false | some k ↦ b && pos k == seq ]
        then some info
        else lookup seq d.by_sequence)
unfolding note_visit note_stop
sequence_noted true none stop info d seq = refl
sequence_noted true (some k) stop info d seq =
    lookup-insert {V = StopDelayInfo} (pos k) seq info d.by_sequence
sequence_noted false none none info d seq = refl
sequence_noted false none (some s) info d seq = refl
sequence_noted false (some k) none info d seq = refl
sequence_noted false (some k) (some s) info d seq = refl

stop_noted :
    (b : Bool) (n : Option ℕ) (stop : Option Text) (info : StopDelayInfo) (d : StopDelays)
    (k : Text)
    → lookup k (if b then note_visit n info d else note_stop stop info d).by_stop_id ≡ (
        if elim stop [ none ↦ false | some s ↦ not b && s == k ]
        then some info
        else lookup k d.by_stop_id)
unfolding note_visit note_stop
stop_noted false n none info d k = refl
stop_noted false n (some s) info d k = lookup-insert {V = StopDelayInfo} s k info d.by_stop_id
stop_noted true none none info d k = refl
stop_noted true none (some s) info d k = refl
stop_noted true (some m) none info d k = refl
stop_noted true (some m) (some s) info d k = refl

module _ {T : Type 0} (names : StopTimeUpdate T → Bool) where
  -- its sequence names the visit
  abbrev pub is_of_visit : ℤ → StopTimeUpdate T → Bool
  is_of_visit seq stu = elim stu.stop_sequence [ none ↦ false | some n ↦ names stu && pos n == seq ]

  -- it names the stop, and its sequence names no visit
  abbrev pub is_of_stop : Text → StopTimeUpdate T → Bool
  is_of_stop stop stu = elim stu.stop_id [ none ↦ false | some s ↦ not (names stu) && s == stop ]

module _ {T : Type 0} (static_stops : Map ℤ Text) where
  abbrev identifies : StopTimeUpdate T → Bool
  identifies = sequence_identifies_visit static_stops

  lookup_sequence-note :
      (seq : ℤ) (stu : StopTimeUpdate T) (d : StopDelays)
      → lookup seq (note static_stops stu d).by_sequence
        ≡ (if is_of_visit identifies seq stu then some (info_of stu) else lookup seq d.by_sequence)
  unfolding note
  lookup_sequence-note seq stu d =
      sequence_noted (sequence_identifies_visit static_stops stu) stu.stop_sequence stu.stop_id
        (info_of stu) d seq

  lookup_stop-note :
      (stop : Text) (stu : StopTimeUpdate T) (d : StopDelays)
      → lookup stop (note static_stops stu d).by_stop_id
        ≡ (if is_of_stop identifies stop stu then some (info_of stu) else lookup stop d.by_stop_id)
  unfolding note
  lookup_stop-note stop stu d =
      stop_noted (sequence_identifies_visit static_stops stu) stu.stop_sequence stu.stop_id
        (info_of stu) d stop

List-cases : {A : Type 0} (xs : List A) → (xs ≡ []) ⊎ ((a : A) × (rest : List A) × (xs ≡ a ∷ rest))
List-cases [] = inl refl
List-cases (a ∷ rest) = inr (a, rest, refl)

-- the delays of an update's events, 0 for one that is not given
abbrev pub told_by : {T : Type 0} → StopTimeUpdate T → StopDelayInfo
told_by stu = record {
  arrival_delay = elim (stu.arrival >>= λ e. e.delay) [ none ↦ pos 0 | some d ↦ d ];
  departure_delay = elim (stu.departure >>= λ e. e.delay) [ none ↦ pos 0 | some d ↦ d ];
}

delay_told :
    {T : Type 0} (event : Option (StopTimeEvent T))
    → or_on_time (event_delay event) ≡ elim (event >>= λ e. e.delay) [ none ↦ pos 0 | some d ↦ d ]
unfolding or_on_time event_delay
delay_told none = refl
delay_told (some e) = elim (Option-cases e.delay) [ inl n ↦ rw n refl | inr (d, n) ↦ rw n refl ]

info_of-told_by : {T : Type 0} (stu : StopTimeUpdate T) → info_of stu ≡ told_by stu
unfolding info_of
info_of-told_by stu = rw (delay_told stu.arrival, delay_told stu.departure) refl

module _ {T : Type 0} where
  abbrev pub AreOther : (StopTimeUpdate T → Bool) → List (StopTimeUpdate T) → Type 0
  AreOther p stus = (u : StopTimeUpdate T) → In u stus → p u ≡ false

  -- what the last update of a list that passes a test says
  abbrev pub Last : (StopTimeUpdate T → Bool) → List (StopTimeUpdate T) → StopDelayInfo → Type 0
  Last p stus i =
      (before : List (StopTimeUpdate T)) × (s : StopTimeUpdate T) × (after : List
        (StopTimeUpdate T))
      × (stus ≡ before ++ (s ∷ after))
      × (p s ≡ true)
      × AreOther p after
      × (i ≡ told_by s)

  -- the loop's assignments, one over the other
  abbrev latest :
      (StopTimeUpdate T → Bool)
      → List (StopTimeUpdate T)
      → Option StopDelayInfo
      → Option StopDelayInfo
  latest p [] o = o
  latest p (s ∷ ss) o = latest p ss (if p s then some (info_of s) else o)

  latest-cases :
      (p : StopTimeUpdate T → Bool) (stus : List (StopTimeUpdate T)) (o : Option StopDelayInfo)
      → ((i : StopDelayInfo) × (latest p stus o ≡ some i) × Last p stus i)
        ⊎ ((latest p stus o ≡ o) × AreOther p stus)
  latest-cases p [] o = inr (refl, λ u i. absurd i)
  latest-cases p (s ∷ ss) o = elim (latest-cases p ss (if p s then some (info_of s) else o)) [
    | inl (i, e, (before, t, after, l, q, other, same)) ↦
        inl (i, e, (s ∷ before, t, after, ap (◌∷◌ s) l, q, other, same))
    | inr (e, other) ↦ elim (Bool-cases (p s)) [
      | inl t ↦ inl (info_of s, e ∙ rw t refl, ([], s, ss, refl, t, other, info_of-told_by s))
      | inr t ↦ inr (e ∙ rw t refl, λ u i. elim i [ inl q ↦ rw q t | inr j ↦ other u j ])
    ]
  ]

  module _ (names : StopTimeUpdate T → Bool) where
    -- where a visit takes its delay from: the last update that names the visit by its sequence, else
    -- the last one that names the stop and no visit
    pub data DelayOf (stop : Text) (seq : ℤ) (stus : List (StopTimeUpdate T))
        : Option StopDelayInfo → Type 0 where
      of_visit :
          (i : StopDelayInfo) → Last (is_of_visit names seq) stus i → DelayOf stop seq stus (some i)
      of_stop :
          (i : StopDelayInfo)
          → AreOther (is_of_visit names seq) stus
          → Last (is_of_stop names stop) stus i
          → DelayOf stop seq stus (some i)
      not_given :
          AreOther (is_of_visit names seq) stus
          → AreOther (is_of_stop names stop) stus
          → DelayOf stop seq stus none

  module _ (static_stops : Map ℤ Text) where
    lookup_sequence-note_all :
        (seq : ℤ) (stus : List (StopTimeUpdate T)) (d : StopDelays)
        → lookup seq (note_all static_stops stus d).by_sequence
          ≡ latest (is_of_visit (identifies static_stops) seq) stus (lookup seq d.by_sequence)
    unfolding note_all
    lookup_sequence-note_all seq [] d = refl
    lookup_sequence-note_all seq (s ∷ ss) d =
        lookup_sequence-note_all seq ss (note static_stops s d)
        ∙ ap (latest (is_of_visit (identifies static_stops) seq) ss)
            (lookup_sequence-note static_stops seq s d)

    lookup_stop-note_all :
        (stop : Text) (stus : List (StopTimeUpdate T)) (d : StopDelays)
        → lookup stop (note_all static_stops stus d).by_stop_id
          ≡ latest (is_of_stop (identifies static_stops) stop) stus (lookup stop d.by_stop_id)
    unfolding note_all
    lookup_stop-note_all stop [] d = refl
    lookup_stop-note_all stop (s ∷ ss) d =
        lookup_stop-note_all stop ss (note static_stops s d)
        ∙ ap (latest (is_of_stop (identifies static_stops) stop) ss)
            (lookup_stop-note static_stops stop s d)

    delay_for-DelayOf :
        (stop : Text) (seq : ℤ) (stus : List (StopTimeUpdate T))
        → DelayOf
            (identifies static_stops)
            stop
            seq
            stus
            (delay_for stop seq (note_all static_stops stus no_delays))
    unfolding delay_for lookup
    delay_for-DelayOf stop seq stus =
        elim (latest-cases (is_of_visit (identifies static_stops) seq) stus none) [
          | inl (i, e, l) ↦
              rw (lookup_sequence-note_all seq stus no_delays ∙ e, delay_for) (of_visit i l)
          | inr (e, other) ↦
              rw (lookup_sequence-note_all seq stus no_delays ∙ e, delay_for)
                (elim (latest-cases (is_of_stop (identifies static_stops) stop) stus none) [
                  | inl (i, f, l) ↦
                      rw (lookup_stop-note_all stop stus no_delays ∙ f) (of_stop i other l)
                  | inr (f, no_stop) ↦
                      rw (lookup_stop-note_all stop stus no_delays ∙ f) (not_given other no_stop)
                ])
        ]

-- For a trip with an update, the delay of its visit to a stop is what the last stop time update says
-- whose sequence names that visit in the trip's schedule (it gives a sequence, and no stop or the stop of
-- the last row with that sequence, or the schedule is empty), else what the last one says that names the stop
-- and whose sequence names no visit, else there is none; for a trip without updates there is none.
pub delay_for-get_stop_delays :
    {T : Type 0} (updates_for : Text → List (TripUpdate T)) (trip_id stop : Text) (seq : ℤ)
    (stop_times : List StopTimeRow)
    → ((updates_for trip_id ≡ [])
        × (delay_for stop seq (get_stop_delays_from_trip_updates updates_for trip_id stop_times)
            ≡ none))
      ⊎ ((t : TripUpdate T) × (ts : List (TripUpdate T)) × (updates_for trip_id ≡ t ∷ ts)
          × DelayOf (names_visit_in stop_times) stop seq t.stop_time_updates (
              delay_for stop seq
                (get_stop_delays_from_trip_updates updates_for trip_id stop_times)))
unfolding get_stop_delays_from_trip_updates
delay_for-get_stop_delays {T} updates_for trip_id stop seq stop_times =
    elim (List-cases (updates_for trip_id)) [
      | inl e ↦ inl (e, rw (e, get_stop_delays_from_trip_updates) no_delay)
      | inr (t, ts, e) ↦ inr (
        t,
        ts,
        e,
        rw (e, get_stop_delays_from_trip_updates)
            (subst
              (λ (names : StopTimeUpdate T → Bool). DelayOf names stop seq t.stop_time_updates (
                delay_for stop seq (
                  note_all (static_stops_by_sequence stop_times []) t.stop_time_updates no_delays)))
              (λ i stu. sequence_identifies_visit_lem stop_times stu i)
              (delay_for-DelayOf (static_stops_by_sequence stop_times []) stop seq
                t.stop_time_updates)),
      )
    ]
  where
    no_delay : delay_for stop seq no_delays ≡ none
    no_delay = unfold delay_for lookup in refl
