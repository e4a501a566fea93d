-- ===== src/Deviation/StopDelays/Scheduled.antt =====
-- Which updates name a visit of the trip's schedule by their stop sequence.
use maglev.Prelude.{
  Bool, true, false, Option, none, some, List, [], ◌∷◌, Text, text_eq, ◌==◌, Map, lookup,
  lookup-insert, insert, if◌then◌else◌, ℤ, pos, int_eq, ◌≡◌, refl, ap, ◌∙◌, arith, ℕ, Bool-cases,
  Option-cases, inl, inr,
}
use maglev.Deviation.{StopTimeUpdate}
use maglev.Deviation.Block.{StopTimeRow}
use maglev.Deviation.StopDelays.{static_stops_by_sequence, agrees, sequence_identifies_visit}

-- the stop of the last row with a sequence
abbrev pub scheduled_stop : List StopTimeRow → ℤ → Option Text
scheduled_stop [] seq = none
scheduled_stop (r ∷ rs) seq = elim (scheduled_stop rs seq) [
  | some stop ↦ some stop
  | none ↦ if r.stop_sequence == seq then some r.stop_id else none
]

-- the schedule has the sequence at the stop; an empty schedule contradicts nothing
abbrev pub is_scheduled : List StopTimeRow → ℕ → Text → Bool
is_scheduled [] n stop = true
is_scheduled (r ∷ rs) n stop = elim (scheduled_stop (r ∷ rs) (pos n)) [
  | none ↦ false
  | some scheduled ↦ scheduled == stop
]

-- the update has a sequence and, where it also has a stop, the schedule agrees
abbrev pub names_visit_in : {T : Type 0} → List StopTimeRow → StopTimeUpdate T → Bool
names_visit_in rows stu = elim stu.stop_sequence [
  | none ↦ false
  | some n ↦ elim stu.stop_id [ none ↦ true | some stop ↦ is_scheduled rows n stop ]
]

lookup-static_stops :
    (rows : List StopTimeRow) (m : Map ℤ Text) (seq : ℤ)
    → lookup seq (static_stops_by_sequence rows m)
      ≡ elim (scheduled_stop rows seq) [ some stop ↦ some stop | none ↦ lookup seq m ]
unfolding static_stops_by_sequence
lookup-static_stops [] m seq = refl
lookup-static_stops (r ∷ rs) m seq =
    lookup-static_stops rs (insert r.stop_sequence r.stop_id m) seq
    ∙ ground (arith, lookup-insert {V = Text} r.stop_sequence seq r.stop_id m)

abbrev IsFilled : Map ℤ Text → Type 0
IsFilled m = (e : ℤ × Text) × (rest : Map ℤ Text) × (m ≡ e ∷ rest)

insert-IsFilled : (k : ℤ) (stop : Text) (m : Map ℤ Text) → IsFilled (insert k stop m)
unfolding insert
insert-IsFilled k stop [] = ((k, stop), [], refl)
insert-IsFilled k stop ((j, s) ∷ m) = elim (Bool-cases (j == k)) [
  | inl e ↦ ((k, stop), m, rw e refl)
  | inr e ↦ ((j, s), insert k stop m, rw e refl)
]

static_stops-IsFilled :
    (rows : List StopTimeRow) (m : Map ℤ Text)
    → IsFilled m
    → IsFilled (static_stops_by_sequence rows m)
unfolding static_stops_by_sequence
static_stops-IsFilled [] m h = h
static_stops-IsFilled (r ∷ rs) m h =
    static_stops-IsFilled rs (insert r.stop_sequence r.stop_id m)
      (insert-IsFilled r.stop_sequence r.stop_id m)

agrees-filled :
    (m : Map ℤ Text) (n : ℕ) (stop : Text)
    → IsFilled m
    → agrees m n stop
      ≡ elim (lookup (pos n) m) [ none ↦ false | some scheduled ↦ scheduled == stop ]
unfolding agrees
agrees-filled m n stop (e, rest, q) = rw q refl

schedule-IsFilled :
    (r : StopTimeRow) (rs : List StopTimeRow) → IsFilled (static_stops_by_sequence (r ∷ rs) [])
unfolding static_stops_by_sequence
schedule-IsFilled r rs =
    static_stops-IsFilled rs (insert r.stop_sequence r.stop_id [])
      (insert-IsFilled r.stop_sequence r.stop_id [])

static_stops_found :
    (rows : List StopTimeRow) (seq : ℤ)
    → lookup seq (static_stops_by_sequence rows []) ≡ scheduled_stop rows seq
unfolding lookup
static_stops_found rows seq =
    lookup-static_stops rows [] seq
    ∙ elim (Option-cases (scheduled_stop rows seq)) [ inl e ↦ rw e refl | inr (s, e) ↦ rw e refl ]

agrees-is_scheduled :
    (rows : List StopTimeRow) (n : ℕ) (stop : Text)
    → agrees (static_stops_by_sequence rows []) n stop ≡ is_scheduled rows n stop
unfolding agrees static_stops_by_sequence
agrees-is_scheduled [] n stop = refl
agrees-is_scheduled (r ∷ rs) n stop =
    agrees-filled (static_stops_by_sequence (r ∷ rs) []) n stop (schedule-IsFilled r rs)
    ∙ ap (λ (o : Option Text). elim o [ none ↦ false | some scheduled ↦ scheduled == stop ])
        (static_stops_found (r ∷ rs) (pos n))

-- `sequenceIdentifiesVisit` on the stops of the rows
pub sequence_identifies_visit_lem :
    {T : Type 0} (rows : List StopTimeRow) (stu : StopTimeUpdate T)
    → sequence_identifies_visit (static_stops_by_sequence rows []) stu ≡ names_visit_in rows stu
unfolding sequence_identifies_visit
sequence_identifies_visit_lem rows stu = elim (Option-cases stu.stop_sequence) [
  | inl e ↦ rw e refl
  | inr (n, e) ↦ elim (Option-cases stu.stop_id) [
    | inl f ↦ rw (e, f) refl
    | inr (stop, f) ↦ rw (e, f) (agrees-is_scheduled rows n stop)
  ]
]
