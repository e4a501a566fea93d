-- ===== src/Deviation/Block/FirstDelays.antt =====
-- The delays of the stop time updates of a block, in their order.
use maglev.Prelude.{
  Option, none, some, List, [], ◌∷◌, ◌++◌, ◌>>=◌, ℤ, ◌≡◌, refl, ◌∙◌, arith, Option-cases, inl, inr,
}
use maglev.Deviation.{
  StopTimeEvent, StopTimeUpdate, TripUpdate, event_delay, first_delay,
  pick_first_available_stu_delay,
}

abbrev pub first_listed : List ℤ → Option ℤ
first_listed [] = none
first_listed (d ∷ ds) = some d

-- the delay of an event, if it has one
abbrev pub listed : {T : Type 0} → Option (StopTimeEvent T) → List ℤ
listed event = elim (event >>= λ e. e.delay) [ none ↦ [] | some d ↦ d ∷ [] ]

-- of each stop the delay of the arrival, then that of the departure
abbrev pub stop_delays : {T : Type 0} → List (StopTimeUpdate T) → List ℤ
stop_delays [] = []
stop_delays (s ∷ ss) = listed s.arrival ++ (listed s.departure ++ stop_delays ss)

abbrev pub listed_delays : {T : Type 0} → List (TripUpdate T) → List ℤ
listed_delays [] = []
listed_delays (t ∷ ts) = stop_delays t.stop_time_updates ++ listed_delays ts

first_listed-append :
    (ds es : List ℤ)
    → first_listed (ds ++ es) ≡ elim (first_listed ds) [ some d ↦ some d | none ↦ first_listed es ]
first_listed-append [] es = refl
first_listed-append (d ∷ ds) es = refl

event_delay-listed :
    {T : Type 0} (event : Option (StopTimeEvent T))
    → event_delay event ≡ first_listed (listed event)
unfolding event_delay
event_delay-listed none = refl
event_delay-listed (some e) = elim (Option-cases e.delay) [
  | inl n ↦ rw n refl
  | inr (d, n) ↦ rw n refl
]

first_delay-listed :
    {T : Type 0} (ss : List (StopTimeUpdate T)) (rest : Option ℤ)
    → first_delay ss rest ≡ elim (first_listed (stop_delays ss)) [ some d ↦ some d | none ↦ rest ]
unfolding first_delay
first_delay-listed [] rest = refl
first_delay-listed (s ∷ ss) rest = ground (
  arith,
  event_delay-listed s.arrival,
  event_delay-listed s.departure,
  first_listed-append (listed s.arrival) (listed s.departure ++ stop_delays ss),
  first_listed-append (listed s.departure) (stop_delays ss),
  first_delay-listed ss rest,
)

-- `pickFirstAvailableSTUDelay` finds the first of them
pub pick_first_listed :
    {T : Type 0} (ts : List (TripUpdate T))
    → pick_first_available_stu_delay ts ≡ first_listed (listed_delays ts)
unfolding pick_first_available_stu_delay
pick_first_listed [] = refl
pick_first_listed (t ∷ ts) =
    first_delay-listed t.stop_time_updates (pick_first_available_stu_delay ts)
    ∙ ground (
      arith,
      pick_first_listed ts,
      first_listed-append (stop_delays t.stop_time_updates) (listed_delays ts),
    )
