-- ===== src/Deviation/Block/Loading.antt =====
-- The schedules that `loadScheduledForTrips` makes of the rows of its query.
use maglev.Prelude.{
  true, false, Option, none, some, List, [], ◌∷◌, ◌++◌, Text, text_eq, ◌==◌, Map, lookup, insert,
  lookup-insert, get_or, is_some, In, if◌then◌else◌, ◌≡◌, ◌⊎◌, refl, sym, ap, ◌∙◌, subst, arith,
  Bool-cases, Option-cases, inl, inr,
}
use maglev.Deviation.Schedule.{SchedEntry}
use maglev.Deviation.Block.{
  StopTimeRow, entry_of, Schedules, no_schedules, add_rows, load_scheduled_for_trips,
}

-- the rows are of the trips that were asked for
abbrev pub RowsOf : List Text → List StopTimeRow → Type 0
RowsOf ids [] = Unit {0}
RowsOf ids (r ∷ rs) = In r.trip_id ids × RowsOf ids rs

-- a query by `WHERE trip_id IN (...)`
abbrev pub Answers : (List Text → Option (List StopTimeRow)) → Type 0
Answers query =
    (ids : List Text) (rows : List StopTimeRow) → query ids ≡ some rows → RowsOf ids rows

-- the entries of a stop in a trip, in the order of the rows
abbrev pub entries_at : Text → Text → List StopTimeRow → List SchedEntry
entries_at trip stop [] = []
entries_at trip stop (r ∷ rs) =
    if r.trip_id == trip
    then if r.stop_id == stop then entry_of r ∷ entries_at trip stop rs else entries_at trip stop rs
    else entries_at trip stop rs

abbrev HoldsTrips : List Text → Schedules → Type 0
HoldsTrips ids m = (id : Text) → In id ids → is_some (lookup id m) ≡ true

no_schedules-HoldsTrips :
    (ids : List Text) (m : Schedules)
    → HoldsTrips ids (no_schedules ids m)
      × ((id : Text)
          → is_some (lookup id m) ≡ true
          → is_some (lookup id (no_schedules ids m)) ≡ true)
unfolding no_schedules
no_schedules-HoldsTrips [] m = (λ id i. absurd i, λ id h. h)
no_schedules-HoldsTrips (i ∷ ids) m =
    let (a, b) = no_schedules-HoldsTrips ids (insert i [] m) in
    (λ id k. elim k [ inl q ↦ b id (rw q (new i)) | inr l ↦ a id l ], λ id h. b id (old id h))
  where
    new : (id : Text) → is_some (lookup id (insert id [] m)) ≡ true
    new id =
        ground
          (arith, lookup-insert {V = Map Text (List SchedEntry)} id id [] m, text_eq.beq_iff id id)

    old : (id : Text) → is_some (lookup id m) ≡ true → is_some (lookup id (insert i [] m)) ≡ true
    old id h = ground (arith, lookup-insert {V = Map Text (List SchedEntry)} i id [] m)

abbrev pub entries : Text → Text → Schedules → List SchedEntry
entries trip stop m = get_or [] stop (get_or [] trip m)

append_one : {A : Type 0} (xs ys : List A) (a : A) → (xs ++ (a ∷ [])) ++ ys ≡ xs ++ (a ∷ ys)
append_one [] ys a = refl
append_one (x ∷ xs) ys a = ap (◌∷◌ x) (append_one xs ys a)

append_none : {A : Type 0} (xs : List A) → xs ++ [] ≡ xs
append_none [] = refl
append_none (x ∷ xs) = ap (◌∷◌ x) (append_none xs)

module _ (r : StopTimeRow) (out : Schedules) (m : Map Text (List SchedEntry))
    (e : lookup r.trip_id out ≡ some m) where
  abbrev with_row : Schedules
  with_row = insert r.trip_id (insert r.stop_id (get_or [] r.stop_id m ++ (entry_of r ∷ [])) m) out

  get_or-with_row :
      (trip : Text)
      → get_or [] trip with_row ≡ (
          if r.trip_id == trip
          then insert r.stop_id (get_or [] r.stop_id m ++ (entry_of r ∷ [])) m
          else get_or [] trip out)
  get_or-with_row trip = ground (
    arith,
    lookup-insert {V = Map Text (List SchedEntry)} r.trip_id trip
        (insert r.stop_id (get_or [] r.stop_id m ++ (entry_of r ∷ [])) m) out,
  )

  entries-with_row :
      (trip stop : Text) (rs : List StopTimeRow)
      → entries trip stop with_row ++ entries_at trip stop rs
        ≡ entries trip stop out ++ entries_at trip stop (r ∷ rs)
  entries-with_row trip stop rs = elim (Bool-cases (r.trip_id == trip)) [
    | inr n ↦ rw n (
        ap (λ (x : Map Text (List SchedEntry)). get_or [] stop x ++ entries_at trip stop rs)
          (get_or-with_row trip ∙ rw n refl))
    | inl q ↦ rw q (
        ap (λ (x : Map Text (List SchedEntry)). get_or [] stop x ++ entries_at trip stop rs)
          (get_or-with_row trip ∙ rw q refl)
        ∙ at_stop (Bool-cases (r.stop_id == stop)) (held ((text_eq.beq_iff r.trip_id trip).0 q)))
  ]
    where
      held : r.trip_id ≡ trip → get_or [] trip out ≡ m
      held q = rw (← q) (rw (e, get_or) refl)

      at_stop :
          ((r.stop_id == stop) ≡ true) ⊎ ((r.stop_id == stop) ≡ false)
          → get_or [] trip out ≡ m
          → get_or [] stop (insert r.stop_id (get_or [] r.stop_id m ++ (entry_of r ∷ [])) m)
              ++ entries_at trip stop rs
            ≡ entries trip stop out
              ++ (if r.stop_id == stop
                  then entry_of r ∷ entries_at trip stop rs
                  else entries_at trip stop rs)
      at_stop (inr n) h =
          let same : get_or [] stop
                (insert r.stop_id (get_or [] r.stop_id m ++ (entry_of r ∷ [])) m)
              ≡ get_or [] stop m =
            ground (
              arith,
              lookup-insert {V = List SchedEntry} r.stop_id stop
                  (get_or [] r.stop_id m ++ (entry_of r ∷ [])) m,
              n,
            ) in
          rw (n, h, same) refl
      at_stop (inl q) h =
          let s : r.stop_id ≡ stop = (text_eq.beq_iff r.stop_id stop).0 q in
          let more : get_or [] stop
                (insert r.stop_id (get_or [] r.stop_id m ++ (entry_of r ∷ [])) m)
              ≡ get_or [] stop m ++ (entry_of r ∷ []) =
            ground (
              arith,
              lookup-insert {V = List SchedEntry} r.stop_id stop
                  (get_or [] r.stop_id m ++ (entry_of r ∷ [])) m,
              q,
              s,
            ) in
          rw (q, h, more) (append_one (get_or [] stop m) (entries_at trip stop rs) (entry_of r))

  HoldsTrips-with_row : (ids : List Text) → HoldsTrips ids out → HoldsTrips ids with_row
  HoldsTrips-with_row ids h id i = ground (
    arith,
    h id i,
    lookup-insert {V = Map Text (List SchedEntry)} r.trip_id id
        (insert r.stop_id (get_or [] r.stop_id m ++ (entry_of r ∷ [])) m) out,
  )

add_rows_lem :
    (ids : List Text) (rows : List StopTimeRow) (out : Schedules)
    → RowsOf ids rows
    → HoldsTrips ids out
    → (m : Schedules) × (add_rows rows out ≡ some m)
      × ((trip stop : Text)
          → entries trip stop m ≡ entries trip stop out ++ entries_at trip stop rows)
unfolding add_rows
add_rows_lem ids [] out asked holds =
    (out, refl, λ trip stop. sym (append_none (entries trip stop out)))
add_rows_lem ids (r ∷ rs) out asked holds = elim (Option-cases (lookup r.trip_id out)) [
  | inl n ↦ absurd (cc (ap is_some n, holds r.trip_id asked.0))
  | inr (x, e) ↦
      let (m, f, all) =
        add_rows_lem ids rs (with_row r out x e) asked.1
          (HoldsTrips-with_row r out x e ids holds) in
      (m, rw (e, add_rows) f, λ trip stop. all trip stop ∙ entries-with_row r out x e trip stop rs)
]

entries-no_schedules :
    (trip stop : Text) (ids : List Text) (m : Schedules)
    → get_or [] trip m ≡ []
    → entries trip stop (no_schedules ids m) ≡ []
unfolding no_schedules lookup
entries-no_schedules trip stop [] m h = ap (get_or [] stop) h
entries-no_schedules trip stop (i ∷ ids) m h =
    entries-no_schedules trip stop ids (insert i [] m)
      (ground (arith, h, lookup-insert {V = Map Text (List SchedEntry)} i trip [] m))

-- what the code loads, where the query answers for the trips that it is asked for
pub record IsLoaded (query : List Text → Option (List StopTimeRow)) (ids : List Text)
    (m : Schedules) : Type 0 where
  of_rows :
      (rows : List StopTimeRow) (trip stop : Text)
      → query ids ≡ some rows
      → entries trip stop m ≡ entries_at trip stop rows
  of_failure : (trip stop : Text) → query ids ≡ none → entries trip stop m ≡ []

-- Where the rows of the query are of the trips that it is asked for, the loading never writes to the
-- map of another trip, which would be nil, and the entries of a stop in a trip are those of the rows of
-- that trip and stop, in their order; where the query fails there are none.
pub load_scheduled_for_trips_lem :
    (query : List Text → Option (List StopTimeRow)) (ids : List Text)
    → Answers query
    → (m : Schedules) × (load_scheduled_for_trips query ids ≡ some m) × IsLoaded query ids m
unfolding load_scheduled_for_trips lookup
load_scheduled_for_trips_lem query [] answers = (
  [],
  refl,
  record {
    of_rows = λ rows trip stop e. none_asked rows trip stop (answers [] rows e);
    of_failure = λ trip stop e. refl;
  },
)
  where
    none_asked :
        (rows : List StopTimeRow) (trip stop : Text)
        → RowsOf [] rows
        → entries trip stop [] ≡ entries_at trip stop rows
    none_asked = unfold lookup in none_of
      where
        none_of :
            (rows : List StopTimeRow) (trip stop : Text)
            → RowsOf [] rows
            → [] ≡ entries_at trip stop rows
        none_of [] trip stop h = refl
        none_of (r ∷ rs) trip stop h = absurd h.0
load_scheduled_for_trips_lem query (i ∷ ids) answers = elim (Option-cases (query (i ∷ ids))) [
  | inl n ↦ (
    no_schedules (i ∷ ids) [],
    rw (n, load_scheduled_for_trips) refl,
    record {
      of_rows = λ rows trip stop e. absurd (cc (n, e));
      of_failure = λ trip stop e. entries-no_schedules trip stop (i ∷ ids) [] refl;
    },
  )
  | inr (rows, e) ↦
      let (m, f, all) =
        add_rows_lem (i ∷ ids) rows (no_schedules (i ∷ ids) []) (answers (i ∷ ids) rows e)
          (no_schedules-HoldsTrips (i ∷ ids) []).0 in
      (
        m,
        rw (e, load_scheduled_for_trips) f,
        record {
          of_rows = λ rows' trip stop e'.
              let same : rows ≡ rows' = cc (e, e') in
              subst (λ (x : List StopTimeRow). entries trip stop m ≡ entries_at trip stop x) same
                (all trip stop
                  ∙ ap (λ (x : List SchedEntry). x ++ entries_at trip stop rows)
                      (entries-no_schedules trip stop (i ∷ ids) [] refl));
          of_failure = λ trip stop e'. absurd (cc (e, e'));
        },
      )
]
