-- ===== src/Arrivals/Windows/Days.antt =====
-- The stop times that `collectGroupWindow` collects for one time zone group.
use maglev.Prelude.{
  Bool, true, false, ◌&&◌, none, some, List, [], ◌∷◌, ◌++◌, In, In-append, In-append_left,
  In-append_right, Text, text_eq, contains_text, contains_text-In, Map, bind_some, and_true, ℤ, pos,
  lt_int, ◌≡◌, refl, sym, subst, ap, arith, inl, inr, ◌↔◌, Bool-cases, Option-cases,
}
use maglev.ServiceDates.{Date, TimePackage}
use maglev.Arrivals.Windows.{
  WindowRow, WindowQueries, StopArrivalsInput, ActiveStopTime, TimezoneGroup, is_in_group,
  active_rows, service_day, window_start, window_end, stop_times_of_services,
  stop_times_for_group_service_day, collect_days,
}

module _ {L : Type 0} (is_kept : WindowRow → Bool) (services : List Text) (date : Date)
    (loc : L) where
  -- an active row of the day
  pub record IsActive (rows : List WindowRow) (a : ActiveStopTime L) : Type 0 where
    pub listed : In a.row rows
    pub kept : is_kept a.row ≡ true
    pub serviced : contains_text (a.row).service_id services ≡ true
    pub dated : a.service_date ≡ date
    pub located : a.location ≡ loc

  later_IsActive :
      (r : WindowRow) (rows : List WindowRow) (a : ActiveStopTime L)
      → IsActive rows a
      → IsActive (r ∷ rows) a
  later_IsActive r rows a h = record {
    listed = inr h.listed;
    kept = h.kept;
    serviced = h.serviced;
    dated = h.dated;
    located = h.located;
  }

  In-active_rows :
      (rows : List WindowRow) (a : ActiveStopTime L)
      → In a (active_rows is_kept services date loc rows)
      → IsActive rows a
  unfolding active_rows
  In-active_rows [] a i = absurd i
  In-active_rows (r ∷ rows) a i =
      elim (Bool-cases (is_kept r && contains_text r.service_id services)) [
        | inr e ↦ later_IsActive r rows a (In-active_rows rows a (rw e at i))
        | inl e ↦ elim (rw e at i) [
          | inl same ↦ rw same (record {
            listed = inl refl;
            kept = (and_true e).0;
            serviced = (and_true e).1;
            dated = refl;
            located = refl;
          })
          | inr j ↦ later_IsActive r rows a (In-active_rows rows a j)
        ]
      ]

  abbrev stop_time_at : WindowRow → ActiveStopTime L
  stop_time_at row = record { row = row; service_date = date; location = loc }

  active_rows-In :
      (rows : List WindowRow) (row : WindowRow)
      → In row rows
      → is_kept row ≡ true
      → contains_text row.service_id services ≡ true
      → In (stop_time_at row) (active_rows is_kept services date loc rows)
  unfolding active_rows
  active_rows-In [] row i k s = absurd i
  active_rows-In (r ∷ rows) row (inl e) k s =
      let kept : is_kept r ≡ true = subst (λ (x : WindowRow). is_kept x ≡ true) e k in
      let serviced : contains_text r.service_id services ≡ true =
        subst (λ (x : WindowRow). contains_text x.service_id services ≡ true) e s in
      rw (kept, serviced) (inl (ap stop_time_at e))
  active_rows-In (r ∷ rows) row (inr i) k s =
      elim (Bool-cases (is_kept r && contains_text r.service_id services)) [
        | inl e ↦ rw e (inr (active_rows-In rows row i k s))
        | inr e ↦ rw e (active_rows-In rows row i k s)
      ]

module _ {T L : Type 0} (time : TimePackage T L) (queries : WindowQueries L)
    (input : StopArrivalsInput T L) where
  module _ (route_agency : Map Text Text) (group : TimezoneGroup L) (is_primary : Bool) where
    -- a stop time of a group on a service day
    pub record IsServedOn (day : ℤ) (a : ActiveStopTime L) : Type 0 where
      pub services : List Text
      pub queried :
          queries.active_service_ids
            (queries.date_string (service_day time queries input group.location day))
          ≡ some services
      pub open_window : lt_int (window_end time queries input group.location day) (pos 0) ≡ false
      pub rows : List WindowRow
      pub read :
          queries.stop_times_in_window input.stop_code
            (window_start time queries input group.location day)
            (window_end time queries input group.location day)
          ≡ some rows
      pub active :
          IsActive
            (is_in_group route_agency group is_primary)
            services
            (service_day time queries input group.location day)
            group.location
            rows
            a

    In-stop_times_of_services :
        (day : ℤ) (services : List Text) (a : ActiveStopTime L)
        → queries.active_service_ids
            (queries.date_string (service_day time queries input group.location day))
          ≡ some services
        → In a
            (stop_times_of_services time queries input route_agency group is_primary day services)
        → IsServedOn day a
    unfolding stop_times_of_services
    In-stop_times_of_services day [] a q i = absurd i
    In-stop_times_of_services day (s ∷ services) a q i =
        elim (Bool-cases (lt_int (window_end time queries input group.location day) (pos 0))) [
          | inl e ↦ absurd (rw e at i)
          | inr e ↦
              elim (Option-cases (
                queries.stop_times_in_window input.stop_code
                  (window_start time queries input group.location day)
                  (window_end time queries input group.location day))) [
                    | inl r ↦ absurd (rw (e, r) at i)
                    | inr (rows, r) ↦ record {
                      services = s ∷ services;
                      queried = q;
                      open_window = e;
                      rows = rows;
                      read = r;
                      active =
                          In-active_rows (is_in_group route_agency group is_primary) (s ∷ services)
                            (service_day time queries input group.location day) group.location rows
                            a (rw (e, r) at i);
                    }
                  ]
        ]

    stop_times_of_services-In :
        (day : ℤ) (a : ActiveStopTime L) (h : IsServedOn day a)
        → In a
            (stop_times_of_services time queries input route_agency group is_primary day h.services)
    unfolding stop_times_of_services
    stop_times_of_services-In day a h = of_some h.services h.active
      where
        of_some :
            (services : List Text)
            → IsActive
                (is_in_group route_agency group is_primary)
                services
                (service_day time queries input group.location day)
                group.location
                h.rows
                a
            → In a (
                stop_times_of_services time queries input route_agency group is_primary day
                  services)
        of_some [] active = absurd (contains_text-In (a.row).service_id [] active.serviced)
        of_some (s ∷ services) active =
            let date = service_day time queries input group.location day in
            let kept = is_in_group route_agency group is_primary in
            rw (h.open_window, h.read)
              (subst
                (λ (x : ActiveStopTime L).
                  In x (active_rows kept (s ∷ services) date group.location h.rows))
                (rw (← active.dated, ← active.located) refl)
                (active_rows-In kept (s ∷ services) date group.location h.rows a.row active.listed
                  active.kept active.serviced))

    day-IsServedOn :
        (day : ℤ) (a : ActiveStopTime L) (rows : List (ActiveStopTime L))
        → stop_times_for_group_service_day time queries input route_agency group is_primary day
          ≡ some rows
        → In a rows
        → IsServedOn day a
    unfolding stop_times_for_group_service_day
    day-IsServedOn day a rows e i =
        let (services, q, made) =
          bind_some
            (queries.active_service_ids
              (queries.date_string (service_day time queries input group.location day)))
            (λ services. some (
              stop_times_of_services time queries input route_agency group is_primary day services))
            rows e in
        let same : stop_times_of_services time queries input route_agency group is_primary day
              services
            ≡ rows =
          cc made in
        In-stop_times_of_services day services a q (subst (In a) (sym same) i)

    IsServedOn-day :
        (day : ℤ) (a : ActiveStopTime L) (h : IsServedOn day a)
        → stop_times_for_group_service_day time queries input route_agency group is_primary day
          ≡ some (
              stop_times_of_services time queries input route_agency group is_primary day
                h.services)
    unfolding stop_times_for_group_service_day
    IsServedOn-day day a h = rw h.queried refl

    abbrev pub Collected : List ℤ → ActiveStopTime L → Type 0
    Collected days a = (day : ℤ) × In day days × IsServedOn day a

    unanswered_day :
        (day : ℤ) (days : List ℤ) (a : ActiveStopTime L)
        → stop_times_for_group_service_day time queries input route_agency group is_primary day
          ≡ none
        → Collected (day ∷ days) a
        → Collected days a
    unanswered_day day days a q (d, inl e, h) =
        let answered = IsServedOn-day day a (subst (λ (x : ℤ). IsServedOn x a) e h) in
        absurd (cc (q, answered))
    unanswered_day day days a q (d, inr i, h) = (d, i, h)

    answered_day :
        (day : ℤ) (a : ActiveStopTime L) (rows : List (ActiveStopTime L))
        → stop_times_for_group_service_day time queries input route_agency group is_primary day
          ≡ some rows
        → IsServedOn day a
        → In a rows
    answered_day day a rows q h =
        let answered = IsServedOn-day day a h in
        let same : stop_times_of_services time queries input route_agency group is_primary day
              h.services
            ≡ rows =
          cc (q, answered) in
        subst (In a) same (stop_times_of_services-In day a h)

    -- the rows of the days that answer are those served on one of them
    pub collect_days_iff :
        (days : List ℤ) (out : List (ActiveStopTime L)) (a : ActiveStopTime L)
        → collect_days time queries input route_agency group is_primary days ≡ some out
        → In a out ↔ Collected days a
    unfolding collect_days
    collect_days_iff [] out a e =
        let empty : [] ≡ out = cc e in
        (λ i. absurd (subst (In a) (sym empty) i), λ (day, i, h). absurd i)
    collect_days_iff (day ∷ days) out a e =
        elim (Option-cases
          (stop_times_for_group_service_day time queries input route_agency group is_primary day)) [
            | inl q ↦
                let later : collect_days time queries input route_agency group is_primary days
                    ≡ some out =
                  ground (arith, rw (q, collect_days) at e) in
                let (fwd, bwd) = collect_days_iff days out a later in
                (
                  λ i. let (d, j, h) = fwd i in (d, inr j, h),
                  λ c. bwd (unanswered_day day days a q c),
                )
            | inr (rows, q) ↦
                let (rest, later, made) =
                  bind_some (collect_days time queries input route_agency group is_primary days)
                    (λ rest. some (rows ++ rest)) out (rw (q, collect_days) at e) in
                let same : rows ++ rest ≡ out = cc made in
                let (fwd, bwd) = collect_days_iff days rest a later in
                (
                  λ i. elim (In-append a rows rest (subst (In a) (sym same) i)) [
                    | inl j ↦ (day, inl refl, day-IsServedOn day a rows q j)
                    | inr j ↦ let (d, k, h) = fwd j in (d, inr k, h)
                  ],
                  λ (d, i, h). subst (In a) same (elim i [
                    | inl j ↦
                        In-append_left a rows rest
                          (answered_day day a rows q (subst (λ (x : ℤ). IsServedOn x a) j h))
                    | inr j ↦ In-append_right a rows rest (bwd (d, j, h))
                  ]),
                )
          ]
