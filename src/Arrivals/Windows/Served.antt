-- ===== src/Arrivals/Windows/Served.antt =====
-- Which stop times `activeStopTimesForWindow` returns.
use maglev.Prelude.{
  Bool, some, List, [], ◌∷◌, ◌++◌, In, In-append, In-append_left, In-append_right, Text, text_eq,
  ◌==◌, Map, lookup, bind_some, ◌>>=◌, ℤ, pos, negsuc, ◌≡◌, refl, sym, subst, arith, inl, inr, ◌↔◌,
  Option-cases,
}
use maglev.ServiceDates.{TimePackage}
use maglev.Arrivals.Windows.{
  WindowQueries, StopArrivalsInput, ActiveStopTime, Discovery, TimezoneGroup, group_keys,
  collect_group_window, collect_groups, StableSort, compare_active, active_stop_times_of,
  active_stop_times_for_window, discover_stop_agencies,
}
use maglev.Arrivals.Windows.Groups.{group_agencies-IsNamed, lookup-group_keys}
use maglev.Arrivals.Windows.Agencies.{IsDiscovered, discover_stop_agencies-IsDiscovered}
use maglev.Arrivals.Windows.Zones.{zone_of, groups, is_in_group-zone, zone-is_in_group}
use maglev.Arrivals.Windows.Dated.{IsReadOn, IsServedOn-IsReadOn, IsReadOn-IsServedOn}
use maglev.Arrivals.Windows.Days.{Collected, collect_days_iff}

-- yesterday, today and tomorrow
abbrev pub three_days : List ℤ
three_days = negsuc 0 ∷ pos 0 ∷ pos 1 ∷ []

module _ {T L : Type 0} (queries : WindowQueries L) (input : StopArrivalsInput T L) where
  abbrev pub is_primary_key : Text → Bool
  is_primary_key key = key == queries.location_name input.location

module _ {T L : Type 0} (time : TimePackage T L) (queries : WindowQueries L)
    (input : StopArrivalsInput T L) where
  module _ (route_agency : Map Text Text) (groups : Map Text (TimezoneGroup L)) where
    abbrev InGroup : Text → ActiveStopTime L → Type 0
    InGroup key a =
        (group : TimezoneGroup L) × (lookup key groups ≡ some group)
        × Collected time queries input route_agency group (is_primary_key queries input key)
            three_days a

    group-InGroup :
        (key : Text) (group : TimezoneGroup L) (rows : List (ActiveStopTime L))
        (a : ActiveStopTime L)
        → lookup key groups ≡ some group
        → collect_group_window time queries input route_agency group
            (is_primary_key queries input key)
          ≡ some rows
        → In a rows ↔ InGroup key a
    unfolding collect_group_window
    group-InGroup key group rows a e c =
        let (fwd, bwd) =
          collect_days_iff time queries input route_agency group (is_primary_key queries input key)
            three_days rows a c in
        (
          λ i. (group, e, fwd i),
          λ (g, q, h).
              let same : g ≡ group = ground (arith, e, q) in
              bwd (
                subst
                  (λ (x : TimezoneGroup L).
                    Collected time queries input route_agency x (is_primary_key queries input key)
                      three_days a)
                  same h),
        )

    collect_groups_iff :
        (keys : List Text) (out : List (ActiveStopTime L)) (a : ActiveStopTime L)
        → collect_groups time queries input route_agency groups keys ≡ some out
        → In a out ↔ ((key : Text) × In key keys × InGroup key a)
    unfolding collect_groups
    collect_groups_iff [] out a e =
        let empty : [] ≡ out = cc e in
        (λ i. absurd (subst (In a) (sym empty) i), λ (key, i, h). absurd i)
    collect_groups_iff (key ∷ keys) out a e = elim (Option-cases (lookup key groups)) [
      | inl q ↦
          let (fwd, bwd) = collect_groups_iff keys out a (rw (q, collect_groups) at e) in
          (
            λ i. let (k, j, h) = fwd i in (k, inr j, h),
            λ (k, i, h). elim i [
              | inl j ↦ let (g, l, r) = h in absurd (cc (q, j, l))
              | inr j ↦ bwd (k, j, h)
            ],
          )
      | inr (group, q) ↦
          let (rows, c, chain) =
            bind_some
              (collect_group_window time queries input route_agency group
                (is_primary_key queries input key))
              (λ rows. collect_groups time queries input route_agency groups keys >>= λ rest.
                some (rows ++ rest))
              out (rw (q, collect_groups) at e) in
          let (rest, later, made) =
            bind_some (collect_groups time queries input route_agency groups keys)
              (λ rest. some (rows ++ rest)) out chain in
          let same : rows ++ rest ≡ out = cc made in
          let (fwd, bwd) = collect_groups_iff keys rest a later in
          let (here, back) = group-InGroup key group rows a q c in
          (
            λ i. elim (In-append a rows rest (subst (In a) (sym same) i)) [
              | inl j ↦ (key, inl refl, here j)
              | inr j ↦ let (k, l, h) = fwd j in (k, inr l, h)
            ],
            λ (k, i, h). subst (In a) same (elim i [
              | inl j ↦ In-append_left a rows rest (back (subst (λ (x : Text). InGroup x a) j h))
              | inr j ↦ In-append_right a rows rest (bwd (k, j, h))
            ]),
          )
    ]

-- what `slices.SortStableFunc` promises of the elements
pub record StableSortLaws (sort : StableSort) : Type 1 where
  pub members :
      {A : Type 0} (compare : A → A → ℤ) (xs : List A) (a : A)
      → In a (sort.sort_stable compare xs) ↔ In a xs

module _ {T L : Type 0} (time : TimePackage T L) (queries : WindowQueries L)
    (input : StopArrivalsInput T L) (d : Discovery L) where
  -- a stop time that the window holds: its row belongs to the time zone of its group, and is served
  -- there on one of the three days
  pub record IsServed (a : ActiveStopTime L) : Type 0 where
    pub group : TimezoneGroup L
    pub listed : lookup (queries.location_name group.location) (groups queries input d) ≡ some group
    pub zoned : zone_of queries input d a.row ≡ some (queries.location_name group.location)
    pub day : ℤ
    pub near : In day three_days
    pub served : IsReadOn time queries input group.location day a

  InGroup-IsServed :
      (key : Text) (a : ActiveStopTime L)
      → IsDiscovered queries input d
      → InGroup time queries input d.route_agency (groups queries input d) key a
      → IsServed a
  unfolding lookup
  InGroup-IsServed key a found (group, listed, (day, near, served)) =
      let named : queries.location_name group.location ≡ key =
        group_agencies-IsNamed queries.location_name d.locations [] (λ k g e. absurd (cc e)) key
          group listed in
      record {
        group = group;
        listed = rw named listed;
        zoned =
            rw named
              (is_in_group-zone queries input d key group a.row found listed served.active.kept);
        day = day;
        near = near;
        served =
            IsServedOn-IsReadOn time queries input d.route_agency group
              (is_primary_key queries input key) day a served;
      }

  active_stop_times_of_iff :
      (sort : StableSort) (out : List (ActiveStopTime L)) (a : ActiveStopTime L)
      → StableSortLaws sort
      → IsDiscovered queries input d
      → active_stop_times_of time sort queries input d ≡ some out
      → In a out ↔ IsServed a
  unfolding active_stop_times_of
  active_stop_times_of_iff sort out a laws found e =
      let (rows, c, made) =
        bind_some
          (collect_groups time queries input d.route_agency (groups queries input d)
            (group_keys (groups queries input d)))
          (λ rows. some (sort.sort_stable (compare_active time) rows)) out e in
      let same : sort.sort_stable (compare_active time) rows ≡ out = cc made in
      let (fwd, bwd) =
        collect_groups_iff time queries input d.route_agency (groups queries input d)
          (group_keys (groups queries input d)) rows a c in
      let sorted = laws.members (compare_active time) rows a in
      (
        λ i.
            let (key, j, h) = fwd (sorted.0 (subst (In a) (sym same) i)) in
            InGroup-IsServed key a found h,
        λ s. subst (In a) same (
            sorted.1 (
              bwd (
                queries.location_name s.group.location,
                lookup-group_keys (queries.location_name s.group.location) (groups queries input d)
                    s.group s.listed,
                (
                  s.group,
                  s.listed,
                  (
                    s.day,
                    s.near,
                    IsReadOn-IsServedOn time queries input d.route_agency s.group
                        (is_primary_key queries input (queries.location_name (s.group).location))
                        s.day a
                        (zone-is_in_group queries input d (queries.location_name (s.group).location)
                          s.group a.row found s.listed s.zoned)
                        s.served,
                  ),
                ),
              ))),
      )

module _ {T L : Type 0} (time : TimePackage T L) (queries : WindowQueries L)
    (input : StopArrivalsInput T L) where
  -- Where the stable sort keeps the elements and `activeStopTimesForWindow` returns without an error, it
  -- has discovered the agencies of the stop, and the stop times that it returns are exactly those whose
  -- row belongs to the time zone of a group, is read for yesterday, today or tomorrow in that zone, for the
  -- times from the request's `before` ahead of the query until its `after` past it, counted from twelve hours
  -- before noon of that date and not ended before it, and has a service that is active on that date.
  pub active_stop_times_for_window_iff :
      (sort : StableSort) (out : List (ActiveStopTime L))
      → StableSortLaws sort
      → active_stop_times_for_window time sort queries input ≡ some out
      → (d : Discovery L) × (discover_stop_agencies queries input ≡ some d)
        × ((a : ActiveStopTime L) → In a out ↔ IsServed time queries input d a)
  unfolding active_stop_times_for_window
  active_stop_times_for_window_iff sort out laws e =
      let (d, found, h) =
        bind_some (discover_stop_agencies queries input)
          (active_stop_times_of time sort queries input) out e in
      (
        d,
        found,
        λ a.
            active_stop_times_of_iff time queries input d sort out a laws
              (discover_stop_agencies-IsDiscovered queries input d found) h,
      )
