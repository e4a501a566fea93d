-- ===== src/Arrivals/Windows/Failures.antt =====
-- When `activeStopTimesForWindow` fails.
use maglev.Prelude.{
  Bool, none, some, List, [], ◌∷◌, ◌++◌, In, Text, text_eq, ◌==◌, Map, lookup, bind_none, ◌>>=◌, ℤ,
  pos, int_beq, ◌≡◌, refl, subst, arith, ◌⊎◌, inl, inr, ◌↔◌, Option-cases,
}
use maglev.ServiceDates.{TimePackage, add_days, new_date}
use maglev.Arrivals.Windows.{
  WindowQueries, StopArrivalsInput, Discovery, TimezoneGroup, service_day,
  stop_times_for_group_service_day, collect_days, collect_group_window, collect_groups, group_keys,
  StableSort, compare_active, active_stop_times_of, active_stop_times_for_window,
  discover_stop_agencies,
}
use maglev.Arrivals.Windows.Groups.{lookup-group_keys}
use maglev.Arrivals.Windows.Dated.{date_after}
use maglev.Arrivals.Windows.Undiscovered.{IsUndiscovered, discover_stop_agencies-none}
use maglev.Arrivals.Windows.Zones.{groups}

module _ {T L : Type 0} (time : TimePackage T L) (queries : WindowQueries L)
    (input : StopArrivalsInput T L) where
  -- the services of a day cannot be read in the time zone of the group
  abbrev pub IsUnread : TimezoneGroup L → ℤ → Type 0
  IsUnread group day =
      queries.active_service_ids (queries.date_string (date_after time input group.location day))
      ≡ none

  module _ (route_agency : Map Text Text) where
    IsUnread-day :
        (group : TimezoneGroup L) (is_primary : Bool) (day : ℤ)
        → (stop_times_for_group_service_day time queries input route_agency group is_primary day
            ≡ none)
          ↔ IsUnread group day
    unfolding stop_times_for_group_service_day service_day add_days new_date
    IsUnread-day group is_primary day = ground arith

    IsUnread-window :
        (group : TimezoneGroup L) (is_primary : Bool)
        → (collect_group_window time queries input route_agency group is_primary ≡ none)
          ↔ IsUnread group (pos 0)
    unfolding collect_group_window collect_days int_beq
    IsUnread-window group is_primary = ground (arith, IsUnread-day group is_primary (pos 0))

    module _ (groups : Map Text (TimezoneGroup L)) where
      abbrev Fails : List Text → Type 0
      Fails keys =
          (key : Text) × In key keys
          × ((group : TimezoneGroup L) × (lookup key groups ≡ some group) × IsUnread group (pos 0))

      after_window :
          (group : TimezoneGroup L) (is_primary : Bool) (keys : List Text)
          → collect_groups time queries input route_agency groups keys ≡ none
          → (collect_group_window time queries input route_agency group is_primary >>= λ rows.
              collect_groups time queries input route_agency groups keys >>= λ rest.
              some (rows ++ rest))
            ≡ none
      after_window group is_primary keys e = ground (arith, e)

      collect_groups-none :
          (keys : List Text)
          → (collect_groups time queries input route_agency groups keys ≡ none) ↔ Fails keys
      unfolding collect_groups
      collect_groups-none [] = (λ e. absurd (cc e), λ (key, i, h). absurd i)
      collect_groups-none (key ∷ keys) = (
        λ e. elim (Option-cases (lookup key groups)) [
          | inl q ↦
              let (k, i, h) = (collect_groups-none keys).0 (rw (q, collect_groups) at e) in
              (k, inr i, h)
          | inr (group, q) ↦
              elim (bind_none
                (collect_group_window time queries input route_agency group
                  (key == queries.location_name input.location))
                (λ rows. collect_groups time queries input route_agency groups keys >>= λ rest.
                  some (rows ++ rest))
                (rw (q, collect_groups) at e)) [
                  | inl c ↦ (
                    key,
                    inl refl,
                    (
                      group,
                      q,
                      (IsUnread-window group (key == queries.location_name input.location)).0 c,
                    ),
                  )
                  | inr (rows, c, chain) ↦
                      let (k, i, h) = (collect_groups-none keys).0 (ground (arith, chain)) in
                      (k, inr i, h)
                ]
        ],
        λ (k, i, h). elim i [
          | inl j ↦
              let (group, q, u) =
                subst
                  (λ (x : Text).
                    (group : TimezoneGroup L) × (lookup x groups ≡ some group)
                    × IsUnread group (pos 0))
                  j h in
              let c = (IsUnread-window group (key == queries.location_name input.location)).1 u in
              rw (q, collect_groups, c) refl
          | inr j ↦
              let later = (collect_groups-none keys).1 (k, j, h) in
              elim (Option-cases (lookup key groups)) [
                | inl q ↦ rw (q, collect_groups) later
                | inr (group, q) ↦
                    rw (q, collect_groups)
                      (after_window group (key == queries.location_name input.location) keys later)
              ]
        ],
      )

module _ {T L : Type 0} (time : TimePackage T L) (queries : WindowQueries L)
    (input : StopArrivalsInput T L) where
  -- a group of the discovered agencies whose services of today cannot be read
  abbrev pub IsTodayUnread : Discovery L → Type 0
  IsTodayUnread d =
      (key : Text) × ((group : TimezoneGroup L) × (lookup key (groups queries input d) ≡ some group)
        × IsUnread time queries input group (pos 0))

  of_none :
      (sort : StableSort) (d : Discovery L)
      → (active_stop_times_of time sort queries input d ≡ none) ↔ IsTodayUnread d
  unfolding active_stop_times_of
  of_none sort d =
      let keys = group_keys (groups queries input d) in
      let fails =
        collect_groups-none time queries input d.route_agency (groups queries input d) keys in
      (
        λ e.
            elim (bind_none
              (collect_groups time queries input d.route_agency (groups queries input d) keys)
              (λ rows. some (sort.sort_stable (compare_active time) rows)) e) [
                | inl c ↦ let (key, i, h) = fails.0 c in (key, h)
                | inr (rows, c, chain) ↦ absurd (cc chain)
              ],
        λ (key, (group, l, u)).
            rw
              (fails.1 (key, lookup-group_keys key (groups queries input d) group l, (group, l, u)))
              refl,
      )

  -- `activeStopTimesForWindow` fails exactly if the routes of the stop cannot be read, or one of them is
  -- of an agency, other than the request's, that cannot be read or whose time zone cannot be loaded, or the
  -- services of today cannot be read in the time zone of some agency; a missing agency, a failure for yesterday or tomorrow, or one of
  -- the query of the stop times, drops rows and is no error.
  pub active_stop_times_for_window-none :
      (sort : StableSort)
      → (active_stop_times_for_window time sort queries input ≡ none) ↔ (
          IsUndiscovered queries input
          ⊎ ((d : Discovery L) × (discover_stop_agencies queries input ≡ some d) × IsTodayUnread d))
  unfolding active_stop_times_for_window active_stop_times_of
  active_stop_times_for_window-none sort = (
    λ e.
        elim (bind_none (discover_stop_agencies queries input)
          (active_stop_times_of time sort queries input) e) [
            | inl q ↦ inl ((discover_stop_agencies-none queries input).0 q)
            | inr (d, q, h) ↦ inr (d, q, (of_none sort d).0 h)
          ],
    λ c. elim c [
      | inl u ↦ rw ((discover_stop_agencies-none queries input).1 u) refl
      | inr (d, q, (key, h)) ↦ rw q ((of_none sort d).1 (key, h))
    ],
  )
