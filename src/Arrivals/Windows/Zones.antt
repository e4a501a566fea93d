-- ===== src/Arrivals/Windows/Zones.antt =====
-- The time zone that each stop time belongs to, and its group.
use maglev.Prelude.{
  true, false, Option, none, some, [], Text, text_eq, ◌==◌, eq_refl, Map, lookup, ◌≡◌, refl, sym,
  ◌∙◌, subst, arith, inl, inr, Option-cases,
}
use maglev.Arrivals.Windows.{
  WindowRow, WindowQueries, StopArrivalsInput, Discovery, TimezoneGroup, group_agencies_by_timezone,
  is_in_group,
}
use maglev.Arrivals.Windows.Groups.{is_member, is_member-lookup}
use maglev.Arrivals.Windows.Agencies.{IsDiscovered}

module _ {T L : Type 0} (queries : WindowQueries L) (input : StopArrivalsInput T L)
    (d : Discovery L) where
  -- the time zone that a row belongs to: that of its route's agency, that of the stop's agency if the
  -- route is unknown, and none if the route's agency has no location
  abbrev pub zone_of : WindowRow → Option Text
  zone_of row = elim (lookup row.route_id d.route_agency) [
    | none ↦ some (queries.location_name input.location)
    | some agency_id ↦ elim (lookup agency_id d.locations) [
      | none ↦ none
      | some loc ↦ some (queries.location_name loc)
    ]
  ]

  abbrev pub groups : Map Text (TimezoneGroup L)
  groups = group_agencies_by_timezone queries.location_name d.locations []

  -- a row is in the group of its zone only
  is_in_group-zone_of :
      (key : Text) (group : TimezoneGroup L) (row : WindowRow)
      → IsDiscovered queries input d
      → lookup key groups ≡ some group
      → is_in_group d.route_agency group (key == queries.location_name input.location) row
        ≡ elim (zone_of row) [ none ↦ false | some z ↦ z == key ]
  unfolding is_in_group
  is_in_group-zone_of key group row found e =
      elim (Option-cases (lookup row.route_id d.route_agency)) [
        | inl r ↦
            rw (r, is_in_group)
              (ground (
                arith,
                text_eq.beq_iff key (queries.location_name input.location),
                text_eq.beq_iff (queries.location_name input.location) key,
              ))
        | inr (agency_id, r) ↦
            rw (r, is_in_group)
              (ground (
                arith,
                is_member-lookup queries.location_name key agency_id d.locations found.unique,
                e,
              ))
      ]

  -- a row that a group takes belongs to the group's time zone
  pub is_in_group-zone :
      (key : Text) (group : TimezoneGroup L) (row : WindowRow)
      → IsDiscovered queries input d
      → lookup key groups ≡ some group
      → is_in_group d.route_agency group (key == queries.location_name input.location) row ≡ true
      → zone_of row ≡ some key
  is_in_group-zone key group row found e h = elim (Option-cases (zone_of row)) [
    | inl z ↦ absurd (cc (h, is_in_group-zone_of key group row found e, z))
    | inr (name, z) ↦
        let same : (name == key) ≡ true =
          sym (is_in_group-zone_of key group row found e ∙ rw z refl) ∙ h in
        let equal : name ≡ key = (text_eq.beq_iff name key).0 same in cc (z, equal)
  ]

  -- a row of the zone of a group is in the group
  pub zone-is_in_group :
      (key : Text) (group : TimezoneGroup L) (row : WindowRow)
      → IsDiscovered queries input d
      → lookup key groups ≡ some group
      → zone_of row ≡ some key
      → is_in_group d.route_agency group (key == queries.location_name input.location) row ≡ true
  zone-is_in_group key group row found e z =
      is_in_group-zone_of key group row found e ∙ (rw z (eq_refl key))

  member_group :
      (key agency_id : Text)
      → is_member key agency_id groups ≡ true
      → (group : TimezoneGroup L) × (lookup key groups ≡ some group)
  member_group key agency_id h = elim (Option-cases (lookup key groups)) [
    | inl e ↦ absurd (cc (rw (e, is_member) at h))
    | inr g ↦ g
  ]

  located_group :
      (agency_id : Text) (loc : L)
      → IsDiscovered queries input d
      → lookup agency_id d.locations ≡ some loc
      → (group : TimezoneGroup L) × (lookup (queries.location_name loc) groups ≡ some group)
  located_group agency_id loc found e = member_group (queries.location_name loc) agency_id (
      is_member-lookup queries.location_name (queries.location_name loc) agency_id d.locations
        found.unique
      ∙ rw e (eq_refl (queries.location_name loc)))

  -- Every row with a time zone has a group, and of all groups it is only in the one of its time zone.
  zone_of-group :
      (row : WindowRow) (z : Text)
      → IsDiscovered queries input d
      → zone_of row ≡ some z
      → (group : TimezoneGroup L) × (lookup z groups ≡ some group)
  zone_of-group row z found e = elim (Option-cases (lookup row.route_id d.route_agency)) [
    | inl r ↦
        let same : queries.location_name input.location ≡ z =
          ground (arith, rw (r, zone_of) at e) in
        subst (λ (x : Text). (group : TimezoneGroup L) × (lookup x groups ≡ some group)) same
          (located_group input.agency_id input.location found found.primary)
    | inr (agency_id, r) ↦ elim (Option-cases (lookup agency_id d.locations)) [
      | inl l ↦ absurd (cc (rw (r, zone_of, l) at e))
      | inr (loc, l) ↦
          let same : queries.location_name loc ≡ z = ground (arith, rw (r, zone_of, l) at e) in
          subst (λ (x : Text). (group : TimezoneGroup L) × (lookup x groups ≡ some group)) same
            (located_group agency_id loc found l)
    ]
  ]
