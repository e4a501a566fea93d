-- ===== src/Arrivals/Windows/Groups.antt =====
-- The time zone groups of `groupAgenciesByTimezone` split the agencies of a stop by their time zones.
use maglev.Prelude.{
  Bool, false, ◌&&◌, ◌||◌, none, some, [], ◌∷◌, In, map, Text, text_eq, ◌==◌, contains_text,
  contains_text-add_text, add_text, sort_texts-In, Map, lookup, insert, lookup-insert, UniqueKeys,
  if◌then◌else◌, ◌≡◌, refl, sym, ap, subst, ◌∙◌, arith, inl, inr, Bool-cases, Option-cases,
}
use maglev.Arrivals.Windows.{TimezoneGroup, add_agency, group_agencies_by_timezone, group_keys}

module _ {L : Type 0} where
  -- the agency is in the group of the key
  abbrev pub is_member : Text → Text → Map Text (TimezoneGroup L) → Bool
  is_member key agency_id groups = elim (lookup key groups) [
    | none ↦ false
    | some g ↦ contains_text agency_id g.agencies
  ]

  lookup_key :
      (key : Text) (m : Map Text (TimezoneGroup L)) (g : TimezoneGroup L)
      → lookup key m ≡ some g
      → In key (map (λ (e : Text × TimezoneGroup L). e.0) m)
  unfolding lookup
  lookup_key key [] g e = absurd (cc e)
  lookup_key key ((k, h) ∷ m) g e = elim (Bool-cases (k == key)) [
    | inl q ↦ inl (sym ((text_eq.beq_iff k key).0 q))
    | inr q ↦ inr (lookup_key key m g (rw q at e))
  ]

  -- the key of each group is listed
  pub lookup-group_keys :
      (key : Text) (groups : Map Text (TimezoneGroup L)) (g : TimezoneGroup L)
      → lookup key groups ≡ some g
      → In key (group_keys groups)
  unfolding group_keys
  lookup-group_keys key groups g e =
      (sort_texts-In key (map (λ (e : Text × TimezoneGroup L). e.0) groups)).1
        (lookup_key key groups g e)

module _ {L : Type 0} where
  is_member-insert :
      (key agency_id k : Text) (g : TimezoneGroup L) (groups : Map Text (TimezoneGroup L))
      → is_member key agency_id (insert k g groups)
        ≡ (if k == key then contains_text agency_id g.agencies else is_member key agency_id groups)
  is_member-insert key agency_id k g groups =
      ground (arith, lookup-insert {V = TimezoneGroup L} k key g groups)

module _ {L : Type 0} (location_name : L → Text) where
  -- the agency stands among the locations, in the time zone of the key
  abbrev pub is_located : Text → Text → Map Text L → Bool
  is_located key agency_id [] = false
  is_located key agency_id ((id, loc) ∷ m) =
      let rest = is_located key agency_id m in
      ((id == agency_id) && (location_name loc == key)) || rest

  is_member-add_agency :
      (key agency_id id : Text) (loc : L) (groups : Map Text (TimezoneGroup L))
      → is_member key agency_id (add_agency location_name id loc groups)
        ≡ (((id == agency_id) && (location_name loc == key)) || is_member key agency_id groups)
  unfolding add_agency
  is_member-add_agency key agency_id id loc groups =
      elim (Option-cases (lookup (location_name loc) groups)) [
        | inl e ↦
            let alone : TimezoneGroup L = record { location = loc; agencies = id ∷ [] } in
            let added : add_agency location_name id loc groups
                ≡ insert (location_name loc) alone groups =
              rw (e, add_agency) refl in
            ap (is_member key agency_id) added
            ∙ is_member-insert key agency_id (location_name loc) alone groups
            ∙ (unfold contains_text in ground (arith, text_eq.beq_iff (location_name loc) key))
        | inr (g, e) ↦
            let grown : TimezoneGroup L = record g { agencies = add_text id g.agencies } in
            let added : add_agency location_name id loc groups
                ≡ insert (location_name loc) grown groups =
              rw (e, add_agency) refl in
            ap (is_member key agency_id) added
            ∙ is_member-insert key agency_id (location_name loc) grown groups
            ∙ ground (
              arith,
              text_eq.beq_iff (location_name loc) key,
              contains_text-add_text agency_id id g.agencies,
            )
      ]

  is_member-group_agencies :
      (key agency_id : Text) (m : Map Text L) (groups : Map Text (TimezoneGroup L))
      → is_member key agency_id (group_agencies_by_timezone location_name m groups)
        ≡ (is_located key agency_id m || is_member key agency_id groups)
  unfolding group_agencies_by_timezone
  is_member-group_agencies key agency_id [] groups = refl
  is_member-group_agencies key agency_id ((id, loc) ∷ m) groups =
      is_member-group_agencies key agency_id m (add_agency location_name id loc groups)
      ∙ ground (arith, is_member-add_agency key agency_id id loc groups)

  is_located-lookup :
      (key agency_id : Text) (m : Map Text L)
      → UniqueKeys m
      → is_located key agency_id m
        ≡ elim (lookup agency_id m) [ none ↦ false | some loc ↦ location_name loc == key ]
  unfolding lookup
  is_located-lookup key agency_id [] u = refl
  is_located-lookup key agency_id ((id, loc) ∷ m) u =
      ground (arith, is_located-lookup key agency_id m u.1, text_eq.beq_iff id agency_id)

  -- an agency is in the group of its own time zone, and in no other
  pub is_member-lookup :
      (key agency_id : Text) (m : Map Text L)
      → UniqueKeys m
      → is_member key agency_id (group_agencies_by_timezone location_name m [])
        ≡ elim (lookup agency_id m) [ none ↦ false | some loc ↦ location_name loc == key ]
  unfolding lookup
  is_member-lookup key agency_id m u =
      is_member-group_agencies key agency_id m []
      ∙ ground (arith, is_located-lookup key agency_id m u)

  abbrev IsNamed : Map Text (TimezoneGroup L) → Type 0
  IsNamed groups =
      (key : Text) (g : TimezoneGroup L)
      → lookup key groups ≡ some g
      → location_name g.location ≡ key

  insert-IsNamed :
      (name : Text) (g : TimezoneGroup L) (groups : Map Text (TimezoneGroup L))
      → location_name g.location ≡ name
      → IsNamed groups
      → IsNamed (insert name g groups)
  insert-IsNamed name g groups n named key h e = ground (
    arith,
    lookup-insert {V = TimezoneGroup L} name key g groups,
    text_eq.beq_iff name key,
    named key h,
  )

  add_agency-IsNamed :
      (id : Text) (loc : L) (groups : Map Text (TimezoneGroup L))
      → IsNamed groups
      → IsNamed (add_agency location_name id loc groups)
  unfolding add_agency
  add_agency-IsNamed id loc groups named = elim (Option-cases (lookup (location_name loc) groups)) [
    | inl e ↦
        let alone : TimezoneGroup L = record { location = loc; agencies = id ∷ [] } in
        let added : add_agency location_name id loc groups
            ≡ insert (location_name loc) alone groups =
          rw (e, add_agency) refl in
        subst IsNamed (sym added) (insert-IsNamed (location_name loc) alone groups refl named)
    | inr (g, e) ↦
        let grown : TimezoneGroup L = record g { agencies = add_text id g.agencies } in
        let added : add_agency location_name id loc groups
            ≡ insert (location_name loc) grown groups =
          rw (e, add_agency) refl in
        subst IsNamed (sym added)
          (insert-IsNamed (location_name loc) grown groups (named (location_name loc) g e) named)
  ]

  pub group_agencies-IsNamed :
      (m : Map Text L) (groups : Map Text (TimezoneGroup L))
      → IsNamed groups
      → IsNamed (group_agencies_by_timezone location_name m groups)
  unfolding group_agencies_by_timezone
  group_agencies-IsNamed [] groups named = named
  group_agencies-IsNamed ((id, loc) ∷ m) groups named =
      group_agencies-IsNamed m (add_agency location_name id loc groups)
        (add_agency-IsNamed id loc groups named)
