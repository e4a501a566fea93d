-- ===== src/Arrivals/Windows/Agencies.antt =====
-- What `discoverStopAgencies` promises to the rest of the window.
use maglev.Prelude.{
  Option, none, some, List, [], ◌∷◌, Text, text_eq, ◌==◌, Map, lookup, insert, lookup-insert_self,
  UniqueKeys, insert-UniqueKeys, ◌≡◌, refl, sym, arith, ◌⊎◌, inl, inr, Bool-cases, Option-cases,
}
use maglev.Arrivals.Windows.{
  WindowQueries, StopRoute, StopArrivalsInput, Discovery, resolve_agency_location, resolve_all,
  note_agency, note_agencies, note_routes, discover_from, discover_stop_agencies,
}

module _ {L : Type 0} (queries : WindowQueries L) where
  -- what becomes of the first entry
  abbrev Step : Text → Option L → Map Text (Option L) → Map Text L → Type 0
  Step id loc m out =
      (rest : Map Text L) × (resolve_all queries m ≡ some rest)
      × (((out ≡ rest) × (loc ≡ none))
          ⊎ ((l : L) × (out ≡ (id, l) ∷ rest) × ((loc ≡ some l) ⊎ (loc ≡ none))))

  resolve_all-Step :
      (id : Text) (loc : Option L) (m : Map Text (Option L)) (out : Map Text L)
      → resolve_all queries ((id, loc) ∷ m) ≡ some out
      → Step id loc m out
  unfolding resolve_all
  resolve_all-Step id (some l) m out e = elim (Option-cases (resolve_all queries m)) [
    | inl q ↦ absurd (cc (rw q at e))
    | inr (rest, q) ↦
        let same : some ((id, l) ∷ rest) ≡ some out = rw q at e in
        let equal : (id, l) ∷ rest ≡ out = cc same in (rest, q, inr (l, sym equal, inl refl))
  ]
  resolve_all-Step id none m out e = elim (Option-cases (resolve_agency_location queries id)) [
    | inl a ↦ absurd (cc (rw (a, resolve_all) at e))
    | inr (none, a) ↦ (out, rw (a, resolve_all) at e, inl (refl, refl))
    | inr (some l, a) ↦ elim (Option-cases (resolve_all queries m)) [
      | inl q ↦ absurd (cc (rw q at (rw (a, resolve_all) at e)))
      | inr (rest, q) ↦
          let same : some ((id, l) ∷ rest) ≡ some out = rw q at (rw (a, resolve_all) at e) in
          let equal : (id, l) ∷ rest ≡ out = cc same in (rest, q, inr (l, sym equal, inr refl))
    ]
  ]

  resolve_all-empty : (out : Map Text L) → resolve_all queries [] ≡ some out → out ≡ []
  unfolding resolve_all
  resolve_all-empty out e = ground (arith, e)

  resolve_all-lookup-none :
      (key : Text) (m : Map Text (Option L)) (out : Map Text L)
      → resolve_all queries m ≡ some out
      → lookup key m ≡ none
      → lookup key out ≡ none
  unfolding lookup
  resolve_all-lookup-none key [] out e h = rw (resolve_all-empty out e) refl
  resolve_all-lookup-none key ((id, loc) ∷ m) out e h = elim (Bool-cases (id == key)) [
    | inl k ↦ absurd (cc (rw k at h))
    | inr k ↦
        let (rest, q, step) = resolve_all-Step id loc m out e in
        elim step [
          | inl (same, n) ↦ rw same (resolve_all-lookup-none key m rest q (rw k at h))
          | inr (l, same, n) ↦ rw (same, k) (resolve_all-lookup-none key m rest q (rw k at h))
        ]
  ]

  resolve_all-lookup :
      (key : Text) (l : L) (m : Map Text (Option L)) (out : Map Text L)
      → resolve_all queries m ≡ some out
      → lookup key m ≡ some (some l)
      → lookup key out ≡ some l
  unfolding lookup
  resolve_all-lookup key l [] out e h = absurd (cc h)
  resolve_all-lookup key l ((id, loc) ∷ m) out e h = elim (Bool-cases (id == key)) [
    | inl k ↦
        let (rest, q, step) = resolve_all-Step id loc m out e in
        elim step [
          | inl (same, n) ↦ absurd (cc (n, rw k at h))
          | inr (l', same, n) ↦ rw (same, k) (ground (arith, rw k at h, n))
        ]
    | inr k ↦
        let (rest, q, step) = resolve_all-Step id loc m out e in
        elim step [
          | inl (same, n) ↦ rw same (resolve_all-lookup key l m rest q (rw k at h))
          | inr (l', same, n) ↦ rw (same, k) (resolve_all-lookup key l m rest q (rw k at h))
        ]
  ]

  resolve_all-UniqueKeys :
      (m : Map Text (Option L)) (out : Map Text L)
      → resolve_all queries m ≡ some out
      → UniqueKeys m
      → UniqueKeys out
  resolve_all-UniqueKeys [] out e u = rw (resolve_all-empty out e) tt
  resolve_all-UniqueKeys ((id, loc) ∷ m) out e u =
      let (rest, q, step) = resolve_all-Step id loc m out e in
      elim step [
        | inl (same, n) ↦ rw same (resolve_all-UniqueKeys m rest q u.1)
        | inr (l, same, n) ↦
            rw same (resolve_all-lookup-none id m rest q u.0, resolve_all-UniqueKeys m rest q u.1)
      ]

note_agency-UniqueKeys :
    {L : Type 0} (id : Text) (m : Map Text (Option L))
    → UniqueKeys m
    → UniqueKeys (note_agency id m)
unfolding note_agency insert
note_agency-UniqueKeys {L} id m u = elim (Option-cases (lookup id m)) [
  | inl e ↦
      let noted : note_agency id m ≡ insert id none m = rw (e, note_agency) refl in
      rw noted (insert-UniqueKeys id none m u)
  | inr (l, e) ↦ let noted : note_agency id m ≡ m = rw (e, note_agency) refl in rw noted u
]

pub note_agencies-UniqueKeys :
    {L : Type 0} (rs : List StopRoute) (m : Map Text (Option L))
    → UniqueKeys m
    → UniqueKeys (note_agencies rs m)
unfolding note_agencies
note_agencies-UniqueKeys [] m u = u
note_agencies-UniqueKeys (r ∷ rs) m u =
    note_agencies-UniqueKeys rs (note_agency r.agency_id m) (note_agency-UniqueKeys r.agency_id m u)

module _ {T L : Type 0} (queries : WindowQueries L) (input : StopArrivalsInput T L)
    (d : Discovery L) where
  -- the agencies that the discovery has located: each once, the stop's own among them
  pub record IsDiscovered : Type 0 where
    pub unique : UniqueKeys d.locations
    pub primary : lookup input.agency_id d.locations ≡ some input.location

  pub discover_stop_agencies-IsDiscovered :
      discover_stop_agencies queries input ≡ some d → IsDiscovered
  unfolding discover_stop_agencies discover_from
  discover_stop_agencies-IsDiscovered e =
      elim (Option-cases (queries.routes_for_stop input.stop_code)) [
        | inl q ↦ absurd (cc (rw q at e))
        | inr (routes, q) ↦ from_routes routes (rw q at e)
      ]
    where
      from_routes :
          (routes : List StopRoute) → discover_from queries input routes ≡ some d → IsDiscovered
      from_routes routes h =
          let before : Map Text (Option L) =
            insert input.agency_id (some input.location) (note_agencies routes []) in
          elim (Option-cases (resolve_all queries before)) [
            | inl q ↦ absurd (cc (rw q at h))
            | inr (locations, q) ↦
                let found : some
                      (record { route_agency = note_routes routes []; locations = locations })
                    ≡ some d =
                  rw q at h in
                let same : d.locations ≡ locations = ground (arith, found) in
                record {
                  unique = rw same (
                      resolve_all-UniqueKeys queries before locations q (
                        insert-UniqueKeys input.agency_id (some input.location)
                          (note_agencies routes []) (note_agencies-UniqueKeys routes [] tt)));
                  primary = rw same (
                      resolve_all-lookup queries input.agency_id input.location before locations q (
                        lookup-insert_self input.agency_id (some input.location)
                          (note_agencies routes [])));
                }
          ]
