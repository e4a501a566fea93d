-- ===== src/Arrivals/Windows/Undiscovered.antt =====
-- When the agencies of a stop cannot be discovered.
use maglev.Prelude.{
  lookup-listed, listed-lookup, Bool, true, false, ◌||◌, Option, none, some, List, [], ◌∷◌, In,
  Text, text_eq, ◌==◌, Map, lookup, insert, lookup-insert, UniqueKeys, insert-UniqueKeys,
  if◌then◌else◌, bind_none, ◌≡◌, refl, sym, ap, ◌∙◌, subst, arith, ◌⊎◌, inl, inr, ◌↔◌, Bool-cases,
  Option-cases,
}
use maglev.Arrivals.Windows.{
  AgencyAnswer, found_agency, missing_agency, failed_agency, WindowQueries, StopRoute,
  StopArrivalsInput, resolve_agency_location, resolve_all, note_agency, note_agencies,
  discover_from, discover_stop_agencies,
}
use maglev.Arrivals.Windows.Agencies.{note_agencies-UniqueKeys}

AgencyAnswer-cases :
    (a : AgencyAnswer)
    → ((timezone : Text) × (a ≡ found_agency timezone))
      ⊎ ((a ≡ missing_agency) ⊎ (a ≡ failed_agency))
AgencyAnswer-cases (found_agency timezone) = inl (timezone, refl)
AgencyAnswer-cases missing_agency = inr (inl refl)
AgencyAnswer-cases failed_agency = inr (inr refl)

module _ {L : Type 0} (queries : WindowQueries L) where
  -- the agency cannot be read, or has a time zone that cannot be loaded; a missing agency is neither
  abbrev pub IsUnlocated : Text → Type 0
  IsUnlocated agency_id =
      (queries.agency agency_id ≡ failed_agency)
      ⊎ ((timezone : Text) × (queries.agency agency_id ≡ found_agency timezone)
          × (queries.load_location timezone ≡ none))

  resolve-IsUnlocated :
      (agency_id : Text)
      → (resolve_agency_location queries agency_id ≡ none) ↔ IsUnlocated agency_id
  unfolding resolve_agency_location
  resolve-IsUnlocated agency_id = (
    λ e. elim (AgencyAnswer-cases (queries.agency agency_id)) [
      | inl (timezone, a) ↦ elim (Option-cases (queries.load_location timezone)) [
        | inl l ↦ inr (timezone, a, l)
        | inr (loc, l) ↦ absurd (cc (rw (a, resolve_agency_location, l) at e))
      ]
      | inr (inl a) ↦ absurd (cc (rw (a, resolve_agency_location) at e))
      | inr (inr a) ↦ inl a
    ],
    λ c. elim c [
      | inl a ↦ rw (a, resolve_agency_location) refl
      | inr (timezone, a, l) ↦ rw (a, resolve_agency_location, l) refl
    ],
  )

  abbrev Unresolved : Map Text (Option L) → Type 0
  Unresolved m = (id : Text) × In (id, none) m × IsUnlocated id

  later_none :
      (id : Text) (loc : Option L) (m : Map Text (Option L))
      → resolve_all queries m ≡ none
      → resolve_all queries ((id, loc) ∷ m) ≡ none
  unfolding resolve_all
  later_none id (some l) m e = ground (arith, e)
  later_none id none m e = elim (Option-cases (resolve_agency_location queries id)) [
    | inl a ↦ rw (a, resolve_all) refl
    | inr (none, a) ↦ rw (a, resolve_all) e
    | inr (some l, a) ↦ rw (a, resolve_all) (ground (arith, e))
  ]

  resolve_all-none : (m : Map Text (Option L)) → (resolve_all queries m ≡ none) ↔ Unresolved m
  unfolding resolve_all
  resolve_all-none [] = (λ e. absurd (cc e), λ (id, i, u). absurd i)
  resolve_all-none ((id, some l) ∷ m) = (
    λ e. let (k, i, u) = (resolve_all-none m).0 (ground (arith, e)) in (k, inr i, u),
    λ (k, i, u). elim i [
      | inl q ↦ let value : none ≡ some l = ap (λ (e : Text × Option L). e.1) q in absurd (cc value)
      | inr j ↦ later_none id (some l) m ((resolve_all-none m).1 (k, j, u))
    ],
  )
  resolve_all-none ((id, none) ∷ m) = (
    λ e. elim (Option-cases (resolve_agency_location queries id)) [
      | inl a ↦ (id, inl refl, (resolve-IsUnlocated id).0 a)
      | inr (none, a) ↦
          let (k, i, u) = (resolve_all-none m).0 (rw (a, resolve_all) at e) in (k, inr i, u)
      | inr (some l, a) ↦
          let later : resolve_all queries m ≡ none = ground (arith, rw (a, resolve_all) at e) in
          let (k, i, u) = (resolve_all-none m).0 later in (k, inr i, u)
    ],
    λ (k, i, u). elim i [
      | inl q ↦
          let key : k ≡ id = ap (λ (e : Text × Option L). e.0) q in
          let a = (resolve-IsUnlocated id).1 (subst IsUnlocated key u) in rw (a, resolve_all) refl
      | inr j ↦ later_none id none m ((resolve_all-none m).1 (k, j, u))
    ],
  )

abbrev has_agency : Text → List StopRoute → Bool
has_agency id [] = false
has_agency id (r ∷ rs) = r.agency_id == id || has_agency id rs

has_agency_iff :
    (id : Text) (rs : List StopRoute)
    → (has_agency id rs ≡ true) ↔ ((r : StopRoute) × In r rs × (r.agency_id ≡ id))
has_agency_iff id [] = (λ e. absurd (cc e), λ (r, i, q). absurd i)
has_agency_iff id (r ∷ rs) = (
  λ e. elim (Bool-cases (r.agency_id == id)) [
    | inl q ↦ (r, inl refl, (text_eq.beq_iff r.agency_id id).0 q)
    | inr q ↦ let (s, i, h) = (has_agency_iff id rs).0 (ground (arith, e, q)) in (s, inr i, h)
  ],
  λ (s, i, h). elim i [
    | inl q ↦
        let same : r.agency_id ≡ id = ap (λ (x : StopRoute). x.agency_id) (sym q) ∙ h in
        ground (arith, (text_eq.beq_iff r.agency_id id).1 same)
    | inr j ↦ ground (arith, (has_agency_iff id rs).1 (s, j, h))
  ],
)

module _ {L : Type 0} where
  lookup-note_agency :
      (id agency_id : Text) (m : Map Text (Option L))
      → lookup id (note_agency agency_id m) ≡ elim (lookup id m) [
        | some o ↦ some o
        | none ↦ if agency_id == id then some none else none
      ]
  unfolding note_agency
  lookup-note_agency id agency_id m =
      ground (arith, lookup-insert {V = Option L} agency_id id none m, text_eq.beq_iff agency_id id)

  lookup-note_agencies :
      (id : Text) (rs : List StopRoute) (m : Map Text (Option L))
      → lookup id (note_agencies rs m) ≡ elim (lookup id m) [
        | some o ↦ some o
        | none ↦ if has_agency id rs then some none else none
      ]
  unfolding note_agencies
  lookup-note_agencies id [] m = ground arith
  lookup-note_agencies id (r ∷ rs) m =
      lookup-note_agencies id rs (note_agency r.agency_id m)
      ∙ ground (arith, lookup-note_agency id r.agency_id m)

  lookup-noted :
      (id : Text) (rs : List StopRoute)
      → lookup id (note_agencies {L = L} rs []) ≡ (if has_agency id rs then some none else none)
  unfolding lookup
  lookup-noted id rs = lookup-note_agencies id rs []

module _ {T L : Type 0} (queries : WindowQueries L) (input : StopArrivalsInput T L) where
  -- the routes of the stop cannot be read, or one is of another agency without a location
  abbrev pub IsUndiscovered : Type 0
  IsUndiscovered =
      (queries.routes_for_stop input.stop_code ≡ none)
      ⊎ ((routes : List StopRoute) × (queries.routes_for_stop input.stop_code ≡ some routes)
          × ((r : StopRoute) × In r routes
              × ((input.agency_id == r.agency_id) ≡ false)
              × IsUnlocated queries r.agency_id))

  abbrev noted : List StopRoute → Map Text (Option L)
  noted routes = insert input.agency_id (some input.location) (note_agencies routes [])

  lookup-own :
      (id : Text) (routes : List StopRoute)
      → lookup id (noted routes) ≡ (
          if input.agency_id == id
          then some (some input.location)
          else if has_agency id routes
          then some none
          else none)
  lookup-own id routes =
      lookup-insert {V = Option L} input.agency_id id (some input.location)
        (note_agencies routes [])
      ∙ ap
          (λ (o : Option (Option L)).
            if input.agency_id == id then some (some input.location) else o)
          (lookup-noted id routes)

  noted-UniqueKeys : (routes : List StopRoute) → UniqueKeys (noted routes)
  noted-UniqueKeys routes =
      insert-UniqueKeys input.agency_id (some input.location) (note_agencies routes [])
        (note_agencies-UniqueKeys routes [] tt)

  Unresolved-noted :
      (routes : List StopRoute)
      → Unresolved queries (noted routes) ↔ (
          (r : StopRoute) × In r routes
          × ((input.agency_id == r.agency_id) ≡ false)
          × IsUnlocated queries r.agency_id)
  Unresolved-noted routes = (
    λ (id, i, u).
        let found =
          sym (lookup-own id routes)
          ∙ listed-lookup (id, none) (noted routes) (noted-UniqueKeys routes) i in
        let other : (input.agency_id == id) ≡ false = ground (arith, found) in
        let has : has_agency id routes ≡ true = ground (arith, found) in
        let (r, j, q) = (has_agency_iff id routes).0 has in
        (
          r,
          j,
          subst (λ (x : Text). (input.agency_id == x) ≡ false) (sym q) other,
          subst (IsUnlocated queries) (sym q) u,
        ),
    λ (r, j, other, u).
        let has = (has_agency_iff r.agency_id routes).1 (r, j, refl) in
        (
          r.agency_id,
          lookup-listed r.agency_id none (noted routes)
              (lookup-own r.agency_id routes ∙ rw (other, has) refl),
          u,
        ),
  )

  discover_from-none :
      (routes : List StopRoute)
      → (discover_from queries input routes ≡ none) ↔ (resolve_all queries (noted routes) ≡ none)
  unfolding discover_from
  discover_from-none routes = (λ e. ground (arith, e), λ e. ground (arith, e))

  pub discover_stop_agencies-none : (discover_stop_agencies queries input ≡ none) ↔ IsUndiscovered
  unfolding discover_stop_agencies
  discover_stop_agencies-none = (
    λ e.
        elim (bind_none (queries.routes_for_stop input.stop_code) (discover_from queries input) e) [
          | inl n ↦ inl n
          | inr (routes, q, h) ↦ inr (
            routes,
            q,
            (Unresolved-noted routes).0
                ((resolve_all-none queries (noted routes)).0 ((discover_from-none routes).0 h)),
          )
        ],
    λ c. elim c [
      | inl n ↦ rw n refl
      | inr (routes, q, h) ↦ rw q (
          (discover_from-none routes).1
            ((resolve_all-none queries (noted routes)).1 ((Unresolved-noted routes).1 h)))
    ],
  )
