-- ===== src/Realtime/Agency/Routes.antt =====
-- The batched lookup of the routes' agencies, against what the static feed says of each route.
use maglev.Prelude.{
  Option, none, some, List, [], ◌∷◌, Text, text_eq, Map, lookup, insert, lookup-insert, sort_texts,
  sort_texts-In, contains_text, contains_text-In, In-contains_text, In, In-append, In-append_left,
  In-append_right, if◌then◌else◌, ◌==◌, ◌≡◌, refl, sym, ◌∙◌, ◌⊎◌, inl, inr, arith, Bool-cases,
  Option-cases,
}
use maglev.Batches.{query_in_batches}
use maglev.Batches.Results.{IsAdditive, Answers, query_in_batches_reserving_lem}
use maglev.Realtime.Agency.{RouteRow, Db, agency_map, build_route_agency_map}

-- the rows of some routes: `agency r` is the agency of the route `r`, if the feed has that route
pub record RouteRows (agency : Text → Option Text) (ids : List Text) (rows : List RouteRow)
    : Type 0 where
  pub sound : (x : RouteRow) → In x rows → In x.id ids × (agency x.id ≡ some x.agency_id)
  pub complete :
      (r a : Text) → In r ids → agency r ≡ some a → (x : RouteRow) × In x rows × (x.id ≡ r)

RouteRows-IsAdditive : (agency : Text → Option Text) → IsAdditive (RouteRows agency)
RouteRows-IsAdditive agency = record {
  of_nil = record { sound = λ x h. absurd h; complete = λ r a h e. absurd h };
  of_append = λ xs xs' ys ys' p q. record {
    sound = λ x h. elim (In-append x ys ys' h) [
      | inl i ↦ let (j, e) = p.sound x i in (In-append_left x.id xs xs' j, e)
      | inr i ↦ let (j, e) = q.sound x i in (In-append_right x.id xs xs' j, e)
    ];
    complete = λ r a h e. elim (In-append r xs xs' h) [
      | inl i ↦ let (x, j, s) = p.complete r a i e in (x, In-append_left x ys ys' j, s)
      | inr i ↦ let (x, j, s) = q.complete r a i e in (x, In-append_right x ys ys' j, s)
    ];
  };
}

-- the database answers rightly for up to 900 routes at a time
abbrev pub KnowsRoutes : Db → (Text → Option Text) → Type 0
KnowsRoutes db agency = Answers 900 db.get_routes_by_ids (RouteRows agency)

agency_map-row :
    (rows : List RouteRow) (m : Map Text Text) (r a : Text)
    → lookup r (agency_map rows m) ≡ some a
    → ((x : RouteRow) × In x rows × (x.id ≡ r) × (x.agency_id ≡ a)) ⊎ (lookup r m ≡ some a)
unfolding agency_map
agency_map-row [] m r a h = inr h
agency_map-row (x ∷ rows) m r a h = elim (agency_map-row rows (insert x.id x.agency_id m) r a h) [
  | inl (y, i, e, q) ↦ inl (y, inr i, e, q)
  | inr l ↦ elim (Bool-cases (x.id == r)) [
    | inl e ↦ inl (
      x,
      inl refl,
      (text_eq.beq_iff x.id r).0 e,
      ground (arith, lookup-insert x.id r x.agency_id m),
    )
    | inr e ↦ inr (ground (arith, lookup-insert x.id r x.agency_id m))
  ]
]

agency_map_mono :
    (rows : List RouteRow) (m : Map Text Text) (r a : Text)
    → lookup r m ≡ some a
    → (b : Text) × (lookup r (agency_map rows m) ≡ some b)
unfolding agency_map
agency_map_mono [] m r a h = (a, h)
agency_map_mono (x ∷ rows) m r a h =
    agency_map_mono rows (insert x.id x.agency_id m) r (if x.id == r then x.agency_id else a)
      (ground (arith, lookup-insert x.id r x.agency_id m))

agency_map_total :
    (rows : List RouteRow) (m : Map Text Text) (x : RouteRow)
    → In x rows
    → (b : Text) × (lookup x.id (agency_map rows m) ≡ some b)
unfolding agency_map
agency_map_total [] m x h = absurd h
agency_map_total (y ∷ rows) m x (inl e) =
    agency_map_mono rows (insert y.id y.agency_id m) x.id y.agency_id
      (ground (arith, lookup-insert y.id x.id y.agency_id m, text_eq.beq_iff y.id x.id))
agency_map_total (y ∷ rows) m x (inr h) = agency_map_total rows (insert y.id y.agency_id m) x h

module _ (agency : Text → Option Text) (ids : List Text) (rows : List RouteRow)
    (known : RouteRows agency ids rows) where
  -- the map has the feed's agency for a route that was asked for
  agency_map-lookup : (r : Text) → In r ids → lookup r (agency_map rows []) ≡ agency r
  agency_map-lookup r h = elim (Option-cases (lookup r (agency_map rows []))) [
    | inl e ↦ elim (Option-cases (agency r)) [
      | inl n ↦ e ∙ sym n
      | inr (a, s) ↦
          let (x, i, q) = known.complete r a h s in
          let (b, t) = agency_map_total rows [] x i in absurd (cc (e, q, t))
    ]
    | inr (a, e) ↦ elim (agency_map-row rows [] r a e) [
      | inl (x, i, q, p) ↦ let (j, s) = known.sound x i in cc (e, q, p, s)
      | inr l ↦ absurd (unfold lookup in cc l)
    ]
  ]

  -- and no agency for any other
  agency_map_other : (r : Text) → (In r ids → ⊥) → lookup r (agency_map rows []) ≡ none
  agency_map_other r h = elim (Option-cases (lookup r (agency_map rows []))) [
    | inl e ↦ e
    | inr (a, e) ↦ elim (agency_map-row rows [] r a e) [
      | inl (x, i, q, p) ↦ absurd (h (rw q at ((known.sound x i).0)))
      | inr l ↦ absurd (unfold lookup in cc l)
    ]
  ]

-- With a database that answers rightly for up to 900 routes at a time, the map of the routes'
-- agencies is built without an error, whatever the number of the routes; it has the feed's agency
-- for each route that was asked for, if the feed has one, and nothing for any other route.
build_route_agency_map-lookup :
    (db : Db) (agency : Text → Option Text) (ids : List Text)
    → KnowsRoutes db agency
    → (m : Map Text Text) × (build_route_agency_map (some db) ids ≡ some m)
      × ((r : Text) → lookup r m ≡ (if contains_text r ids then agency r else none))
unfolding build_route_agency_map query_in_batches
build_route_agency_map-lookup db agency [] h = ([], refl, λ r. unfold lookup contains_text in refl)
build_route_agency_map-lookup db agency (i ∷ ids) h =
    let sorted = sort_texts (i ∷ ids) in
    let (rows, e, known) =
      query_in_batches_reserving_lem sorted 0 db.get_routes_by_ids (RouteRows agency)
        (RouteRows-IsAdditive agency) h in
    (
      agency_map rows [],
      rw e,
      λ r. elim (Bool-cases (contains_text r (i ∷ ids))) [
        | inl c ↦ rw c (
            agency_map-lookup agency sorted rows known r
              ((sort_texts-In r (i ∷ ids)).1 (contains_text-In r (i ∷ ids) c)))
        | inr c ↦ rw c (
            agency_map_other agency sorted rows known r
              (λ k. cc (c, In-contains_text r (i ∷ ids) ((sort_texts-In r (i ∷ ids)).0 k))))
      ],
    )
