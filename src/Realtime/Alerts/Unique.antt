-- ===== src/Realtime/Alerts/Unique.antt =====
-- Each alert that matches is returned once.
use maglev.Prelude.{
  get_or, true, false, Option, List, [], ◌∷◌, ◌++◌, Text, text_eq, is_empty, contains_text, In,
  In-append, In-append_left, In-append_right, keep_if, In-keep_if, keep_if-In, if◌then◌else◌, ◌==◌,
  ◌≡◌, refl, sym, ap, ◌∙◌, ◌⊎◌, inl, inr, arith, Bool-cases,
}
use mathlib.Core.Path.{ap₂}
use maglev.Realtime.Types.{Alert, InformedEntity, Manager}
use maglev.Realtime.Merge.{all_feeds, merge, trip_key, route_key, agency_key}
use maglev.Realtime.Merge.AlertIndexes.{mentions, merge-alerts}
use maglev.Realtime.Alerts.{candidates_of, add_unique, get_alerts_by_ids}

-- no two alerts have the same ID
abbrev pub DistinctIds : List Alert → Type 0
DistinctIds [] = Unit
DistinctIds (a ∷ alerts) = ((b : Alert) → In b alerts → (a.id == b.id) ≡ false) × DistinctIds alerts

add_unique-append :
    (seen : List Text) (xs ys : List Alert)
    → (add_unique seen (xs ++ ys)).1
      ≡ (add_unique seen xs).1 ++ (add_unique (add_unique seen xs).0 ys).1
unfolding add_unique
add_unique-append seen [] ys = refl
add_unique-append seen (x ∷ xs) ys = elim (Bool-cases (contains_text x.id seen)) [
  | inl e ↦ rw e (add_unique-append seen xs ys)
  | inr e ↦ rw e (ap (◌∷◌ x) (add_unique-append (x.id ∷ seen) xs ys))
]

contains_text-cons :
    (k j : Text) (seen : List Text)
    → contains_text k (j ∷ seen) ≡ (if j == k then true else contains_text k seen)
unfolding contains_text
contains_text-cons k j seen = ground arith

-- an alert that is returned is a candidate with an ID not seen before
add_unique-In :
    (seen : List Text) (xs : List Alert) (a : Alert)
    → In a (add_unique seen xs).1
    → In a xs × (contains_text a.id seen ≡ false)
unfolding add_unique
add_unique-In seen [] a h = absurd h
add_unique-In seen (x ∷ xs) a h = elim (Bool-cases (contains_text x.id seen)) [
  | inl e ↦ let (i, c) = add_unique-In seen xs a (rw e at h) in (inr i, c)
  | inr e ↦ at_new e (add_unique-In (x.id ∷ seen) xs a) (rw e at h)
]
  where
    at_new :
        contains_text x.id seen ≡ false
        → (In a (add_unique (x.id ∷ seen) xs).1
            → In a xs × (contains_text a.id (x.id ∷ seen) ≡ false))
        → In a (x ∷ (add_unique (x.id ∷ seen) xs).1)
        → In a (x ∷ xs) × (contains_text a.id seen ≡ false)
    at_new e ih (inl q) = (inl q, cc)
    at_new e ih (inr r) =
        let (i, c) = ih r in (inr i, ground (arith, contains_text-cons a.id x.id seen))

add_unique-DistinctIds : (seen : List Text) (xs : List Alert) → DistinctIds (add_unique seen xs).1
unfolding add_unique
add_unique-DistinctIds seen [] = tt
add_unique-DistinctIds seen (x ∷ xs) = elim (Bool-cases (contains_text x.id seen)) [
  | inl e ↦ rw e (add_unique-DistinctIds seen xs)
  | inr e ↦ rw e (
    λ b h.
        ground (arith, (add_unique-In (x.id ∷ seen) xs b h).1, contains_text-cons b.id x.id seen),
    add_unique-DistinctIds (x.id ∷ seen) xs,
  )
]

-- every candidate is returned, or one with its ID, unless that was seen before
add_unique_total :
    (seen : List Text) (xs : List Alert) (a : Alert)
    → In a xs
    → (contains_text a.id seen ≡ true) ⊎ ((b : Alert) × In b (add_unique seen xs).1 × (b.id ≡ a.id))
unfolding add_unique
add_unique_total seen [] a h = absurd h
add_unique_total seen (x ∷ xs) a (inl q) = elim (Bool-cases (contains_text x.id seen)) [
  | inl e ↦ inl (cc (e, q))
  | inr e ↦ inr (x, rw e (inl refl), cc q)
]
add_unique_total seen (x ∷ xs) a (inr h) = elim (Bool-cases (contains_text x.id seen)) [
  | inl e ↦ rw e (add_unique_total seen xs a h)
  | inr e ↦ rw e (at_new (add_unique_total (x.id ∷ seen) xs a h))
]
  where
    at_new :
        (contains_text a.id (x.id ∷ seen) ≡ true)
          ⊎ ((b : Alert) × In b (add_unique (x.id ∷ seen) xs).1 × (b.id ≡ a.id))
        → (contains_text a.id seen ≡ true)
          ⊎ ((b : Alert) × In b (x ∷ (add_unique (x.id ∷ seen) xs).1) × (b.id ≡ a.id))
    at_new (inr (b, i, e)) = inr (b, inr i, e)
    at_new (inl c) = elim (Bool-cases (x.id == a.id)) [
      | inl e ↦ inr (x, inl refl, (text_eq.beq_iff x.id a.id).0 e)
      | inr e ↦ inl (ground (arith, contains_text-cons a.id x.id seen))
    ]

add_unique_three :
    (xs ys zs : List Alert)
    → (add_unique [] xs).1
        ++ ((add_unique (add_unique [] xs).0 ys).1
            ++ (add_unique (add_unique (add_unique [] xs).0 ys).0 zs).1)
      ≡ (add_unique [] (xs ++ (ys ++ zs))).1
add_unique_three xs ys zs =
    ap (λ (l : List Alert). (add_unique [] xs).1 ++ l)
      (sym (add_unique-append (add_unique [] xs).0 ys zs))
    ∙ sym (add_unique-append [] xs (ys ++ zs))

-- the alerts of the feeds that a lookup is after
module _ (m : Manager) (trip route agency : Text) where
  abbrev pub Matches : Alert → Type 0
  Matches a =
      ((is_empty trip ≡ false) × (mentions trip_key trip a ≡ true))
      ⊎ (((is_empty route ≡ false) × (mentions route_key route a ≡ true))
          ⊎ ((is_empty agency ≡ false) × (mentions agency_key agency a ≡ true)))

  abbrev from_index : (InformedEntity → Option Text) → Text → List Alert
  from_index key id =
      if is_empty id then [] else keep_if (mentions key id) (all_feeds m.feed_alerts)

  abbrev candidates : List Alert
  candidates =
      from_index trip_key trip ++ (from_index route_key route ++ from_index agency_key agency)

  index_candidates :
      (key : InformedEntity → Option Text) (id : Text) (index : List Alert)
      → index ≡ keep_if (mentions key id) (all_feeds m.feed_alerts)
      → (if is_empty id then [] else index) ≡ from_index key id
  index_candidates key id index e = ap (λ (l : List Alert). if is_empty id then [] else l) e

  get_alerts_by_ids_unique :
      get_alerts_by_ids (merge m).alerts trip route agency ≡ (add_unique [] candidates).1
  unfolding get_alerts_by_ids
  get_alerts_by_ids_unique =
      add_unique_three (candidates_of trip (λ k. get_or [] k (merge m).alerts.by_trip))
        (candidates_of route (λ k. get_or [] k (merge m).alerts.by_route))
        (candidates_of agency (λ k. get_or [] k (merge m).alerts.by_agency))
      ∙ ap (λ (l : List Alert). (add_unique [] l).1)
          (ap₂ (◌++◌) (index_candidates trip_key trip _ (merge-alerts m trip).0) (
            ap₂ (◌++◌) (index_candidates route_key route _ (merge-alerts m route).1)
              (index_candidates agency_key agency _ (merge-alerts m agency).2)))

  from_index-In :
      (key : InformedEntity → Option Text) (id : Text) (a : Alert)
      → In a (from_index key id)
      → In a (all_feeds m.feed_alerts) × (is_empty id ≡ false) × (mentions key id a ≡ true)
  from_index-In key id a h = elim (Bool-cases (is_empty id)) [
    | inl e ↦ absurd (rw e at h)
    | inr e ↦
        let (i, t) = In-keep_if (mentions key id) a (all_feeds m.feed_alerts) (rw e at h) in
        (i, e, t)
  ]

  In-from_index :
      (key : InformedEntity → Option Text) (id : Text) (a : Alert)
      → In a (all_feeds m.feed_alerts)
      → is_empty id ≡ false
      → mentions key id a ≡ true
      → In a (from_index key id)
  In-from_index key id a i e t = rw e (keep_if-In (mentions key id) a (all_feeds m.feed_alerts) i t)

  candidates-Matches : (a : Alert) → In a candidates → In a (all_feeds m.feed_alerts) × Matches a
  candidates-Matches a h = elim (In-append a (from_index trip_key trip) _ h) [
    | inl i ↦ let (j, e, t) = from_index-In trip_key trip a i in (j, inl (e, t))
    | inr r ↦ elim (In-append a (from_index route_key route) _ r) [
      | inl i ↦ let (j, e, t) = from_index-In route_key route a i in (j, inr (inl (e, t)))
      | inr i ↦ let (j, e, t) = from_index-In agency_key agency a i in (j, inr (inr (e, t)))
    ]
  ]

  Matches-candidates : (a : Alert) → In a (all_feeds m.feed_alerts) → Matches a → In a candidates
  Matches-candidates a i (inl (e, t)) =
      In-append_left a (from_index trip_key trip) _ (In-from_index trip_key trip a i e t)
  Matches-candidates a i (inr (inl (e, t))) =
      In-append_right a (from_index trip_key trip) _
        (In-append_left a (from_index route_key route) _ (In-from_index route_key route a i e t))
  Matches-candidates a i (inr (inr (e, t))) =
      In-append_right a (from_index trip_key trip) _
        (In-append_right a (from_index route_key route) _ (In-from_index agency_key agency a i e t))

  -- A lookup of alerts by a trip, a route and an agency returns, of the alerts of all feeds, only
  -- such as match one of the three IDs that is not "" (a trip by its ID, a route by an entity with
  -- neither stop nor trip, an agency by an entity with neither route nor trip); it returns no two
  -- alerts with the same ID; and for each alert that matches it returns one with its ID.
  pub get_alerts_by_ids-merge :
      (((a : Alert)
        → In a (get_alerts_by_ids (merge m).alerts trip route agency)
        → In a (all_feeds m.feed_alerts) × Matches a))
      × DistinctIds (get_alerts_by_ids (merge m).alerts trip route agency)
      × ((a : Alert)
          → In a (all_feeds m.feed_alerts)
          → Matches a
          → (b : Alert) × In b (get_alerts_by_ids (merge m).alerts trip route agency)
            × (b.id ≡ a.id))
  get_alerts_by_ids-merge = rw get_alerts_by_ids_unique (
    (λ a h. candidates-Matches a (add_unique-In [] candidates a h).0),
    add_unique-DistinctIds [] candidates,
    λ a i t. returned a (add_unique_total [] candidates a (Matches-candidates a i t)),
  )
    where
      returned :
          (a : Alert)
          → (contains_text a.id [] ≡ true)
            ⊎ ((b : Alert) × In b (add_unique [] candidates).1 × (b.id ≡ a.id))
          → (b : Alert) × In b (add_unique [] candidates).1 × (b.id ≡ a.id)
      returned a (inl c) = absurd (unfold contains_text in cc c)
      returned a (inr r) = r
