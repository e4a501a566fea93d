-- ===== src/Realtime/Agency/Filters.antt =====
-- Which records the agency filters let through.
use maglev.Prelude.{
  or_true, Bool, true, false, none, some, List, [], ◌∷◌, Text, text_eq, is_empty, Map, lookup, In,
  In-keep_if, keep_if, keep_if-In, ◌≡◌, refl, ◌↔◌, ◌⊎◌, inl, inr, arith, Option-cases,
}
use maglev.Realtime.Types.{TripId, Trip, InformedEntity, Alert}
use maglev.Realtime.Agency.{
  is_allowed, filter_trips_by_agency, route_belongs_to_allowed_agency,
  informed_entity_matches_agency, alert_matches_agency, filter_alerts_by_agency,
}

module _ (allowed : Map Text Bool) (agencies : Map Text Text) where
  -- the map knows an agency of this route or trip, and the feed may report it
  abbrev pub Permits : Text → Type 0
  Permits id =
      (agency : Text) × (lookup id agencies ≡ some agency) × (is_allowed allowed agency ≡ true)

  abbrev permits : Text → Bool
  permits id = elim (lookup id agencies) [ none ↦ false | some agency ↦ is_allowed allowed agency ]

  permits_iff : (id : Text) → (permits id ≡ true) ↔ Permits id
  permits_iff id = (to, λ p. ground (arith, p.1, p.2))
    where
      to : permits id ≡ true → Permits id
      to h = elim (Option-cases (lookup id agencies)) [
        | inl e ↦ absurd (ground arith)
        | inr (a, e) ↦ (a, e, ground arith)
      ]

  abbrev unknown : Trip → Bool
  unknown t = elim (lookup t.trip_id.id agencies) [ none ↦ true | some agency ↦ false ]

  filter_trips-keep_if :
      (ts : List Trip)
      → filter_trips_by_agency ts allowed agencies
        ≡ (keep_if (λ t. permits t.trip_id.id) ts, keep_if unknown ts)
  unfolding filter_trips_by_agency
  filter_trips-keep_if [] = refl
  filter_trips-keep_if (t ∷ ts) = elim (Option-cases (lookup t.trip_id.id agencies)) [
    | inl e ↦ ground (arith, filter_trips-keep_if ts)
    | inr (a, e) ↦ ground (arith, filter_trips-keep_if ts)
  ]

  -- A trip update is kept exactly when its agency is known and allowed, and set aside as
  -- unattributed exactly when no agency is known of it.
  pub filter_trips_by_agency_iff :
      (t : Trip) (ts : List Trip)
      → (In t (filter_trips_by_agency ts allowed agencies).0 ↔ (In t ts × Permits t.trip_id.id))
        × (In t (filter_trips_by_agency ts allowed agencies).1
            ↔ (In t ts × (lookup t.trip_id.id agencies ≡ none)))
  filter_trips_by_agency_iff t ts = rw (filter_trips-keep_if ts) (
    (kept, λ h. keep_if-In _ t ts h.0 ((permits_iff t.trip_id.id).1 h.1)),
    (aside, λ h. keep_if-In unknown t ts h.0 (ground (arith, h.1))),
  )
    where
      kept : In t (keep_if (λ t. permits t.trip_id.id) ts) → In t ts × Permits t.trip_id.id
      kept h = let (i, e) = In-keep_if _ t ts h in (i, (permits_iff t.trip_id.id).0 e)

      aside : In t (keep_if unknown ts) → In t ts × (lookup t.trip_id.id agencies ≡ none)
      aside h = let (i, e) = In-keep_if unknown t ts h in (i, ground arith)

  belongs_iff :
      (route : Text)
      → (route_belongs_to_allowed_agency route allowed agencies ≡ true)
        ↔ ((is_empty route ≡ false) × Permits route)
  unfolding route_belongs_to_allowed_agency
  belongs_iff route = (
    λ h. (ground arith, (permits_iff route).0 (ground arith)),
    λ h. ground (arith, h.0, (permits_iff route).1 h.1),
  )

  -- Where an alert's entity names an agency, a route or a trip's route that the feed may report.
  pub data Concerns (e : InformedEntity) : Type 0 where
    by_agency : (a : Text) → e.agency_id ≡ some a → is_allowed allowed a ≡ true → Concerns e
    by_route : (r : Text) → e.route_id ≡ some r → is_empty r ≡ false → Permits r → Concerns e
    by_trip :
        (t : TripId)
        → e.trip_id ≡ some t
        → is_empty t.route_id ≡ false
        → Permits t.route_id
        → Concerns e

  entity-Concerns :
      (e : InformedEntity) → informed_entity_matches_agency e allowed agencies ≡ true → Concerns e
  unfolding informed_entity_matches_agency
  entity-Concerns e h =
      by_cases (Option-cases e.agency_id) (Option-cases e.route_id) (Option-cases e.trip_id)
    where
      trip_case :
          (e.trip_id ≡ none) ⊎ ((t : TripId) × (e.trip_id ≡ some t))
          → (elim e.trip_id [
            | none ↦ false
            | some t ↦ route_belongs_to_allowed_agency t.route_id allowed agencies
          ])
            ≡ true
          → Concerns e
      trip_case (inl n) k = absurd (ground arith)
      trip_case (inr (t, q)) k =
          let (full, p) = (belongs_iff t.route_id).0 (ground arith) in by_trip t q full p

      route_case :
          (e.route_id ≡ none) ⊎ ((r : Text) × (e.route_id ≡ some r))
          → (elim e.route_id [
            | none ↦ false
            | some r ↦ route_belongs_to_allowed_agency r allowed agencies
          ])
            ≡ true
          → Concerns e
      route_case (inl n) k = absurd (ground arith)
      route_case (inr (r, q)) k =
          let (full, p) = (belongs_iff r).0 (ground arith) in by_route r q full p

      agency_case :
          (e.agency_id ≡ none) ⊎ ((a : Text) × (e.agency_id ≡ some a))
          → (elim e.agency_id [ none ↦ false | some a ↦ is_allowed allowed a ]) ≡ true
          → Concerns e
      agency_case (inl n) k = absurd (ground arith)
      agency_case (inr (a, q)) k = by_agency a q (ground arith)

      by_cases :
          (e.agency_id ≡ none) ⊎ ((a : Text) × (e.agency_id ≡ some a))
          → (e.route_id ≡ none) ⊎ ((r : Text) × (e.route_id ≡ some r))
          → (e.trip_id ≡ none) ⊎ ((t : TripId) × (e.trip_id ≡ some t))
          → Concerns e
      by_cases a r t = elim (or_true h) [
        | inl x ↦ agency_case a x
        | inr y ↦ elim (or_true y) [ inl x ↦ route_case r x | inr z ↦ trip_case t z ]
      ]

  Concerns-entity :
      (e : InformedEntity) → Concerns e → informed_entity_matches_agency e allowed agencies ≡ true
  unfolding informed_entity_matches_agency
  Concerns-entity e (by_agency a q p) = ground arith
  Concerns-entity e (by_route r q full p) = ground (arith, (belongs_iff r).1 (full, p))
  Concerns-entity e (by_trip t q full p) = ground (arith, (belongs_iff t.route_id).1 (full, p))

  matching_entity :
      (es : List InformedEntity)
      → alert_matches_agency es allowed agencies ≡ true
      → (e : InformedEntity) × In e es × Concerns e
  unfolding alert_matches_agency
  matching_entity [] h = absurd (cc h)
  matching_entity (x ∷ es) h = elim (or_true h) [
    | inl m ↦ (x, inl refl, entity-Concerns x m)
    | inr m ↦ let (e, i, c) = matching_entity es m in (e, inr i, c)
  ]

  entity_matching :
      (e : InformedEntity) (es : List InformedEntity)
      → In e es
      → Concerns e
      → alert_matches_agency es allowed agencies ≡ true
  unfolding alert_matches_agency
  entity_matching e [] h c = absurd h
  entity_matching e (x ∷ es) (inl q) c = ground (arith, Concerns-entity e c)
  entity_matching e (x ∷ es) (inr h) c = ground (arith, entity_matching e es h c)

  -- An alert is kept exactly when one of its entities names an agency, a route or a trip of a
  -- route that the feed may report.
  pub filter_alerts_by_agency_iff :
      (a : Alert) (alerts : List Alert)
      → In a (filter_alerts_by_agency alerts allowed agencies)
        ↔ (In a alerts × ((e : InformedEntity) × In e a.informed_entities × Concerns e))
  unfolding filter_alerts_by_agency
  filter_alerts_by_agency_iff a alerts = (
    λ h. let (i, m) = In-keep_if _ a alerts h in (i, matching_entity a.informed_entities m),
    λ h. keep_if-In _ a alerts h.0 (entity_matching h.1.0 a.informed_entities h.1.1 h.1.2),
  )
