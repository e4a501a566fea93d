-- ===== src/Realtime/Merge/AlertIndexes.antt =====
-- The alert indexes of the merged view.
use maglev.Prelude.{
  Bool, true, false, ◌&&◌, ◌||◌, not, Option, none, some, List, [], ◌∷◌, ◌++◌, Text, text_eq,
  is_empty, Map, lookup, get_or, contains_text, keep_if, if◌then◌else◌, ◌==◌, ◌≡◌, refl, sym, ◌∙◌,
  inl, inr, arith, Bool-cases,
}
use mathlib.Core.List.{append-nil, append_assoc}
use maglev.Realtime.Types.{InformedEntity, Alert, Manager}
use maglev.Realtime.Merge.{
  push, all_feeds, index_key, index_entities, index_alerts, trip_key, route_key, agency_key,
  stop_key, alert_index, merge,
}
use maglev.Realtime.Merge.Routes.{get_or-push}

module _ (key : InformedEntity → Option Text) where
  abbrev is_key : Option Text → Text → Bool
  is_key none k = false
  is_key (some j) k = j == k

  -- some entity has the key
  pub has_key : Text → List InformedEntity → Bool
  has_key k [] = false
  has_key k (e ∷ es) = is_key (key e) k || has_key k es

  -- the alert has an ID, and an entity with the key
  abbrev pub mentions : Text → Alert → Bool
  mentions k a = not (is_empty a.id) && has_key k a.informed_entities

  module _ (k : Text) (a : Alert) where
    -- the list of the key after the loop: the alert is added, unless it has been
    abbrev Added : Bool → List Text → List Alert → List Alert → Type 0
    Added has seen old new =
        new ≡ (if not (contains_text k seen) && has then old ++ (a ∷ []) else old)

    get_or-index_key :
        (es : List InformedEntity)
        → ((seen : List Text) (m : Map Text (List Alert))
            → Added
                (has_key k es)
                seen
                (get_or [] k m)
                (get_or [] k (index_entities key a es seen m)))
        → (o : Option Text) (seen : List Text) (m : Map Text (List Alert))
        → Added (is_key o k || has_key k es) seen (get_or [] k m) (
            get_or [] k (index_entities key a es (index_key a o seen m).0 (index_key a o seen m).1))
    unfolding index_key contains_text
    get_or-index_key es ih none seen m = ih seen m
    get_or-index_key es ih (some j) seen m = elim (Bool-cases (contains_text j seen)) [
      | inl c ↦ rw (c, index_key) (ground (arith, ih seen m, text_eq.beq_iff j k))
      | inr c ↦
          rw (c, index_key)
            (ground (arith, ih (j ∷ seen) (push j a m), get_or-push j k a m, text_eq.beq_iff j k))
    ]

    get_or-index_entities :
        (es : List InformedEntity) (seen : List Text) (m : Map Text (List Alert))
        → Added (has_key k es) seen (get_or [] k m) (get_or [] k (index_entities key a es seen m))
    unfolding index_entities has_key
    get_or-index_entities [] seen m = ground arith
    get_or-index_entities (e ∷ es) seen m =
        get_or-index_key es (get_or-index_entities es) (key e) seen m

  Added-append :
      (k : Text) (a : Alert) (has : Bool) (old new rest : List Alert)
      → Added k a has [] old new
      → new ++ rest ≡ old ++ (if has then a ∷ rest else rest)
  unfolding contains_text
  Added-append k a true old new rest h = rw h (append_assoc old (a ∷ []) rest)
  Added-append k a false old new rest h = rw h refl

  get_or-index_alerts :
      (k : Text) (alerts : List Alert) (m : Map Text (List Alert))
      → get_or [] k (index_alerts key alerts m) ≡ get_or [] k m ++ keep_if (mentions k) alerts
  unfolding index_alerts
  get_or-index_alerts k [] m = sym (append-nil (get_or [] k m))
  get_or-index_alerts k (a ∷ alerts) m = elim (Bool-cases (is_empty a.id)) [
    | inl e ↦ rw e (get_or-index_alerts k alerts m)
    | inr e ↦ rw e (
        get_or-index_alerts k alerts (index_entities key a a.informed_entities [] m)
        ∙ Added-append k a (has_key k a.informed_entities) (get_or [] k m) _
            (keep_if (mentions k) alerts) (get_or-index_entities k a a.informed_entities [] m))
  ]

-- In the merged view of any store, each alert index holds under a key the alerts of all feeds, in
-- the order of the feeds, that have an ID and an entity with that key, each as often as the feeds
-- report it, however many of its entities have the key: by trip for an entity with a trip, by
-- route for one with a route and neither stop nor trip, by agency for one with an agency and
-- neither route nor trip, by stop for one with a stop.
pub merge-alerts :
    (m : Manager) (k : Text)
    → (get_or [] k (merge m).alerts.by_trip
        ≡ keep_if (mentions trip_key k) (all_feeds m.feed_alerts))
      × (get_or [] k (merge m).alerts.by_route
          ≡ keep_if (mentions route_key k) (all_feeds m.feed_alerts))
      × (get_or [] k (merge m).alerts.by_agency
          ≡ keep_if (mentions agency_key k) (all_feeds m.feed_alerts))
      × (get_or [] k (merge m).alerts.by_stop
          ≡ keep_if (mentions stop_key k) (all_feeds m.feed_alerts))
unfolding merge alert_index lookup
merge-alerts m k = (
  get_or-index_alerts trip_key k (all_feeds m.feed_alerts) [],
  get_or-index_alerts route_key k (all_feeds m.feed_alerts) [],
  get_or-index_alerts agency_key k (all_feeds m.feed_alerts) [],
  get_or-index_alerts stop_key k (all_feeds m.feed_alerts) [],
)
