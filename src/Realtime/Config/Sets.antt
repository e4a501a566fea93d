-- ===== src/Realtime/Config/Sets.antt =====
-- Which agencies the filter of a configured feed allows.
use maglev.Prelude.{
  Bool, true, false, Option, none, some, List, [], ◌∷◌, Text, text_eq, contains_text, Map, lookup,
  insert, lookup-insert, lookup-insert_self, get_or, In, if◌then◌else◌, ◌==◌, ◌≡◌, refl, sym, ◌∙◌,
  arith, inl, inr,
}
use maglev.Realtime.Feed.{FeedConfig}
use maglev.Realtime.Config.{enabled_feeds, agency_set, add_filter, add_filters, feed_agency_filters}

lookup-agency_set :
    (a : Text) (ids : List Text) (m : Map Text Bool)
    → lookup a (agency_set ids m) ≡ (if contains_text a ids then some true else lookup a m)
unfolding agency_set contains_text
lookup-agency_set a [] m = refl
lookup-agency_set a (id ∷ ids) m = ground (
  arith,
  lookup-agency_set a ids (insert id true m),
  lookup-insert id a true m,
  text_eq.beq_iff id a,
  text_eq.beq_iff a id,
)

-- no feed of the list has the ID
unfoldable pub lacks_feed : Text → List FeedConfig → Bool
lacks_feed feed [] = true
lacks_feed feed (f ∷ fs) = if f.id == feed then false else lacks_feed feed fs

-- the IDs of the feeds are distinct
unfoldable pub are_distinct : List FeedConfig → Bool
are_distinct [] = true
are_distinct (f ∷ fs) = if lacks_feed f.id fs then are_distinct fs else false

add_filter-other :
    (feed : Text) (f : FeedConfig) (ids : List Text) (m : Map Text (Map Text Bool))
    → (f.id == feed) ≡ false
    → lookup feed (add_filter f ids m) ≡ lookup feed m
unfolding add_filter
add_filter-other feed f [] m h = refl
add_filter-other feed f (id ∷ ids) m h =
    ground (arith, lookup-insert f.id feed (agency_set (id ∷ ids) []) m)

add_filters-lacking :
    (feed : Text) (fs : List FeedConfig) (m : Map Text (Map Text Bool))
    → lacks_feed feed fs ≡ true
    → lookup feed (add_filters fs m) ≡ lookup feed m
unfolding add_filters lacks_feed
add_filters-lacking feed [] m h = refl
add_filters-lacking feed (f ∷ fs) m h =
    add_filters-lacking feed fs (add_filter f f.agency_ids m) (ground arith)
    ∙ add_filter-other feed f f.agency_ids m (ground arith)

lacking-apart :
    (feed : Text) (f : FeedConfig) (fs : List FeedConfig)
    → lacks_feed feed fs ≡ true
    → In f fs
    → (f.id == feed) ≡ false
unfolding lacks_feed
lacking-apart feed f [] h i = absurd i
lacking-apart feed f (g ∷ fs) h (inl e) = rw e (ground arith)
lacking-apart feed f (g ∷ fs) h (inr i) = lacking-apart feed f fs (ground arith) i

-- the filter that a feed's turn of the loop leaves
unfoldable own_filter : List Text → Option (Map Text Bool)
own_filter [] = none
own_filter (id ∷ ids) = some (agency_set (id ∷ ids) [])

add_filter-own :
    (f : FeedConfig) (ids : List Text) (m : Map Text (Map Text Bool))
    → lookup f.id m ≡ none
    → lookup f.id (add_filter f ids m) ≡ own_filter ids
unfolding add_filter own_filter
add_filter-own f [] m h = h
add_filter-own f (id ∷ ids) m h = lookup-insert_self f.id (agency_set (id ∷ ids) []) m

add_filters-own :
    (f : FeedConfig) (fs : List FeedConfig) (m : Map Text (Map Text Bool))
    → are_distinct fs ≡ true
    → In f fs
    → lookup f.id m ≡ none
    → lookup f.id (add_filters fs m) ≡ own_filter f.agency_ids
unfolding add_filters are_distinct
add_filters-own f [] m d i h = absurd i
add_filters-own f (g ∷ fs) m d (inl e) h = rw (sym e) (
    add_filters-lacking f.id fs (add_filter f f.agency_ids m) (rw e (ground arith))
    ∙ add_filter-own f f.agency_ids m h)
add_filters-own f (g ∷ fs) m d (inr i) h =
    add_filters-own f fs (add_filter g g.agency_ids m) (ground arith) i (
      add_filter-other f.id g g.agency_ids m (
        ground
          (arith, lacking-apart g.id f fs, text_eq.beq_iff f.id g.id, text_eq.beq_iff g.id f.id))
      ∙ h)

allowed_by-own :
    (a : Text) (ids : List Text) (o : Option (Map Text Bool))
    → o ≡ own_filter ids
    → lookup a (elim o [ none ↦ [] | some m ↦ m ])
      ≡ (if contains_text a ids then some true else none)
allowed_by-own a ids o e = rw e (by_ids ids)
  where
    by_ids :
        (ids : List Text)
        → lookup a (elim (own_filter ids) [ none ↦ [] | some m ↦ m ])
          ≡ (if contains_text a ids then some true else none)
    by_ids [] = unfold own_filter lookup contains_text in refl
    by_ids (id ∷ ids) =
        unfold own_filter in lookup-agency_set a (id ∷ ids) [] ∙ (unfold lookup in refl)

-- In a configuration whose polled feeds have distinct IDs, the filter of a polled feed allows
-- exactly the agencies that the feed is configured for; with none it is empty, which turns the
-- filtering off.
pub feed_agency_filters-allowed :
    (feeds : List FeedConfig) (f : FeedConfig) (a : Text)
    → are_distinct (enabled_feeds feeds) ≡ true
    → In f (enabled_feeds feeds)
    → lookup a (get_or [] f.id (feed_agency_filters feeds))
      ≡ (if contains_text a f.agency_ids then some true else none)
unfolding feed_agency_filters
feed_agency_filters-allowed feeds f a d i =
    allowed_by-own a f.agency_ids (lookup f.id (add_filters (enabled_feeds feeds) []))
      (add_filters-own f (enabled_feeds feeds) [] d i (unfold lookup in refl))
