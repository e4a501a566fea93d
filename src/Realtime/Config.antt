-- ===== src/Realtime/Config.antt =====
-- internal/gtfs/config.go: the feeds that are polled, and the agency filters that `InitGTFSManager`
-- stores.
pub mod Sets
use maglev.Prelude.{
  Bool, true, false, ◌&&◌, ◌||◌, not, List, [], ◌∷◌, Text, text_eq, is_empty, Map, insert, keep_if,
}
use maglev.Realtime.Feed.{FeedConfig}

unfoldable pub is_polled : FeedConfig → Bool
is_polled f =
    f.enabled
    && (not (is_empty f.trip_updates_url)
        || (not (is_empty f.vehicle_positions_url) || not (is_empty f.service_alerts_url)))

-- `enabledFeeds`, of the feeds `config.RTFeeds`
unfoldable pub enabled_feeds : List FeedConfig → List FeedConfig
enabled_feeds = keep_if is_polled

-- `filter[id] = true` for each agency ID
unfoldable pub agency_set : List Text → Map Text Bool → Map Text Bool
agency_set [] m = m
agency_set (id ∷ ids) m = agency_set ids (insert id true m)

-- one turn of the loop of `feedAgencyFilters`
unfoldable pub add_filter :
    FeedConfig → List Text → Map Text (Map Text Bool) → Map Text (Map Text Bool)
add_filter f [] m = m
add_filter f (id ∷ ids) m = insert f.id (agency_set (id ∷ ids) []) m

unfoldable pub add_filters : List FeedConfig → Map Text (Map Text Bool) → Map Text (Map Text Bool)
add_filters [] m = m
add_filters (f ∷ fs) m = add_filters fs (add_filter f f.agency_ids m)

-- `feedAgencyFilters`
unfoldable pub feed_agency_filters : List FeedConfig → Map Text (Map Text Bool)
feed_agency_filters feeds = add_filters (enabled_feeds feeds) []
