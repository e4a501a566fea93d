-- ===== src/Tests/Orders.antt =====
-- Orders of names and routes, and the filters of a configuration of three feeds.
use maglev.Prelude.{
  true, false, some, none, [], ◌∷◌, bytes, text_eq, list_beq, contains_text, get_or, lookup, inl,
  if◌then◌else◌, refl, ◌≡◌, ◌↔◌, List,
}
use Prim.Native.String.{String}
use maglev.Ordering.{
  less, equal, greater, natural_compare, natural_loop, compare_texts, compare_chunks,
  compare_numeric_chunks, extract_chunk, split_class, number_of, RouteSortKey, sort_name,
  compare_route_sort_keys,
}
use maglev.Ordering.Natural.{flip}
use maglev.Ordering.Routes.{compare_route_sort_keys_laws}
use maglev.Realtime.Feed.{FeedConfig}
use maglev.Realtime.Config.{enabled_feeds, is_polled, feed_agency_filters}
use maglev.Realtime.Config.Sets.{are_distinct, lacks_feed, feed_agency_filters-allowed}
use maglev.Tests.Polling.{north}

numeric : natural_compare (bytes "14") (bytes "101") ≡ less
unfolding natural_compare natural_loop compare_chunks compare_numeric_chunks compare_texts
    extract_chunk split_class number_of
numeric = refl

digits_first : natural_compare (bytes "Route 9A") (bytes "Route 10") ≡ less
unfolding natural_compare natural_loop compare_chunks compare_numeric_chunks compare_texts
    extract_chunk split_class number_of
digits_first = refl

leading_zero : natural_compare (bytes "7") (bytes "07") ≡ greater
unfolding natural_compare natural_loop compare_chunks compare_numeric_chunks compare_texts
    extract_chunk split_class number_of
leading_zero = refl

abbrev route : String → String → RouteSortKey
route name id = record {
  short_name = bytes name;
  long_name = bytes "Downtown";
  agency_id = bytes "40";
  id = bytes id;
}

compare_route_sort_keys_laws_example :
    (compare_route_sort_keys (route "9" "b") (route "10" "a")
      ≡ flip (compare_route_sort_keys (route "10" "a") (route "9" "b")))
    × ((compare_route_sort_keys (route "10" "a") (route "9" "b") ≡ equal) ↔ (
        (sort_name (route "10" "a") ≡ sort_name (route "9" "b"))
        × (bytes "40" ≡ bytes "40")
        × (bytes "a" ≡ bytes "b")))
compare_route_sort_keys_laws_example = compare_route_sort_keys_laws (route "10" "a") (route "9" "b")

abbrev east : FeedConfig
east = record north { id = bytes "east"; agency_ids = [] }

abbrev off : FeedConfig
off = record north { agency_ids = bytes "41" ∷ []; enabled = false }

abbrev three_feeds : List FeedConfig
three_feeds = north ∷ off ∷ east ∷ []

feed_agency_filters-allowed_example :
    lookup (bytes "40") (get_or [] (bytes "north") (feed_agency_filters three_feeds))
    ≡ (if contains_text (bytes "40") (bytes "40" ∷ []) then some true else none)
feed_agency_filters-allowed_example =
    feed_agency_filters-allowed three_feeds north (bytes "40")
      (unfold are_distinct lacks_feed enabled_feeds is_polled list_beq in refl)
      (unfold enabled_feeds is_polled in inl refl)
