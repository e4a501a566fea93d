-- ===== src/Tests/Stops.antt =====
-- Stop sequences of a branch and a trunk, with one trip that runs the other way.
use maglev.Prelude.{
  ℕ, ◌+◌, ◌-◌, max, Map, some, List, [], ◌∷◌, Text, text_eq, list_beq, bytes, ltb, insert, lookup,
  contains_text, ◌≡◌, ◌↔◌, refl, inl, arith, In,
}
use maglev.StopOrder.{
  StopGraph, targets, Metric, search_each, reaches, add_node, add_edge, link, link_to, join,
  add_sequence, add_sequences, stops_graph, count_up, count_down, inbound_of, edge_length, longest,
  downstream_distance, downstream_of, beats, find_best, emit, topological_sort,
  order_stops_along_route,
}
use maglev.StopOrder.Paths.{Edge}
use maglev.StopOrder.Acyclic.{AreDistinct}
use maglev.StopOrder.Sorting.{Before}
use maglev.StopOrder.Stops.{AllStopIds, InSome}
use maglev.StopOrder.Distances.{best_over, downstream_of_lem}
use maglev.StopOrder.Order.{order_stops_along_route_lem}

-- places on a line, in metres
abbrev line : Metric ℕ ℕ
line = record {
  zero_length = 0;
  add = λ a b. a + b;
  larger = λ a b. max a b;
  exceeds = λ a b. ltb b a;
  distance = λ a b. (a - b) + (b - a);
}

abbrev sequences : List (List Text)
sequences =
    (bytes "a" ∷ bytes "c" ∷ bytes "d" ∷ [])
    ∷ (bytes "b" ∷ bytes "c" ∷ bytes "d" ∷ [])
    ∷ (bytes "d" ∷ bytes "a" ∷ [])
    ∷ []

abbrev places : Map Text ℕ
places = (bytes "a", 60) ∷ (bytes "b", 10) ∷ (bytes "c", 100) ∷ (bytes "d", 150) ∷ []

-- the longer branch first, and no edge from "d" to "a"
longer_branch_first :
    order_stops_along_route line places sequences
    ≡ some (bytes "b" ∷ bytes "a" ∷ bytes "c" ∷ bytes "d" ∷ [])
unfolding order_stops_along_route topological_sort stops_graph add_sequences add_sequence join
    add_node add_edge link link_to reaches search_each count_up count_down inbound_of edge_length
    longest downstream_distance downstream_of beats find_best emit contains_text insert lookup
    list_beq
longer_branch_first = refl

order_stops_along_route_lem_example :
    (order : List Text) × (order_stops_along_route line places sequences ≡ some order)
    × ((s : Text) → In s order ↔ InSome s sequences)
    × AreDistinct order
    × ((u w : Text) → Edge (stops_graph sequences) u w → Before u w order)
order_stops_along_route_lem_example = order_stops_along_route_lem line places sequences stop_ids
  where
    stop_ids : AllStopIds sequences
    stop_ids = ground arith

abbrev small : StopGraph
small = record {
  nodes = bytes "a" ∷ bytes "c" ∷ [];
  outbound = (bytes "a", bytes "c" ∷ []) ∷ (bytes "c", []) ∷ [];
}

abbrev below : Map Text ℕ
below = (bytes "b", 140) ∷ []

abbrev no_edges : Map Text ℕ
no_edges = []

downstream_of_lem_example :
    let g = stops_graph sequences in
    let memo = downstream_of line places g g.nodes [] in
    lookup (bytes "a") memo
    ≡ some (best_over line places memo (bytes "a") (targets g (bytes "a")) 0)
unfolding stops_graph add_sequences add_sequence join add_node add_edge link link_to reaches
    search_each contains_text insert lookup list_beq
downstream_of_lem_example = downstream_of_lem line places sequences (bytes "a") (inl refl)
