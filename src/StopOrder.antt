-- ===== src/StopOrder.antt =====
-- internal/utils/stop_order.go: `OrderStopsAlongRoute`, which joins the stop sequences of the trips
-- in one graph without cycles and sorts it. The float64 numbers and `Distance` are parameters.
pub mod Paths
pub mod Reaching
pub mod Acyclic
pub mod Sources
pub mod Picking
pub mod Sorting
pub mod Stops
pub mod Order
pub mod Distances
use maglev.Prelude.{
  ℕ, zero, suc, ◌+◌, ◌-◌, Bool, true, false, ◌&&◌, ◌||◌, Option, none, some, List, [], ◌∷◌, ◌++◌,
  length, take, drop, Text, text_eq, ◌==◌, eqb, contains_text, Map, lookup, insert, get_or, is_some,
  if◌then◌else◌,
}

-- `stopGraph`
pub record StopGraph : Type 0 where
  pub nodes : List Text
  pub outbound : Map Text (List Text)

-- `g.outbound[stopID]`
abbrev pub targets : StopGraph → Text → List Text
targets g s = get_or [] s g.outbound

unfoldable pub add_node : Text → StopGraph → StopGraph
add_node s g =
    if is_some (lookup s g.outbound)
    then g
    else record { nodes = g.nodes ++ (s ∷ []); outbound = insert s [] g.outbound }

unfoldable pub add_edge : Text → Text → StopGraph → StopGraph
add_edge from to g =
    if contains_text to (targets g from)
    then g
    else record g { outbound = insert from (targets g from ++ (to ∷ [])) g.outbound }

-- what `reaches` returns, with the visited stops where it goes on
pub data Search : Type 0 where
  found : Search
  not_found : List Text → Search
  out_of_fuel : Search

-- the loop over the stops that follow one, by the search from each
unfoldable pub search_each : (Text → List Text → Search) → List Text → List Text → Search
search_each search_from [] visited = not_found visited
search_each search_from (next ∷ nexts) visited = elim (contains_text next visited) [
  | true ↦ search_each search_from nexts visited
  | false ↦ elim (search_from next visited) [
    | found ↦ found
    | not_found visited' ↦ search_each search_from nexts visited'
    | out_of_fuel ↦ out_of_fuel
  ]
]

-- `reaches`
unfoldable pub reaches : ℕ → StopGraph → Text → Text → List Text → Search
reaches zero g to from visited = out_of_fuel
reaches (suc fuel) g to from visited =
    let rest = search_each (reaches fuel g to) (targets g from) (from ∷ visited) in
    if from == to then found else rest

-- fuel for the stops of the graph
abbrev pub fuel_of : StopGraph → ℕ
fuel_of g = suc (length g.nodes)

-- the part of the inner loop for a stop that is not the first of its sequence
unfoldable pub link : Text → Text → StopGraph → StopGraph
link prev s g =
    if contains_text s (targets g prev) then g else elim (reaches (fuel_of g) g prev s []) [
      | found ↦ g
      | not_found visited ↦ add_edge prev s g
      | out_of_fuel ↦ g
    ]

unfoldable pub link_to : Option Text → Text → StopGraph → StopGraph
link_to none s g = g
link_to (some prev) s g = link prev s g

-- the inner loop
unfoldable pub add_sequence : Option Text → List Text → StopGraph → StopGraph
add_sequence prev [] g = g
add_sequence prev (s ∷ ss) g = add_sequence (some s) ss (link_to prev s (add_node s g))

-- `strings.Join(sequence, "\x00")`
unfoldable pub join : List Text → Text
join [] = []
join (s ∷ []) = s
join (s ∷ t ∷ ss) = s ++ (0 ∷ join (t ∷ ss))

-- the outer loop, with the keys that it has seen
unfoldable pub add_sequences : List (List Text) → List Text → StopGraph → StopGraph
add_sequences [] seen g = g
add_sequences (sequence ∷ rest) seen g =
    let skipped = add_sequences rest seen g in
    let added = add_sequences rest (join sequence ∷ seen) (add_sequence none sequence g) in
    if contains_text (join sequence) seen then skipped else added

-- the graph of the sequences
unfoldable pub stops_graph : List (List Text) → StopGraph
stops_graph sequences = add_sequences sequences [] (record { nodes = []; outbound = [] })

-- `inbound[to]++` and `inbound[to]--`
unfoldable pub count_up : List Text → Map Text ℕ → Map Text ℕ
count_up [] m = m
count_up (to ∷ tos) m = count_up tos (insert to (get_or 0 to m + 1) m)

unfoldable pub count_down : List Text → Map Text ℕ → Map Text ℕ
count_down [] m = m
count_down (to ∷ tos) m = count_down tos (insert to (get_or 0 to m - 1) m)

unfoldable pub inbound_of : StopGraph → List Text → Map Text ℕ → Map Text ℕ
inbound_of g [] m = m
inbound_of g (s ∷ ss) m = inbound_of g ss (count_up (targets g s) m)

-- float64, and `Distance` of two locations
pub record Metric (N L : Type 0) : Type 0 where
  pub zero_length : N
  pub add : N → N → N
  pub larger : N → N → N
  pub exceeds : N → N → Bool
  pub distance : L → L → N

module _ {N L : Type 0} (metric : Metric N L) (coordinates : Map Text L) where
  -- `edgeLength`
  unfoldable pub edge_length : Text → Text → N
  edge_length from to = elim (lookup from coordinates) [
    | none ↦ metric.zero_length
    | some a ↦ elim (lookup to coordinates) [
      | none ↦ metric.zero_length
      | some b ↦ metric.distance a b
    ]
  ]

  -- the loop of `downstreamDistance`, with the distance from the next stop and the memo
  unfoldable pub longest :
      (Text → Map Text N → Map Text N × N) → Text → List Text → N → Map Text N → Map Text N × N
  longest from_next s [] best memo = (memo, best)
  longest from_next s (next ∷ nexts) best memo =
      let below = from_next next memo in
      longest from_next s nexts (metric.larger best (metric.add (edge_length s next) below.1))
        below.0

  -- `downstreamDistance`
  unfoldable pub downstream_distance : ℕ → StopGraph → Text → Map Text N → Map Text N × N
  downstream_distance zero g s memo = (memo, metric.zero_length)
  downstream_distance (suc fuel) g s memo =
      let walked = longest (downstream_distance fuel g) s (targets g s) metric.zero_length memo in
      elim (lookup s memo) [ some d ↦ (memo, d) | none ↦ (insert s walked.1 walked.0, walked.1) ]

  unfoldable pub downstream_of : StopGraph → List Text → Map Text N → Map Text N
  downstream_of g [] memo = memo
  downstream_of g (s ∷ ss) memo = downstream_of g ss (downstream_distance (fuel_of g) g s memo).0

module _ {N L : Type 0} (metric : Metric N L) (downstream : Map Text N) where
  abbrev pub at : Text → N
  at s = get_or metric.zero_length s downstream

  -- `best < 0 || downstream[stopID] > downstream[remaining[best]]`; the best so far is an index of
  -- `remaining` with the stop there
  unfoldable pub beats : Text → Option (ℕ × Text) → Bool
  beats s none = true
  beats s (some b) = metric.exceeds (at s) (at b.1)

  -- the loop that finds `best`
  unfoldable pub find_best : Map Text ℕ → ℕ → List Text → Option (ℕ × Text) → Option (ℕ × Text)
  find_best inbound i [] best = best
  find_best inbound i (s ∷ ss) best =
      find_best inbound (suc i) ss
        (if eqb (get_or 0 s inbound) 0 && beats s best then some (i, s) else best)

  -- the loop that emits the stops; `none` is the read of `remaining[-1]`
  unfoldable pub emit : StopGraph → ℕ → List Text → Map Text ℕ → Option (List Text)
  emit g fuel [] inbound = some []
  emit g zero (s ∷ ss) inbound = none
  emit g (suc fuel) (s ∷ ss) inbound = elim (find_best inbound 0 (s ∷ ss) none) [
    | none ↦ none
    | some best ↦
        elim (emit g fuel (take best.0 (s ∷ ss) ++ drop (suc best.0) (s ∷ ss))
          (count_down (targets g best.1) inbound)) [
            | none ↦ none
            | some order ↦ some (best.1 ∷ order)
          ]
  ]

module _ {N L : Type 0} (metric : Metric N L) (coordinates : Map Text L) where
  -- `topologicalSort`
  unfoldable pub topological_sort : StopGraph → Option (List Text)
  topological_sort g =
      emit metric (downstream_of metric coordinates g g.nodes []) g (length g.nodes) g.nodes
        (inbound_of g g.nodes [])

  -- `OrderStopsAlongRoute`
  unfoldable pub order_stops_along_route : List (List Text) → Option (List Text)
  order_stops_along_route sequences = topological_sort (stops_graph sequences)
