-- ===== src/StopOrder/Order.antt =====
-- What `OrderStopsAlongRoute` returns, and which stop its sort takes next.
use maglev.Prelude.{
  ℕ, suc, ◌+◌, Bool, true, false, ◌&&◌, Option, none, some, List, [], ◌∷◌, Text, text_eq, eqb, Map,
  get_or, In, if◌then◌else◌, ◌≡◌, ◌⊎◌, ◌↔◌, sym, ap, ◌∙◌, subst, arith, Bool-cases, inl, inr,
}
use maglev.StopOrder.{stops_graph, Metric, at, beats, find_best, order_stops_along_route}
use maglev.StopOrder.Paths.{Edge}
use maglev.StopOrder.Acyclic.{AreDistinct, stops_graph-IsStopGraph}
use maglev.StopOrder.Picking.{StandsAt, find_best-cases}
use maglev.StopOrder.Sorting.{Before, topological_sort-IsTravelOrder}
use maglev.StopOrder.Stops.{AllStopIds, InSome, stops_graph-In}

-- Where the stop IDs of the sequences are not empty and have no byte 0, the loops of
-- `OrderStopsAlongRoute` end with a stop to take at every step, and the order has each stop of the
-- sequences exactly once, no other stop, and the start of each edge of the graph before its end.
pub order_stops_along_route_lem :
    {N L : Type 0} (metric : Metric N L) (coordinates : Map Text L) (sequences : List (List Text))
    → AllStopIds sequences
    → (order : List Text) × (order_stops_along_route metric coordinates sequences ≡ some order)
      × ((s : Text) → In s order ↔ InSome s sequences)
      × AreDistinct order
      × ((u w : Text) → Edge (stops_graph sequences) u w → Before u w order)
unfolding order_stops_along_route
order_stops_along_route_lem metric coordinates sequences ids =
    let (order, e, r) =
      topological_sort-IsTravelOrder metric coordinates (stops_graph sequences)
        (stops_graph-IsStopGraph sequences) in
    (order, e, λ s. both (r.each s) (stops_graph-In s sequences ids), r.once, r.along_edges)
  where
    both : {A B C : Type 0} → A ↔ B → B ↔ C → A ↔ C
    both f h = (λ a. h.0 (f.0 a), λ c. f.1 (h.1 c))

-- float64's `>` on numbers that are not NaN
pub record Exceeds {N : Type 0} (exceeds : N → N → Bool) : Type 0 where
  pub asymmetric : (a b : N) → exceeds a b ≡ true → exceeds b a ≡ false
  pub not_trans : (a b c : N) → exceeds a b ≡ false → exceeds b c ≡ false → exceeds a c ≡ false

module _ {N L : Type 0} (metric : Metric N L) (downstream : Map Text N) (inbound : Map Text ℕ)
    (order : Exceeds metric.exceeds) where
  abbrev longer : Text → Text → Bool
  longer s t = metric.exceeds (at metric downstream s) (at metric downstream t)

  find_best-start :
      (i : ℕ) (ss : List Text) (a : ℕ × Text) (b : ℕ × Text)
      → find_best metric downstream inbound i ss (some a) ≡ some b
      → longer a.1 b.1 ≡ false
  unfolding find_best beats
  find_best-start i [] a b e =
      let same : a ≡ b = cc in
      subst (λ (x : ℕ × Text). longer a.1 x.1 ≡ false) same
        (irreflexive (Bool-cases (longer a.1 a.1)))
    where
      irreflexive : (longer a.1 a.1 ≡ true) ⊎ (longer a.1 a.1 ≡ false) → longer a.1 a.1 ≡ false
      irreflexive (inl l) = order.asymmetric _ _ l
      irreflexive (inr l) = l
  find_best-start i (s ∷ ss) a b e =
      elim (Bool-cases (eqb (get_or 0 s inbound) 0 && longer s a.1)) [
        | inl c ↦
            order.not_trans _ _ _ (order.asymmetric _ _ (ground arith))
              (find_best-start (suc i) ss (i, s) b (rw c at e))
        | inr c ↦ find_best-start (suc i) ss a b (rw c at e)
      ]

  find_best-beaten :
      (i : ℕ) (ss : List Text) (t : Text) (best : Option (ℕ × Text)) (b : ℕ × Text)
      → beats metric downstream t best ≡ false
      → find_best metric downstream inbound i ss best ≡ some b
      → longer t b.1 ≡ false
  unfolding beats
  find_best-beaten i ss t none b c e = absurd (cc c)
  find_best-beaten i ss t (some a) b c e = order.not_trans _ _ _ c (find_best-start i ss a b e)

  find_best-longest :
      (i : ℕ) (ss : List Text) (best : Option (ℕ × Text)) (b : ℕ × Text)
      → find_best metric downstream inbound i ss best ≡ some b
      → (s : Text) → In s ss
      → get_or 0 s inbound ≡ 0
      → longer s b.1 ≡ false
  unfolding find_best
  find_best-longest i [] best b e s k z = absurd k
  find_best-longest i (t ∷ ss) best b e s (inr k) z =
      find_best-longest (suc i) ss
        (if eqb (get_or 0 t inbound) 0 && beats metric downstream t best then some (i, t) else best)
        b e s k z
  find_best-longest i (t ∷ ss) best b e s (inl q) z =
      elim (Bool-cases (beats metric downstream t best)) [
        | inl c ↦
            subst (λ (x : Text). longer x b.1 ≡ false) (sym q)
              (find_best-start (suc i) ss (i, t) b (rw (source, c) at e))
        | inr c ↦
            subst (λ (x : Text). longer x b.1 ≡ false) (sym q)
              (find_best-beaten (suc i) ss t best b c (rw (source, c) at e))
      ]
    where
      source : eqb (get_or 0 t inbound) 0 ≡ true
      source = ground arith

  -- The stop that the sort's inner loop picks stands in the remaining stops at the index found, has no
  -- inbound edges left, and no other such stop has a longer downstream path, if the numbers compare as
  -- float64 numbers that are not NaN do.
  find_best_lem :
      (remaining : List Text) (b : ℕ × Text)
      → find_best metric downstream inbound 0 remaining none ≡ some b
      → StandsAt b.0 b.1 remaining
        × (get_or 0 b.1 inbound ≡ 0)
        × ((s : Text)
            → In s remaining
            → get_or 0 s inbound ≡ 0
            → metric.exceeds (at metric downstream s) (at metric downstream b.1) ≡ false)
  find_best_lem remaining b e = elim (find_best-cases metric downstream inbound 0 remaining none) [
    | inl n ↦ absurd (cc (n, e))
    | inr (n, s, stands, z, f) ↦
        let zero_add : 0 + n ≡ n = omega arith in
        let same : b ≡ (n, s) = cc (e, f ∙ ap (λ (k : ℕ). some (k, s)) zero_add) in
        (
          subst (λ (x : ℕ × Text). StandsAt x.0 x.1 remaining) (sym same) stands,
          subst (λ (x : ℕ × Text). get_or 0 x.1 inbound ≡ 0) (sym same) z,
          find_best-longest 0 remaining none b e,
        )
  ]
