-- ===== src/StopOrder/Sorting.antt =====
-- The topological sort: it always finds a next stop, emits each stop once, and puts the start of every
-- edge before its end.
use maglev.Prelude.{
  ℕ, zero, suc, ◌≤◌, true, none, some, List, [], ◌∷◌, ◌++◌, Text, text_eq, length, take, drop, Map,
  lookup, get_or, is_some, In-contains_text, contains_text-In, In, ◌≡◌, ◌⊎◌, ◌↔◌, refl, sym, ap,
  ◌∙◌, subst, arith, Option-cases, inl, inr,
}
use maglev.StopOrder.{
  StopGraph, targets, count_down, inbound_of, Metric, find_best, emit, topological_sort,
  downstream_of,
}
use maglev.StopOrder.Paths.{Edge, IsAcyclic}
use maglev.StopOrder.Acyclic.{AreDistinct, IsStopGraph}
use maglev.StopOrder.Sources.{
  edges_into, get_or-count_down, get_or-inbound_of, edges_into-Edge, source_exists,
}
use maglev.StopOrder.Picking.{
  Removes, delete-Removes, Removes-In, Removes-length, Removes-edges_into, Removes-AreDistinct,
  find_best-Best,
}

-- the order that the sort makes of the remaining stops: each next one has no edge from them
data Emits (g : StopGraph) : List Text → List Text → Type 0 where
  done : Emits g [] []
  next :
      {s : Text} {remaining rest order : List Text}
      → Removes s remaining rest
      → edges_into g s remaining ≡ 0
      → Emits g rest order
      → Emits g remaining (s ∷ order)

module _ {N L : Type 0} (metric : Metric N L) (downstream : Map Text N) (g : StopGraph)
    (acyclic : IsAcyclic g) where
  abbrev Counts : List Text → Map Text ℕ → Type 0
  Counts remaining inbound = (w : Text) → get_or 0 w inbound ≡ edges_into g w remaining

  emit-cons :
      (fuel : ℕ) (s : Text) (ss : List Text) (inbound : Map Text ℕ) (b : ℕ × Text)
      (order : List Text)
      → find_best metric downstream inbound 0 (s ∷ ss) none ≡ some b
      → emit metric downstream g fuel
          (take b.0 (s ∷ ss) ++ drop (suc b.0) (s ∷ ss))
          (count_down (targets g b.1) inbound)
        ≡ some order
      → emit metric downstream g (suc fuel) (s ∷ ss) inbound ≡ some (b.1 ∷ order)
  unfolding emit
  emit-cons fuel s ss inbound b order found e = rw (found, emit) (rw (e, emit) refl)

  emit-Emits :
      (fuel : ℕ) (remaining : List Text) (inbound : Map Text ℕ)
      → length remaining ≤ fuel
      → Counts remaining inbound
      → (order : List Text) × (emit metric downstream g fuel remaining inbound ≡ some order)
        × Emits g remaining order
  unfolding emit
  emit-Emits fuel [] inbound h counts = ([], refl, done)
  emit-Emits zero (s ∷ ss) inbound h counts = absurd (omega arith)
  emit-Emits (suc fuel) (s ∷ ss) inbound h counts =
      let (t, i, z) = source_exists g acyclic (s ∷ ss) s (inl refl) in
      let (n, best, at, none_into, found) =
        find_best-Best metric downstream inbound (s ∷ ss) t i (counts t ∙ z) in
      let removed = delete-Removes n best (s ∷ ss) at in
      let rest = take n (s ∷ ss) ++ drop (suc n) (s ∷ ss) in
      let (order, e, emits) =
        emit-Emits fuel rest (count_down (targets g best) inbound)
          (omega (arith, h, Removes-length removed))
          (λ w. omega (
            arith,
            get_or-count_down w (targets g best) inbound,
            counts w,
            Removes-edges_into g w removed,
          )) in
      (
        best ∷ order,
        emit-cons fuel s ss inbound (n, best) order
            (found ∙ ap (λ (k : ℕ). some (k, best)) (omega arith)) e,
        next removed (sym (counts best) ∙ none_into) emits,
      )

Emits-In :
    {g : StopGraph} {remaining order : List Text}
    → Emits g remaining order
    → (u : Text) → In u order ↔ In u remaining
Emits-In done u = (λ i. i, λ i. i)
Emits-In (next r z e) u = ground (arith, Removes-In r u, Emits-In e u)

Emits-AreDistinct :
    {g : StopGraph} {remaining order : List Text}
    → Emits g remaining order
    → AreDistinct remaining
    → AreDistinct order
Emits-AreDistinct done d = d
Emits-AreDistinct (next {s} {remaining} {rest} {order} r z e) d =
    let (n, d') = Removes-AreDistinct r d in
    (
      ground (arith, n, contains_text-In s order, In-contains_text s rest, Emits-In e s),
      Emits-AreDistinct e d',
    )

-- `u` stands before `w`
abbrev pub Before : Text → Text → List Text → Type 0
Before u w [] = ⊥
Before u w (x ∷ xs) = ((u ≡ x) × In w xs) ⊎ Before u w xs

Emits-Before :
    {g : StopGraph} {remaining order : List Text}
    → Emits g remaining order
    → (u w : Text) → In u remaining
    → In w remaining
    → Edge g u w
    → Before u w order
Emits-Before done u w i j e = absurd i
Emits-Before {g} (next {s} {remaining} {rest} {order} r z emits) u w i j e =
    elim ((Removes-In r w).0 j) [
      | inl q ↦ absurd (omega (arith, z, edges_into-Edge g u s remaining i (subst (Edge g u) q e)))
      | inr j' ↦ elim ((Removes-In r u).0 i) [
        | inl q ↦ inl (q, (Emits-In emits w).1 j')
        | inr i' ↦ inr (Emits-Before emits u w i' j' e)
      ]
    ]

-- an order of all stops of a graph along its edges
pub record IsTravelOrder (g : StopGraph) (order : List Text) : Type 0 where
  pub each : (s : Text) → In s order ↔ In s g.nodes
  pub once : AreDistinct order
  pub along_edges : (u w : Text) → Edge g u w → Before u w order

pub topological_sort-IsTravelOrder :
    {N L : Type 0} (metric : Metric N L) (coordinates : Map Text L) (g : StopGraph)
    → IsStopGraph g
    → (order : List Text) × (topological_sort metric coordinates g ≡ some order)
      × IsTravelOrder g order
unfolding topological_sort lookup
topological_sort-IsTravelOrder metric coordinates g wf =
    let (order, e, emits) =
      emit-Emits metric (downstream_of metric coordinates g g.nodes []) g wf.acyclic
        (length g.nodes) g.nodes (inbound_of g g.nodes []) (omega arith)
        (λ w. omega (arith, get_or-inbound_of g w g.nodes [])) in
    (
      order,
      e,
      record {
        each = Emits-In emits;
        once = Emits-AreDistinct emits wf.distinct;
        along_edges = λ u w d. Emits-Before emits u w (start u w d) (wf.closed u w d) d;
      },
    )
  where
    start : (u w : Text) → Edge g u w → In u g.nodes
    start u w d =
        contains_text-In u g.nodes (wf.keyed u ∙ known (Option-cases (lookup u g.outbound)) d)
      where
        known :
            (lookup u g.outbound ≡ none) ⊎ ((ws : List Text) × (lookup u g.outbound ≡ some ws))
            → Edge g u w
            → is_some (lookup u g.outbound) ≡ true
        known (inl n) d = absurd (rw (n, get_or) at d)
        known (inr (ws, n)) d = rw n refl
