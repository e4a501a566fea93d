-- ===== src/StopOrder/Distances.antt =====
-- The downstream distances that the sort fills in, against the equation that defines them.
use maglev.Prelude.{
  ℕ, zero, suc, ◌<◌, true, false, some, List, [], ◌∷◌, Text, text_eq, ◌==◌, contains_text, Map,
  lookup, insert, lookup-insert, get_or, In, ◌≡◌, ◌⊎◌, refl, sym, ap, ◌∙◌, subst, arith, Bool-cases,
  Option-cases, inl, inr,
}
use maglev.StopOrder.{
  StopGraph, targets, Metric, edge_length, longest, downstream_distance, downstream_of, fuel_of,
  stops_graph,
}
use maglev.StopOrder.Paths.{
  Edge, Walk, arrived, along_at_end, unvisited, unvisited-visit, unvisited_none, contains_text-cons,
}
use maglev.StopOrder.Acyclic.{IsStopGraph, stops_graph-IsStopGraph}

module _ {N L : Type 0} (metric : Metric N L) (coordinates : Map Text L) where
  -- the largest of a number and, for each edge to one of the stops, its length and the distance from there
  abbrev pub best_over : Map Text N → Text → List Text → N → N
  best_over memo s [] best = best
  best_over memo s (t ∷ ts) best = best_over memo s ts (
      metric.larger best
        (metric.add (edge_length metric coordinates s t) (get_or metric.zero_length t memo)))

  abbrev Knows : Map Text N → List Text → Type 0
  Knows memo ts = (w : Text) → In w ts → (d : N) × (lookup w memo ≡ some d)

  abbrev Extends : Map Text N → Map Text N → Type 0
  Extends m m' = (u : Text) (d : N) → lookup u m ≡ some d → lookup u m' ≡ some d

  best_over-Extends :
      (m m' : Map Text N) (s : Text) (ts : List Text) (best : N)
      → Extends m m'
      → Knows m ts
      → best_over m s ts best ≡ best_over m' s ts best
  best_over-Extends m m' s [] best x k = refl
  best_over-Extends m m' s (t ∷ ts) best x k =
      let (d, e) = k t (inl refl) in
      let same : get_or metric.zero_length t m ≡ get_or metric.zero_length t m' =
        rw (e, get_or) (rw (x t d e, get_or) refl) in
      ap
        (λ (y : N).
          best_over m s ts (metric.larger best (metric.add (edge_length metric coordinates s t) y)))
        same
      ∙ best_over-Extends m m' s ts _ x (λ w i. k w (inr i))

  module _ (g : StopGraph) where
    -- a memo that holds with a stop those that follow it, and whose numbers satisfy the equation
    abbrev Solves : Map Text N → Type 0
    Solves m =
        (u : Text) (d : N)
        → lookup u m ≡ some d
        → (d ≡ best_over m u (targets g u) metric.zero_length) × Knows m (targets g u)

    record Fills (s : Text) (m : Map Text N) (r : Map Text N × N) : Type 0 where
      solves : Solves r.0
      extends : Extends m r.0
      held : lookup s r.0 ≡ some r.1

    record Walks (s : Text) (ts : List Text) (best : N) (m : Map Text N) (r : Map Text N × N)
        : Type 0 where
      solves : Solves r.0
      extends : Extends m r.0
      known : Knows r.0 ts
      value : r.1 ≡ best_over r.0 s ts best

    longest-Walks :
        (from_next : Text → Map Text N → Map Text N × N) (s : Text) (ts : List Text) (best : N)
        (m : Map Text N)
        → ((t : Text) (m' : Map Text N) → In t ts → Solves m' → Fills t m' (from_next t m'))
        → Solves m
        → Walks s ts best m (longest metric coordinates from_next s ts best m)
    unfolding longest
    longest-Walks from_next s [] best m fills v = record {
      solves = v;
      extends = λ u d e. e;
      known = λ w i. absurd i;
      value = refl;
    }
    longest-Walks from_next s (t ∷ ts) best m fills v =
        let below = fills t m (inl refl) v in
        let rest =
          longest-Walks from_next s ts
            (metric.larger best (metric.add (edge_length metric coordinates s t) (from_next t m).1))
            (from_next t m).0 (λ t' m' i. fills t' m' (inr i)) below.solves in
        let first = rest.extends t _ below.held in
        record {
          solves = rest.solves;
          extends = λ u d e. rest.extends u d (below.extends u d e);
          known =
              λ w i. elim i [ inl q ↦ rw q ((from_next t m).1, first) | inr j ↦ rest.known w j ];
          value = rw (first, get_or) rest.value;
        }

    insert-Fills :
        (s : Text) (v : N) (m : Map Text N)
        → Solves m
        → Knows m (targets g s)
        → v ≡ best_over m s (targets g s) metric.zero_length
        → Fills s m (insert s v m, v)
    insert-Fills s v m sol known e = record {
      solves = λ u d f. solved u d f (Bool-cases (s == u));
      extends = ext;
      held = ground (arith, lookup-insert {V = N} s s v m, text_eq.beq_iff s s);
    }
      where
        ext : Extends m (insert s v m)
        ext u d f = elim (Bool-cases (s == u)) [
          | inl q ↦
              lookup-insert {V = N} s u v m
              ∙ rw q (
                  ap some (
                    e
                    ∙ subst (λ (x : Text). best_over m x (targets g x) metric.zero_length ≡ d)
                        (sym ((text_eq.beq_iff s u).0 q)) (sym (sol u d f).0)))
          | inr q ↦ lookup-insert {V = N} s u v m ∙ rw q f
        ]

        here :
            (d : N)
            → d ≡ v
            → (d ≡ best_over (insert s v m) s (targets g s) metric.zero_length)
              × Knows (insert s v m) (targets g s)
        here d q = (
          q ∙ e ∙ best_over-Extends m (insert s v m) s (targets g s) metric.zero_length ext known,
          λ w i. let (d', k) = known w i in (d', ext w d' k),
        )

        solved :
            (u : Text) (d : N)
            → lookup u (insert s v m) ≡ some d
            → ((s == u) ≡ true) ⊎ ((s == u) ≡ false)
            → (d ≡ best_over (insert s v m) u (targets g u) metric.zero_length)
              × Knows (insert s v m) (targets g u)
        solved u d f (inl q) =
            subst
              (λ (x : Text).
                (d ≡ best_over (insert s v m) x (targets g x) metric.zero_length)
                × Knows (insert s v m) (targets g x))
              ((text_eq.beq_iff s u).0 q)
              (here d (ground (arith, f, lookup-insert {V = N} s u v m, q)))
        solved u d f (inr q) =
            let old : lookup u m ≡ some d = ground (arith, f, lookup-insert {V = N} s u v m, q) in
            let (a, k) = sol u d old in
            (
              a ∙ best_over-Extends m (insert s v m) u (targets g u) metric.zero_length ext k,
              λ w i. let (d', j) = k w i in (d', ext w d' j),
            )

    module _ (wf : IsStopGraph g) where
      -- the stops passed lead to this one, so no edge leads back to them
      downstream_distance-Fills :
          (fuel : ℕ) (s : Text) (m : Map Text N) (passed : List Text)
          → In s g.nodes
          → contains_text s passed ≡ false
          → ((x : Text) → contains_text x passed ≡ true → Walk g s x)
          → unvisited g.nodes passed < fuel
          → Solves m
          → Fills s m (downstream_distance metric coordinates fuel g s m)
      unfolding downstream_distance
      downstream_distance-Fills zero s m passed i n behind h v = absurd (omega arith)
      downstream_distance-Fills (suc fuel) s m passed i n behind h v =
          elim (Option-cases (lookup s m)) [
            | inr (d, e) ↦
                rw (e, downstream_distance) (record { solves = v; extends = λ u c f. f; held = e })
            | inl e ↦
                rw (e, downstream_distance)
                  (stored (
                    longest-Walks (downstream_distance metric coordinates fuel g) s (targets g s)
                      metric.zero_length m
                      (λ t m' j v'.
                        downstream_distance-Fills fuel t m' (s ∷ passed) (wf.closed s t j) (new t j)
                          (after t j) (omega (arith, h, unvisited-visit g.nodes passed s i n)) v')
                      v))
          ]
        where
          after :
              (t : Text)
              → Edge g s t
              → (x : Text) → contains_text x (s ∷ passed) ≡ true
              → Walk g t x
          after t j x k = elim (contains_text-cons x s passed k) [
            | inl q ↦ subst (λ (y : Text). Walk g t y) q (along_at_end arrived j)
            | inr l ↦ along_at_end (behind x l) j
          ]

          new : (t : Text) → Edge g s t → contains_text t (s ∷ passed) ≡ false
          new t j = elim (Bool-cases (contains_text t (s ∷ passed))) [
            | inr k ↦ k
            | inl k ↦ absurd (elim (contains_text-cons t s passed k) [
              | inl q ↦ wf.acyclic s t j (subst (Walk g s) q arrived)
              | inr l ↦ wf.acyclic s t j (behind t l)
            ])
          ]

          stored :
              {r : Map Text N × N}
              → Walks s (targets g s) metric.zero_length m r
              → Fills s m (insert s r.1 r.0, r.1)
          stored {r} w =
              let f = insert-Fills s r.1 r.0 w.solves w.known w.value in
              record {
                solves = f.solves;
                extends = λ u d q. f.extends u d (w.extends u d q);
                held = f.held;
              }

      downstream_of-Solves :
          (ss : List Text) (m : Map Text N)
          → ((s : Text) → In s ss → In s g.nodes)
          → Solves m
          → Solves (downstream_of metric coordinates g ss m)
            × Extends m (downstream_of metric coordinates g ss m)
            × Knows (downstream_of metric coordinates g ss m) ss
      unfolding downstream_of contains_text
      downstream_of-Solves [] m inside v = (v, λ u d e. e, λ w i. absurd i)
      downstream_of-Solves (s ∷ ss) m inside v =
          let f =
            downstream_distance-Fills (fuel_of g) s m [] (inside s (inl refl)) refl
              (λ x k. absurd (cc k)) (omega (arith, unvisited_none g.nodes)) v in
          let (a, x, k) =
            downstream_of-Solves ss (downstream_distance metric coordinates (fuel_of g) g s m).0
              (λ t i. inside t (inr i)) f.solves in
          (
            a,
            λ u d e. x u d (f.extends u d e),
            λ w i. elim i [
              | inl q ↦
                  rw q ((downstream_distance metric coordinates (fuel_of g) g s m).1, x s _ f.held)
              | inr j ↦ k w j
            ],
          )

  -- In the graph of any stop sequences, the memo that the sort fills holds for each stop of the graph a
  -- distance that is the largest of 0 and, for each edge from the stop, the length of the edge plus the
  -- distance that the memo holds for its end: the memoised recursion ends and leaves out no edge.
  pub downstream_of_lem :
      (sequences : List (List Text))
      → let g = stops_graph sequences in
        let memo = downstream_of metric coordinates g g.nodes [] in
        (s : Text)
        → In s g.nodes
        → lookup s memo ≡ some (best_over memo s (targets g s) metric.zero_length)
  unfolding lookup
  downstream_of_lem sequences s i =
      let g = stops_graph sequences in
      let (a, x, k) =
        downstream_of-Solves g (stops_graph-IsStopGraph sequences) g.nodes [] (λ t j. j)
          (λ u d e. absurd (cc e)) in
      let (d, e) = k s i in e ∙ ap some (a s d e).0
