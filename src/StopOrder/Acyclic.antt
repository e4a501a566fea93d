-- ===== src/StopOrder/Acyclic.antt =====
-- The graph of the stop sequences has no cycle: an edge that would close one is left out.
use maglev.Prelude.{
  true, false, Option, none, some, List, [], ◌∷◌, ◌++◌, Text, text_eq, ◌==◌, contains_text, lookup,
  insert, lookup-insert, get_or, is_some, In, In-append, In-append_left, In-append_right,
  In-contains_text, contains_text-In, if◌then◌else◌, ◌≡◌, ◌⊎◌, refl, sym, ap, ◌∙◌, subst, arith,
  Bool-cases, Option-cases, inl, inr,
}
use maglev.StopOrder.{
  StopGraph, targets, add_node, add_edge, Search, found, not_found, out_of_fuel, link, link_to,
  add_sequence, add_sequences, join, stops_graph,
}
use maglev.StopOrder.Paths.{Edge, Walk, arrived, along, Walk-append, IsAcyclic}
use maglev.StopOrder.Reaching.{IsClosed, Answer, walk, apart, reaches-Answer}

abbrev pub AreDistinct : List Text → Type 0
AreDistinct [] = Unit {0}
AreDistinct (s ∷ ss) = (contains_text s ss ≡ false) × AreDistinct ss

pub record IsStopGraph (g : StopGraph) : Type 0 where
  pub closed : IsClosed g
  pub keyed : (s : Text) → contains_text s g.nodes ≡ is_some (lookup s g.outbound)
  pub distinct : AreDistinct g.nodes
  pub acyclic : IsAcyclic g

-- walks in a graph with fewer edges
Walk-map :
    {g h : StopGraph} {b a : Text}
    → ((u w : Text) → Edge g u w → Edge h u w)
    → Walk g b a
    → Walk h b a
Walk-map f arrived = arrived
Walk-map f (along {u} {w} e p) = along (f u w e) (Walk-map f p)

contains_text-append_one :
    (u s : Text) (ns : List Text)
    → contains_text u (ns ++ (s ∷ [])) ≡ (if s == u then true else contains_text u ns)
unfolding contains_text
contains_text-append_one u s [] = ground arith
contains_text-append_one u s (n ∷ ns) = ground (arith, contains_text-append_one u s ns)

AreDistinct-append_one :
    (s : Text) (ns : List Text)
    → AreDistinct ns
    → contains_text s ns ≡ false
    → AreDistinct (ns ++ (s ∷ []))
unfolding contains_text
AreDistinct-append_one s [] d n = (refl, tt)
AreDistinct-append_one s (m ∷ ns) d n = (
  ground (arith, contains_text-append_one m s ns, text_eq.beq_iff s m, text_eq.beq_iff m s, d.0),
  AreDistinct-append_one s ns d.1 (ground arith),
)

module _ (s : Text) (g : StopGraph) (wf : IsStopGraph g) where
  -- a new node has no edges
  targets-new :
      lookup s g.outbound ≡ none → (u : Text) → get_or [] u (insert s [] g.outbound) ≡ targets g u
  targets-new n u =
      ground (arith, lookup-insert {V = List Text} s u [] g.outbound, text_eq.beq_iff s u)

  abbrev new_graph : StopGraph
  new_graph = record { nodes = g.nodes ++ (s ∷ []); outbound = insert s [] g.outbound }

  with_node : lookup s g.outbound ≡ none → IsStopGraph new_graph
  with_node n = record {
    closed = λ u w e. In-append_left w g.nodes (s ∷ []) (wf.closed u w (old u w e));
    keyed = λ u. ground (
      arith,
      contains_text-append_one u s g.nodes,
      lookup-insert {V = List Text} s u [] g.outbound,
      wf.keyed u,
    );
    distinct = AreDistinct-append_one s g.nodes wf.distinct (wf.keyed s ∙ (rw n refl));
    acyclic = λ u w e p. wf.acyclic u w (old u w e) (Walk-map old p);
  }
    where
      old : (u w : Text) → Edge new_graph u w → Edge g u w
      old u w e = subst (In w) (targets-new n u) e

  add_node-IsStopGraph :
      IsStopGraph (add_node s g)
      × In s (add_node s g).nodes
      × ((t : Text) → In t g.nodes → In t (add_node s g).nodes)
  unfolding add_node
  add_node-IsStopGraph = elim (Option-cases (lookup s g.outbound)) [
    | inr (v, e) ↦
        rw (e, is_some) (wf, contains_text-In s g.nodes (wf.keyed s ∙ (rw e refl)), λ t i. i)
    | inl e ↦
        rw (e, is_some)
          (
            with_node e,
            In-append_right s g.nodes (s ∷ []) (inl refl),
            λ t i. In-append_left t g.nodes (s ∷ []) i,
          )
  ]

module _ (from to : Text) (g : StopGraph) (wf : IsStopGraph g) where
  nodes-add_edge : (add_edge from to g).nodes ≡ g.nodes
  unfolding add_edge
  nodes-add_edge = ground arith

  targets-add_edge :
      (u : Text)
      → (targets (add_edge from to g) u ≡ targets g u)
        ⊎ ((u ≡ from) × (targets (add_edge from to g) u ≡ targets g from ++ (to ∷ [])))
  unfolding add_edge
  targets-add_edge u = ground (
    arith,
    lookup-insert {V = List Text} from u (targets g from ++ (to ∷ [])) g.outbound,
    text_eq.beq_iff from u,
  )

  Edge-add_edge :
      (u w : Text) → Edge (add_edge from to g) u w → Edge g u w ⊎ ((u ≡ from) × (w ≡ to))
  Edge-add_edge u w e = elim (targets-add_edge u) [
    | inl same ↦ inl (subst (In w) same e)
    | inr (a, more) ↦ elim (In-append w (targets g from) (to ∷ []) (subst (In w) more e)) [
      | inl old ↦ inl (subst (λ (t : Text). Edge g t w) (sym a) old)
      | inr new ↦ inr (a, elim new [ inl b ↦ b | inr i ↦ absurd i ])
    ]
  ]

  -- a walk after the edge is added is one from before, or it takes the edge
  Walk-add_edge :
      {b a : Text} → Walk (add_edge from to g) b a → Walk g b a ⊎ (Walk g from a × Walk g b to)
  Walk-add_edge arrived = inl arrived
  Walk-add_edge {b} (along {u} {w} e p) = extend (Edge-add_edge u w e) (Walk-add_edge p)
    where
      extend :
          Edge g u w ⊎ ((u ≡ from) × (w ≡ to))
          → Walk g b w ⊎ (Walk g from w × Walk g b to)
          → Walk g b u ⊎ (Walk g from u × Walk g b to)
      extend (inl old) (inl q) = inl (along old q)
      extend (inl old) (inr (x, y)) = inr (along old x, y)
      extend (inr (a, b')) (inl q) = inr (rw a arrived, subst (Walk g b) b' q)
      extend (inr (a, b')) (inr (x, y)) = inr (rw a arrived, y)

  add_edge-IsStopGraph :
      In from g.nodes → In to g.nodes → (Walk g from to → ⊥) → IsStopGraph (add_edge from to g)
  add_edge-IsStopGraph i j n = record {
    closed = λ u w e. subst (In w) (sym nodes-add_edge) (ends (Edge-add_edge u w e));
    keyed = λ t. ap (contains_text t) nodes-add_edge ∙ wf.keyed t ∙ sym (same_keys t);
    distinct = subst AreDistinct (sym nodes-add_edge) wf.distinct;
    acyclic = λ u w e p. cycle (Edge-add_edge u w e) (Walk-add_edge p);
  }
    where
      ends : {u w : Text} → Edge g u w ⊎ ((u ≡ from) × (w ≡ to)) → In w g.nodes
      ends {u} {w} (inl old) = wf.closed u w old
      ends (inr (a, b)) = subst (λ (t : Text). In t g.nodes) (sym b) j

      same_keys :
          (t : Text)
          → is_some (lookup t (add_edge from to g).outbound) ≡ is_some (lookup t g.outbound)
      same_keys t =
          unfold add_edge in
          ground (
            arith,
            lookup-insert {V = List Text} from t (targets g from ++ (to ∷ [])) g.outbound,
            text_eq.beq_iff from t,
            wf.keyed from,
            In-contains_text from g.nodes i,
          )

      cycle :
          {u w : Text}
          → Edge g u w ⊎ ((u ≡ from) × (w ≡ to))
          → Walk g u w ⊎ (Walk g from w × Walk g u to)
          → ⊥
      cycle {u} {w} (inl old) (inl q) = wf.acyclic u w old q
      cycle (inl old) (inr (x, y)) = n (Walk-append y (along old x))
      cycle {u} {w} (inr (a, b)) (inl q) =
          n (subst (λ (t : Text). Walk g from t) b (subst (λ (t : Text). Walk g t w) a q))
      cycle {u} {w} (inr (a, b)) (inr (x, y)) = n (subst (λ (t : Text). Walk g t to) a y)

-- what the steps of the inner loop keep
pub record Grown (g h : StopGraph) : Type 0 where
  pub wf : IsStopGraph h
  pub kept : (t : Text) → In t g.nodes → In t h.nodes

module _ (prev s : Text) (g : StopGraph) (wf : IsStopGraph g) (i : In prev g.nodes)
    (j : In s g.nodes) where
  Answer-Grown :
      {r : Search}
      → Answer g prev s r
      → Grown g (elim r [ found ↦ g | not_found visited ↦ add_edge prev s g | out_of_fuel ↦ g ])
  Answer-Grown (walk p) = record { wf = wf; kept = λ t k. k }
  Answer-Grown (apart v n) = record {
    wf = add_edge-IsStopGraph prev s g wf i j n;
    kept = λ t k. subst (In t) (sym (nodes-add_edge prev s g wf)) k;
  }

  link-Grown : Grown g (link prev s g)
  unfolding link
  link-Grown = elim (Bool-cases (contains_text s (targets g prev))) [
    | inl c ↦ rw c (record { wf = wf; kept = λ t k. k })
    | inr c ↦ rw c (Answer-Grown (reaches-Answer g prev s wf.closed j))
  ]

abbrev HasPrev : Option Text → StopGraph → Type 0
HasPrev none g = Unit {0}
HasPrev (some p) g = In p g.nodes

link_to-Grown :
    (prev : Option Text) (s : Text) (g : StopGraph)
    → IsStopGraph g
    → HasPrev prev g
    → In s g.nodes
    → Grown g (link_to prev s g)
unfolding link_to
link_to-Grown none s g wf i j = record { wf = wf; kept = λ t k. k }
link_to-Grown (some p) s g wf i j = link-Grown p s g wf i j

HasPrev-add_node :
    (prev : Option Text) (s : Text) (g : StopGraph)
    → IsStopGraph g
    → HasPrev prev g
    → HasPrev prev (add_node s g)
HasPrev-add_node none s g wf i = tt
HasPrev-add_node (some p) s g wf i = (add_node-IsStopGraph s g wf).2 p i

pub add_sequence-Grown :
    (prev : Option Text) (ss : List Text) (g : StopGraph)
    → IsStopGraph g
    → HasPrev prev g
    → Grown g (add_sequence prev ss g)
      × ((t : Text) → In t ss → In t (add_sequence prev ss g).nodes)
unfolding add_sequence
add_sequence-Grown prev [] g wf i = (record { wf = wf; kept = λ t k. k }, λ t k. absurd k)
add_sequence-Grown prev (s ∷ ss) g wf i =
    let node = add_node-IsStopGraph s g wf in
    let linked =
      link_to-Grown prev s (add_node s g) node.0 (HasPrev-add_node prev s g wf i) node.1 in
    let rest =
      add_sequence-Grown (some s) ss (link_to prev s (add_node s g)) linked.wf
        (linked.kept s node.1) in
    (
      record { wf = rest.0.wf; kept = λ t k. rest.0.kept t (linked.kept t (node.2 t k)) },
      λ t k. elim k [
        | inl e ↦
            subst
              (λ (x : Text). In x (add_sequence (some s) ss (link_to prev s (add_node s g))).nodes)
              (sym e) (rest.0.kept s (linked.kept s node.1))
        | inr l ↦ rest.1 t l
      ],
    )

add_sequences-IsStopGraph :
    (sequences : List (List Text)) (seen : List Text) (g : StopGraph)
    → IsStopGraph g
    → IsStopGraph (add_sequences sequences seen g)
unfolding add_sequences
add_sequences-IsStopGraph [] seen g wf = wf
add_sequences-IsStopGraph (q ∷ rest) seen g wf = elim (Bool-cases (contains_text (join q) seen)) [
  | inl e ↦ rw e (add_sequences-IsStopGraph rest seen g wf)
  | inr e ↦ rw e (
      add_sequences-IsStopGraph rest (join q ∷ seen) (add_sequence none q g)
        (add_sequence-Grown none q g wf tt).0.wf)
]

pub no_stops : IsStopGraph (record { nodes = []; outbound = [] })
unfolding lookup contains_text
no_stops = record {
  closed = λ u w e. absurd e;
  keyed = λ s. refl;
  distinct = tt;
  acyclic = λ u w e p. absurd e;
}

pub stops_graph-IsStopGraph : (sequences : List (List Text)) → IsStopGraph (stops_graph sequences)
unfolding stops_graph
stops_graph-IsStopGraph sequences = add_sequences-IsStopGraph sequences [] _ no_stops
