-- ===== src/StopOrder/Stops.antt =====
-- The stops of the graph are those of the sequences: a sequence is left out only if the same one was
-- added before, as the key made of its stops tells sequences apart.
use maglev.Prelude.{
  true, Option, none, some, List, [], ◌∷◌, ◌++◌, Text, text_eq, contains_text, lookup, is_some, In,
  In-append, ◌≡◌, ◌≢◌, ◌⊎◌, ◌↔◌, refl, sym, subst, arith, Bool-cases, inl, inr,
}
use maglev.StopOrder.{
  StopGraph, targets, add_node, add_edge, link, link_to, add_sequence, join, add_sequences,
  stops_graph,
}
use maglev.StopOrder.Paths.{contains_text-cons}
use maglev.StopOrder.Acyclic.{IsStopGraph, Grown, add_sequence-Grown, no_stops}

-- a stop ID that is not empty and has no byte 0
abbrev pub IsStopId : Text → Type 0
IsStopId s = (s ≢ []) × (In 0 s → ⊥)

abbrev pub AreStopIds : List Text → Type 0
AreStopIds [] = Unit {0}
AreStopIds (s ∷ ss) = IsStopId s × AreStopIds ss

split_unique :
    (s s' x x' : Text)
    → (In 0 s → ⊥)
    → (In 0 s' → ⊥)
    → s ++ (0 ∷ x) ≡ s' ++ (0 ∷ x')
    → (s ≡ s') × (x ≡ x')
split_unique [] [] x x' n n' e = (refl, cc)
split_unique [] (d ∷ s') x x' n n' e = absurd (n' (inl cc))
split_unique (c ∷ s) [] x x' n n' e = absurd (n (inl cc))
split_unique (c ∷ s) (d ∷ s') x x' n n' e =
    let r = split_unique s s' x x' (λ i. n (inr i)) (λ i. n' (inr i)) cc in (cc, r.1)

unsplit : (s s' x : Text) → (In 0 s' → ⊥) → s ++ (0 ∷ x) ≢ s'
unsplit [] [] x n e = cc
unsplit [] (d ∷ s') x n e = n (inl cc)
unsplit (c ∷ s) [] x n e = cc
unsplit (c ∷ s) (d ∷ s') x n e = unsplit s s' x (λ i. n (inr i)) cc

-- equal keys come from equal sequences
join_injective : (q q' : List Text) → AreStopIds q → AreStopIds q' → join q ≡ join q' → q ≡ q'
unfolding join
join_injective [] [] a b e = refl
join_injective [] (s ∷ []) a b e = absurd (b.0.0 (sym e))
join_injective [] ([] ∷ t ∷ ss) a b e = absurd (b.0.0 refl)
join_injective [] ((c ∷ s) ∷ t ∷ ss) a b e = cc
join_injective (s ∷ []) [] a b e = absurd (a.0.0 e)
join_injective ([] ∷ t ∷ ss) [] a b e = absurd (a.0.0 refl)
join_injective ((c ∷ s) ∷ t ∷ ss) [] a b e = cc
join_injective (s ∷ []) (s' ∷ []) a b e = cc
join_injective (s ∷ []) (s' ∷ t ∷ ss) a b e = absurd (unsplit s' s (join (t ∷ ss)) a.0.1 (sym e))
join_injective (s' ∷ t ∷ ss) (s ∷ []) a b e = absurd (unsplit s' s (join (t ∷ ss)) b.0.1 e)
join_injective (s ∷ t ∷ ss) (s' ∷ t' ∷ ss') a b e =
    let r = split_unique s s' (join (t ∷ ss)) (join (t' ∷ ss')) a.0.1 b.0.1 e in
    let rest = join_injective (t ∷ ss) (t' ∷ ss') a.1 b.1 r.1 in cc

-- nothing but the stops of a sequence is added
nodes-link : (p s : Text) (g : StopGraph) → (link p s g).nodes ≡ g.nodes
unfolding link add_edge
nodes-link p s g = elim (Bool-cases (contains_text s (targets g p))) [
  | inl c ↦ rw c refl
  | inr c ↦ rw c (ground (arith))
]

nodes-link_to : (prev : Option Text) (s : Text) (g : StopGraph) → (link_to prev s g).nodes ≡ g.nodes
unfolding link_to
nodes-link_to none s g = refl
nodes-link_to (some p) s g = nodes-link p s g

add_node-In : (t s : Text) (g : StopGraph) → In t (add_node s g).nodes → In t g.nodes ⊎ (t ≡ s)
unfolding add_node
add_node-In t s g i = elim (Bool-cases (is_some (lookup s g.outbound))) [
  | inl e ↦ inl (rw e at i)
  | inr e ↦ elim (In-append t g.nodes (s ∷ []) (rw e at i)) [
    | inl k ↦ inl k
    | inr k ↦ elim k [ inl q ↦ inr q | inr z ↦ absurd z ]
  ]
]

add_sequence-In :
    (t : Text) (prev : Option Text) (ss : List Text) (g : StopGraph)
    → In t (add_sequence prev ss g).nodes
    → In t g.nodes ⊎ In t ss
unfolding add_sequence
add_sequence-In t prev [] g i = inl i
add_sequence-In t prev (s ∷ ss) g i =
    elim (add_sequence-In t (some s) ss (link_to prev s (add_node s g)) i) [
      | inl k ↦ elim (add_node-In t s g (subst (In t) (nodes-link_to prev s (add_node s g)) k)) [
        | inl old ↦ inl old
        | inr q ↦ inr (inl q)
      ]
      | inr l ↦ inr (inr l)
    ]

abbrev pub InSome : Text → List (List Text) → Type 0
InSome t [] = ⊥
InSome t (q ∷ rest) = In t q ⊎ InSome t rest

abbrev pub AllStopIds : List (List Text) → Type 0
AllStopIds [] = Unit {0}
AllStopIds (q ∷ rest) = AreStopIds q × AllStopIds rest

-- the stops of the sequences whose keys were seen are in the graph
abbrev Covers : StopGraph → List Text → Type 0
Covers g seen =
    (q : List Text)
    → AreStopIds q
    → contains_text (join q) seen ≡ true
    → (t : Text) → In t q
    → In t g.nodes

abbrev Keeps : StopGraph → StopGraph → List (List Text) → Type 0
Keeps a b qs =
    ((t : Text) → In t a.nodes → In t b.nodes) × ((t : Text) → InSome t qs → In t b.nodes)

In-InSome-nodes :
    (sequences : List (List Text)) (seen : List Text) (g : StopGraph)
    → IsStopGraph g
    → AllStopIds sequences
    → Covers g seen
    → Keeps g (add_sequences sequences seen g) sequences
unfolding add_sequences
In-InSome-nodes [] seen g wf ids covers = (λ t i. i, λ t i. absurd i)
In-InSome-nodes (q ∷ rest) seen g wf ids covers = elim (Bool-cases (contains_text (join q) seen)) [
  | inl e ↦
      rw e (skipped (add_sequences rest seen g) e (In-InSome-nodes rest seen g wf ids.1 covers))
  | inr e ↦ rw e (
      added (add_sequences rest (join q ∷ seen) h)
        (In-InSome-nodes rest (join q ∷ seen) h grown.0.wf ids.1 covers'))
]
  where
    h : StopGraph
    h = add_sequence none q g

    grown : Grown g h × ((t : Text) → In t q → In t h.nodes)
    grown = add_sequence-Grown none q g wf tt

    skipped :
        (b : StopGraph) → contains_text (join q) seen ≡ true → Keeps g b rest → Keeps g b (q ∷ rest)
    skipped b e ih =
        (ih.0, λ t i. elim i [ inl k ↦ ih.0 t (covers q ids.0 e t k) | inr l ↦ ih.1 t l ])

    added : (b : StopGraph) → Keeps h b rest → Keeps g b (q ∷ rest)
    added b ih = (
      λ t i. ih.0 t (grown.0.kept t i),
      λ t i. elim i [ inl k ↦ ih.0 t (grown.1 t k) | inr l ↦ ih.1 t l ],
    )

    covers' : Covers h (join q ∷ seen)
    covers' q' ids' m t i = elim (contains_text-cons (join q') (join q) seen m) [
      | inl e ↦ grown.1 t (subst (In t) (sym (join_injective q q' ids.0 ids' e)) i)
      | inr k ↦ grown.0.kept t (covers q' ids' k t i)
    ]

nodes-In-InSome :
    (t : Text) (sequences : List (List Text)) (seen : List Text) (g : StopGraph)
    → In t (add_sequences sequences seen g).nodes
    → In t g.nodes ⊎ InSome t sequences
unfolding add_sequences
nodes-In-InSome t [] seen g i = inl i
nodes-In-InSome t (q ∷ rest) seen g i = elim (Bool-cases (contains_text (join q) seen)) [
  | inl e ↦ elim (nodes-In-InSome t rest seen g (rw e at i)) [ inl k ↦ inl k | inr l ↦ inr (inr l) ]
  | inr e ↦ elim (nodes-In-InSome t rest (join q ∷ seen) (add_sequence none q g) (rw e at i)) [
    | inl k ↦ elim (add_sequence-In t none q g k) [ inl old ↦ inl old | inr new ↦ inr (inl new) ]
    | inr l ↦ inr (inr l)
  ]
]

pub stops_graph-In :
    (t : Text) (sequences : List (List Text))
    → AllStopIds sequences
    → In t (stops_graph sequences).nodes ↔ InSome t sequences
unfolding stops_graph
stops_graph-In t sequences ids = (
  λ i. elim (nodes-In-InSome t sequences [] _ i) [ inl k ↦ absurd k | inr l ↦ l ],
  λ i.
      (In-InSome-nodes sequences [] (record { nodes = []; outbound = [] }) no_stops ids covers).1 t
        i,
)
  where
    covers : Covers (record { nodes = []; outbound = [] }) []
    covers = unfold contains_text in λ q ids' m t i. absurd (cc m)
