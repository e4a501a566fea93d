-- ===== src/StopOrder/Sources.antt =====
-- The counts of inbound edges of the sort, and why some remaining stop has none.
use maglev.Prelude.{
  ℕ, zero, suc, ◌+◌, ◌-◌, ◌<◌, true, List, [], ◌∷◌, Text, text_eq, ◌==◌, contains_text, Map, insert,
  lookup-insert, get_or, In, if◌then◌else◌, ◌≡◌, ◌⊎◌, refl, subst, arith, Bool-cases, inl, inr,
}
use maglev.StopOrder.{StopGraph, targets, count_up, count_down, inbound_of}
use maglev.StopOrder.Paths.{
  Edge, Walk, arrived, along, IsAcyclic, unvisited, unvisited-visit, contains_text-cons,
}

abbrev pub occurrences : Text → List Text → ℕ
occurrences w [] = 0
occurrences w (t ∷ ts) = if t == w then suc (occurrences w ts) else occurrences w ts

-- how many edges lead from the stops of a list to a stop
abbrev pub edges_into : StopGraph → Text → List Text → ℕ
edges_into g w [] = 0
edges_into g w (s ∷ ss) = occurrences w (targets g s) + edges_into g w ss

get_or-count_up :
    (w : Text) (tos : List Text) (m : Map Text ℕ)
    → get_or 0 w (count_up tos m) ≡ occurrences w tos + get_or 0 w m
unfolding count_up
get_or-count_up w [] m = omega arith
get_or-count_up w (t ∷ tos) m = ground (
  arith,
  get_or-count_up w tos (insert t (get_or 0 t m + 1) m),
  lookup-insert {V = ℕ} t w (get_or 0 t m + 1) m,
  text_eq.beq_iff t w,
)

pub get_or-count_down :
    (w : Text) (tos : List Text) (m : Map Text ℕ)
    → get_or 0 w (count_down tos m) ≡ get_or 0 w m - occurrences w tos
unfolding count_down
get_or-count_down w [] m = omega arith
get_or-count_down w (t ∷ tos) m = ground (
  arith,
  get_or-count_down w tos (insert t (get_or 0 t m - 1) m),
  lookup-insert {V = ℕ} t w (get_or 0 t m - 1) m,
  text_eq.beq_iff t w,
)

pub get_or-inbound_of :
    (g : StopGraph) (w : Text) (ss : List Text) (m : Map Text ℕ)
    → get_or 0 w (inbound_of g ss m) ≡ edges_into g w ss + get_or 0 w m
unfolding inbound_of
get_or-inbound_of g w [] m = omega arith
get_or-inbound_of g w (s ∷ ss) m =
    omega (
      arith,
      get_or-inbound_of g w ss (count_up (targets g s) m),
      get_or-count_up w (targets g s) m,
    )

occurrences-In : (w : Text) (ts : List Text) → 0 < occurrences w ts → In w ts
occurrences-In w [] h = absurd (omega arith)
occurrences-In w (t ∷ ts) h = ground (arith, occurrences-In w ts, text_eq.beq_iff t w)

In-occurrences : (w : Text) (ts : List Text) → In w ts → 0 < occurrences w ts
In-occurrences w [] i = absurd i
In-occurrences w (t ∷ ts) i = ground (arith, In-occurrences w ts, text_eq.beq_iff t w)

pub edges_into-Edge :
    (g : StopGraph) (u w : Text) (ss : List Text) → In u ss → Edge g u w → 0 < edges_into g w ss
edges_into-Edge g u w [] i e = absurd i
edges_into-Edge g u w (s ∷ ss) (inl q) e =
    omega (arith, In-occurrences w (targets g s) (subst (λ (x : Text). Edge g x w) q e))
edges_into-Edge g u w (s ∷ ss) (inr i) e = omega (arith, edges_into-Edge g u w ss i e)

module _ (g : StopGraph) where
  predecessor :
      (w : Text) (ss : List Text) → 0 < edges_into g w ss → (u : Text) × In u ss × Edge g u w
  predecessor w [] h = absurd (omega arith)
  predecessor w (s ∷ ss) h =
      let r : 0 < occurrences w (targets g s) ⊎ 0 < edges_into g w ss = omega arith in
      elim r [
        | inl a ↦ (s, inl refl, occurrences-In w (targets g s) a)
        | inr a ↦ let (u, i, e) = predecessor w ss a in (u, inr i, e)
      ]

  -- back along edges until a stop has none inbound; the stops passed are ahead, so none comes again
  module _ (acyclic : IsAcyclic g) (remaining : List Text) where
    abbrev Source : Type 0
    Source = (s : Text) × In s remaining × (edges_into g s remaining ≡ 0)

    abbrev Ahead : Text → List Text → Type 0
    Ahead s passed = (x : Text) → contains_text x passed ≡ true → Walk g x s

    Ahead-cons :
        (u s : Text) (passed : List Text) → Edge g u s → Ahead s passed → Ahead u (u ∷ passed)
    Ahead-cons u s passed e ahead x m = elim (contains_text-cons x u passed m) [
      | inl q ↦ subst (λ (y : Text). Walk g y u) q arrived
      | inr k ↦ along e (ahead x k)
    ]

    source_from :
        (fuel : ℕ) (s : Text) (passed : List Text)
        → In s remaining
        → Ahead s passed
        → unvisited remaining passed < fuel
        → Source
    source_from zero s passed i ahead h = absurd (omega arith)
    source_from (suc fuel) s passed i ahead h =
        let r : (edges_into g s remaining ≡ 0) ⊎ (0 < edges_into g s remaining) = omega arith in
        elim r [
          | inl z ↦ (s, i, z)
          | inr p ↦
              let (u, j, e) = predecessor s remaining p in
              elim (Bool-cases (contains_text u passed)) [
                | inl m ↦ absurd (acyclic u s e (ahead u m))
                | inr m ↦
                    source_from fuel u (u ∷ passed) j (Ahead-cons u s passed e ahead)
                      (omega (arith, h, unvisited-visit remaining passed u j m))
              ]
        ]

    pub source_exists : (s : Text) → In s remaining → Source
    unfolding contains_text
    source_exists s i =
        source_from (suc (unvisited remaining [])) s [] i (λ x m. absurd (cc m)) (omega arith)
