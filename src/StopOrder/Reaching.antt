-- ===== src/StopOrder/Reaching.antt =====
-- `reaches` ends, and finds the stop exactly if a walk leads to it.
use maglev.Prelude.{
  ℕ, zero, suc, ◌<◌, true, false, List, [], ◌∷◌, Text, text_eq, ◌==◌, contains_text, In, ◌≡◌, ◌≢◌,
  ◌⊎◌, ◌↔◌, refl, subst, arith, Bool-cases, inl, inr,
}
use maglev.StopOrder.{
  StopGraph, targets, Search, found, not_found, out_of_fuel, search_each, reaches, fuel_of,
}
use maglev.StopOrder.Paths.{
  Edge, Walk, arrived, along, Within, Within-cons, unvisited, unvisited_antitone, unvisited-visit,
  unvisited_none, contains_text-cons, contains_text_self,
}

-- every edge ends in a stop of the graph
abbrev pub IsClosed : StopGraph → Type 0
IsClosed g = (u w : Text) → Edge g u w → In w g.nodes

module _ (g : StopGraph) (to : Text) where
  -- a search that did not find the stop has visited all that follows what it newly visited
  record Explores (v v' : List Text) : Type 0 where
    grows : Within v v'
    explored :
        (u : Text)
        → contains_text u v ≡ false
        → contains_text u v' ≡ true
        → (u ≢ to) × ((w : Text) → Edge g u w → contains_text w v' ≡ true)

  -- the outcomes of a search from one stop, and from each stop of a list
  data SearchOutcome (from : Text) (v : List Text) : Search → Type 0 where
    reached : Walk g to from → SearchOutcome from v found
    explored_all :
        (v' : List Text)
        → Explores v v'
        → contains_text from v' ≡ true
        → SearchOutcome from v (not_found v')

  data EachOutcome (from : List Text) (v : List Text) : Search → Type 0 where
    reached_one : (s : Text) → In s from → Walk g to s → EachOutcome from v found
    explored_each :
        (v' : List Text)
        → Explores v v'
        → ((s : Text) → In s from → contains_text s v' ≡ true)
        → EachOutcome from v (not_found v')

  Explores-refl : (v : List Text) → Explores v v
  Explores-refl v = record { grows = λ u h. h; explored = λ u h k. absurd (cc (h, k)) }

  Explores-trans : {v v' v'' : List Text} → Explores v v' → Explores v' v'' → Explores v v''
  Explores-trans {v} {v'} {v''} a b = record {
    grows = λ u h. b.grows u (a.grows u h);
    explored = λ u h k. elim (Bool-cases (contains_text u v')) [
      | inl m ↦ ((a.explored u h m).0, λ w e. b.grows w ((a.explored u h m).1 w e))
      | inr m ↦ b.explored u m k
    ];
  }

  -- with fuel for every stop that is not visited yet, a search has an outcome
  abbrev Decides : ℕ → (Text → List Text → Search) → Type 0
  Decides fuel search_from =
      (s : Text) (v : List Text)
      → In s g.nodes
      → contains_text s v ≡ false
      → unvisited g.nodes v < fuel
      → SearchOutcome s v (search_from s v)

  -- the outcome for a list from that for its rest, where the first stop needs no search
  skip :
      {s : Text} {ss v : List Text} {r : Search}
      → contains_text s v ≡ true
      → EachOutcome ss v r
      → EachOutcome (s ∷ ss) v r
  skip m (reached_one t i p) = reached_one t (inr i) p
  skip {s} {ss} m (explored_each v' e all) = explored_each v' e each
    where
      each : (t : Text) → In t (s ∷ ss) → contains_text t v' ≡ true
      each t (inl q) = rw q (e.grows s m)
      each t (inr i) = all t i

  -- and where a search from it went before
  after :
      {s : Text} {ss v v' : List Text} {r : Search}
      → Explores v v'
      → contains_text s v' ≡ true
      → EachOutcome ss v' r
      → EachOutcome (s ∷ ss) v r
  after e m (reached_one t i p) = reached_one t (inr i) p
  after {s} {ss} e m (explored_each v'' f all) = explored_each v'' (Explores-trans e f) each
    where
      each : (t : Text) → In t (s ∷ ss) → contains_text t v'' ≡ true
      each t (inl q) = rw q (f.grows s m)
      each t (inr i) = all t i

  module _ (search_from : Text → List Text → Search) where
    continue :
        {s : Text} {ss v : List Text} {r : Search}
        → ((v' : List Text) → Explores v v' → EachOutcome ss v' (search_each search_from ss v'))
        → SearchOutcome s v r
        → EachOutcome (s ∷ ss) v (elim r [
          | found ↦ found
          | not_found visited ↦ search_each search_from ss visited
          | out_of_fuel ↦ out_of_fuel
        ])
    continue {s} rest (reached p) = reached_one s (inl refl) p
    continue rest (explored_all v' e m) = after e m (rest v' e)

    search_each-EachOutcome :
        (fuel : ℕ)
        → Decides fuel search_from
        → (ss v : List Text) → ((s : Text) → In s ss → In s g.nodes)
        → unvisited g.nodes v < fuel
        → EachOutcome ss v (search_each search_from ss v)
    unfolding search_each
    search_each-EachOutcome fuel d [] v inside h =
        explored_each v (Explores-refl v) (λ s i. absurd i)
    search_each-EachOutcome fuel d (s ∷ ss) v inside h = elim (Bool-cases (contains_text s v)) [
      | inl m ↦
          rw (m, search_each)
            (skip m (search_each-EachOutcome fuel d ss v (λ t i. inside t (inr i)) h))
      | inr m ↦
          rw (m, search_each)
            (continue
              (λ v' e.
                search_each-EachOutcome fuel d ss v' (λ t i. inside t (inr i))
                  (omega (arith, h, unvisited_antitone g.nodes v v' e.grows)))
              (d s v (inside s (inl refl)) m h))
    ]

  -- the search from a stop that is not the one looked for, by the search from those after it
  finish :
      {s : Text} {v : List Text} {r : Search}
      → s ≢ to
      → EachOutcome (targets g s) (s ∷ v) r
      → SearchOutcome s v r
  finish n (reached_one t i p) = reached (along i p)
  finish {s} {v} n (explored_each v' e all) =
      explored_all v' whole (e.grows s (contains_text_self s v))
    where
      itself :
          (u : Text)
          → contains_text u v ≡ false
          → (s ≡ u) ⊎ (contains_text u v ≡ true)
          → (u ≢ to) × ((w : Text) → Edge g u w → contains_text w v' ≡ true)
      itself u h (inl q) =
          subst (λ (x : Text). (x ≢ to) × ((w : Text) → Edge g x w → contains_text w v' ≡ true)) q
            (n, all)
      itself u h (inr m) = absurd (cc (h, m))

      whole : Explores v v'
      whole = record {
        grows = λ u h. e.grows u (Within-cons s v u h);
        explored = λ u h k. elim (Bool-cases (contains_text u (s ∷ v))) [
          | inl m ↦ itself u h (contains_text-cons u s v m)
          | inr m ↦ e.explored u m k
        ];
      }

  reaches-SearchOutcome : (fuel : ℕ) → IsClosed g → Decides fuel (reaches fuel g to)
  unfolding reaches
  reaches-SearchOutcome zero closed s v i n h = absurd (omega arith)
  reaches-SearchOutcome (suc fuel) closed s v i n h = elim (Bool-cases (s == to)) [
    | inl e ↦ rw e (reached (rw ((text_eq.beq_iff s to).0 e) arrived))
    | inr e ↦ rw e (
        finish (λ q. cc (e, (text_eq.beq_iff s to).1 q))
          (search_each-EachOutcome (reaches fuel g to) fuel (reaches-SearchOutcome fuel closed)
            (targets g s) (s ∷ v) (λ w j. closed s w j)
            (omega (arith, h, unvisited-visit g.nodes v s i n))))
  ]

  -- nothing visited, and not found: no walk
  unreached :
      {v' : List Text} {s : Text} → Explores [] v' → contains_text s v' ≡ true → Walk g to s → ⊥
  unfolding contains_text
  unreached {v'} {s} e m arrived = (e.explored s refl m).0 refl
  unreached {v'} {s} e m (along {w = w} edge p) = unreached e ((e.explored s refl m).1 w edge) p

  pub data Answer (from : Text) : Search → Type 0 where
    walk : Walk g to from → Answer from found
    apart : (v' : List Text) → (Walk g to from → ⊥) → Answer from (not_found v')

  answer : {from : Text} {r : Search} → SearchOutcome from [] r → Answer from r
  answer (reached p) = walk p
  answer (explored_all v' e m) = apart v' (unreached e m)

  pub reaches-Answer :
      (from : Text) → IsClosed g → In from g.nodes → Answer from (reaches (fuel_of g) g to from [])
  reaches-Answer from closed i = answer (
      reaches-SearchOutcome (fuel_of g) closed from [] i (unfold contains_text in refl)
        (omega (arith, unvisited_none g.nodes)))

-- In a graph whose edges end in its stops, the search from one of its stops ends with the fuel it is
-- given, and says that the other stop is reached exactly if a walk leads from the one to the other.
reaches_iff :
    (g : StopGraph) (to from : Text)
    → IsClosed g
    → In from g.nodes
    → (reaches (fuel_of g) g to from [] ≢ out_of_fuel)
      × ((reaches (fuel_of g) g to from [] ≡ found) ↔ Walk g to from)
reaches_iff g to from closed i = judged (reaches-Answer g to from closed i)
  where
    judged : {r : Search} → Answer g to from r → (r ≢ out_of_fuel) × ((r ≡ found) ↔ Walk g to from)
    judged (walk p) = (λ e. cc e, (λ e. p, λ q. refl))
    judged (apart v' n) = (λ e. cc e, (λ e. absurd (cc e), λ q. absurd (n q)))
