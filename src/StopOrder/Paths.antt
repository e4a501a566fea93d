-- ===== src/StopOrder/Paths.antt =====
-- Walks along the edges of a stop graph, and the stops that a search has not visited.
use maglev.Prelude.{
  ℕ, suc, ◌≤◌, ◌<◌, true, false, List, [], ◌∷◌, Text, text_eq, length, contains_text, In,
  if◌then◌else◌, ◌≡◌, refl, ◌⊎◌, arith, inl, inr,
}
use maglev.StopOrder.{StopGraph, targets}

abbrev pub Edge : StopGraph → Text → Text → Type 0
Edge g u w = In w (targets g u)

-- the walks to a stop
pub data Walk (g : StopGraph) (to : Text) : Text → Type 0 where
  arrived : Walk g to to
  along : {u w : Text} → Edge g u w → Walk g to w → Walk g to u

pub Walk-append : {g : StopGraph} {b c a : Text} → Walk g b a → Walk g c b → Walk g c a
Walk-append arrived q = q
Walk-append (along e p) q = along e (Walk-append p q)

pub along_at_end : {g : StopGraph} {a b c : Text} → Walk g b a → Edge g b c → Walk g c a
along_at_end p e = Walk-append p (along e arrived)

-- no walk from the end of an edge back to its start
abbrev pub IsAcyclic : StopGraph → Type 0
IsAcyclic g = (u w : Text) → Edge g u w → Walk g u w → ⊥

-- how many stops of a list are not in a set
abbrev pub unvisited : List Text → List Text → ℕ
unvisited [] visited = 0
unvisited (n ∷ ns) visited =
    if contains_text n visited then unvisited ns visited else suc (unvisited ns visited)

abbrev pub Within : List Text → List Text → Type 0
Within v v' = (u : Text) → contains_text u v ≡ true → contains_text u v' ≡ true

pub unvisited_antitone : (ns v v' : List Text) → Within v v' → unvisited ns v' ≤ unvisited ns v
unvisited_antitone [] v v' h = omega arith
unvisited_antitone (n ∷ ns) v v' h = ground (arith, h n, unvisited_antitone ns v v' h)

pub contains_text-cons :
    (u s : Text) (v : List Text)
    → contains_text u (s ∷ v) ≡ true
    → (s ≡ u) ⊎ (contains_text u v ≡ true)
unfolding contains_text
contains_text-cons u s v h = ground (arith, text_eq.beq_iff s u)

pub contains_text_self : (s : Text) (v : List Text) → contains_text s (s ∷ v) ≡ true
unfolding contains_text
contains_text_self s v = ground (arith, text_eq.beq_iff s s)

pub Within-cons : (s : Text) (v : List Text) → Within v (s ∷ v)
unfolding contains_text
Within-cons s v u h = ground arith

-- a visit of a stop of the list leaves fewer
pub unvisited-visit :
    (ns v : List Text) (s : Text)
    → In s ns
    → contains_text s v ≡ false
    → unvisited ns (s ∷ v) < unvisited ns v
unvisited-visit [] v s i h = absurd i
unvisited-visit (n ∷ ns) v s (inl e) h = rw (← e) (
    rw (h, contains_text_self s v)
      (omega (arith, unvisited_antitone ns v (s ∷ v) (Within-cons s v))))
unvisited-visit (n ∷ ns) v s (inr i) h =
    ground (arith, Within-cons s v n, unvisited-visit ns v s i h)

pub unvisited_none : (ns : List Text) → unvisited ns [] ≡ length ns
unfolding contains_text
unvisited_none [] = refl
unvisited_none (n ∷ ns) = omega (arith, unvisited_none ns)
