-- ===== src/StopOrder/Picking.antt =====
-- The stop that the inner loop of the sort picks, and what is left when it is taken out.
use maglev.Prelude.{
  ℕ, zero, suc, ◌+◌, true, false, ◌&&◌, Option, none, some, List, [], ◌∷◌, ◌++◌, Text, text_eq, eqb,
  length, take, drop, Map, get_or, is_some, contains_text, In-contains_text, contains_text-In, In,
  ◌≡◌, ◌⊎◌, ◌↔◌, refl, ap, ◌∙◌, arith, Bool-cases, inl, inr,
}
use maglev.StopOrder.{StopGraph, targets, Metric, beats, find_best}
use maglev.StopOrder.Acyclic.{AreDistinct}
use maglev.StopOrder.Sources.{occurrences, edges_into}

abbrev pub StandsAt : ℕ → Text → List Text → Type 0
StandsAt n s [] = ⊥
StandsAt zero s (t ∷ ts) = s ≡ t
StandsAt (suc n) s (t ∷ ts) = StandsAt n s ts

-- `Removes s xs ys`: `ys` is `xs` less one `s`
pub data Removes (s : Text) : List Text → List Text → Type 0 where
  here : {ss : List Text} → Removes s (s ∷ ss) ss
  later : {t : Text} {ss rs : List Text} → Removes s ss rs → Removes s (t ∷ ss) (t ∷ rs)

pub delete-Removes :
    (n : ℕ) (s : Text) (ss : List Text)
    → StandsAt n s ss
    → Removes s ss (take n ss ++ drop (suc n) ss)
delete-Removes zero s [] e = absurd e
delete-Removes (suc n) s [] e = absurd e
delete-Removes zero s (t ∷ ts) e = rw e here
delete-Removes (suc n) s (t ∷ ts) e = later (delete-Removes n s ts e)

pub Removes-In :
    {s : Text} {xs ys : List Text} → Removes s xs ys → (u : Text) → In u xs ↔ ((u ≡ s) ⊎ In u ys)
Removes-In here u = (λ i. i, λ i. i)
Removes-In (later r) u = ground (arith, Removes-In r u)

pub Removes-length : {s : Text} {xs ys : List Text} → Removes s xs ys → length xs ≡ suc (length ys)
Removes-length here = refl
Removes-length (later r) = ap suc (Removes-length r)

pub Removes-edges_into :
    {s : Text} {xs ys : List Text} (g : StopGraph) (w : Text)
    → Removes s xs ys
    → edges_into g w xs ≡ occurrences w (targets g s) + edges_into g w ys
Removes-edges_into g w here = refl
Removes-edges_into g w (later r) = omega (arith, Removes-edges_into g w r)

pub Removes-AreDistinct :
    {s : Text} {xs ys : List Text}
    → Removes s xs ys
    → AreDistinct xs
    → (contains_text s ys ≡ false) × AreDistinct ys
unfolding contains_text
Removes-AreDistinct here d = d
Removes-AreDistinct {s} (later {t} {ss} {rs} r) d =
    let (n, e) = Removes-AreDistinct r d.1 in
    (
      ground (arith, n, text_eq.beq_iff t s, In-contains_text t ss, d.0, (Removes-In r s).1),
      (ground (arith, In-contains_text t ss, contains_text-In t rs, d.0, (Removes-In r t).1), e),
    )

module _ {N L : Type 0} (metric : Metric N L) (downstream : Map Text N) (inbound : Map Text ℕ) where
  abbrev pub Best : ℕ → List Text → Option (ℕ × Text) → Type 0
  Best i ss found =
      (n : ℕ) × (s : Text) × StandsAt n s ss × (get_or 0 s inbound ≡ 0) × (found ≡ some (i + n, s))

  Best-cons :
      (i : ℕ) (s : Text) (ss : List Text) (r : Option (ℕ × Text))
      → Best (suc i) ss r
      → Best i (s ∷ ss) r
  Best-cons i s ss r (n, t, a, z, e) =
      (suc n, t, a, z, e ∙ ap (λ (k : ℕ). some (k, t)) (omega arith))

  -- `best` after the loop is the one before, or a stop of the list without inbound edges
  pub find_best-cases :
      (i : ℕ) (ss : List Text) (best : Option (ℕ × Text))
      → (find_best metric downstream inbound i ss best ≡ best)
        ⊎ Best i ss (find_best metric downstream inbound i ss best)
  unfolding find_best
  find_best-cases i [] best = inl refl
  find_best-cases i (s ∷ ss) best =
      elim (Bool-cases (eqb (get_or 0 s inbound) 0 && beats metric downstream s best)) [
        | inl c ↦ rw c (taken _ (ground arith) (find_best-cases (suc i) ss (some (i, s))))
        | inr c ↦ rw c (kept _ (find_best-cases (suc i) ss best))
      ]
    where
      taken :
          (r : Option (ℕ × Text))
          → get_or 0 s inbound ≡ 0
          → (r ≡ some (i, s)) ⊎ Best (suc i) ss r
          → (r ≡ best) ⊎ Best i (s ∷ ss) r
      taken r z (inl e) = inr (0, s, refl, z, e ∙ ap (λ (k : ℕ). some (k, s)) (omega arith))
      taken r z (inr b) = inr (Best-cons i s ss r b)

      kept :
          (r : Option (ℕ × Text)) → (r ≡ best) ⊎ Best (suc i) ss r → (r ≡ best) ⊎ Best i (s ∷ ss) r
      kept r (inl e) = inl e
      kept r (inr b) = inr (Best-cons i s ss r b)

  find_best-is_some :
      (i : ℕ) (ss : List Text) (b : ℕ × Text)
      → is_some (find_best metric downstream inbound i ss (some b)) ≡ true
  unfolding find_best
  find_best-is_some i [] b = refl
  find_best-is_some i (s ∷ ss) b =
      elim (Bool-cases (eqb (get_or 0 s inbound) 0 && beats metric downstream s (some b))) [
        | inl c ↦ rw c (find_best-is_some (suc i) ss (i, s))
        | inr c ↦ rw c (find_best-is_some (suc i) ss b)
      ]

  -- and it is there if the list has such a stop
  find_best-finds :
      (i : ℕ) (ss : List Text) (s : Text)
      → In s ss
      → get_or 0 s inbound ≡ 0
      → is_some (find_best metric downstream inbound i ss none) ≡ true
  unfolding find_best beats
  find_best-finds i [] s k z = absurd k
  find_best-finds i (t ∷ ss) s (inl q) z =
      let e : eqb (get_or 0 t inbound) 0 ≡ true = ground arith in
      rw e (find_best-is_some (suc i) ss (i, t))
  find_best-finds i (t ∷ ss) s (inr k) z = elim (Bool-cases (eqb (get_or 0 t inbound) 0 && true)) [
    | inl c ↦ rw c (find_best-is_some (suc i) ss (i, t))
    | inr c ↦ rw c (find_best-finds (suc i) ss s k z)
  ]

  pub find_best-Best :
      (ss : List Text) (s : Text)
      → In s ss
      → get_or 0 s inbound ≡ 0
      → Best 0 ss (find_best metric downstream inbound 0 ss none)
  find_best-Best ss s k z = elim (find_best-cases 0 ss none) [
    | inl e ↦ absurd (cc (ap is_some e, find_best-finds 0 ss s k z))
    | inr b ↦ b
  ]
