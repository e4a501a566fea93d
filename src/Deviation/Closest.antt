-- ===== src/Deviation/Closest.antt =====
-- What the picker of `pickClosestSTUDeviation` ends with.
use maglev.Prelude.{
  ℕ, ◌≤◌, ◌<◌, Bool, true, false, List, [], ◌∷◌, In, ℤ, sub_int, abs_int, lt_int, ◌≡◌, ◌⊎◌, refl,
  sym, ap, ◌∙◌, subst, arith, Bool-cases, inl, inr,
}
use maglev.Deviation.{
  Picker, max_int64, new_picker, should_replace, offer, is_usable, consider, consider_all,
}

-- how far the predicted time is from now, and whether it has passed
abbrev pub distance : ℤ → ℤ × ℤ → ℕ
distance current c = abs_int (sub_int c.1 current)

abbrev pub has_passed : ℤ → ℤ × ℤ → Bool
has_passed current c = lt_int c.1 current

abbrev pub usable : ℤ × ℤ → Bool
usable c = is_usable c.0 c.1

-- no pair that was considered is better than what the picker holds
pub record Beats (current : ℤ) (p : Picker) (c : ℤ × ℤ) : Type 0 where
  pub closer : p.best_delta ≤ distance current c
  pub upcoming :
      p.best_delta ≡ distance current c → has_passed current c ≡ false → p.best_is_in_past ≡ false

-- the picker holds the pair
pub record Holds (current : ℤ) (p : Picker) (c : ℤ × ℤ) : Type 0 where
  pub found : p.found ≡ true
  pub delta : p.best_delta ≡ distance current c
  pub in_past : p.best_is_in_past ≡ has_passed current c
  pub deviation : p.best_deviation ≡ sub_int c.1 c.0

record Improves (p q : Picker) : Type 0 where
  current : q.current_seconds ≡ p.current_seconds
  delta : q.best_delta ≤ p.best_delta
  past : q.best_delta ≡ p.best_delta → p.best_is_in_past ≡ false → q.best_is_in_past ≡ false

Improves-refl : (p : Picker) → Improves p p
Improves-refl p = record { current = refl; delta = omega arith; past = λ e h. h }

Improves-trans : {p q r : Picker} → Improves p q → Improves q r → Improves p r
Improves-trans a b = record {
  current = b.current ∙ a.current;
  delta = omega (arith, a.delta, b.delta);
  past = λ e h.
      b.past (omega (arith, a.delta, b.delta, e)) (a.past (omega (arith, a.delta, b.delta, e)) h);
}

consider-Improves : (c : ℤ × ℤ) (p : Picker) → Improves p (consider c.0 c.1 p)
unfolding consider offer should_replace
consider-Improves c p = ground arith

consider-Beats :
    (c : ℤ × ℤ) (p : Picker) → usable c ≡ true → Beats p.current_seconds (consider c.0 c.1 p) c
unfolding consider offer should_replace
consider-Beats c p u = ground arith

consider-cases :
    (c : ℤ × ℤ) (p : Picker)
    → (consider c.0 c.1 p ≡ p)
      ⊎ ((usable c ≡ true) × Holds p.current_seconds (consider c.0 c.1 p) c)
unfolding consider offer should_replace
consider-cases c p = elim (Bool-cases (usable c)) [
  | inr e ↦ inl (rw e refl)
  | inl e ↦
      elim (Bool-cases
        (should_replace (distance p.current_seconds c) (has_passed p.current_seconds c) p)) [
          | inr f ↦ inl (ground (arith, e, f))
          | inl f ↦ inr (
            e,
            record {
              found = ground arith;
              delta = ground arith;
              in_past = ground arith;
              deviation = ground arith;
            },
          )
        ]
]

consider_all-Improves : (cs : List (ℤ × ℤ)) (p : Picker) → Improves p (consider_all cs p)
unfolding consider_all
consider_all-Improves [] p = Improves-refl p
consider_all-Improves (c ∷ cs) p =
    Improves-trans (consider-Improves c p) (consider_all-Improves cs (consider c.0 c.1 p))

Improves-Beats :
    {current : ℤ} {p q : Picker} {c : ℤ × ℤ} → Improves p q → Beats current p c → Beats current q c
Improves-Beats i b = record {
  closer = omega (arith, i.delta, b.closer);
  upcoming = λ e h.
      i.past (omega (arith, i.delta, b.closer, e))
        (b.upcoming (omega (arith, i.delta, b.closer, e)) h);
}

consider_all-Beats :
    (cs : List (ℤ × ℤ)) (c : ℤ × ℤ) (p : Picker)
    → In c cs
    → usable c ≡ true
    → Beats p.current_seconds (consider_all cs p) c
unfolding consider_all
consider_all-Beats [] c p i u = absurd i
consider_all-Beats (d ∷ cs) c p (inl e) u =
    Improves-Beats (consider_all-Improves cs (consider d.0 d.1 p)) (
      subst (Beats p.current_seconds (consider d.0 d.1 p)) (sym e)
        (consider-Beats d p (ap usable (sym e) ∙ u)))
consider_all-Beats (d ∷ cs) c p (inr i) u =
    subst (λ (now : ℤ). Beats now (consider_all cs (consider d.0 d.1 p)) c)
      (consider-Improves d p).current (consider_all-Beats cs c (consider d.0 d.1 p) i u)

consider_all-cases :
    (cs : List (ℤ × ℤ)) (p : Picker)
    → (consider_all cs p ≡ p)
      ⊎ ((c : ℤ × ℤ) × In c cs × (usable c ≡ true) × Holds p.current_seconds (consider_all cs p) c)
unfolding consider_all
consider_all-cases [] p = inl refl
consider_all-cases (d ∷ cs) p = elim (consider_all-cases cs (consider d.0 d.1 p)) [
  | inr (c, i, u, h) ↦ inr (
    c,
    inr i,
    u,
    subst (λ (now : ℤ). Holds now (consider_all cs (consider d.0 d.1 p)) c)
        (consider-Improves d p).current h,
  )
  | inl e ↦ elim (consider-cases d p) [
    | inl f ↦ inl (e ∙ f)
    | inr (u, h) ↦
        inr (d, inl refl, u, subst (λ (q : Picker). Holds p.current_seconds q d) (sym e) h)
  ]
]

-- Over pairs of scheduled and predicted times whose distances from now are in the range of an
-- int64, the picker ends in one of two ways: it found nothing, and no pair has both times positive;
-- or it holds a pair of the list, both times positive, with the deviation of that pair, and no such
-- pair of the list is predicted closer to now, nor as close and still to come where the pair that
-- it holds has passed.
pub consider_all-closest :
    (current : ℤ) (cs : List (ℤ × ℤ))
    → ((c : ℤ × ℤ) → In c cs → usable c ≡ true → distance current c < max_int64)
    → (((consider_all cs (new_picker current)).found ≡ false)
        × ((c : ℤ × ℤ) → In c cs → usable c ≡ false))
      ⊎ ((c : ℤ × ℤ) × In c cs
          × (usable c ≡ true)
          × Holds current (consider_all cs (new_picker current)) c
          × ((d : ℤ × ℤ)
              → In d cs
              → usable d ≡ true
              → Beats current (consider_all cs (new_picker current)) d))
unfolding new_picker
consider_all-closest current cs near = elim (consider_all-cases cs (new_picker current)) [
  | inr (c, i, u, h) ↦ inr (c, i, u, h, λ d j v. consider_all-Beats cs d (new_picker current) j v)
  | inl e ↦ inl (ap (λ (p : Picker). p.found) e ∙ (refl), λ c i. by_use c i (usable c) refl e)
]
  where
    by_use :
        (c : ℤ × ℤ)
        → In c cs
        → (b : Bool) → usable c ≡ b
        → consider_all cs (new_picker current) ≡ new_picker current
        → usable c ≡ false
    by_use c i false e same = e
    by_use c i true e same =
        let beaten : (consider_all cs (new_picker current)).best_delta ≤ distance current c =
          (consider_all-Beats cs c (new_picker current) i e).closer in
        let untouched : (consider_all cs (new_picker current)).best_delta ≡ max_int64 =
          ap (λ (p : Picker). p.best_delta) same ∙ (refl) in
        absurd (omega (arith, beaten, untouched, near c i e))
