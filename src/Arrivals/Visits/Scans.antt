-- ===== src/Arrivals/Visits/Scans.antt =====
-- The visit that a loop over the stop times of a trip keeps is the nearest one by its measure.
use maglev.Prelude.{
  ℕ, zero, suc, ◌+◌, ◌≤◌, ◌<◌, true, false, Option, none, some, List, [], ◌∷◌, length, get_elem?,
  Text, text_eq, ◌==◌, ltb, ◌≡◌, refl, sym, ap, subst, arith, inl, inr, Bool-cases,
}
use maglev.Deviation.Block.{StopTimeRow}
use maglev.Arrivals.Visits.{Best, is_better, keep_better, scan_visits, found_visit}

-- the row at index `i` is a visit to the stop
abbrev pub IsVisit : List StopTimeRow → Text → ℕ → StopTimeRow → Type 0
IsVisit sts stop_code i st = (get_elem? sts i ≡ some st) × ((st.stop_id == stop_code) ≡ true)

-- a visit, the first of the nearest ones, or no visit at all
abbrev pub IsNearest :
    (ℕ → StopTimeRow → ℕ) → List StopTimeRow → Text → Option (StopTimeRow × ℕ) → Type 0
IsNearest measure sts stop_code none =
    (i : ℕ) (st : StopTimeRow) → get_elem? sts i ≡ some st → (st.stop_id == stop_code) ≡ false
IsNearest measure sts stop_code (some (visit, index)) =
    IsVisit sts stop_code index visit
    × ((i : ℕ) (st : StopTimeRow) → IsVisit sts stop_code i st → measure index visit ≤ measure i st)
    × ((i : ℕ) (st : StopTimeRow)
        → IsVisit sts stop_code i st
        → i < index
        → measure index visit < measure i st)

get_elem?-length :
    (i : ℕ) (sts : List StopTimeRow) (st : StopTimeRow) → get_elem? sts i ≡ some st → i < length sts
get_elem?-length i [] st g = absurd (cc g)
get_elem?-length zero (s ∷ sts) st g = omega arith
get_elem?-length (suc i) (s ∷ sts) st g = omega (arith, get_elem?-length i sts st g)

module _ (measure : ℕ → StopTimeRow → ℕ) (all : List StopTimeRow) (stop_code : Text) where
  -- the best visit among the rows before the index `n`
  record IsBest (n : ℕ) (b : Best) : Type 0 where
    bounded : b.index < n
    visits : IsVisit all stop_code b.index b.visit
    measured : b.delta ≡ measure b.index b.visit
    least : (i : ℕ) (st : StopTimeRow) → i < n → IsVisit all stop_code i st → b.delta ≤ measure i st
    first :
        (i : ℕ) (st : StopTimeRow)
        → i < b.index
        → IsVisit all stop_code i st
        → b.delta < measure i st

  abbrev NoVisit : ℕ → Type 0
  NoVisit n =
      (i : ℕ) (st : StopTimeRow)
      → i < n
      → get_elem? all i ≡ some st
      → (st.stop_id == stop_code) ≡ false

  abbrev Upto : ℕ → Option Best → Type 0
  Upto n none = NoVisit n
  Upto n (some b) = IsBest n b

  module _ (n : ℕ) (row : StopTimeRow) (at : get_elem? all n ≡ some row) where
    -- a fact of the rows before `n` and of the row at `n` is one of the rows up to `n`
    upto_next :
        (P : ℕ → StopTimeRow → Type 0)
        → ((i : ℕ) (st : StopTimeRow) → i < n → get_elem? all i ≡ some st → P i st)
        → P n row
        → (i : ℕ) (st : StopTimeRow) → i < suc n
        → get_elem? all i ≡ some st
        → P i st
    upto_next P before here i st h g = elim (Bool-cases (ltb i n)) [
      | inl l ↦ before i st (ground arith) g
      | inr l ↦
          let same : i ≡ n = ground arith in
          let same_row : st ≡ row = cc (g, at, same) in
          subst (λ (x : ℕ). P x st) (sym same) (subst (P n) (sym same_row) here)
    ]

    skip-Upto :
        (row.stop_id == stop_code) ≡ false → (best : Option Best) → Upto n best → Upto (suc n) best
    skip-Upto e none h = upto_next (λ i st. (st.stop_id == stop_code) ≡ false) h e
    skip-Upto e (some b) h = record {
      bounded = omega (arith, h.bounded);
      visits = h.visits;
      measured = h.measured;
      least = λ i st l v.
          upto_next (λ i st. (st.stop_id == stop_code) ≡ true → b.delta ≤ measure i st)
            (λ j s m g t. h.least j s m (g, t)) (λ t. absurd (cc (e, t))) i st l v.0 v.1;
      first = h.first;
    }

    keep-Upto :
        (row.stop_id == stop_code) ≡ true
        → (best : Option Best) → Upto n best
        → Upto (suc n) (keep_better row n (measure n row) best)
    unfolding keep_better is_better
    keep-Upto e none h = record {
      bounded = omega arith;
      visits = (at, e);
      measured = refl;
      least = λ i st l v.
          upto_next (λ i st. (st.stop_id == stop_code) ≡ true → measure n row ≤ measure i st)
            (λ j s m g t. absurd (cc (h j s m g, t))) (λ t. omega arith) i st l v.0 v.1;
      first = λ i st l v. absurd (cc (h i st l v.0, v.1));
    }
    keep-Upto e (some b) h = elim (Bool-cases (ltb (measure n row) b.delta)) [
      | inl l ↦ rw l (record {
        bounded = omega arith;
        visits = (at, e);
        measured = refl;
        least = λ i st m v.
            upto_next (λ i st. (st.stop_id == stop_code) ≡ true → measure n row ≤ measure i st)
              (λ j s m g t. let k = h.least j s m (g, t) in ground arith) (λ t. omega arith) i st m
              v.0 v.1;
        first = λ i st m v. let k = h.least i st m v in ground arith;
      })
      | inr l ↦ rw l (record {
        bounded = omega (arith, h.bounded);
        visits = h.visits;
        measured = h.measured;
        least = λ i st m v.
            upto_next (λ i st. (st.stop_id == stop_code) ≡ true → b.delta ≤ measure i st)
              (λ j s m g t. h.least j s m (g, t)) (λ t. ground arith) i st m v.0 v.1;
        first = h.first;
      })
    ]

  scan_visits-Upto :
      (n : ℕ) (sts : List StopTimeRow) (best : Option Best)
      → ((j : ℕ) → get_elem? all (n + j) ≡ get_elem? sts j)
      → Upto n best
      → Upto (n + length sts) (scan_visits measure stop_code n sts best)
  unfolding scan_visits
  scan_visits-Upto n [] best same h = subst (λ (m : ℕ). Upto m best) (omega arith) h
  scan_visits-Upto n (st ∷ sts) best same h =
      let at : get_elem? all n ≡ some st =
        subst (λ (m : ℕ). get_elem? all m ≡ some st) (omega arith) (same 0) in
      let later : (j : ℕ) → get_elem? all (suc n + j) ≡ get_elem? sts j =
        λ j. subst (λ (m : ℕ). get_elem? all m ≡ get_elem? sts j) (omega arith) (same (suc j)) in
      elim (Bool-cases (st.stop_id == stop_code)) [
        | inl e ↦ rw e (
            subst
              (λ (m : ℕ).
                Upto m (
                  scan_visits measure stop_code (suc n) sts (keep_better st n (measure n st) best)))
              (omega arith)
              (scan_visits-Upto (suc n) sts (keep_better st n (measure n st) best) later
                (keep-Upto n st at e best h)))
        | inr e ↦ rw e (
            subst (λ (m : ℕ). Upto m (scan_visits measure stop_code (suc n) sts best)) (omega arith)
              (scan_visits-Upto (suc n) sts best later (skip-Upto n st at e best h)))
      ]

  in_range : (i : ℕ) (st : StopTimeRow) → get_elem? all i ≡ some st → i < length all
  in_range i st g = get_elem?-length i all st g

  Upto-IsNearest :
      (best : Option Best)
      → Upto (length all) best
      → IsNearest measure all stop_code (found_visit best)
  unfolding found_visit
  Upto-IsNearest none h = λ i st g. h i st (in_range i st g) g
  Upto-IsNearest (some b) h = (
    h.visits,
    λ i st v. subst (λ (m : ℕ). m ≤ measure i st) h.measured (h.least i st (in_range i st v.0) v),
    λ i st v l. subst (λ (m : ℕ). m < measure i st) h.measured (h.first i st l v),
  )

  pub scan_visits-IsNearest :
      IsNearest measure all stop_code (found_visit (scan_visits measure stop_code 0 all none))
  scan_visits-IsNearest = Upto-IsNearest (scan_visits measure stop_code 0 all none) (
      subst (λ (m : ℕ). Upto m (scan_visits measure stop_code 0 all none)) (omega arith)
        (scan_visits-Upto 0 all none (λ j. ap (get_elem? all) (omega arith))
          (λ i st l g. absurd (omega arith))))
