-- ===== src/Tests/Timelines.antt =====
-- Three stops of a block, and a search that counts the keys before its target.
use maglev.Prelude.{
  ℕ, zero, suc, ◌+◌, ◌-◌, ◌*◌, ◌/◌, ◌≤◌, ◌<◌, true, false, some, List, [], ◌∷◌, get_elem?,
  if◌then◌else◌, ℤ, pos, negsuc, lt_int, sub_int, int_beq, ◌≡◌, refl, subst, arith, Bool-cases, inl,
  inr,
}
use maglev.Timeline.{
  BlockStop, Searching, Floats, stops_are_monotonic, scan_next, find_next_stop_index, bracket_index,
  last_stop, bracket_at, between, interpolate_block_distance,
}
use maglev.Timeline.Search.{IsAscending, IsPlace, SearchLaws, find_next_stop_index-scan_next}
use maglev.Timeline.Brackets.{Interpolates, interpolate_block_distance-Interpolates}

-- z ≥ y ≥ x
not_lt_int_trans : (x y z : ℤ) → lt_int z y ≡ false → lt_int y x ≡ false → lt_int z x ≡ false
unfolding lt_int
not_lt_int_trans (pos a) (pos b) (pos c) h k = ground arith
not_lt_int_trans (pos a) (pos b) (negsuc c) h k = absurd (cc h)
not_lt_int_trans (pos a) (negsuc b) z h k = absurd (cc k)
not_lt_int_trans (negsuc a) (pos b) (pos c) h k = refl
not_lt_int_trans (negsuc a) (pos b) (negsuc c) h k = absurd (cc h)
not_lt_int_trans (negsuc a) (negsuc b) (pos c) h k = refl
not_lt_int_trans (negsuc a) (negsuc b) (negsuc c) h k = ground arith

module _ {A : Type 0} (f : A → ℤ) (target : ℤ) where
  unfoldable pub count_below : List A → ℕ
  count_below [] = 0
  count_below (x ∷ xs) = let rest = count_below xs in if lt_int (f x) target then suc rest else 0

  rest_ascends : (x : A) (xs : List A) → IsAscending f (x ∷ xs) → IsAscending f xs
  rest_ascends x [] h = tt
  rest_ascends x (y ∷ ys) h = h.1

  head_least :
      (x : A) (xs : List A)
      → IsAscending f (x ∷ xs)
      → lt_int (f x) target ≡ false
      → (j : ℕ) (y : A) → get_elem? (x ∷ xs) j ≡ some y
      → lt_int (f y) target ≡ false
  head_least x xs h k zero y g =
      let same : x ≡ y = cc g in subst (λ (z : A). lt_int (f z) target ≡ false) same k
  head_least x [] h k (suc j) y g = absurd (cc g)
  head_least x (z ∷ zs) h k (suc j) y g =
      head_least z zs h.1 (not_lt_int_trans target (f x) (f z) h.0 k) j y g

  count_below-IsPlace : (xs : List A) → IsAscending f xs → IsPlace f xs target (count_below xs)
  unfolding count_below
  count_below-IsPlace [] h = record {
    bounded = omega arith;
    below = λ j x k g. absurd (omega arith);
    not_below = λ j x k g. absurd (cc g);
  }
  count_below-IsPlace (x ∷ xs) h = elim (Bool-cases (lt_int (f x) target)) [
    | inr e ↦ rw e (record {
      bounded = omega arith;
      below = λ j y k g. absurd (omega arith);
      not_below = λ j y k g. head_least x xs h e j y g;
    })
    | inl e ↦
        let rest = count_below-IsPlace xs (rest_ascends x xs h) in
        rw e (record {
          bounded = omega (arith, rest.bounded);
          below = λ j y k g. under rest e j y k g;
          not_below = λ j y k g. over rest j y k g;
        })
  ]
    where
      under :
          {i : ℕ}
          → IsPlace f xs target i
          → lt_int (f x) target ≡ true
          → (j : ℕ) (y : A) → j < suc i
          → get_elem? (x ∷ xs) j ≡ some y
          → lt_int (f y) target ≡ true
      under p e zero y k g =
          let same : x ≡ y = cc g in subst (λ (z : A). lt_int (f z) target ≡ true) same e
      under p e (suc j) y k g = p.below j y (omega arith) g

      over :
          {i : ℕ}
          → IsPlace f xs target i
          → (j : ℕ) (y : A) → suc i ≤ j
          → get_elem? (x ∷ xs) j ≡ some y
          → lt_int (f y) target ≡ false
      over p zero y k g = absurd (omega arith)
      over p (suc j) y k g = p.not_below j y (omega arith) g

abbrev pub counting : Searching
counting = record { binary_search = λ f xs target. count_below f target xs }

counting-SearchLaws : SearchLaws counting
counting-SearchLaws = record { place = λ f xs target h. count_below-IsPlace f target xs h }

abbrev stop : ℕ → ℕ → ℕ → BlockStop ℕ
stop n seconds metres = record {
  block_sequence = pos n;
  effective_stop_seconds = pos seconds;
  distance_along_block = metres;
}

abbrev line_stops : List (BlockStop ℕ)
line_stops = stop 1 150 800 ∷ stop 2 250 1000 ∷ []

-- distances in metres, ratios in percent
abbrev pub percents : Floats ℕ
percents = record {
  zero_distance = 0;
  of_int = λ z. elim z [ pos n ↦ n | negsuc n ↦ 0 ];
  add = λ a b. a + b;
  sub = λ a b. a - b;
  mul = λ a b. (a * b) / 100;
  div = λ a b. (a * 100) / b;
}

halfway :
    interpolate_block_distance percents counting (stop 0 0 0 ∷ line_stops) (pos 200) true ≡ some 900
unfolding interpolate_block_distance bracket_index bracket_at between last_stop count_below lt_int
    sub_int int_beq
halfway = refl

find_next_stop_index-scan_next_example :
    find_next_stop_index counting
      (stop 0 0 0 ∷ line_stops)
      (pos 200)
      (stops_are_monotonic (stop 0 0 0 ∷ line_stops))
    ≡ scan_next (pos 200) (stop 0 0 0 ∷ line_stops)
find_next_stop_index-scan_next_example =
    find_next_stop_index-scan_next counting (stop 0 0 0 ∷ line_stops) (pos 200) counting-SearchLaws

interpolate_block_distance-Interpolates_example :
    Interpolates percents (stop 0 0 0) line_stops (pos 200) (
      interpolate_block_distance percents counting
        (stop 0 0 0 ∷ line_stops)
        (pos 200)
        (stops_are_monotonic (stop 0 0 0 ∷ line_stops)))
interpolate_block_distance-Interpolates_example =
    interpolate_block_distance-Interpolates percents counting (stop 0 0 0) line_stops (pos 200)
      counting-SearchLaws
