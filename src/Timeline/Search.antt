-- ===== src/Timeline/Search.antt =====
-- The binary search for the next stop against the linear scan.
use maglev.Prelude.{
  ℕ, zero, suc, ◌≤◌, ◌<◌, true, false, some, List, [], ◌∷◌, length, get_elem?, ℤ, lt_int, ◌≡◌, refl,
  arith, Bool-cases, inl, inr,
}
use maglev.Timeline.{
  BlockStop, Searching, stops_are_monotonic, scan_next, or_past, find_next_stop_index,
}

-- each key is no smaller than the one before it
abbrev pub IsAscending : {A : Type 0} → (A → ℤ) → List A → Type 0
IsAscending f [] = Unit {0}
IsAscending f (x ∷ []) = Unit {0}
IsAscending f (x ∷ y ∷ xs) = (lt_int (f y) (f x) ≡ false) × IsAscending f (y ∷ xs)

-- the place of a target among ascending keys
pub record IsPlace {A : Type 0} (f : A → ℤ) (xs : List A) (target : ℤ) (i : ℕ) : Type 0 where
  pub bounded : i ≤ length xs
  pub below : (j : ℕ) (x : A) → j < i → get_elem? xs j ≡ some x → lt_int (f x) target ≡ true
  pub not_below : (j : ℕ) (x : A) → i ≤ j → get_elem? xs j ≡ some x → lt_int (f x) target ≡ false

-- what `slices.BinarySearchFunc` promises
pub record SearchLaws (search : Searching) : Type 1 where
  pub place :
      {A : Type 0} (f : A → ℤ) (xs : List A) (target : ℤ)
      → IsAscending f xs
      → IsPlace f xs target (search.binary_search f xs target)

module _ {N : Type 0} where
  pub stops_are_monotonic-IsAscending :
      (stops : List (BlockStop N))
      → stops_are_monotonic stops ≡ true
      → IsAscending (λ (s : BlockStop N). s.effective_stop_seconds) stops
  unfolding stops_are_monotonic
  stops_are_monotonic-IsAscending [] h = tt
  stops_are_monotonic-IsAscending (s ∷ []) h = tt
  stops_are_monotonic-IsAscending (s ∷ t ∷ ss) h =
      elim (Bool-cases (lt_int t.effective_stop_seconds s.effective_stop_seconds)) [
        | inl e ↦ absurd (cc (rw e at h))
        | inr e ↦ (e, stops_are_monotonic-IsAscending (t ∷ ss) (rw e at h))
      ]

  scan_next-IsPlace :
      (stops : List (BlockStop N)) (current : ℤ) (i : ℕ)
      → IsPlace (λ (s : BlockStop N). s.effective_stop_seconds) stops current i
      → or_past i stops ≡ scan_next current stops
  unfolding or_past scan_next
  scan_next-IsPlace [] current i p = ground arith
  scan_next-IsPlace (s ∷ ss) current zero p = rw (p.not_below 0 s (omega arith) refl) (ground arith)
  scan_next-IsPlace (s ∷ ss) current (suc i) p =
      let before = p.below 0 s (omega arith) refl in
      let rest = scan_next-IsPlace ss current i (record {
        bounded = omega (arith, p.bounded);
        below = λ j x h g. p.below (suc j) x (omega arith) g;
        not_below = λ j x h g. p.not_below (suc j) x (omega arith) g;
      }) in
      rw before (rw (← rest) (ground arith))

  -- Where the search finds the place of its target among ascending keys, `findNextStopIndex`, with the
  -- test of the order that its caller makes, returns on any stops what the linear scan returns: the first
  -- stop that is not before the time, or -1 if all are.
  pub find_next_stop_index-scan_next :
      (search : Searching) (stops : List (BlockStop N)) (current : ℤ)
      → SearchLaws search
      → find_next_stop_index search stops current (stops_are_monotonic stops)
        ≡ scan_next current stops
  unfolding find_next_stop_index
  find_next_stop_index-scan_next search [] current laws = unfold scan_next in refl
  find_next_stop_index-scan_next search (s ∷ ss) current laws =
      elim (Bool-cases (stops_are_monotonic (s ∷ ss))) [
        | inr e ↦ rw e refl
        | inl e ↦ rw e (
            scan_next-IsPlace (s ∷ ss) current
              (search.binary_search (λ (t : BlockStop N). t.effective_stop_seconds) (s ∷ ss)
                current)
              (laws.place (λ (t : BlockStop N). t.effective_stop_seconds) (s ∷ ss) current
                (stops_are_monotonic-IsAscending (s ∷ ss) e)))
      ]
