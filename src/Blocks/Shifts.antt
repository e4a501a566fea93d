-- ===== src/Blocks/Shifts.antt =====
-- The shift that `keepShiftContainingTrip` keeps.
use maglev.Prelude.{
  ℕ, zero, suc, ◌-◌, ◌+◌, ◌≤◌, ◌<◌, true, false, none, some, List, [], ◌∷◌, length, take, drop,
  get_elem?, Text, text_eq, ◌==◌, In, ◌≡◌, ◌≢◌, ◌⊎◌, refl, sym, ap, arith, Bool-cases, inl, inr,
}
use maglev.Blocks.{
  BlockTrip, target_index, overlaps, shift_start, shift_end, keep_shift_containing_trip,
}

module _ (trips : List BlockTrip) where
  record StartsAt (i start : ℕ) : Type 0 where
    bound : start ≤ i
    apart : (j : ℕ) → start ≤ j → j < i → overlaps trips j ≡ false
    cut : (start ≡ 0) ⊎ ((k : ℕ) × (start ≡ suc k) × (overlaps trips k ≡ true))

  shift_start-StartsAt : (i : ℕ) → StartsAt i (shift_start trips i)
  unfolding shift_start
  shift_start-StartsAt zero = record {
    bound = omega arith;
    apart = λ j h k. absurd (omega arith);
    cut = inl refl;
  }
  shift_start-StartsAt (suc i) = elim (Bool-cases (overlaps trips i)) [
    | inl e ↦ rw e (record {
      bound = omega arith;
      apart = λ j h k. absurd (omega arith);
      cut = inr (i, refl, e);
    })
    | inr e ↦
        let before = shift_start-StartsAt i in
        rw e (record {
          bound = omega (arith, before.bound);
          apart = λ j h k. up_to before e j h k;
          cut = before.cut;
        })
  ]
    where
      up_to :
          {start : ℕ}
          → StartsAt i start
          → overlaps trips i ≡ false
          → (j : ℕ) → start ≤ j
          → j < suc i
          → overlaps trips j ≡ false
      up_to b e j h k =
          let r : (j ≡ i) ⊎ (j < i) = omega arith in
          elim r [ inl q ↦ rw q e | inr l ↦ b.apart j h l ]

  record EndsAt (i end : ℕ) : Type 0 where
    after : i < end
    bound : end ≤ length trips
    apart : (j : ℕ) → i ≤ j → suc j < end → overlaps trips j ≡ false
    cut : (end ≡ length trips) ⊎ ((k : ℕ) × (end ≡ suc k) × (overlaps trips k ≡ true))

  shift_end-EndsAt :
      (i following : ℕ)
      → suc (i + following) ≡ length trips
      → EndsAt i (shift_end trips i following)
  unfolding shift_end
  shift_end-EndsAt i zero h = record {
    after = omega arith;
    bound = omega arith;
    apart = λ j k l. absurd (omega arith);
    cut = inl refl;
  }
  shift_end-EndsAt i (suc following) h = elim (Bool-cases (overlaps trips i)) [
    | inl e ↦ rw e (record {
      after = omega arith;
      bound = omega arith;
      apart = λ j k l. absurd (omega arith);
      cut = inr (i, refl, e);
    })
    | inr e ↦
        let rest = shift_end-EndsAt (suc i) following (omega arith) in
        rw e (record {
          after = omega (arith, rest.after);
          bound = rest.bound;
          apart = λ j k l. from_here rest e j k l;
          cut = rest.cut;
        })
  ]
    where
      from_here :
          {end : ℕ}
          → EndsAt (suc i) end
          → overlaps trips i ≡ false
          → (j : ℕ) → i ≤ j
          → suc j < end
          → overlaps trips j ≡ false
      from_here b e j k l =
          let r : (j ≡ i) ⊎ (suc i ≤ j) = omega arith in
          elim r [ inl q ↦ rw q e | inr m ↦ b.apart j m l ]

  -- the trips from `start` up to `end` are a run without an overlap, which holds the trip at `i` and ends
  -- only at an overlap or where the block ends
  pub record IsShift (i start end : ℕ) : Type 0 where
    pub from : start ≤ i
    pub to : i < end
    pub bounded : end ≤ length trips
    pub apart : (j : ℕ) → start ≤ j → suc j < end → overlaps trips j ≡ false
    pub cut_before : (start ≡ 0) ⊎ ((k : ℕ) × (start ≡ suc k) × (overlaps trips k ≡ true))
    pub cut_after : (end ≡ length trips) ⊎ ((k : ℕ) × (end ≡ suc k) × (overlaps trips k ≡ true))

  IsShift-around :
      (i : ℕ)
      → i < length trips
      → IsShift i (shift_start trips i) (shift_end trips i (length trips - 1 - i))
  IsShift-around i h =
      let s = shift_start-StartsAt i in
      let e = shift_end-EndsAt i (length trips - 1 - i) (omega arith) in
      record {
        from = s.bound;
        to = e.after;
        bounded = e.bound;
        apart = λ j k l. both s e j k l;
        cut_before = s.cut;
        cut_after = e.cut;
      }
    where
      both :
          {start end : ℕ}
          → StartsAt i start
          → EndsAt i end
          → (j : ℕ) → start ≤ j
          → suc j < end
          → overlaps trips j ≡ false
      both s e j k l =
          let r : (j < i) ⊎ (i ≤ j) = omega arith in
          elim r [ inl a ↦ s.apart j k a | inr b ↦ e.apart j b l ]

-- the first trip with an ID
abbrev pub StandsFirst : Text → List BlockTrip → ℕ → Type 0
StandsFirst target trips i =
    ((t : BlockTrip) × (get_elem? trips i ≡ some t) × (t.id ≡ target))
    × (i < length trips)
    × ((j : ℕ) (t : BlockTrip) → j < i → get_elem? trips j ≡ some t → t.id ≢ target)

target_index-cases :
    (target : Text) (trips : List BlockTrip)
    → ((target_index target trips ≡ none) × ((t : BlockTrip) → In t trips → t.id ≢ target))
      ⊎ ((i : ℕ) × (target_index target trips ≡ some i) × StandsFirst target trips i)
unfolding target_index
target_index-cases target [] = inl (refl, λ t i. absurd i)
target_index-cases target (t ∷ ts) = elim (Bool-cases (t.id == target)) [
  | inl e ↦ inr (
    0,
    rw e refl,
    ((t, refl, (text_eq.beq_iff t.id target).0 e), omega arith, λ j u l g. absurd (omega arith)),
  )
  | inr e ↦ elim (target_index-cases target ts) [
    | inl (n, lacks) ↦ inl (
      rw (e, n) refl,
      λ u i q. elim i [ inl f ↦ other e (ap (λ (x : BlockTrip). x.id) f) q | inr j ↦ lacks u j q ],
    )
    | inr (i, f, ((u, g, q), h, first)) ↦
        inr (suc i, rw (e, f) refl, ((u, g, q), omega arith, λ j v l k. before e first j v l k))
  ]
]
  where
    other : {u : Text} → (t.id == target) ≡ false → u ≡ t.id → u ≡ target → ⊥
    other e f q = cc (e, (text_eq.beq_iff t.id target).1 (rw (← f) q))

    before :
        {i : ℕ}
        → (t.id == target) ≡ false
        → ((j : ℕ) (v : BlockTrip) → j < i → get_elem? ts j ≡ some v → v.id ≢ target)
        → (j : ℕ) (v : BlockTrip) → j < suc i
        → get_elem? (t ∷ ts) j ≡ some v
        → v.id ≢ target
    before e first zero v l k q =
        let same : t ≡ v = cc k in other e (sym (ap (λ (x : BlockTrip). x.id) same)) q
    before e first (suc j) v l k q = first j v (omega arith) k q

-- The trips kept are the longest run around the first trip with the target's ID in which no trip starts
-- before the one ahead of it ends, and none are kept where no trip has that ID.
pub keep_shift_containing_trip-IsShift :
    (trips : List BlockTrip) (target : Text)
    → ((keep_shift_containing_trip trips target ≡ [])
        × ((t : BlockTrip) → In t trips → t.id ≢ target))
      ⊎ ((i : ℕ) × (start : ℕ) × (end : ℕ) × StandsFirst target trips i
          × IsShift trips i start end
          × (keep_shift_containing_trip trips target ≡ drop start (take end trips)))
unfolding keep_shift_containing_trip
keep_shift_containing_trip-IsShift trips target = elim (target_index-cases target trips) [
  | inl (n, lacks) ↦ inl (rw (n, keep_shift_containing_trip) refl, lacks)
  | inr (i, e, first) ↦ inr (
    i,
    shift_start trips i,
    shift_end trips i (length trips - 1 - i),
    first,
    IsShift-around trips i first.1,
    rw (e, keep_shift_containing_trip) refl,
  )
]
