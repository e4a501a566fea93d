-- ===== src/Timeline/Brackets.antt =====
-- The two stops that the distance along a block is interpolated between.
use maglev.Prelude.{
  ℕ, zero, suc, ◌+◌, ◌<◌, Bool, true, false, Option, some, List, [], ◌∷◌, length, get_elem?, ℤ, pos,
  negsuc, lt_int, sub_int, int_beq, ◌==◌, int_eq, ◌≡◌, ◌⊎◌, refl, sym, subst, arith, Bool-cases,
  inl, inr,
}
use maglev.Timeline.{
  BlockStop, Searching, stops_are_monotonic, scan_after, bracket_index, Floats, last_stop, between,
  bracket_at, interpolate_block_distance,
}
use maglev.Timeline.Search.{IsPlace, SearchLaws, stops_are_monotonic-IsAscending}

lt_int_asymmetric : (x y : ℤ) → lt_int x y ≡ true → lt_int y x ≡ false
unfolding lt_int
lt_int_asymmetric (pos a) (pos b) h = ground arith
lt_int_asymmetric (pos a) (negsuc b) h = absurd (cc h)
lt_int_asymmetric (negsuc a) (pos b) h = refl
lt_int_asymmetric (negsuc a) (negsuc b) h = ground arith

-- x < y ≤ z
lt_int_trans : (x y z : ℤ) → lt_int x y ≡ true → lt_int z y ≡ false → lt_int x z ≡ true
unfolding lt_int
lt_int_trans (pos a) (pos b) (pos c) h k = ground arith
lt_int_trans (pos a) (pos b) (negsuc c) h k = absurd (cc k)
lt_int_trans (pos a) (negsuc b) z h k = absurd (cc h)
lt_int_trans (negsuc a) (pos b) (pos c) h k = refl
lt_int_trans (negsuc a) (pos b) (negsuc c) h k = absurd (cc k)
lt_int_trans (negsuc a) (negsuc b) (pos c) h k = refl
lt_int_trans (negsuc a) (negsuc b) (negsuc c) h k = ground arith

-- x ≤ y < z
trans_lt_int : (x y z : ℤ) → lt_int y x ≡ false → lt_int y z ≡ true → lt_int x z ≡ true
unfolding lt_int
trans_lt_int (pos a) (pos b) (pos c) h k = ground arith
trans_lt_int (pos a) (negsuc b) z h k = absurd (cc h)
trans_lt_int x (pos b) (negsuc c) h k = absurd (cc k)
trans_lt_int (negsuc a) (pos b) (pos c) h k = refl
trans_lt_int (negsuc a) (negsuc b) (pos c) h k = refl
trans_lt_int (negsuc a) (negsuc b) (negsuc c) h k = ground arith

get_elem?-in :
    {A : Type 0} (xs : List A) (i : ℕ) → i < length xs → (x : A) × (get_elem? xs i ≡ some x)
get_elem?-in [] i h = absurd (omega arith)
get_elem?-in (x ∷ xs) zero h = (x, refl)
get_elem?-in (x ∷ xs) (suc i) h = get_elem?-in xs i (omega arith)

module _ {N : Type 0} where
  abbrev seconds : BlockStop N → ℤ
  seconds s = s.effective_stop_seconds

  -- two stops in a row, the first not after the time, the second not before it and later than the first
  pub record Brackets (stops : List (BlockStop N)) (current : ℤ) (from to : BlockStop N) (i : ℕ)
      : Type 0 where
    is_from : get_elem? stops i ≡ some from
    is_to : get_elem? stops (suc i) ≡ some to
    from_reached : lt_int current from.effective_stop_seconds ≡ false
    to_ahead : lt_int to.effective_stop_seconds current ≡ false
    pub apart : lt_int from.effective_stop_seconds to.effective_stop_seconds ≡ true

  -- the last stop is at the last index
  get_elem?-last_stop :
      (s : BlockStop N) (ss : List (BlockStop N))
      → get_elem? (s ∷ ss) (length ss) ≡ some (last_stop s ss)
  unfolding last_stop
  get_elem?-last_stop s [] = refl
  get_elem?-last_stop s (t ∷ ts) = get_elem?-last_stop t ts

  module _ (s : BlockStop N) (ss : List (BlockStop N)) (current : ℤ) where
    bracketed :
        (idx : ℕ)
        → lt_int s.effective_stop_seconds current ≡ true
        → lt_int current (last_stop s ss).effective_stop_seconds ≡ true
        → IsPlace seconds (s ∷ ss) current idx
        → (i : ℕ) × (from : BlockStop N) × (to : BlockStop N) × (idx ≡ suc i)
          × Brackets (s ∷ ss) current from to i
    bracketed zero h k p = absurd (cc (h, p.not_below 0 s (omega arith) refl))
    bracketed (suc i) h k p =
        let (from, f) = get_elem?-in (s ∷ ss) i (omega (arith, p.bounded)) in
        let r : (suc i < length (s ∷ ss)) ⊎ (i ≡ length ss) = omega (arith, p.bounded) in
        elim r [
          | inr q ↦
              let past =
                p.below i (last_stop s ss) (omega arith) (rw q (get_elem?-last_stop s ss)) in
              absurd (cc (lt_int_asymmetric _ _ past, k))
          | inl q ↦
              let (to, t) = get_elem?-in (s ∷ ss) (suc i) q in
              let before = p.below i from (omega arith) f in
              let ahead = p.not_below (suc i) to (omega arith) t in
              (
                i,
                from,
                to,
                refl,
                record {
                  is_from = f;
                  is_to = t;
                  from_reached = lt_int_asymmetric _ _ before;
                  to_ahead = ahead;
                  apart = lt_int_trans _ _ _ before ahead;
                },
              )
        ]

  scan_after-lem :
      (x : BlockStop N) (ss : List (BlockStop N)) (current : ℤ) (k idx : ℕ)
      → lt_int current x.effective_stop_seconds ≡ false
      → lt_int current (last_stop x ss).effective_stop_seconds ≡ true
      → (m : ℕ) × (from : BlockStop N) × (to : BlockStop N) × (scan_after current (suc k) idx ss
          ≡ suc (k + m))
        × Brackets (x ∷ ss) current from to m
  unfolding scan_after last_stop
  scan_after-lem x [] current k idx h l = absurd (cc (h, l))
  scan_after-lem x (y ∷ ys) current k idx h l =
      elim (Bool-cases (lt_int current y.effective_stop_seconds)) [
        | inl e ↦ (
          0,
          x,
          y,
          rw e (omega arith),
          record {
            is_from = refl;
            is_to = refl;
            from_reached = h;
            to_ahead = lt_int_asymmetric _ _ e;
            apart = trans_lt_int _ _ _ h e;
          },
        )
        | inr e ↦
            let (m, from, to, q, b) = scan_after-lem y ys current (suc k) (suc k) e l in
            (
              suc m,
              from,
              to,
              rw e (omega (arith, q)),
              record {
                is_from = b.is_from;
                is_to = b.is_to;
                from_reached = b.from_reached;
                to_ahead = b.to_ahead;
                apart = b.apart;
              },
            )
      ]

  bracket_index-Brackets :
      (search : Searching) (s : BlockStop N) (ss : List (BlockStop N)) (current : ℤ)
      → SearchLaws search
      → lt_int s.effective_stop_seconds current ≡ true
      → lt_int current (last_stop s ss).effective_stop_seconds ≡ true
      → (i : ℕ) × (from : BlockStop N) × (to : BlockStop N) × (bracket_index search
            (s ∷ ss)
            current
            (stops_are_monotonic (s ∷ ss))
          ≡ suc i)
        × Brackets (s ∷ ss) current from to i
  unfolding bracket_index
  bracket_index-Brackets search s ss current laws h l =
      elim (Bool-cases (stops_are_monotonic (s ∷ ss))) [
        | inr e ↦
            let (m, from, to, q, b) = scan_after-lem s ss current 0 1 (lt_int_asymmetric _ _ h) l in
            (m, from, to, rw e (omega (arith, q)), b)
        | inl e ↦
            let (i, from, to, q, b) =
              bracketed s ss current (search.binary_search seconds (s ∷ ss) current) h l (
                laws.place seconds (s ∷ ss) current (stops_are_monotonic-IsAscending (s ∷ ss) e)) in
            (i, from, to, rw (e, q) (ground arith), b)
      ]

sub_int_apart : (x y : ℤ) → lt_int x y ≡ true → (sub_int y x == pos 0) ≡ false
unfolding lt_int sub_int int_beq
sub_int_apart (pos a) (pos b) h = ground arith
sub_int_apart (pos a) (negsuc b) h = absurd (cc h)
sub_int_apart (negsuc a) (pos b) h = ground arith
sub_int_apart (negsuc a) (negsuc b) h = ground arith

module _ {N : Type 0} (floats : Floats N) where
  -- the distance at a time between two stops
  abbrev pub on_the_line : BlockStop N → BlockStop N → ℤ → N
  on_the_line from to current = floats.add from.distance_along_block (
      floats.mul
        (floats.div (floats.of_int (sub_int current from.effective_stop_seconds))
          (floats.of_int (sub_int to.effective_stop_seconds from.effective_stop_seconds)))
        (floats.sub to.distance_along_block from.distance_along_block))

  -- where the distance along the block comes from
  pub data Interpolates (s : BlockStop N) (ss : List (BlockStop N)) (current : ℤ)
      : Option N → Type 0 where
    at_start :
        lt_int s.effective_stop_seconds current ≡ false
        → Interpolates s ss current (some s.distance_along_block)
    at_end :
        lt_int current (last_stop s ss).effective_stop_seconds ≡ false
        → Interpolates s ss current (some (last_stop s ss).distance_along_block)
    inside :
        (i : ℕ) (from to : BlockStop N)
        → Brackets (s ∷ ss) current from to i
        → Interpolates s ss current (some (on_the_line from to current))

  interpolate-bracket :
      (search : Searching) (s : BlockStop N) (ss : List (BlockStop N)) (current : ℤ)
      (monotonic : Bool) (i : ℕ) (from to : BlockStop N)
      → lt_int s.effective_stop_seconds current ≡ true
      → lt_int current (last_stop s ss).effective_stop_seconds ≡ true
      → bracket_index search (s ∷ ss) current monotonic ≡ suc i
      → Brackets (s ∷ ss) current from to i
      → interpolate_block_distance floats search (s ∷ ss) current monotonic
        ≡ some (on_the_line from to current)
  unfolding interpolate_block_distance bracket_at between
  interpolate-bracket search s ss current monotonic i from to h l q b =
      let found : bracket_at (s ∷ ss) (suc i) ≡ some (from, to) =
        rw (b.is_from, bracket_at) (rw (b.is_to, bracket_at) refl) in
      rw (h, l, q, found, interpolate_block_distance) (rw (sub_int_apart _ _ b.apart) refl)

  -- Where the search finds the place of its target among ascending keys, the distance along a block with
  -- stops never comes from an index out of range or a division by zero: it is that of the first stop up to
  -- its time, that of the last stop from its time on, and between them the linear interpolation of
  -- two stops in a row, the first not after the time, the second not before it and later than the first;
  -- whether or not the stops are in the order of their times.
  pub interpolate_block_distance-Interpolates :
      (search : Searching) (s : BlockStop N) (ss : List (BlockStop N)) (current : ℤ)
      → SearchLaws search
      → Interpolates s ss current
          (interpolate_block_distance floats search (s ∷ ss) current (stops_are_monotonic (s ∷ ss)))
  unfolding interpolate_block_distance
  interpolate_block_distance-Interpolates search s ss current laws =
      elim (Bool-cases (lt_int s.effective_stop_seconds current)) [
        | inr h ↦ rw (h, interpolate_block_distance) (at_start h)
        | inl h ↦ elim (Bool-cases (lt_int current (last_stop s ss).effective_stop_seconds)) [
          | inr l ↦ rw (h, l, interpolate_block_distance) (at_end l)
          | inl l ↦
              let (i, from, to, q, b) = bracket_index-Brackets search s ss current laws h l in
              subst (Interpolates s ss current)
                (sym (
                  interpolate-bracket search s ss current (stops_are_monotonic (s ∷ ss)) i from to h
                    l q b))
                (inside i from to b)
        ]
      ]
