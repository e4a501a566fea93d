-- ===== src/Timeline.antt =====
-- internal/restapi/scheduled_block_helper.go: the next stop of a block at a time and the distance along
-- the block then. `slices.BinarySearchFunc` and float64 are parameters.
pub mod Search
pub mod Brackets
use maglev.Prelude.{
  ℕ, zero, suc, ◌-◌, eqb, drop, get_elem?, pos, sub_int, int_eq, ◌==◌, Bool, true, false, Option,
  none, some, List, [], ◌∷◌, length, ltb, if◌then◌else◌, not, ℤ, lt_int,
}

-- `blockStopMetric`; `N` is float64
pub record BlockStop (N : Type 0) : Type 0 where
  pub block_sequence : ℤ
  pub effective_stop_seconds : ℤ
  pub distance_along_block : N

-- `slices.BinarySearchFunc` by an int64 key: the index that it returns
pub record Searching : Type 1 where
  pub binary_search : {A : Type 0} → (A → ℤ) → List A → ℤ → ℕ

module _ {N : Type 0} where
  -- `stopsAreMonotonic`
  unfoldable pub stops_are_monotonic : List (BlockStop N) → Bool
  stops_are_monotonic [] = true
  stops_are_monotonic (s ∷ []) = true
  stops_are_monotonic (s ∷ t ∷ ss) =
      let rest = stops_are_monotonic (t ∷ ss) in
      if lt_int t.effective_stop_seconds s.effective_stop_seconds then false else rest

  -- the linear scan of `findNextStopIndex`; `none` is -1
  unfoldable pub scan_next : ℤ → List (BlockStop N) → Option ℕ
  scan_next current [] = none
  scan_next current (s ∷ ss) =
      let rest = scan_next current ss in
      if lt_int s.effective_stop_seconds current
      then elim rest [ none ↦ none | some i ↦ some (suc i) ]
      else some 0

  unfoldable pub or_past : ℕ → List (BlockStop N) → Option ℕ
  or_past i stops = if ltb i (length stops) then some i else none

  -- `findNextStopIndex`
  unfoldable pub find_next_stop_index : Searching → List (BlockStop N) → ℤ → Bool → Option ℕ
  find_next_stop_index search [] current monotonic = none
  find_next_stop_index search (s ∷ ss) current monotonic =
      if monotonic
      then or_past
          (search.binary_search (λ (t : BlockStop N). t.effective_stop_seconds) (s ∷ ss) current)
          (s ∷ ss)
      else scan_next current (s ∷ ss)

  -- the linear scan of `interpolateBlockDistance`, with `i` and `idx`
  unfoldable pub scan_after : ℤ → ℕ → ℕ → List (BlockStop N) → ℕ
  scan_after current i idx [] = idx
  scan_after current i idx (s ∷ ss) =
      let rest = scan_after current (suc i) i ss in
      if lt_int current s.effective_stop_seconds then i else rest

  -- `idx`, of the stop `to`
  unfoldable pub bracket_index : Searching → List (BlockStop N) → ℤ → Bool → ℕ
  bracket_index search stops current monotonic =
      let idx =
        search.binary_search (λ (t : BlockStop N). t.effective_stop_seconds) stops current in
      if monotonic then (if eqb idx 0 then 1 else idx) else scan_after current 1 1 (drop 1 stops)

  -- the last stop of a list
  unfoldable pub last_stop : BlockStop N → List (BlockStop N) → BlockStop N
  last_stop s [] = s
  last_stop s (t ∷ ts) = last_stop t ts

  -- `stops[idx-1]` and `stops[idx]`; `none` is an index that is out of range
  unfoldable pub bracket_at : List (BlockStop N) → ℕ → Option (BlockStop N × BlockStop N)
  bracket_at stops zero = none
  bracket_at stops (suc i) = elim (get_elem? stops i) [
    | none ↦ none
    | some from ↦ elim (get_elem? stops (suc i)) [ none ↦ none | some to ↦ some (from, to) ]
  ]

-- float64
pub record Floats (N : Type 0) : Type 0 where
  pub zero_distance : N
  pub of_int : ℤ → N
  pub add : N → N → N
  pub sub : N → N → N
  pub mul : N → N → N
  pub div : N → N → N

module _ {N : Type 0} (floats : Floats N) where
  unfoldable pub between : BlockStop N → BlockStop N → ℤ → N
  between from to current =
      let span = sub_int to.effective_stop_seconds from.effective_stop_seconds in
      let ratio =
        floats.div (floats.of_int (sub_int current from.effective_stop_seconds))
          (floats.of_int span) in
      if span == pos 0
      then from.distance_along_block
      else floats.add from.distance_along_block
          (floats.mul ratio (floats.sub to.distance_along_block from.distance_along_block))

  -- `interpolateBlockDistance`
  unfoldable pub interpolate_block_distance : Searching → List (BlockStop N) → ℤ → Bool → Option N
  interpolate_block_distance search [] current monotonic = some floats.zero_distance
  interpolate_block_distance search (s ∷ ss) current monotonic =
      if not (lt_int s.effective_stop_seconds current)
      then some s.distance_along_block
      else if not (lt_int current (last_stop s ss).effective_stop_seconds)
      then some (last_stop s ss).distance_along_block
      else elim (bracket_at (s ∷ ss) (bracket_index search (s ∷ ss) current monotonic)) [
        | none ↦ none
        | some b ↦ some (between b.0 b.1 current)
      ]
