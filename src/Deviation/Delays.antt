-- ===== src/Deviation/Delays.antt =====
-- The delay of a block's trips: the last one that is given.
use maglev.Prelude.{
  ◌≤◌, ◌<◌, Option, none, some, List, [], ◌∷◌, ◌++◌, ltb, In, ℤ, pos, negsuc, abs_int, ◌≡◌, ◌⊎◌,
  refl, arith, inl, inr,
}
use maglev.Deviation.{
  TripUpdate, deviation, discard, block_not_active_threshold_seconds,
  exceeds_block_not_active_threshold, last_delay, judge, pick_trip_level_deviation,
}

pub exceeds-eq :
    (d : ℤ)
    → exceeds_block_not_active_threshold d ≡ ltb block_not_active_threshold_seconds (abs_int d)
unfolding exceeds_block_not_active_threshold abs_int
exceeds-eq (pos d) = refl
exceeds-eq (negsuc d) = refl

last_delay-append :
    {T : Type 0} (before after : List (TripUpdate T)) (t : TripUpdate T) (d : ℤ) (found : Option ℤ)
    → t.delay ≡ some d
    → ((u : TripUpdate T) → In u after → u.delay ≡ none)
    → last_delay (before ++ (t ∷ after)) found ≡ some d
unfolding last_delay
last_delay-append {T} [] after t d found e quiet = rw e (kept after quiet)
  where
    kept :
        (us : List (TripUpdate T))
        → ((u : TripUpdate T) → In u us → u.delay ≡ none)
        → last_delay us (some d) ≡ some d
    kept [] q = refl
    kept (u ∷ us) q = rw (q u (inl refl)) (kept us (λ v i. q v (inr i)))
last_delay-append (u ∷ before) after t d found e quiet =
    last_delay-append before after t d _ e quiet

-- Of a block's trip updates, in the order of the block, the last one that has a delay decides: its
-- delay is the deviation if it is at most an hour either way, and otherwise everything is
-- discarded, whatever the updates before it say.
pub pick_trip_level_deviation-last :
    {T : Type 0} (before after : List (TripUpdate T)) (t : TripUpdate T) (d : ℤ)
    → t.delay ≡ some d
    → ((u : TripUpdate T) → In u after → u.delay ≡ none)
    → ((abs_int d ≤ 3600) × (pick_trip_level_deviation (before ++ (t ∷ after)) ≡ deviation d))
      ⊎ ((3600 < abs_int d) × (pick_trip_level_deviation (before ++ (t ∷ after)) ≡ discard))
unfolding pick_trip_level_deviation judge
pick_trip_level_deviation-last before after t d e quiet =
    rw (last_delay-append before after t d none e quiet, exceeds-eq d) (ground arith)
