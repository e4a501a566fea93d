-- ===== src/Arrivals/Predictions/Priors.antt =====
-- The closest stop before the target that the loop of `getPredictedTimes` finds.
use maglev.Prelude.{
  Bool, true, false, ◌&&◌, not, Option, none, List, [], ◌∷◌, In, Text, Map, ℤ, pos, int_beq, lt_int,
  lt_int_irrefl, not_lt_int_below, ◌≡◌, refl, sym, subst, arith, ◌⊎◌, inl, inr, Bool-cases,
  Option-cases,
}
use maglev.Deviation.{StopTimeUpdate}
use maglev.Deviation.Block.{StopTimeRow}
use maglev.Arrivals.Predictions.{
  Scan, nothing_seen, sequence_of, minus_one, passed_on, try_fallback, choose, note_prior, scan,
}

module _ {T : Type 0} (target_sequence : ℤ) where
  -- the update's sequence stands before the target's
  abbrev pub is_before : StopTimeUpdate T → Bool
  is_before stu =
      not (int_beq (sequence_of stu) minus_one) && lt_int (sequence_of stu) target_sequence

  -- `stu` is before the target, and no update before the target is closer
  pub record IsClosest (stus : List (StopTimeUpdate T)) (stu : StopTimeUpdate T) : Type 0 where
    pub listed : In stu stus
    pub before : is_before stu ≡ true
    pub closest :
        (other : StopTimeUpdate T)
        → In other stus
        → is_before other ≡ true
        → lt_int (sequence_of stu) (sequence_of other) ≡ false

  abbrev pub NoneBefore : List (StopTimeUpdate T) → Type 0
  NoneBefore stus = (stu : StopTimeUpdate T) → In stu stus → is_before stu ≡ false

  -- what the loop holds once it has seen the updates
  abbrev pub Seen : List (StopTimeUpdate T) → Scan T → Type 0
  Seen stus s =
      (NoneBefore stus × (s.closest_prior_sequence ≡ minus_one) × (s.propagated_delay ≡ pos 0))
      ⊎ ((stu : StopTimeUpdate T) × IsClosest stus stu
          × (s.closest_prior_sequence ≡ sequence_of stu)
          × (s.propagated_delay ≡ passed_on stu))

  before_above :
      (stu : StopTimeUpdate T) → is_before stu ≡ true → lt_int minus_one (sequence_of stu) ≡ true
  unfolding sequence_of int_beq lt_int
  before_above stu h = elim (Option-cases stu.stop_sequence) [
    | inl e ↦ absurd (cc (rw e at h))
    | inr (n, e) ↦ rw e refl
  ]

  extend-NoneBefore :
      (stu : StopTimeUpdate T) (stus : List (StopTimeUpdate T))
      → is_before stu ≡ false
      → NoneBefore stus
      → NoneBefore (stu ∷ stus)
  extend-NoneBefore stu stus h seen other (inl e) = rw e h
  extend-NoneBefore stu stus h seen other (inr i) = seen other i

  extend-IsClosest :
      (stu best : StopTimeUpdate T) (stus : List (StopTimeUpdate T))
      → (is_before stu ≡ true → lt_int (sequence_of best) (sequence_of stu) ≡ false)
      → IsClosest stus best
      → IsClosest (stu ∷ stus) best
  extend-IsClosest stu best stus h c = record {
    listed = inr c.listed;
    before = c.before;
    closest = bound;
  }
    where
      bound :
          (other : StopTimeUpdate T)
          → In other (stu ∷ stus)
          → is_before other ≡ true
          → lt_int (sequence_of best) (sequence_of other) ≡ false
      bound other (inl e) b = rw e (h (rw e at b))
      bound other (inr i) b = c.closest other i b

  first-IsClosest :
      (stu : StopTimeUpdate T) (stus : List (StopTimeUpdate T))
      → is_before stu ≡ true
      → ((other : StopTimeUpdate T)
          → In other stus
          → is_before other ≡ true
          → lt_int (sequence_of stu) (sequence_of other) ≡ false)
      → IsClosest (stu ∷ stus) stu
  first-IsClosest stu stus b h = record { listed = inl refl; before = b; closest = bound }
    where
      bound :
          (other : StopTimeUpdate T)
          → In other (stu ∷ stus)
          → is_before other ≡ true
          → lt_int (sequence_of stu) (sequence_of other) ≡ false
      bound other (inl e) q = rw e (lt_int_irrefl (sequence_of stu))
      bound other (inr i) q = h other i q

  replace-IsClosest :
      (stu best : StopTimeUpdate T) (stus : List (StopTimeUpdate T))
      → is_before stu ≡ true
      → lt_int (sequence_of best) (sequence_of stu) ≡ true
      → IsClosest stus best
      → IsClosest (stu ∷ stus) stu
  replace-IsClosest stu best stus b h c = first-IsClosest stu stus b (λ other i q.
      not_lt_int_below (sequence_of best) (sequence_of stu) (sequence_of other) h
        (c.closest other i q))

  prior_taken :
      (stu : StopTimeUpdate T) (s : Scan T)
      → is_before stu ≡ true
      → lt_int s.closest_prior_sequence (sequence_of stu) ≡ true
      → note_prior target_sequence stu s
        ≡ record s { closest_prior_sequence = sequence_of stu; propagated_delay = passed_on stu }
  unfolding note_prior
  prior_taken stu s b h = rw (b, h) refl

  prior_left :
      (stu : StopTimeUpdate T) (s : Scan T)
      → (is_before stu && lt_int s.closest_prior_sequence (sequence_of stu)) ≡ false
      → note_prior target_sequence stu s ≡ s
  unfolding note_prior
  prior_left stu s h = rw h refl

  taken-Seen :
      (stu : StopTimeUpdate T) (stus : List (StopTimeUpdate T)) (s : Scan T)
      → is_before stu ≡ true
      → lt_int s.closest_prior_sequence (sequence_of stu) ≡ true
      → IsClosest (stu ∷ stus) stu
      → Seen (stu ∷ stus) (note_prior target_sequence stu s)
  taken-Seen stu stus s b h c =
      subst (Seen (stu ∷ stus)) (sym (prior_taken stu s b h)) (inr (stu, c, refl, refl))

  note_prior-Seen :
      (stu : StopTimeUpdate T) (stus : List (StopTimeUpdate T)) (s : Scan T)
      → Seen stus s
      → Seen (stu ∷ stus) (note_prior target_sequence stu s)
  note_prior-Seen stu stus s (inl (unseen, c, p)) = elim (Bool-cases (is_before stu)) [
    | inl b ↦
        taken-Seen stu stus s b (rw c (before_above stu b))
          (first-IsClosest stu stus b (λ other i q. absurd (cc (q, unseen other i))))
    | inr b ↦
        subst (Seen (stu ∷ stus)) (sym (prior_left stu s (rw b refl)))
          (inl (extend-NoneBefore stu stus b unseen, c, p))
  ]
  note_prior-Seen stu stus s (inr (best, closest, c, p)) = elim (Bool-cases (is_before stu)) [
    | inl b ↦ elim (Bool-cases (lt_int s.closest_prior_sequence (sequence_of stu))) [
      | inl l ↦ taken-Seen stu stus s b l (replace-IsClosest stu best stus b (rw c at l) closest)
      | inr l ↦
          subst (Seen (stu ∷ stus)) (sym (prior_left stu s (rw (b, l) refl)))
            (inr (best, extend-IsClosest stu best stus (λ _. rw c at l) closest, c, p))
    ]
    | inr b ↦
        subst (Seen (stu ∷ stus)) (sym (prior_left stu s (rw b refl)))
          (inr (best, extend-IsClosest stu best stus (λ q. absurd (cc (b, q))) closest, c, p))
  ]

module _ {T : Type 0} where
  -- the updates in the order in which the loop has seen them, the last first
  abbrev push_all : List (StopTimeUpdate T) → List (StopTimeUpdate T) → List (StopTimeUpdate T)
  push_all seen [] = seen
  push_all seen (stu ∷ stus) = push_all (stu ∷ seen) stus

  In-push_all :
      (x : StopTimeUpdate T) (seen stus : List (StopTimeUpdate T))
      → In x (push_all seen stus)
      → In x seen ⊎ In x stus
  In-push_all x seen [] i = inl i
  In-push_all x seen (stu ∷ stus) i = elim (In-push_all x (stu ∷ seen) stus i) [
    | inl (inl e) ↦ inr (inl e)
    | inl (inr j) ↦ inl j
    | inr j ↦ inr (inr j)
  ]

  push_all-In_seen :
      (x : StopTimeUpdate T) (seen stus : List (StopTimeUpdate T))
      → In x seen
      → In x (push_all seen stus)
  push_all-In_seen x seen [] i = i
  push_all-In_seen x seen (stu ∷ stus) i = push_all-In_seen x (stu ∷ seen) stus (inr i)

  push_all-In :
      (x : StopTimeUpdate T) (seen stus : List (StopTimeUpdate T))
      → In x stus
      → In x (push_all seen stus)
  push_all-In x seen [] i = absurd i
  push_all-In x seen (stu ∷ stus) (inl e) = push_all-In_seen x (stu ∷ seen) stus (inl e)
  push_all-In x seen (stu ∷ stus) (inr i) = push_all-In x (stu ∷ seen) stus i

module _ {T : Type 0} (query : Option (List StopTimeRow)) (stop_code : Text)
    (target_sequence : ℤ) where
  choose_keeps_prior :
      (stu : StopTimeUpdate T) (loaded : Option (Map ℤ Text)) (s : Scan T)
      → ((choose query stop_code target_sequence stu loaded s).1.closest_prior_sequence
          ≡ s.closest_prior_sequence)
        × ((choose query stop_code target_sequence stu loaded s).1.propagated_delay
            ≡ s.propagated_delay)
  unfolding choose try_fallback
  choose_keeps_prior stu loaded s = ground arith

  choose-Seen :
      (stu : StopTimeUpdate T) (stus : List (StopTimeUpdate T)) (loaded : Option (Map ℤ Text))
      (s : Scan T)
      → Seen target_sequence stus s
      → Seen target_sequence stus (choose query stop_code target_sequence stu loaded s).1
  choose-Seen stu stus loaded s h = let (c, p) = choose_keeps_prior stu loaded s in rw (c, p) h

  scan-push_all-Seen :
      (seen stus : List (StopTimeUpdate T)) (loaded : Option (Map ℤ Text)) (s : Scan T)
      → Seen target_sequence seen s
      → Seen target_sequence
          (push_all seen stus)
          (scan query stop_code target_sequence stus loaded s)
  unfolding scan
  scan-push_all-Seen seen [] loaded s h = h
  scan-push_all-Seen seen (stu ∷ stus) loaded s h =
      let next = choose query stop_code target_sequence stu loaded s in
      scan-push_all-Seen (stu ∷ seen) stus next.0 (note_prior target_sequence stu next.1)
        (note_prior-Seen target_sequence stu seen next.1 (choose-Seen stu seen loaded s h))

  pub scan-Seen :
      (stus : List (StopTimeUpdate T))
      → Seen target_sequence stus (scan query stop_code target_sequence stus none nothing_seen)
  scan-Seen stus =
      elim (scan-push_all-Seen [] stus none nothing_seen (inl (λ x i. absurd i, refl, refl))) [
        | inl (unseen, c, p) ↦ inl (λ x i. unseen x (push_all-In x [] stus i), c, p)
        | inr (best, closest, c, p) ↦ inr (
          best,
          record {
            listed = elim (In-push_all best [] stus closest.listed) [
              | inl i ↦ absurd i
              | inr i ↦ i
            ];
            before = closest.before;
            closest = λ other i q. closest.closest other (push_all-In other [] stus i) q;
          },
          c,
          p,
        )
      ]
