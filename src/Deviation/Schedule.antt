-- ===== src/Deviation/Schedule.antt =====
-- internal/restapi/trip_updates_helper.go: which scheduled occurrence of a stop a stop time update
-- is about. A trip that loops has a stop more than once.
use maglev.Prelude.{
  ℕ, ◌≤◌, Bool, true, false, not, ◌||◌, Option, none, some, List, [], ◌∷◌, In, eqb, ltb,
  if◌then◌else◌, ◌>>=◌, ℤ, pos, negsuc, sub_int, abs_int, lt_int, ◌≡◌, ◌⊎◌, refl, ap, ◌∙◌, arith,
  Bool-cases, Option-cases, subst, sym, inl, inr, ◌↔◌, eqb_iff,
}

-- `schedEntry`
pub record SchedEntry : Type 0 where
  pub seq : ℤ
  pub arr : ℤ
  pub dep : ℤ

-- `minAbs`
unfoldable pub min_abs : ℤ → ℤ → ℕ
min_abs a b = if ltb (abs_int a) (abs_int b) then abs_int a else abs_int b

unfoldable pub delta_of : ℤ → SchedEntry → ℕ
delta_of ref e = min_abs (sub_int e.arr ref) (sub_int e.dep ref)

-- `e.seq == int64(stuSeq)`
unfoldable pub has_sequence : ℕ → SchedEntry → Bool
has_sequence n e = elim e.seq [ pos k ↦ eqb k n | negsuc k ↦ false ]

unfoldable pub find_sequence : ℕ → List SchedEntry → Option SchedEntry
find_sequence n [] = none
find_sequence n (e ∷ es) =
    let rest = find_sequence n es in if has_sequence n e then some e else rest

-- the loop over the other entries, with `picked` and `bestDelta`
unfoldable pub pick_closest : ℤ → SchedEntry → ℕ → List SchedEntry → SchedEntry
pick_closest ref picked best [] = picked
pick_closest ref picked best (e ∷ es) =
    let replaced = pick_closest ref e (delta_of ref e) es in
    let kept = pick_closest ref picked best es in
    if ltb (delta_of ref e) best then replaced else kept

abbrev is_nil : List SchedEntry → Bool
is_nil [] = true
is_nil (e ∷ es) = false

-- `matchScheduleEntry`
unfoldable pub match_entry : SchedEntry → List SchedEntry → Option ℕ → ℤ → SchedEntry
match_entry e es stu_seq ref = elim (stu_seq >>= λ n. find_sequence n (e ∷ es)) [
  | some x ↦ x
  | none ↦
      if is_nil es || not (lt_int (pos 0) ref) then e else pick_closest ref e (delta_of ref e) es
]

unfoldable pub match_schedule_entry : List SchedEntry → Option ℕ → ℤ → ℤ × ℤ
match_schedule_entry [] stu_seq ref = (pos 0, pos 0)
match_schedule_entry (e ∷ es) stu_seq ref =
    ((match_entry e es stu_seq ref).arr, (match_entry e es stu_seq ref).dep)

least_of :
    (ref : ℤ) (x e : SchedEntry) (es : List SchedEntry)
    → delta_of ref x ≤ delta_of ref e
    → ((y : SchedEntry) → In y es → delta_of ref x ≤ delta_of ref y)
    → (y : SchedEntry) → In y (e ∷ es)
    → delta_of ref x ≤ delta_of ref y
least_of ref x e es h rest y (inl i) = rw i h
least_of ref x e es h rest y (inr i) = rest y i

widen : (x p e : SchedEntry) (es : List SchedEntry) → (x ≡ p) ⊎ In x es → (x ≡ p) ⊎ In x (e ∷ es)
widen x p e es (inl i) = inl i
widen x p e es (inr i) = inr (inr i)

pick_closest-least :
    (ref : ℤ) (picked : SchedEntry) (best : ℕ) (es : List SchedEntry)
    → best ≡ delta_of ref picked
    → (x : SchedEntry) × (pick_closest ref picked best es ≡ x)
      × ((x ≡ picked) ⊎ In x es)
      × (delta_of ref x ≤ best)
      × ((y : SchedEntry) → In y es → delta_of ref x ≤ delta_of ref y)
unfolding pick_closest
pick_closest-least ref picked best [] h = (picked, refl, inl refl, omega arith, λ y i. absurd i)
pick_closest-least ref picked best (e ∷ es) h = elim (Bool-cases (ltb (delta_of ref e) best)) [
  | inl f ↦
      let rest = pick_closest-least ref e (delta_of ref e) es refl in
      (
        rest.0,
        rw f (rest.1),
        inr rest.2,
        ground (arith, f, rest.3),
        least_of ref rest.0 e es rest.3 rest.4,
      )
  | inr f ↦
      let rest = pick_closest-least ref picked best es h in
      (
        rest.0,
        rw f (rest.1),
        widen rest.0 picked e es rest.2,
        rest.3,
        least_of ref rest.0 e es (ground (arith, f, rest.3)) rest.4,
      )
]

match_schedule_entry-closest :
    (e : SchedEntry) (es : List SchedEntry) (stu_seq : Option ℕ) (ref : ℤ)
    → (stu_seq >>= λ n. find_sequence n (e ∷ es)) ≡ none
    → lt_int (pos 0) ref ≡ true
    → (x : SchedEntry) × In x (e ∷ es)
      × (match_schedule_entry (e ∷ es) stu_seq ref ≡ (x.arr, x.dep))
      × ((y : SchedEntry) → In y (e ∷ es) → delta_of ref x ≤ delta_of ref y)
unfolding match_schedule_entry
match_schedule_entry-closest e es stu_seq ref unmatched later =
    let least = pick_closest-least ref e (delta_of ref e) es refl in
    (
      least.0,
      least.2,
      ap (λ (x : SchedEntry). (x.arr, x.dep)) (picked es unmatched ∙ least.1),
      least_of ref least.0 e es least.3 least.4,
    )
  where
    picked :
        (es : List SchedEntry)
        → (stu_seq >>= λ n. find_sequence n (e ∷ es)) ≡ none
        → match_entry e es stu_seq ref ≡ pick_closest ref e (delta_of ref e) es
    picked [] u = unfold match_entry pick_closest in rw (u, match_entry) refl
    picked (d ∷ ds) u = unfold match_entry in rw (u, later, match_entry) refl

find_sequence-has :
    (n : ℕ) (es : List SchedEntry) (x : SchedEntry)
    → In x es
    → has_sequence n x ≡ true
    → (y : SchedEntry) × In y es × (has_sequence n y ≡ true) × (find_sequence n es ≡ some y)
unfolding find_sequence
find_sequence-has n [] x i h = absurd i
find_sequence-has n (e ∷ es) x i h = elim (Bool-cases (has_sequence n e)) [
  | inl f ↦ (e, inl refl, f, rw f refl)
  | inr f ↦
      let rest = find_sequence-has n es x (later i f) h in (rest.0, inr rest.1, rest.2, rw f rest.3)
]
  where
    later : In x (e ∷ es) → has_sequence n e ≡ false → In x es
    later (inl j) f = absurd (cc (j, h, f))
    later (inr j) f = j

find_sequence_sound :
    (n : ℕ) (es : List SchedEntry) (y : SchedEntry)
    → find_sequence n es ≡ some y
    → In y es × (has_sequence n y ≡ true)
unfolding find_sequence
find_sequence_sound n [] y f = cc
find_sequence_sound n (e ∷ es) y f = elim (Bool-cases (has_sequence n e)) [
  | inl h ↦
      let same : e ≡ y = cc (rw h at f) in
      subst (λ (x : SchedEntry). In x (e ∷ es) × (has_sequence n x ≡ true)) same (inl refl, h)
  | inr h ↦ let (i, k) = find_sequence_sound n es y (rw h at f) in (inr i, k)
]

-- no entry has the sequence of the update, or it has none
abbrev pub AreUnmatched : List SchedEntry → Option ℕ → Type 0
AreUnmatched es stu_seq =
    (n : ℕ) → stu_seq ≡ some n → (y : SchedEntry) → In y es → ¬ (y.seq ≡ pos n)

has_sequence_iff : (n : ℕ) (y : SchedEntry) → (has_sequence n y ≡ true) ↔ (y.seq ≡ pos n)
unfolding has_sequence
has_sequence_iff n y = of_seq y.seq refl
  where
    of_seq :
        (k : ℤ) → k ≡ y.seq → (elim k [ pos m ↦ eqb m n | negsuc m ↦ false ] ≡ true) ↔ (k ≡ pos n)
    of_seq (pos m) e = ground (arith, eqb_iff m n)
    of_seq (negsuc m) e = (λ h. absurd (cc h), λ h. absurd (cc h))

delta_of_lem :
    (ref : ℤ) (e : SchedEntry)
    → ((abs_int (sub_int e.arr ref) ≡ delta_of ref e)
        ⊎ (abs_int (sub_int e.dep ref) ≡ delta_of ref e))
      × (delta_of ref e ≤ abs_int (sub_int e.arr ref))
      × (delta_of ref e ≤ abs_int (sub_int e.dep ref))
unfolding delta_of min_abs
delta_of_lem ref e = ground arith

-- the ways in which an update is matched
pub data Matches (es : List SchedEntry) (stu_seq : Option ℕ) (ref : ℤ) : ℤ × ℤ → Type 0 where
  no_entries : es ≡ [] → Matches es stu_seq ref (pos 0, pos 0)
  by_sequence :
      (n : ℕ) (y : SchedEntry)
      → stu_seq ≡ some n
      → In y es
      → y.seq ≡ pos n
      → Matches es stu_seq ref (y.arr, y.dep)
  by_time :
      (x : SchedEntry) (gap : ℕ)
      → AreUnmatched es stu_seq
      → lt_int (pos 0) ref ≡ true
      → In x es
      → (abs_int (sub_int x.arr ref) ≡ gap) ⊎ (abs_int (sub_int x.dep ref) ≡ gap)
      → ((y : SchedEntry)
          → In y es
          → (gap ≤ abs_int (sub_int y.arr ref)) × (gap ≤ abs_int (sub_int y.dep ref)))
      → Matches es stu_seq ref (x.arr, x.dep)
  as_first :
      (e : SchedEntry) (rest : List SchedEntry)
      → AreUnmatched es stu_seq
      → lt_int (pos 0) ref ≡ false
      → es ≡ e ∷ rest
      → Matches es stu_seq ref (e.arr, e.dep)

unfound :
    (n : ℕ) (es : List SchedEntry)
    → find_sequence n es ≡ none
    → (y : SchedEntry) → In y es
    → has_sequence n y ≡ false
unfound n es f y i = elim (Bool-cases (has_sequence n y)) [
  | inr h ↦ h
  | inl h ↦ let r = find_sequence-has n es y i h in absurd (cc (f, r.3))
]

without_sequence :
    (e : SchedEntry) (es : List SchedEntry) (stu_seq : Option ℕ) (ref : ℤ)
    → (stu_seq >>= λ n. find_sequence n (e ∷ es)) ≡ none
    → AreUnmatched (e ∷ es) stu_seq
    → Matches (e ∷ es) stu_seq ref (match_schedule_entry (e ∷ es) stu_seq ref)
unfolding match_schedule_entry
without_sequence e es stu_seq ref f u = elim (Bool-cases (lt_int (pos 0) ref)) [
  | inl h ↦
      let (x, i, q, least) = match_schedule_entry-closest e es stu_seq ref f h in
      subst (Matches (e ∷ es) stu_seq ref) (sym q) (
        by_time x (delta_of ref x) u h i (delta_of_lem ref x).0 (λ y j. (
          omega (arith, least y j, (delta_of_lem ref y).1),
          omega (arith, least y j, (delta_of_lem ref y).2),
        )))
  | inr h ↦
      subst (λ (x : SchedEntry). Matches (e ∷ es) stu_seq ref (x.arr, x.dep))
        (sym (first_taken es f h)) (as_first e es u h refl)
]
  where
    first_taken :
        (es : List SchedEntry)
        → (stu_seq >>= λ n. find_sequence n (e ∷ es)) ≡ none
        → lt_int (pos 0) ref ≡ false
        → match_entry e es stu_seq ref ≡ e
    first_taken [] f h = unfold match_entry in rw (f, match_entry) refl
    first_taken (d ∷ ds) f h = unfold match_entry in rw (f, h, match_entry) refl

-- A stop time update is matched with the times of an entry of the stop that has the update's stop
-- sequence, where there is one; without one, with the times of an entry whose arrival or departure is as
-- close to the update's time as any arrival or departure of the entries, or with the first entry's where that time is not after the start of the
-- service date; and with zeroes where the stop has no entries.
pub match_schedule_entry-Matches :
    (es : List SchedEntry) (stu_seq : Option ℕ) (ref : ℤ)
    → Matches es stu_seq ref (match_schedule_entry es stu_seq ref)
unfolding match_schedule_entry match_entry
match_schedule_entry-Matches [] stu_seq ref = no_entries refl
match_schedule_entry-Matches (e ∷ es) none ref =
    without_sequence e es none ref refl (λ n q. absurd (cc q))
match_schedule_entry-Matches (e ∷ es) (some n) ref =
    elim (Option-cases (find_sequence n (e ∷ es))) [
      | inr (y, f) ↦
          let (i, h) = find_sequence_sound n (e ∷ es) y f in
          rw (f, match_schedule_entry, match_entry)
            (by_sequence n y refl i ((has_sequence_iff n y).0 h))
      | inl f ↦ without_sequence e es (some n) ref f (λ m q y i.
          let same : n ≡ m = cc q in
          subst (λ (k : ℕ). ¬ (y.seq ≡ pos k)) same
            (λ s.
              let found = (has_sequence_iff n y).1 s in
              absurd (cc (found, unfound n (e ∷ es) f y i))))
    ]
