-- ===== src/Blocks/Mates.antt =====
-- All trips of a shift have the same shift and, where the data of the block is consistent, the same block.
use maglev.Prelude.{
  ℕ, zero, suc, ◌≤◌, ◌<◌, false, some, List, [], ◌∷◌, take, drop, get_elem?, In, Text, text_eq,
  is_empty, contains_text, ◌≡◌, refl, sym, ap, ◌∙◌, subst, arith, ◌⊎◌, inl, inr, Bool-cases,
  Option-cases,
}
use maglev.Blocks.{
  BlockTrip, BlockRow, BlockQueries, keep_shift_containing_trip, active_ids, or_fallback,
  block_trip_ids_for_service_date,
}
use maglev.Blocks.Shifts.{IsShift, keep_shift_containing_trip-IsShift}

module _ (trips : List BlockTrip) where
  -- a shift that holds a trip of another shift is that shift
  IsShift-start :
      (i j s e t f : ℕ) → IsShift trips i s e → IsShift trips j t f → s ≤ j → j < e → s ≡ t
  IsShift-start i j s e t f a b h k =
      let order : (s ≡ t) ⊎ ((s < t) ⊎ (t < s)) = omega arith in
      elim order [
        | inl q ↦ q
        | inr (inl l) ↦ absurd (elim b.cut_before [
          | inl z ↦ omega (arith, z, l)
          | inr (c, q, o) ↦ cc (o, a.apart c (omega (arith, q, l)) (omega (arith, q, b.from, k)))
        ])
        | inr (inr l) ↦ absurd (elim a.cut_before [
          | inl z ↦ omega (arith, z, l)
          | inr (c, q, o) ↦ cc (o, b.apart c (omega (arith, q, l)) (omega (arith, q, b.to, h)))
        ])
      ]

  IsShift-end :
      (i j s e t f : ℕ) → IsShift trips i s e → IsShift trips j t f → s ≤ j → j < e → e ≡ f
  IsShift-end i j s e t f a b h k =
      let order : (e ≡ f) ⊎ ((e < f) ⊎ (f < e)) = omega arith in
      elim order [
        | inl q ↦ q
        | inr (inl l) ↦ absurd (elim a.cut_after [
          | inl z ↦ omega (arith, z, l, b.bounded)
          | inr (c, q, o) ↦ cc (o, b.apart c (omega (arith, q, k, b.from)) (omega (arith, q, l)))
        ])
        | inr (inr l) ↦ absurd (elim b.cut_after [
          | inl z ↦ omega (arith, z, l, a.bounded)
          | inr (c, q, o) ↦ cc (o, a.apart c (omega (arith, q, h, b.to)) (omega (arith, q, l)))
        ])
      ]

  -- no two trips have the same ID
  abbrev pub UniqueIds : Type 0
  UniqueIds =
      (i j : ℕ) (t u : BlockTrip)
      → get_elem? trips i ≡ some t
      → get_elem? trips j ≡ some u
      → t.id ≡ u.id
      → i ≡ j

In-drop :
    {A : Type 0} (xs : List A) (start end : ℕ) (x : A)
    → In x (drop start (take end xs))
    → (i : ℕ) × (start ≤ i) × (i < end) × (get_elem? xs i ≡ some x)
In-drop xs zero zero x i = absurd i
In-drop xs (suc start) zero x i = absurd i
In-drop [] zero (suc end) x i = absurd i
In-drop [] (suc start) (suc end) x i = absurd i
In-drop (y ∷ ys) zero (suc end) x (inl e) = (0, omega arith, omega arith, ap some (sym e))
In-drop (y ∷ ys) zero (suc end) x (inr i) =
    let (k, a, b, g) = In-drop ys zero end x i in (suc k, omega arith, omega (arith, b), g)
In-drop (y ∷ ys) (suc start) (suc end) x i =
    let (k, a, b, g) = In-drop ys start end x i in (suc k, omega (arith, a), omega (arith, b), g)

get_elem?-In : {A : Type 0} (xs : List A) (i : ℕ) (x : A) → get_elem? xs i ≡ some x → In x xs
get_elem?-In [] i x e = absurd (cc e)
get_elem?-In (y ∷ ys) zero x e = inl (cc e)
get_elem?-In (y ∷ ys) (suc i) x e = inr (get_elem?-In ys i x e)

-- the trips that are kept are trips of the block
pub keep_shift_containing_trip-In :
    (trips : List BlockTrip) (target : Text) (t : BlockTrip)
    → In t (keep_shift_containing_trip trips target)
    → In t trips
keep_shift_containing_trip-In trips target t i =
    elim (keep_shift_containing_trip-IsShift trips target) [
      | inl (n, lacks) ↦ absurd (subst (In t) n i)
      | inr (k, s, e, first, shift, kept) ↦
          let (j, a, b, g) = In-drop trips s e t (subst (In t) kept i) in get_elem?-In trips j t g
    ]

-- each trip that is kept for a target keeps the same shift
pub keep_shift_containing_trip-mate :
    (trips : List BlockTrip) (target : Text) (mate : BlockTrip)
    → UniqueIds trips
    → In mate (keep_shift_containing_trip trips target)
    → keep_shift_containing_trip trips mate.id ≡ keep_shift_containing_trip trips target
keep_shift_containing_trip-mate trips target mate unique i =
    elim (keep_shift_containing_trip-IsShift trips target) [
      | inl (n, lacks) ↦ absurd (subst (In mate) n i)
      | inr (k, s, e, first, shift, kept) ↦
          let (j, a, b, g) = In-drop trips s e mate (subst (In mate) kept i) in
          elim (keep_shift_containing_trip-IsShift trips mate.id) [
            | inl (n, lacks) ↦ absurd (lacks mate (get_elem?-In trips j mate g) refl)
            | inr (l, t, f, ((u, gu, q), h, firsts), other, kept_mate) ↦
                let same : l ≡ j = unique l j u mate gu g q in
                let start : s ≡ t =
                  IsShift-start trips k l s e t f shift other (omega (arith, a, same))
                    (omega (arith, b, same)) in
                let end : e ≡ f =
                  IsShift-end trips k l s e t f shift other (omega (arith, a, same))
                    (omega (arith, b, same)) in
                kept_mate ∙ rw (← start, ← end) (sym kept)
          ]
    ]

-- what the database says of blocks: each trip of a block has that block
abbrev pub OneBlock : BlockQueries → Type 0
OneBlock q =
    (block_id : Text) (rows : List BlockRow) (r : BlockRow)
    → q.get_trips_by_block_id block_id ≡ some rows
    → In r rows
    → q.get_block_id_by_trip_id r.id ≡ some block_id

In-active_ids :
    (active : List Text) (rows : List BlockRow) (id : Text)
    → In id (active_ids active rows)
    → (r : BlockRow) × In r rows × (r.id ≡ id)
unfolding active_ids
In-active_ids active [] id i = absurd i
In-active_ids active (r ∷ rs) id i = elim (Bool-cases (contains_text r.service_id active)) [
  | inl e ↦ elim (rw e at i) [
    | inl q ↦ (r, inl refl, sym q)
    | inr j ↦ let (s, k, q) = In-active_ids active rs id j in (s, inr k, q)
  ]
  | inr e ↦ let (s, k, q) = In-active_ids active rs id (rw e at i) in (s, inr k, q)
]

module _ (q : BlockQueries) (one : OneBlock q) where
  abbrev SameIds : Text → Text → Type 0
  SameIds id target =
      block_trip_ids_for_service_date q id ≡ block_trip_ids_for_service_date q target

  only_target : (id target : Text) → In id (target ∷ []) → SameIds id target
  only_target id target (inl e) = rw e refl
  only_target id target (inr i) = absurd i

  -- the IDs of a trip with a block, where the queries answer
  block_ids :
      (id block_id : Text) (rows : List BlockRow) (active : List Text)
      → q.get_block_id_by_trip_id id ≡ some block_id
      → is_empty block_id ≡ false
      → q.get_trips_by_block_id block_id ≡ some rows
      → q.get_active_service_ids_for_date ≡ some active
      → block_trip_ids_for_service_date q id ≡ or_fallback id (active_ids active rows)
  unfolding block_trip_ids_for_service_date
  block_ids id block_id rows active b f r a = rw (b, block_trip_ids_for_service_date, f, r, a) refl

  fallback_mate :
      (id target block_id : Text) (rows : List BlockRow) (active : List Text)
      → q.get_block_id_by_trip_id target ≡ some block_id
      → is_empty block_id ≡ false
      → q.get_trips_by_block_id block_id ≡ some rows
      → q.get_active_service_ids_for_date ≡ some active
      → In id (or_fallback target (active_ids active rows))
      → SameIds id target
  unfolding or_fallback
  fallback_mate id target block_id rows active b f r a i = by_ids (active_ids active rows) refl i
    where
      by_ids :
          (ids : List Text)
          → ids ≡ active_ids active rows
          → In id (or_fallback target ids)
          → SameIds id target
      by_ids [] e j = only_target id target j
      by_ids (k ∷ ks) e j =
          let (row, l, same) = In-active_ids active rows id (subst (In id) e j) in
          let own : q.get_block_id_by_trip_id id ≡ some block_id =
            subst (λ (x : Text). q.get_block_id_by_trip_id x ≡ some block_id) same
              (one block_id rows row r l) in
          block_ids id block_id rows active own f r a
          ∙ (rw (← e) refl)
          ∙ sym (block_ids target block_id rows active b f r a)

  -- each trip that is listed with a target lists the same trips
  pub block_trip_ids-mate :
      (id target : Text)
      → In id (block_trip_ids_for_service_date q target)
      → block_trip_ids_for_service_date q id ≡ block_trip_ids_for_service_date q target
  unfolding block_trip_ids_for_service_date
  block_trip_ids-mate id target i = elim (Option-cases (q.get_block_id_by_trip_id target)) [
    | inl b ↦ only_target id target (rw (b, block_trip_ids_for_service_date) at i)
    | inr (block_id, b) ↦ elim (Bool-cases (is_empty block_id)) [
      | inl f ↦ only_target id target (rw (b, block_trip_ids_for_service_date, f) at i)
      | inr f ↦ elim (Option-cases (q.get_trips_by_block_id block_id)) [
        | inl r ↦ only_target id target (rw (b, block_trip_ids_for_service_date, f, r) at i)
        | inr (rows, r) ↦ elim (Option-cases q.get_active_service_ids_for_date) [
          | inl a ↦ only_target id target (rw (b, block_trip_ids_for_service_date, f, r, a) at i)
          | inr (active, a) ↦
              fallback_mate id target block_id rows active b f r a
                (rw (b, block_trip_ids_for_service_date, f, r, a) at i)
        ]
      ]
    ]
  ]
