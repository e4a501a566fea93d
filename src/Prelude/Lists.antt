-- ===== src/Prelude/Lists.antt =====
-- Lists measured and indexed by native numbers, and the membership predicates of the proofs.
use Prim.Native.Nat.{ℕ, zero, suc, ◌+◌, ◌-◌, ◌≤◌, min}
use native.Mathlib.Nat.{add-zero, zero-add, suc-add}
use mathlib.Core.Path.{◌≡◌, refl, ap, sym, subst}
use mathlib.Core.Logic.{◌⊎◌, inl, inr}
use mathlib.Core.Bool.{Bool, true}
use mathlib.Core.List.{List, [], ◌∷◌, ◌++◌, filter_map, filter_map-cons-none, filter_map-cons-some}
use mathlib.Core.Option.{Option, none, some}
use native.Mathlib.Omega.{arith}
use maglev.Prelude.Tests.{if◌then◌else◌, Bool-cases, Option-cases}

module _ {ℓ} {A : Type ℓ} where
  abbrev pub length : List A → ℕ
  length [] = 0
  length (x ∷ xs) = suc (length xs)

  abbrev pub get_elem? : List A → ℕ → Option A
  get_elem? [] i = none
  get_elem? (x ∷ xs) zero = some x
  get_elem? (x ∷ xs) (suc i) = get_elem? xs i

  abbrev pub take : ℕ → List A → List A
  take zero xs = []
  take (suc n) [] = []
  take (suc n) (x ∷ xs) = x ∷ take n xs

  abbrev pub drop : ℕ → List A → List A
  drop zero xs = xs
  drop (suc n) [] = []
  drop (suc n) (x ∷ xs) = drop n xs

  pub length-append : (xs ys : List A) → length (xs ++ ys) ≡ length xs + length ys
  length-append [] ys = omega arith
  length-append (x ∷ xs) ys = omega (arith, length-append xs ys)

  pub take-append-drop : (n : ℕ) (xs : List A) → take n xs ++ drop n xs ≡ xs
  take-append-drop zero xs = refl
  take-append-drop (suc n) [] = refl
  take-append-drop (suc n) (x ∷ xs) = ap (◌∷◌ x) (take-append-drop n xs)

  pub length-take : (n : ℕ) (xs : List A) → length (take n xs) ≡ min n (length xs)
  length-take zero xs = omega arith
  length-take (suc n) [] = omega arith
  length-take (suc n) (x ∷ xs) = omega (arith, length-take n xs)

  pub length-drop : (n : ℕ) (xs : List A) → length (drop n xs) ≡ length xs - n
  length-drop zero xs = omega arith
  length-drop (suc n) [] = omega arith
  length-drop (suc n) (x ∷ xs) = omega (arith, length-drop n xs)

  pub take-min : (n : ℕ) (xs : List A) → take (min n (length xs)) xs ≡ take n xs
  take-min zero xs = rw (← let h : zero ≡ min zero (length xs) = omega arith in h)
  take-min (suc n) [] = rw (← let h : zero ≡ min (suc n) zero = omega arith in h)
  take-min (suc n) (x ∷ xs) =
      rw (← let h : suc (min n (length xs)) ≡ min (suc n) (suc (length xs)) = omega arith in h)
        (ap (◌∷◌ x) (take-min n xs))

  pub drop-drop : (m n : ℕ) (xs : List A) → drop m (drop n xs) ≡ drop (n + m) xs
  drop-drop m zero xs = rw zero-add
  drop-drop zero (suc n) [] = rw add-zero
  drop-drop (suc m) (suc n) [] = rw suc-add
  drop-drop m (suc n) (x ∷ xs) = rw suc-add (drop-drop m n xs)

  pub drop_all : (n : ℕ) (xs : List A) → length xs ≤ n → drop n xs ≡ []
  drop_all zero [] h = refl
  drop_all zero (x ∷ xs) h = absurd (omega arith)
  drop_all (suc n) [] h = refl
  drop_all (suc n) (x ∷ xs) h = drop_all n xs (omega arith)

  -- the loop `for _, x := range xs { if p(x) { out = append(out, x) } }`
  abbrev pub keep_if : (A → Bool) → List A → List A
  keep_if p [] = []
  keep_if p (x ∷ xs) = let rest = keep_if p xs in if p x then x ∷ rest else rest

-- `In a xs`: `a` stands in `xs`. By recursion, so that the tactics take it apart.
module _ {A : Type 0} where
  abbrev pub In : A → List A → Type 0
  In a [] = ⊥
  In a (x ∷ xs) = (a ≡ x) ⊎ In a xs

  pub In-append : (a : A) (xs ys : List A) → In a (xs ++ ys) → In a xs ⊎ In a ys
  In-append a [] ys h = inr h
  In-append a (x ∷ xs) ys (inl e) = inl (inl e)
  In-append a (x ∷ xs) ys (inr h) = elim (In-append a xs ys h) [
    | inl l ↦ inl (inr l)
    | inr r ↦ inr r
  ]

  pub In-append_left : (a : A) (xs ys : List A) → In a xs → In a (xs ++ ys)
  In-append_left a [] ys h = absurd h
  In-append_left a (x ∷ xs) ys (inl e) = inl e
  In-append_left a (x ∷ xs) ys (inr h) = inr (In-append_left a xs ys h)

  pub In-append_right : (a : A) (xs ys : List A) → In a ys → In a (xs ++ ys)
  In-append_right a [] ys h = h
  In-append_right a (x ∷ xs) ys h = inr (In-append_right a xs ys h)

  pub In-keep_if :
      (p : A → Bool) (a : A) (xs : List A) → In a (keep_if p xs) → In a xs × (p a ≡ true)
  In-keep_if p a [] h = absurd h
  In-keep_if p a (x ∷ xs) h = elim (Bool-cases (p x)) [
    | inl e ↦ from_kept e (In-keep_if p a xs) (rw e at h)
    | inr e ↦ from_rest (In-keep_if p a xs (rw e at h))
  ]
    where
      from_rest : In a xs × (p a ≡ true) → In a (x ∷ xs) × (p a ≡ true)
      from_rest r = (inr r.0, r.1)

      from_kept :
          p x ≡ true
          → (In a (keep_if p xs) → In a xs × (p a ≡ true))
          → In a (x ∷ keep_if p xs)
          → In a (x ∷ xs) × (p a ≡ true)
      from_kept e ih (inl q) = (inl q, rw q e)
      from_kept e ih (inr r) = from_rest (ih r)

  pub keep_if-In : (p : A → Bool) (a : A) (xs : List A) → In a xs → p a ≡ true → In a (keep_if p xs)
  keep_if-In p a [] h t = absurd h
  keep_if-In p a (x ∷ xs) (inl q) t = rw (← q, t) (inl refl)
  keep_if-In p a (x ∷ xs) (inr h) t = elim (Bool-cases (p x)) [
    | inl e ↦ rw e (inr (keep_if-In p a xs h t))
    | inr e ↦ rw e (keep_if-In p a xs h t)
  ]

-- the loop that appends what `f` makes of an element, and skips the others
module _ {A B : Type 0} (f : A → Option B) where
  pub In-filter_map :
      (b : B) (xs : List A) → In b (filter_map f xs) → (a : A) × In a xs × (f a ≡ some b)
  unfolding filter_map
  In-filter_map b [] h = absurd h
  In-filter_map b (x ∷ xs) h = elim (Option-cases (f x)) [
    | inl e ↦
        let (a, i, q) = In-filter_map b xs (subst (In b) (filter_map-cons-none f x xs e) h) in
        (a, inr i, q)
    | inr (y, e) ↦ at_some y e (In-filter_map b xs) (subst (In b) (filter_map-cons-some f x xs e) h)
  ]
    where
      at_some :
          (y : B)
          → f x ≡ some y
          → (In b (filter_map f xs) → (a : A) × In a xs × (f a ≡ some b))
          → In b (y ∷ filter_map f xs)
          → (a : A) × In a (x ∷ xs) × (f a ≡ some b)
      at_some y e ih (inl q) = (x, inl refl, cc)
      at_some y e ih (inr r) = let (a, i, q) = ih r in (a, inr i, q)

  pub filter_map-In :
      (a : A) (b : B) (xs : List A) → In a xs → f a ≡ some b → In b (filter_map f xs)
  filter_map-In a b [] h e = absurd h
  filter_map-In a b (x ∷ xs) (inl q) e =
      subst (In b) (sym (filter_map-cons-some f x xs (rw q at e))) (inl refl)
  filter_map-In a b (x ∷ xs) (inr h) e = elim (Option-cases (f x)) [
    | inl n ↦ subst (In b) (sym (filter_map-cons-none f x xs n)) (filter_map-In a b xs h e)
    | inr (y, n) ↦
        subst (In b) (sym (filter_map-cons-some f x xs n)) (inr (filter_map-In a b xs h e))
  ]
