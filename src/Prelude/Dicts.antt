-- ===== src/Prelude/Dicts.antt =====
-- Go's maps as association lists: one entry a key, `m[k]` by `lookup`, `m[k] = v` by `insert`,
-- `delete(m, k)` by `delete`. The order of the entries carries no meaning in the code.
use mathlib.Core.Path.{◌≡◌, refl, ap}
use mathlib.Core.Bool.{Bool, false}
use mathlib.Core.Option.{Option, none, some}
use mathlib.Core.List.{List, [], ◌∷◌}
use native.Mathlib.Omega.{arith}
use maglev.Prelude.Tests.{Eq, ◌==◌, eq_refl, if◌then◌else◌, Bool-cases}
use maglev.Prelude.Lists.{keep_if, In}
use mathlib.Core.Logic.{inl, inr}

abbrev pub Map {ℓ κ} : Type ℓ → Type κ → Type (ℓ ⊔ κ)
Map K V = List (K × V)

module _ {ℓ κ} {K : Type ℓ} {V : Type κ} ⦃e : Eq K⦄ where
  unfoldable pub insert : K → V → Map K V → Map K V
  insert key new [] = (key, new) ∷ []
  insert key new ((old, v) ∷ m) = if old == key then (key, new) ∷ m else (old, v) ∷ insert key new m

  unfoldable pub delete : K → Map K V → Map K V
  delete k [] = []
  delete k ((j, w) ∷ m) = let rest = delete k m in if j == k then rest else (j, w) ∷ rest

  unfoldable pub lookup : K → Map K V → Option V
  lookup key [] = none
  lookup key ((old, v) ∷ m) = if old == key then some v else lookup key m

  pub lookup-insert :
      (key other : K) (new : V) (m : Map K V)
      → lookup other (insert key new m) ≡ (if key == other then some new else lookup other m)
  unfolding insert lookup
  lookup-insert key other new [] = refl
  lookup-insert key other new ((k, v) ∷ m) = ground (
    arith,
    lookup-insert key other new m,
    e.beq_iff k other,
    e.beq_iff k key,
    e.beq_iff key other,
  )

  pub lookup-insert_self :
      (key : K) (new : V) (m : Map K V) → lookup key (insert key new m) ≡ some new
  lookup-insert_self key new m = simp (eq_refl, lookup-insert)

  pub lookup-insert_ne :
      (k j : K) (v : V) (m : Map K V) → (k == j) ≡ false → lookup j (insert k v m) ≡ lookup j m
  lookup-insert_ne k j v m h = simp (lookup-insert, h)

  pub lookup-delete :
      (k j : K) (m : Map K V) → lookup j (delete k m) ≡ (if k == j then none else lookup j m)
  unfolding lookup delete
  lookup-delete k j [] = ground arith
  lookup-delete k j ((i, w) ∷ m) =
      ground (arith, e.beq_iff k j, e.beq_iff i k, e.beq_iff i j, lookup-delete k j m)

  -- `m[k]` where the code reads a missing key as the zero value
  abbrev pub get_or : V → K → Map K V → V
  get_or d k m = elim (lookup k m) [ none ↦ d | some v ↦ v ]

  -- no key stands twice, as in every map that `insert` builds from the empty one
  abbrev pub UniqueKeys : Map K V → Type κ
  UniqueKeys [] = Unit
  UniqueKeys ((k, v) ∷ m) = (lookup k m ≡ none) × UniqueKeys m

  pub insert-UniqueKeys : (k : K) (v : V) (m : Map K V) → UniqueKeys m → UniqueKeys (insert k v m)
  unfolding insert lookup
  insert-UniqueKeys k v [] u = (refl, tt)
  insert-UniqueKeys k v ((j, w) ∷ m) u = elim (Bool-cases (j == k)) [
    | inl s ↦ rw s (rw ((e.beq_iff j k).0 s) at u.0, u.1)
    | inr d ↦ rw d (
      ground (arith, e.beq_iff j k, e.beq_iff k j, lookup-insert k j v m),
      insert-UniqueKeys k v m u.1,
    )
  ]

  -- a deleting loop `for k, v := range m { if !p(k, v) { delete(m, k) } }`
  lookup-keep_if-none :
      (p : K × V → Bool) (k : K) (m : Map K V) → lookup k m ≡ none → lookup k (keep_if p m) ≡ none
  unfolding lookup
  lookup-keep_if-none p k [] h = refl
  lookup-keep_if-none p k ((j, w) ∷ m) h = ground (arith, lookup-keep_if-none p k m)

  pub lookup-keep_if :
      (p : K × V → Bool) (k : K) (m : Map K V)
      → UniqueKeys m
      → lookup k (keep_if p m)
        ≡ elim (lookup k m) [ none ↦ none | some v ↦ if p (k, v) then some v else none ]
  unfolding lookup
  lookup-keep_if p k [] u = refl
  lookup-keep_if p k ((j, w) ∷ m) u =
      ground (arith, e.beq_iff j k, lookup-keep_if-none p k m, lookup-keep_if p k m u.1)

  pub keep_if-UniqueKeys :
      (p : K × V → Bool) (m : Map K V) → UniqueKeys m → UniqueKeys (keep_if p m)
  keep_if-UniqueKeys p [] u = tt
  keep_if-UniqueKeys p ((j, w) ∷ m) u = elim (Bool-cases (p (j, w))) [
    | inl s ↦ rw s (lookup-keep_if-none p j m u.0, keep_if-UniqueKeys p m u.1)
    | inr d ↦ rw d (keep_if-UniqueKeys p m u.1)
  ]

module _ {K V : Type 0} ⦃e : Eq K⦄ where
  pub lookup-listed : (k : K) (v : V) (m : Map K V) → lookup k m ≡ some v → In (k, v) m
  unfolding lookup
  lookup-listed k v [] h = absurd (cc h)
  lookup-listed k v ((j, w) ∷ m) h = elim (Bool-cases (j == k)) [
    | inl q ↦
        let key : j ≡ k = (e.beq_iff j k).0 q in
        let same : some w ≡ some v = rw q at h in
        let value : w ≡ v = cc same in inl (rw (key, value) refl)
    | inr q ↦ inr (lookup-listed k v m (rw q at h))
  ]

  absent-listed : (k : K) (v : V) (m : Map K V) → lookup k m ≡ none → In (k, v) m → ⊥
  unfolding lookup
  absent-listed k v [] n i = i
  absent-listed k v ((j, w) ∷ m) n (inl q) =
      let key : k ≡ j = ap (λ (x : K × V). x.0) q in ground (arith, key, n, e.beq_iff j k)
  absent-listed k v ((j, w) ∷ m) n (inr i) = absent-listed k v m (ground (arith, n)) i

  pub listed-lookup : (x : K × V) (m : Map K V) → UniqueKeys m → In x m → lookup x.0 m ≡ some x.1
  unfolding lookup
  listed-lookup x ((j, w) ∷ m) u (inl q) = rw (q, eq_refl j) refl
  listed-lookup x [] u i = absurd i
  listed-lookup x ((j, w) ∷ m) u (inr i) = elim (Bool-cases (j == x.0)) [
    | inl q ↦
        let key : j ≡ x.0 = (e.beq_iff j x.0).0 q in absurd (absent-listed j x.1 m u.0 (rw key i))
    | inr q ↦ rw q (listed-lookup x m u.1 i)
  ]
