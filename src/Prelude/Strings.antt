-- ===== src/Prelude/Strings.antt =====
-- Go strings: sequences of bytes, with `==`, the test against "" and the byte order of `<`.
use Prim.Native.Nat.{ℕ}
use Prim.Native.Char.{code}
use Prim.Native.String.{String}
use mathlib.Core.Bool.{Bool, true, false, ◌||◌}
use mathlib.Core.Path.{◌≡◌, refl}
use mathlib.Core.Logic.{◌↔◌, ◌⊎◌, inl, inr}
use native.Mathlib.Omega.{arith}
use maglev.Prelude.Lists.{In}
use mathlib.Core.List.{List, [], ◌∷◌}
use maglev.Prelude.Tests.{Eq, nat_eq, list_beq, list_beq_iff, ltb, if◌then◌else◌, ◌==◌, Bool-cases}

abbrev pub Text : Type 0
Text = List ℕ

-- the bytes of an ASCII literal
abbrev pub bytes : String → Text
bytes String.[] = []
bytes (String.◌∷◌ c s) = code c ∷ bytes s

instance abbrev pub text_eq : Eq Text
text_eq = record { beq = list_beq; beq_iff = list_beq_iff }

abbrev pub is_empty : Text → Bool
is_empty [] = true
is_empty (c ∷ s) = false

-- `s < t`
unfoldable pub text_lt : Text → Text → Bool
text_lt [] [] = false
text_lt [] (d ∷ t) = true
text_lt (c ∷ s) [] = false
text_lt (c ∷ s) (d ∷ t) =
    let rest = text_lt s t in if ltb c d then true else if ltb d c then false else rest

pub text_lt_trans : (r s t : Text) → text_lt r s ≡ true → text_lt s t ≡ true → text_lt r t ≡ true
unfolding text_lt
text_lt_trans [] [] t h k = absurd (cc h)
text_lt_trans (c ∷ r) [] t h k = absurd (cc h)
text_lt_trans r (d ∷ s) [] h k = absurd (cc k)
text_lt_trans [] (d ∷ s) (e ∷ t) h k = refl
text_lt_trans (c ∷ r) (d ∷ s) (e ∷ t) h k = ground (arith, text_lt_trans r s t)

pub text_lt_irrefl : (t : Text) → text_lt t t ≡ false
unfolding text_lt
text_lt_irrefl [] = refl
text_lt_irrefl (c ∷ t) = ground (arith, text_lt_irrefl t)

-- `slices.Sort` of strings: the standard library's sort, as an insertion sort
unfoldable pub insert_sorted : Text → List Text → List Text
insert_sorted t [] = t ∷ []
insert_sorted t (s ∷ ss) = if text_lt s t then s ∷ insert_sorted t ss else t ∷ s ∷ ss

unfoldable pub sort_texts : List Text → List Text
unfolding insert_sorted
sort_texts [] = []
sort_texts (t ∷ ts) = insert_sorted t (sort_texts ts)

insert_sorted-In : (a t : Text) (ss : List Text) → In a (insert_sorted t ss) ↔ ((a ≡ t) ⊎ In a ss)
unfolding insert_sorted
insert_sorted-In a t [] = (λ h. h, λ h. h)
insert_sorted-In a t (s ∷ ss) = elim (Bool-cases (text_lt s t)) [
  | inl e ↦ rw e (
    λ h. ground (arith, (insert_sorted-In a t ss).0),
    λ h. ground (arith, (insert_sorted-In a t ss).1),
  )
  | inr e ↦ rw e (λ h. h, λ h. h)
]

-- sorting keeps the elements
pub sort_texts-In : (a : Text) (ts : List Text) → In a (sort_texts ts) ↔ In a ts
unfolding sort_texts
sort_texts-In a [] = (λ h. h, λ h. h)
sort_texts-In a (t ∷ ts) = (
  λ h. ground (arith, (insert_sorted-In a t (sort_texts ts)).0, (sort_texts-In a ts).0),
  λ h. (insert_sorted-In a t (sort_texts ts)).1 (ground (arith, (sort_texts-In a ts).1)),
)

-- a set of strings, where the code only fills it and tests it: `set[t] = struct{}{}`
unfoldable pub contains_text : Text → List Text → Bool
contains_text k [] = false
contains_text k (j ∷ ks) = j == k || contains_text k ks

pub In-contains_text : (t : Text) (ts : List Text) → In t ts → contains_text t ts ≡ true
unfolding contains_text
In-contains_text t [] h = absurd h
In-contains_text t (s ∷ ts) h = ground (arith, text_eq.beq_iff s t, In-contains_text t ts)

pub contains_text-In : (t : Text) (ts : List Text) → contains_text t ts ≡ true → In t ts
unfolding contains_text
contains_text-In t [] h = cc
contains_text-In t (s ∷ ts) h = ground (arith, text_eq.beq_iff s t, contains_text-In t ts)

unfoldable pub add_text : Text → List Text → List Text
unfolding contains_text
add_text t ts = if contains_text t ts then ts else t ∷ ts

add_text-In : (a t : Text) (ts : List Text) → In a (add_text t ts) ↔ ((a ≡ t) ⊎ In a ts)
unfolding add_text
add_text-In a t ts = elim (Bool-cases (contains_text t ts)) [
  | inl e ↦ rw e (λ h. inr h, λ h. back h (contains_text-In t ts e))
  | inr e ↦ rw e (λ h. h, λ h. h)
]
  where
    back : (a ≡ t) ⊎ In a ts → In t ts → In a ts
    back (inl q) i = rw q i
    back (inr h) i = h

pub contains_text-add_text :
    (a b : Text) (ts : List Text)
    → contains_text a (add_text b ts) ≡ ((b == a) || contains_text a ts)
unfolding contains_text add_text
contains_text-add_text a b ts = ground (arith, text_eq.beq_iff b a)
