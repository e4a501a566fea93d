-- ===== src/Ordering/Natural.antt =====
-- The natural order tells any two texts apart, and turns around with its arguments.
use native.Mathlib.Nat.{add_comm}
use maglev.Prelude.{
  ℕ, zero, suc, ◌+◌, ◌≤◌, Bool, true, false, ◌&&◌, length-append, [], ◌∷◌, ◌++◌, Text, length, ◌≡◌,
  ◌↔◌, refl, sym, ap, ◌∙◌, subst, arith,
}
use maglev.Ordering.{
  Result, less, equal, greater, or_else, compare_numbers, compare_texts, is_ascii_digit,
  split_class, extract_chunk, number_of, compare_numeric_chunks, compare_chunks, natural_loop,
  natural_compare,
}

-- the sign of a comparison, turned around
abbrev pub flip : Result → Result
flip less = greater
flip equal = equal
flip greater = less

pub flip-or_else : (r s : Result) → flip (or_else r s) ≡ or_else (flip r) (flip s)
flip-or_else less s = refl
flip-or_else equal s = refl
flip-or_else greater s = refl

pub or_else-equal : (r s : Result) → or_else r s ≡ equal → (r ≡ equal) × (s ≡ equal)
or_else-equal less s h = absurd (cc h)
or_else-equal equal s h = (refl, h)
or_else-equal greater s h = absurd (cc h)

compare_numbers-flip : (a b : ℕ) → compare_numbers b a ≡ flip (compare_numbers a b)
compare_numbers-flip a b = ground arith

compare_numbers_self : (a : ℕ) → compare_numbers a a ≡ equal
compare_numbers_self a = ground arith

compare_numbers-equal : (a b : ℕ) → compare_numbers a b ≡ equal → a ≡ b
compare_numbers-equal a b h = ground arith

pub compare_texts-flip : (a b : Text) → compare_texts b a ≡ flip (compare_texts a b)
unfolding compare_texts
compare_texts-flip [] [] = refl
compare_texts-flip [] (d ∷ t) = refl
compare_texts-flip (c ∷ s) [] = refl
compare_texts-flip (c ∷ s) (d ∷ t) =
    rw (compare_numbers-flip c d, compare_texts-flip s t)
      (sym (flip-or_else (compare_numbers c d) (compare_texts s t)))

pub compare_texts_self : (a : Text) → compare_texts a a ≡ equal
unfolding compare_texts
compare_texts_self [] = refl
compare_texts_self (c ∷ s) = rw (compare_numbers_self c) (compare_texts_self s)

pub compare_texts-equal : (a b : Text) → compare_texts a b ≡ equal → a ≡ b
unfolding compare_texts
compare_texts-equal [] [] h = refl
compare_texts-equal [] (d ∷ t) h = absurd (cc h)
compare_texts-equal (c ∷ s) [] h = absurd (cc h)
compare_texts-equal (c ∷ s) (d ∷ t) h =
    let parts = or_else-equal (compare_numbers c d) (compare_texts s t) h in
    cc (compare_numbers-equal c d parts.0, compare_texts-equal s t parts.1)

compare_chunks-flip : (n : Bool) (a b : Text) → compare_chunks n b a ≡ flip (compare_chunks n a b)
unfolding compare_chunks compare_numeric_chunks
compare_chunks-flip false a b = compare_texts-flip a b
compare_chunks-flip true a b =
    rw (compare_numbers-flip (number_of 0 a) (number_of 0 b), compare_texts-flip a b)
      (sym (flip-or_else (compare_numbers (number_of 0 a) (number_of 0 b)) (compare_texts a b)))

compare_chunks_self : (n : Bool) (a : Text) → compare_chunks n a a ≡ equal
unfolding compare_chunks compare_numeric_chunks
compare_chunks_self false a = compare_texts_self a
compare_chunks_self true a = rw (compare_numbers_self (number_of 0 a)) (compare_texts_self a)

compare_chunks-equal : (n : Bool) (a b : Text) → compare_chunks n a b ≡ equal → a ≡ b
unfolding compare_chunks compare_numeric_chunks
compare_chunks-equal false a b h = compare_texts-equal a b h
compare_chunks-equal true a b h = compare_texts-equal a b (or_else-equal _ (compare_texts a b) h).1

and_comm : (a b : Bool) → (a && b) ≡ (b && a)
and_comm true true = refl
and_comm true false = refl
and_comm false true = refl
and_comm false false = refl

natural_loop-flip :
    (fuel : ℕ) (o : Result) (a b : Text)
    → natural_loop fuel (flip o) b a ≡ flip (natural_loop fuel o a b)
unfolding natural_loop
natural_loop-flip zero o a b = refl
natural_loop-flip (suc fuel) o [] [] = refl
natural_loop-flip (suc fuel) o [] (d ∷ t) = refl
natural_loop-flip (suc fuel) o (c ∷ s) [] = refl
natural_loop-flip (suc fuel) o (c ∷ s) (d ∷ t) =
    let n = is_ascii_digit c && is_ascii_digit d in
    let x = extract_chunk c s in
    let y = extract_chunk d t in
    rw
      (
        and_comm (is_ascii_digit d) (is_ascii_digit c),
        compare_chunks-flip n x.0 y.0,
        natural_loop-flip fuel o x.1 y.1,
      )
      (sym (flip-or_else (compare_chunks n x.0 y.0) (natural_loop fuel o x.1 y.1)))

natural_loop_self : (fuel : ℕ) (a : Text) → natural_loop fuel equal a a ≡ equal
unfolding natural_loop
natural_loop_self zero a = refl
natural_loop_self (suc fuel) [] = refl
natural_loop_self (suc fuel) (c ∷ s) =
    rw (compare_chunks_self (is_ascii_digit c && is_ascii_digit c) (extract_chunk c s).0)
      (natural_loop_self fuel (extract_chunk c s).1)

split_class-append :
    (digit : Bool) (s : Text) → (split_class digit s).0 ++ (split_class digit s).1 ≡ s
unfolding split_class
split_class-append digit [] = refl
split_class-append digit (c ∷ s) = ground (arith, split_class-append digit s)

length-split_class : (digit : Bool) (s : Text) → length (split_class digit s).1 ≤ length s
unfolding split_class
length-split_class digit [] = omega arith
length-split_class digit (c ∷ s) = ground (arith, length-split_class digit s)

extract_chunk-append : (c : ℕ) (s : Text) → (extract_chunk c s).0 ++ (extract_chunk c s).1 ≡ c ∷ s
unfolding extract_chunk
extract_chunk-append c s = ap (◌∷◌ c) (split_class-append (is_ascii_digit c) s)

length-extract_chunk : (c : ℕ) (s : Text) → length (extract_chunk c s).1 ≤ length s
unfolding extract_chunk
length-extract_chunk c s = length-split_class (is_ascii_digit c) s

length_parts : (p q : Text) (whole : Text) → p ++ q ≡ whole → length whole ≡ length p + length q
length_parts p q whole h = sym (ap length h) ∙ length-append p q

no_length : (a : Text) → length a ≡ 0 → a ≡ []
no_length [] h = refl
no_length (c ∷ s) h = absurd (omega arith)

-- the loop ends with 0 only on equal texts, given fuel for each character of the first
natural_loop-equal :
    (fuel : ℕ) (o : Result) (a b : Text)
    → length a ≤ fuel
    → (o ≡ equal → length a ≡ length b)
    → natural_loop fuel o a b ≡ equal
    → a ≡ b
unfolding natural_loop
natural_loop-equal zero o [] b enough lengths h = sym (no_length b (sym (lengths h)))
natural_loop-equal zero o (c ∷ s) b enough lengths h = absurd (omega arith)
natural_loop-equal (suc fuel) o [] b enough lengths h = sym (no_length b (sym (lengths h)))
natural_loop-equal (suc fuel) o (c ∷ s) [] enough lengths h = no_length (c ∷ s) (lengths h)
natural_loop-equal (suc fuel) o (c ∷ s) (d ∷ t) enough lengths h =
    let x = extract_chunk c s in
    let y = extract_chunk d t in
    let parts =
      or_else-equal (compare_chunks (is_ascii_digit c && is_ascii_digit d) x.0 y.0)
        (natural_loop fuel o x.1 y.1) h in
    let chunk : x.0 ≡ y.0 =
      compare_chunks-equal (is_ascii_digit c && is_ascii_digit d) x.0 y.0 parts.0 in
    let left : length (c ∷ s) ≡ length x.0 + length x.1 =
      length_parts x.0 x.1 (c ∷ s) (extract_chunk-append c s) in
    let right : length (d ∷ t) ≡ length y.0 + length y.1 =
      length_parts y.0 y.1 (d ∷ t) (extract_chunk-append d t) in
    let rest : x.1 ≡ y.1 =
      natural_loop-equal fuel o x.1 y.1 (omega (arith, length-extract_chunk c s, enough))
        (λ e. omega (arith, left, right, lengths e, ap length chunk)) parts.1 in
    sym (extract_chunk-append c s) ∙ cc (chunk, rest) ∙ extract_chunk-append d t

-- Comparing in the other order turns the sign of the comparison around, and 0 is returned exactly
-- for equal texts: names that differ only in leading zeros are told apart too.
pub natural_compare_laws :
    (a b : Text)
    → (natural_compare b a ≡ flip (natural_compare a b)) × ((natural_compare a b ≡ equal) ↔ (a ≡ b))
natural_compare_laws a b = (turned, (same_text, equal_texts))
  where
    turned : natural_compare b a ≡ flip (natural_compare a b)
    turned =
        unfold natural_compare in
        rw (add_comm (length b) (length a), compare_numbers-flip (length a) (length b))
          (natural_loop-flip (length a + length b) (compare_numbers (length a) (length b)) a b)

    same_text : natural_compare a b ≡ equal → a ≡ b
    same_text h =
        natural_loop-equal (length a + length b) (compare_numbers (length a) (length b)) a b
          (omega arith) (compare_numbers-equal (length a) (length b)) (unfold natural_compare in h)

    equal_texts : a ≡ b → natural_compare a b ≡ equal
    equal_texts e =
        subst (λ (x : Text). natural_compare a x ≡ equal) e
          (unfold natural_compare in
            rw (compare_numbers_self (length a)) (natural_loop_self (length a + length a) a))
