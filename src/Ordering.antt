-- ===== src/Ordering.antt =====
-- internal/utils/string_utils.go and internal/utils/sort.go: the natural order of names and the
-- order of routes. A comparison returns -1, 0 or 1; here `less`, `equal` or `greater`. A digit is an
-- ASCII digit, so a chunk of runes is a chunk of bytes.
pub mod Natural
pub mod Routes
use maglev.Prelude.{
  ℕ, zero, suc, ◌+◌, ◌-◌, ◌*◌, Bool, true, false, ◌&&◌, List, [], ◌∷◌, Text, is_empty, ltb, leb,
  length, text_eq, ◌==◌, if◌then◌else◌,
}

pub data Result : Type 0 where
  less equal greater : Result

-- `if res := …; res != 0 { return res }`, and what follows it
abbrev pub or_else : Result → Result → Result
or_else less r = less
or_else equal r = r
or_else greater r = greater

-- `cmp.Compare` of ints and of strings
abbrev pub compare_numbers : ℕ → ℕ → Result
compare_numbers a b = if ltb a b then less else if ltb b a then greater else equal

unfoldable pub compare_texts : Text → Text → Result
compare_texts [] [] = equal
compare_texts [] (d ∷ t) = less
compare_texts (c ∷ s) [] = greater
compare_texts (c ∷ s) (d ∷ t) = or_else (compare_numbers c d) (compare_texts s t)

-- `isASCIIDigit`
abbrev pub is_ascii_digit : ℕ → Bool
is_ascii_digit c = leb b'0' c && leb c b'9'

abbrev same : Bool → Bool → Bool
same true b = b
same false true = false
same false false = true

-- the longest start of a text whose characters are all digits, or all none, and the rest
unfoldable pub split_class : Bool → Text → Text × Text
split_class digit [] = ([], [])
split_class digit (c ∷ s) =
    let rest = split_class digit s in
    if same digit (is_ascii_digit c) then (c ∷ rest.0, rest.1) else ([], c ∷ s)

-- `extractChunk` at a text that starts with `c`: the chunk and the text after it
unfoldable pub extract_chunk : ℕ → Text → Text × Text
extract_chunk c s = let rest = split_class (is_ascii_digit c) s in (c ∷ rest.0, rest.1)

-- the number that a text of digits writes, as `big.Int` reads it
unfoldable pub number_of : ℕ → Text → ℕ
number_of n [] = n
number_of n (c ∷ s) = number_of (10 * n + (c - b'0')) s

-- `compareNumericChunks`
unfoldable pub compare_numeric_chunks : Text → Text → Result
compare_numeric_chunks a b =
    or_else (compare_numbers (number_of 0 a) (number_of 0 b)) (compare_texts a b)

unfoldable pub compare_chunks : Bool → Text → Text → Result
compare_chunks true a b = compare_numeric_chunks a b
compare_chunks false a b = compare_texts a b

-- the loop of `NaturalCompare` over what is left of both texts; `lengths` is what it returns at the
-- end, and each turn uses a unit of fuel
unfoldable pub natural_loop : ℕ → Result → Text → Text → Result
natural_loop zero lengths a b = lengths
natural_loop (suc fuel) lengths [] b = lengths
natural_loop (suc fuel) lengths (c ∷ s) [] = lengths
natural_loop (suc fuel) lengths (c ∷ s) (d ∷ t) =
    or_else
      (compare_chunks (is_ascii_digit c && is_ascii_digit d) (extract_chunk c s).0
        (extract_chunk d t).0)
      (natural_loop fuel lengths (extract_chunk c s).1 (extract_chunk d t).1)

-- `NaturalCompare`
unfoldable pub natural_compare : Text → Text → Result
natural_compare a b = natural_loop (length a + length b) (compare_numbers (length a) (length b)) a b

-- `RouteSortKey`
pub record RouteSortKey : Type 0 where
  pub short_name : Text
  pub long_name : Text
  pub agency_id : Text
  pub id : Text

unfoldable pub sort_name : RouteSortKey → Text
sort_name k = if is_empty k.short_name then k.long_name else k.short_name

-- `compareRouteSortKeys`
unfoldable pub compare_route_sort_keys : RouteSortKey → RouteSortKey → Result
compare_route_sort_keys a b = or_else (natural_compare (sort_name a) (sort_name b)) (
    if a.agency_id == b.agency_id
    then compare_texts a.id b.id
    else compare_texts a.agency_id b.agency_id)
