-- ===== src/Paging.antt =====
-- internal/utils/api.go: the query parameters that bound a response (`maxCount`, `offset`, `limit`)
-- and the page of a list. `strconv.Atoi` reads a sign and decimal digits into an int64.
-- A limit of -1 is `none`.
pub mod Bounds
pub mod Pages
use maglev.Prelude.{
  ℤ, pos, negsuc, ℕ, ◌+◌, ◌-◌, ◌*◌, ◌^◌, min, Bool, true, false, ◌&&◌, ◌||◌, Option, none, some,
  List, [], ◌∷◌, Text, is_empty, bytes, text_eq, Map, lookup, insert, get_or, eqb, ltb, leb, length,
  take, drop, if◌then◌else◌, ◌>>=◌,
}

abbrev is_digit : ℕ → Bool
is_digit c = leb b'0' c && leb c b'9'

-- the value of a text of digits after those of value `n`
unfoldable pub digits_value : ℕ → Text → Option ℕ
digits_value n [] = some n
digits_value n (c ∷ s) =
    let rest = digits_value (10 * n + (c - b'0')) s in if is_digit c then rest else none

unfoldable pub magnitude : Text → Option ℕ
magnitude s = if is_empty s then none else digits_value 0 s

abbrev within : ℕ → ℤ → ℕ → Option ℤ
within limit i n = if leb n limit then some i else none

-- `strconv.Atoi`; `none` is its error
unfoldable pub atoi : Text → Option ℤ
atoi [] = none
atoi (c ∷ s) =
    if eqb c b'-'
    then (magnitude s >>= λ n. within (2 ^ 63) (if eqb n 0 then pos 0 else negsuc (n - 1)) n)
    else if eqb c b'+'
    then (magnitude s >>= λ n. within (2 ^ 63 - 1) (pos n) n)
    else (magnitude (c ∷ s) >>= λ n. within (2 ^ 63 - 1) (pos n) n)

-- `url.Values`, and its `Get`: the first value, or ""
abbrev pub Query : Type 0
Query = Map Text (List Text)

abbrev first : List Text → Text
first [] = []
first (v ∷ vs) = v

unfoldable pub get_param : Query → Text → Text
get_param q key = first (get_or [] key q)

-- `maxCountOverflow`
pub data MaxCountOverflow : Type 0 where
  reject_above_max clamp_above_max : MaxCountOverflow

-- the three messages of `fieldErrors["maxCount"]`
pub data MaxCountError : Type 0 where
  not_positive above_ceiling not_a_number : MaxCountError

unfoldable pub above : ℕ → ℕ → MaxCountOverflow → ℕ × Option MaxCountError
above default_count ceiling clamp_above_max = (ceiling, none)
above default_count ceiling reject_above_max = (default_count, some above_ceiling)

unfoldable pub check_count : ℕ → ℕ → MaxCountOverflow → Option ℤ → ℕ × Option MaxCountError
check_count default_count ceiling overflow none = (default_count, some not_a_number)
check_count default_count ceiling overflow (some (negsuc n)) = (default_count, some not_positive)
check_count default_count ceiling overflow (some (pos n)) =
    if eqb n 0
    then (default_count, some not_positive)
    else if ltb ceiling n
    then above default_count ceiling overflow
    else (n, none)

-- `parseMaxCount`: the count, and the error that it records
unfoldable pub parse_max_count : Query → ℕ → ℕ → MaxCountOverflow → ℕ × Option MaxCountError
parse_max_count q default_count ceiling overflow =
    if is_empty (get_param q (bytes "maxCount"))
    then (default_count, none)
    else check_count default_count ceiling overflow (atoi (get_param q (bytes "maxCount")))

unfoldable pub positive : Option ℤ → Option ℕ
positive none = none
positive (some (negsuc n)) = none
positive (some (pos n)) = if eqb n 0 then none else some n

unfoldable pub not_negative : Option ℤ → Option ℕ
not_negative none = none
not_negative (some (negsuc n)) = none
not_negative (some (pos n)) = some n

abbrev pub limit_text : Query → Text
limit_text q =
    if is_empty (get_param q (bytes "maxCount"))
    then get_param q (bytes "limit")
    else get_param q (bytes "maxCount")

abbrev or_zero : Option ℕ → ℕ
or_zero none = 0
or_zero (some n) = n

-- `ParsePaginationParams`
unfoldable pub parse_pagination_params : Query → ℕ × Option ℕ
parse_pagination_params q = (
  or_zero (not_negative (atoi (get_param q (bytes "offset")))),
  positive (atoi (limit_text q)) >>= λ n. some (if ltb 1000 n then 1000 else n),
)

-- `PaginateSlice`, for an offset and a limit that are not negative
unfoldable pub paginate_slice {ℓ} : {A : Type ℓ} → List A → ℕ → Option ℕ → List A × Bool
paginate_slice items offset limit = if leb (length items) offset then ([], false) else elim limit [
  | none ↦ (drop offset items, false)
  | some n ↦
      if ltb (offset + n) (length items)
      then (take n (drop offset items), true)
      else (drop offset items, false)
]
