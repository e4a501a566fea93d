-- ===== src/Tests/Params.antt =====
-- Combined IDs, and the parameters of a page.
use maglev.Prelude.{
  ℕ, ◌≤◌, some, none, List, [], ◌∷◌, text_eq, list_beq, nat_eq, lookup, bytes, refl, arith, ◌≡◌,
  ◌⊎◌,
}
use maglev.Ids.{
  split_id, extract_agency_id_and_code_id, extract_agency_id, extract_code_id, form_combined_id,
  has_underscore, extract-form,
}
use maglev.Paging.{
  Query, clamp_above_max, parse_max_count, parse_pagination_params, atoi, magnitude, digits_value,
  get_param, check_count, above, positive, not_negative,
}
use maglev.Paging.Bounds.{parse_pagination_params-bounds}
use maglev.Paging.Pages.{pages, pages_complete}

extract-form_example :
    (extract_agency_id_and_code_id (form_combined_id (bytes "40") (bytes "100_479"))
      ≡ some (bytes "40", bytes "100_479"))
    × (extract_agency_id (form_combined_id (bytes "40") (bytes "100_479")) ≡ some (bytes "40"))
    × (extract_code_id (form_combined_id (bytes "40") (bytes "100_479")) ≡ some (bytes "100_479"))
extract-form_example =
    extract-form (bytes "40") (bytes "100_479") (unfold has_underscore in refl) refl refl

no_underscore : extract_agency_id_and_code_id (bytes "1-75403") ≡ none
unfolding extract_agency_id_and_code_id split_id
no_underscore = refl

abbrev asks_900 : Query
asks_900 = (bytes "maxCount", bytes "900" ∷ []) ∷ []

clamped : parse_max_count asks_900 50 250 clamp_above_max ≡ (250, none)
unfolding parse_max_count get_param lookup list_beq atoi magnitude digits_value check_count above
clamped = refl

capped :
    parse_pagination_params
      ((bytes "limit", bytes "5000" ∷ []) ∷ (bytes "offset", bytes "-3" ∷ []) ∷ [])
    ≡ (0, some 1000)
unfolding parse_pagination_params get_param lookup list_beq atoi magnitude digits_value positive
    not_negative
capped = refl

too_long : atoi (bytes "9223372036854775808") ≡ none
unfolding atoi magnitude digits_value
too_long = refl

abbrev three : List ℕ
three = 7 ∷ 8 ∷ 9 ∷ []

pages_complete_example : pages three 2 4 0 ≡ some three
pages_complete_example = pages_complete three 2 (omega arith)

parse_pagination_params-bounds_example :
    ((parse_pagination_params asks_900).1 ≡ none)
    ⊎ ((n : ℕ) × ((parse_pagination_params asks_900).1 ≡ some n) × (1 ≤ n) × (n ≤ 1000))
parse_pagination_params-bounds_example = parse_pagination_params-bounds asks_900
