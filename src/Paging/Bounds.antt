-- ===== src/Paging/Bounds.antt =====
-- What the parsed parameters are bounded by, whatever the query.
use maglev.Prelude.{
  ℤ, pos, negsuc, ℕ, ◌≤◌, Option, none, some, bytes, ltb, if◌then◌else◌, ◌>>=◌, ◌≡◌, ◌⊎◌, refl,
  arith, inl, inr,
}
use maglev.Paging.{
  Query, MaxCountOverflow, clamp_above_max, reject_above_max, above, check_count, parse_max_count,
  get_param, atoi, positive, parse_pagination_params, limit_text,
}

check_count-bounds :
    (default_count ceiling : ℕ) (o : MaxCountOverflow) (i : Option ℤ)
    → 1 ≤ default_count
    → default_count ≤ ceiling
    → (1 ≤ (check_count default_count ceiling o i).0)
      × ((check_count default_count ceiling o i).0 ≤ ceiling)
unfolding check_count above
check_count-bounds d m o none p q = (p, q)
check_count-bounds d m o (some (negsuc n)) p q = (p, q)
check_count-bounds d m clamp_above_max (some (pos n)) p q = ground arith
check_count-bounds d m reject_above_max (some (pos n)) p q = ground arith

-- With a default between one and the ceiling, the count that is parsed is between one and the
-- ceiling, whatever the query and however a count above the ceiling is handled.
parse_max_count-bounds :
    (q : Query) (default_count ceiling : ℕ) (overflow : MaxCountOverflow)
    → 1 ≤ default_count
    → default_count ≤ ceiling
    → (1 ≤ (parse_max_count q default_count ceiling overflow).0)
      × ((parse_max_count q default_count ceiling overflow).0 ≤ ceiling)
unfolding parse_max_count
parse_max_count-bounds q d m o p r =
    ground (arith, check_count-bounds d m o (atoi (get_param q (bytes "maxCount"))) p r)

positive-least : (i : Option ℤ) (n : ℕ) → positive i ≡ some n → 1 ≤ n
unfolding positive
positive-least none n h = absurd (cc h)
positive-least (some (negsuc k)) n h = absurd (cc h)
positive-least (some (pos k)) n h = ground arith

-- A limit that is parsed is between one and 1000, whatever the query.
pub parse_pagination_params-bounds :
    (q : Query)
    → ((parse_pagination_params q).1 ≡ none)
      ⊎ ((n : ℕ) × ((parse_pagination_params q).1 ≡ some n) × (1 ≤ n) × (n ≤ 1000))
unfolding parse_pagination_params
parse_pagination_params-bounds q =
    capped (positive (atoi (limit_text q))) (positive-least (atoi (limit_text q)))
  where
    capped :
        (o : Option ℕ)
        → ((n : ℕ) → o ≡ some n → 1 ≤ n)
        → ((o >>= λ n. some (if ltb 1000 n then 1000 else n)) ≡ none)
          ⊎ ((n : ℕ) × ((o >>= λ n. some (if ltb 1000 n then 1000 else n)) ≡ some n)
              × (1 ≤ n)
              × (n ≤ 1000))
    capped none h = inl refl
    capped (some n) h =
        let least : 1 ≤ n = h n refl in
        inr (if ltb 1000 n then 1000 else n, refl, ground arith, ground arith)
