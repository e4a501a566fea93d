-- ===== src/Arrivals/StopAgencies/MostCommon.antt =====
-- The agency that `agenciesForStops` falls back to.
use maglev.Prelude.{
  lookup-listed, listed-lookup, ℕ, ◌+◌, ◌≤◌, ◌<◌, suc, true, false, some, List, [], ◌∷◌, In, Text,
  text_eq, text_lt, text_lt_trans, text_lt_irrefl, ◌==◌, Map, lookup, lookup-insert, get_or,
  UniqueKeys, insert-UniqueKeys, if◌then◌else◌, ◌≡◌, refl, ◌∙◌, arith, ◌⊎◌, ◌↔◌, inl, inr,
  Bool-cases, Option-cases,
}
use maglev.Arrivals.StopAgencies.{
  AgencyRow, MapOrder, count_agency, counts_of, is_more_common, most_common_among,
  most_common_agency,
}

-- the number of rows of an agency
abbrev pub count_rows : Text → List AgencyRow → ℕ
count_rows id [] = 0
count_rows id (r ∷ rs) = let rest = count_rows id rs in if r.id == id then suc rest else rest

get_or-count_agency :
    (id key : Text) (counts : Map Text ℕ)
    → get_or 0 key (count_agency id counts)
      ≡ (if id == key then get_or 0 key counts + 1 else get_or 0 key counts)
unfolding count_agency
get_or-count_agency id key counts =
    ground
      (arith, lookup-insert {V = ℕ} id key (get_or 0 id counts + 1) counts, text_eq.beq_iff id key)

get_or-counts_of :
    (key : Text) (rows : List AgencyRow) (counts : Map Text ℕ)
    → get_or 0 key (counts_of rows counts) ≡ get_or 0 key counts + count_rows key rows
unfolding counts_of
get_or-counts_of key [] counts = omega arith
get_or-counts_of key (r ∷ rs) counts =
    get_or-counts_of key rs (count_agency r.id counts)
    ∙ ground (arith, get_or-count_agency r.id key counts)

module _ (counts : Map Text ℕ) where
  -- `e` is not more common than `best`, nor as common and before it
  abbrev pub IsBelow : Text × ℕ → Text → Type 0
  IsBelow e best =
      (e.1 ≤ get_or 0 best counts) × (e.1 ≡ get_or 0 best counts → text_lt e.0 best ≡ false)

  abbrev IsBest : Map Text ℕ → Text → Type 0
  IsBest entries best = (e : Text × ℕ) → In e entries → IsBelow e best

  replaced-IsBest :
      (seen : Map Text ℕ) (id best : Text) (count : ℕ)
      → get_or 0 id counts ≡ count
      → is_more_common counts id count best ≡ true
      → IsBest seen best
      → IsBest ((id, count) ∷ seen) id
  unfolding is_more_common
  replaced-IsBest seen id best count c t h e (inl q) =
      rw q (omega (arith, c), λ _. text_lt_irrefl id)
  replaced-IsBest seen id best count c t h e (inr i) =
      let below = h e i in (ground (arith, c, t, below.0), λ s. tie s)
    where
      tie : e.1 ≡ get_or 0 id counts → text_lt e.0 id ≡ false
      tie s = ground (arith, c, t, (h e i).0, (h e i).1, text_lt_trans e.0 id best)

  kept-IsBest :
      (seen : Map Text ℕ) (id best : Text) (count : ℕ)
      → is_more_common counts id count best ≡ false
      → IsBest seen best
      → IsBest ((id, count) ∷ seen) best
  unfolding is_more_common
  kept-IsBest seen id best count t h e (inl q) = rw q (ground (arith, t), λ s. ground (arith, t, s))
  kept-IsBest seen id best count t h e (inr i) = h e i

  most_common_among-IsBest :
      (seen entries : Map Text ℕ) (best : Text)
      → ((e : Text × ℕ) → In e entries → get_or 0 e.0 counts ≡ e.1)
      → IsBest seen best
      → (e : Text × ℕ) → In e seen ⊎ In e entries
      → IsBelow e (most_common_among counts entries best)
  unfolding most_common_among
  most_common_among-IsBest seen [] best own h e (inl i) = h e i
  most_common_among-IsBest seen [] best own h e (inr i) = absurd i
  most_common_among-IsBest seen ((id, count) ∷ m) best own h e i =
      elim (Bool-cases (is_more_common counts id count best)) [
        | inl t ↦ rw t (
            most_common_among-IsBest ((id, count) ∷ seen) m id (λ x j. own x (inr j))
              (replaced-IsBest seen id best count (own (id, count) (inl refl)) t h) e (move i))
        | inr t ↦ rw t (
            most_common_among-IsBest ((id, count) ∷ seen) m best (λ x j. own x (inr j))
              (kept-IsBest seen id best count t h) e (move i))
      ]
    where
      move : In e seen ⊎ In e ((id, count) ∷ m) → In e ((id, count) ∷ seen) ⊎ In e m
      move (inl j) = inl (inr j)
      move (inr (inl q)) = inl (inl q)
      move (inr (inr j)) = inr j

counts_of-UniqueKeys :
    (rows : List AgencyRow) (counts : Map Text ℕ)
    → UniqueKeys counts
    → UniqueKeys (counts_of rows counts)
unfolding counts_of count_agency
counts_of-UniqueKeys [] counts u = u
counts_of-UniqueKeys (r ∷ rs) counts u =
    counts_of-UniqueKeys rs (count_agency r.id counts)
      (insert-UniqueKeys r.id (get_or 0 r.id counts + 1) counts u)

-- `range` goes through each entry of the map
abbrev pub IsOrder : MapOrder → Type 0
IsOrder order = (counts : Map Text ℕ) (e : Text × ℕ) → In e (order.range counts) ↔ In e counts

module _ (order : MapOrder) (through : IsOrder order) (rows : List AgencyRow) where
  abbrev pub fallback : Text
  fallback = most_common_agency order (counts_of rows [])

  counted : (key : Text) → get_or 0 key (counts_of rows []) ≡ count_rows key rows
  unfolding lookup
  counted key = get_or-counts_of key rows [] ∙ omega arith

  counts-IsBelow :
      (id : Text) (count : ℕ)
      → lookup id (counts_of rows []) ≡ some count
      → IsBelow (counts_of rows []) (id, count) fallback
  unfolding most_common_agency
  counts-IsBelow id count e =
      let counts = counts_of rows [] in
      most_common_among-IsBest counts [] (order.range counts) []
        (λ x i.
          rw
            (
              listed-lookup x counts (counts_of-UniqueKeys rows [] tt) ((through counts x).0 i),
              get_or,
            )
            refl)
        (λ x i. absurd i) (id, count)
        (inr ((through counts (id, count)).1 (lookup-listed id count counts e)))

  -- no agency has more rows than the fallback, and none that has as many comes before it
  pub fallback_most_common :
      (id : Text)
      → (count_rows id rows ≤ count_rows fallback rows)
        × (0 < count_rows id rows
            → count_rows id rows ≡ count_rows fallback rows
            → text_lt id fallback ≡ false)
  fallback_most_common id = elim (Option-cases (lookup id (counts_of rows []))) [
    | inl e ↦
        let zero_rows : 0 ≡ count_rows id rows = rw (e, get_or) at (counted id) in
        (omega (arith, zero_rows), λ h. absurd (omega (arith, zero_rows, h)))
    | inr (count, e) ↦
        let own : count ≡ count_rows id rows = rw (e, get_or) at (counted id) in
        let below = counts-IsBelow id count e in
        (
          omega (arith, own, below.0, counted fallback),
          λ h s. below.1 (omega (arith, own, s, counted fallback)),
        )
  ]
