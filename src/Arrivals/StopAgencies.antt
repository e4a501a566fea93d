-- ===== src/Arrivals/StopAgencies.antt =====
-- internal/restapi/arrivals_and_departures_for_location_handler.go: `agenciesForStops`, which agency owns
-- each stop of a request, with the most common one as the fallback.
pub mod MostCommon
pub mod Owners
use maglev.Prelude.{
  ℕ, ◌+◌, Bool, ◌||◌, ◌&&◌, Option, none, some, List, [], ◌∷◌, Text, text_eq, text_lt, ◌==◌, ltb,
  eqb, Map, lookup, insert, get_or, if◌then◌else◌,
}
use maglev.Arrivals.Batched.{StopAgencyIndex}

-- a row of `GetAgenciesForStops`
pub record AgencyRow : Type 0 where
  pub id : Text
  pub stop_id : Text
  pub timezone : Text

-- `time.LoadLocation` and `time.UTC`
pub record Zones (L : Type 0) : Type 0 where
  pub load_location : Text → Option L
  pub utc : L

-- `if _, exists := m[k]; !exists { m[k] = v }`
unfoldable pub insert_new : {V : Type 0} → Text → V → Map Text V → Map Text V
insert_new k v m = elim (lookup k m) [ some _ ↦ m | none ↦ insert k v m ]

-- `counts[row.ID]++`
unfoldable pub count_agency : Text → Map Text ℕ → Map Text ℕ
count_agency id counts = insert id (get_or 0 id counts + 1) counts

module _ {L : Type 0} (zones : Zones L) where
  -- `agencyLocationOrUTC`
  unfoldable pub agency_location_or_utc : Text → L
  agency_location_or_utc timezone = elim (zones.load_location timezone) [
    | some loc ↦ loc
    | none ↦ zones.utc
  ]

  -- the three maps that the loop over the rows fills
  unfoldable pub locations_of : List AgencyRow → Map Text L → Map Text L
  locations_of [] m = m
  locations_of (r ∷ rs) m = locations_of rs (insert_new r.id (agency_location_or_utc r.timezone) m)

unfoldable pub by_stop_id_of : List AgencyRow → Map Text Text → Map Text Text
by_stop_id_of [] m = m
by_stop_id_of (r ∷ rs) m = by_stop_id_of rs (insert_new r.stop_id r.id m)

unfoldable pub counts_of : List AgencyRow → Map Text ℕ → Map Text ℕ
counts_of [] counts = counts
counts_of (r ∷ rs) counts = counts_of rs (count_agency r.id counts)

-- the test of `mostCommonAgency`
unfoldable pub is_more_common : Map Text ℕ → Text → ℕ → Text → Bool
is_more_common counts id count best =
    ltb (get_or 0 best counts) count || (eqb count (get_or 0 best counts) && text_lt id best)

-- the loop of `mostCommonAgency`, over the entries in the order of the iteration
unfoldable pub most_common_among : Map Text ℕ → Map Text ℕ → Text → Text
most_common_among counts [] best = best
most_common_among counts ((id, count) ∷ m) best =
    most_common_among counts m (if is_more_common counts id count best then id else best)

-- the order in which `range` goes through a map
pub record MapOrder : Type 0 where
  pub range : Map Text ℕ → Map Text ℕ

-- `mostCommonAgency`
unfoldable pub most_common_agency : MapOrder → Map Text ℕ → Text
most_common_agency order counts = most_common_among counts (order.range counts) []

-- the index that `agenciesForStops` makes of the rows
unfoldable pub index_of_rows :
    {L : Type 0} → MapOrder → Zones L → List AgencyRow → StopAgencyIndex L
index_of_rows order zones rows =
    let fallback = most_common_agency order (counts_of rows []) in
    record {
      by_stop_id = by_stop_id_of rows [];
      locations = locations_of zones rows [];
      fallback_agency_id = fallback;
      fallback_location = elim (lookup fallback (locations_of zones rows [])) [
        | some loc ↦ loc
        | none ↦ zones.utc
      ];
    }

-- `agenciesForStops`
unfoldable pub agencies_for_stops :
    {L : Type 0}
    → MapOrder
    → Zones L
    → (List Text → Option (List AgencyRow))
    → List Text
    → Option (StopAgencyIndex L)
agencies_for_stops order zones query stop_ids = elim (query stop_ids) [
  | none ↦ none
  | some rows ↦ some (index_of_rows order zones rows)
]
