-- ===== src/Arrivals/StopAgencies/Owners.antt =====
-- The agency that `agenciesForStops` assigns to each stop.
use maglev.Prelude.{
  ◌≤◌, ◌<◌, false, Option, none, some, List, [], ◌∷◌, Text, text_eq, text_lt, ◌==◌, is_empty, Map,
  lookup, lookup-insert, if◌then◌else◌, ◌≡◌, refl, ◌∙◌, arith,
}
use maglev.Arrivals.Batched.{StopAgencyIndex, agency_id_for}
use maglev.Arrivals.StopAgencies.{
  AgencyRow, MapOrder, Zones, insert_new, by_stop_id_of, index_of_rows, agencies_for_stops,
}
use maglev.Arrivals.StopAgencies.MostCommon.{IsOrder, count_rows, fallback_most_common}

-- the agency of the first row of a stop
abbrev pub first_agency : Text → List AgencyRow → Option Text
first_agency stop_id [] = none
first_agency stop_id (r ∷ rs) =
    let later = first_agency stop_id rs in if r.stop_id == stop_id then some r.id else later

lookup-insert_new :
    (key k : Text) (v : Text) (m : Map Text Text)
    → lookup key (insert_new k v m)
      ≡ elim (lookup key m) [ some a ↦ some a | none ↦ if k == key then some v else none ]
unfolding insert_new
lookup-insert_new key k v m =
    ground (arith, lookup-insert {V = Text} k key v m, text_eq.beq_iff k key)

lookup-by_stop_id_of :
    (key : Text) (rows : List AgencyRow) (m : Map Text Text)
    → lookup key (by_stop_id_of rows m)
      ≡ elim (lookup key m) [ some a ↦ some a | none ↦ first_agency key rows ]
unfolding by_stop_id_of
lookup-by_stop_id_of key [] m = ground arith
lookup-by_stop_id_of key (r ∷ rs) m =
    lookup-by_stop_id_of key rs (insert_new r.stop_id r.id m)
    ∙ ground (arith, lookup-insert_new key r.stop_id r.id m)

module _ {L : Type 0} (order : MapOrder) (zones : Zones L) where
  -- Where a map is gone through in any order of its entries, and for any answer of the query, `agenciesForStops` assigns to each stop the agency of its first row, or,
  -- where it has no row or an empty agency, the fallback; no agency has more rows than the fallback, and
  -- of those with as many rows, at least one, none comes before it.
  pub agencies_for_stops_lem :
      (query : List Text → Option (List AgencyRow)) (stop_ids : List Text) (rows : List AgencyRow)
      → IsOrder order
      → query stop_ids ≡ some rows
      → (index : StopAgencyIndex L) × (agencies_for_stops order zones query stop_ids ≡ some index)
        × ((stop_id : Text)
            → agency_id_for index stop_id ≡ elim (first_agency stop_id rows) [
              | none ↦ index.fallback_agency_id
              | some id ↦ if is_empty id then index.fallback_agency_id else id
            ])
        × ((id : Text)
            → (count_rows id rows ≤ count_rows index.fallback_agency_id rows)
              × (0 < count_rows id rows
                  → count_rows id rows ≡ count_rows index.fallback_agency_id rows
                  → text_lt id index.fallback_agency_id ≡ false))
  unfolding agencies_for_stops index_of_rows agency_id_for lookup
  agencies_for_stops_lem query stop_ids rows through e = (
    index_of_rows order zones rows,
    rw (e, agencies_for_stops) refl,
    λ stop_id.
        let first : lookup stop_id (by_stop_id_of rows []) ≡ first_agency stop_id rows =
          lookup-by_stop_id_of stop_id rows [] in
        rw (first, agency_id_for) refl,
    fallback_most_common order through rows,
  )
