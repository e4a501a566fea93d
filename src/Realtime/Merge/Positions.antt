-- ===== src/Realtime/Merge/Positions.antt =====
-- The position indexes of the merged view: what a reader finds under an ID.
use maglev.Prelude.{
  ℕ, suc, ◌+◌, false, Option, none, some, List, [], ◌∷◌, Text, text_eq, is_empty, Map, lookup,
  lookup-insert, get_elem?, if◌then◌else◌, ◌==◌, ◌≡◌, refl, ◌⊎◌, inl, inr, arith, Bool-cases,
}
use maglev.Realtime.Types.{Trip, Vehicle, Manager}
use maglev.Realtime.Merge.{
  no_index, positions, set_unless_empty, found, missing, read_at, all_feeds, VehicleIndex,
  index_vehicles, index_vehicle, vehicle_id, vehicle_trip_id, merge, trip_positions,
  trip_id_of_update, get_trip_update_by_id, get_vehicle_by_id,
}

module _ {A : Type 0} (key : A → Text) (id : Text) (full : is_empty id ≡ false) where
  -- the last element with the ID
  unfoldable pub last_match : List A → Option A
  last_match [] = none
  last_match (x ∷ xs) = elim (last_match xs) [
    | none ↦ if key x == id then some x else none
    | some y ↦ some y
  ]

  lookup-set :
      (k : Text) (i : ℕ) (m : Map Text ℕ)
      → lookup id (set_unless_empty k i m) ≡ (if k == id then some i else lookup id m)
  lookup-set k i m = ground (arith, lookup-insert k id i m, text_eq.beq_iff k id)

  -- the position noted for the ID, where `i` elements stand before
  pub positions_cases :
      (i : ℕ) (xs : List A) (m : Map Text ℕ)
      → ((last_match xs ≡ none) × (lookup id (positions key i xs m) ≡ lookup id m))
        ⊎ ((x : A) × (j : ℕ) × (last_match xs ≡ some x)
            × (get_elem? xs j ≡ some x)
            × (lookup id (positions key i xs m) ≡ some (i + j)))
  unfolding positions last_match
  positions_cases i [] m = inl (refl, refl)
  positions_cases i (x ∷ xs) m = elim (positions_cases (suc i) xs (set_unless_empty (key x) i m)) [
    | inr (y, j, l, g, p) ↦ inr (y, suc j, ground arith, g, ground arith)
    | inl (n, p) ↦ elim (Bool-cases (key x == id)) [
      | inl e ↦ inr (x, 0, ground arith, refl, ground (arith, lookup-set (key x) i m))
      | inr e ↦ inl (ground arith, ground (arith, lookup-set (key x) i m))
    ]
  ]

  read_at-positions :
      (xs : List A)
      → read_at xs (positions key 0 xs []) id
        ≡ elim (last_match xs) [ none ↦ missing | some x ↦ found x ]
  unfolding read_at
  read_at-positions xs = elim (positions_cases 0 xs []) [
    | inl (n, p) ↦ unfold lookup in ground arith
    | inr (x, j, l, g, p) ↦ ground arith
  ]

index_vehicles-positions :
    (trips : List Trip) (lookups : Map Text ℕ) (i : ℕ) (vs : List Vehicle) (idx : VehicleIndex)
    → ((index_vehicles trips lookups i vs idx).by_trip ≡ positions vehicle_trip_id i vs idx.by_trip)
      × ((index_vehicles trips lookups i vs idx).by_vehicle
          ≡ positions vehicle_id i vs idx.by_vehicle)
unfolding index_vehicles positions index_vehicle
index_vehicles-positions trips lookups i [] idx = (refl, refl)
index_vehicles-positions trips lookups i (v ∷ vs) idx =
    index_vehicles-positions trips lookups (suc i) vs (index_vehicle trips lookups i v idx)

-- In the merged view of any store, a trip update read by a trip ID that is not "" is the last one
-- with that ID among the updates of all feeds, in the order of the feed IDs; there is none exactly
-- if no update has the ID. A vehicle read by a vehicle ID is the last one with that ID in the same
-- way. No read is out of range.
pub merge-reads :
    (m : Manager) (id : Text) (full : is_empty id ≡ false)
    → (get_trip_update_by_id (merge m) id
        ≡ elim (last_match trip_id_of_update id full (all_feeds m.feed_trips)) [
          | none ↦ missing
          | some t ↦ found t
        ])
      × (get_vehicle_by_id (merge m) id
          ≡ elim (last_match vehicle_id id full (all_feeds m.feed_vehicles)) [
            | none ↦ missing
            | some v ↦ found v
          ])
unfolding get_trip_update_by_id get_vehicle_by_id merge trip_positions
merge-reads m id full = (
  read_at-positions trip_id_of_update id full (all_feeds m.feed_trips),
  rw
      (index_vehicles-positions (all_feeds m.feed_trips) (trip_positions (all_feeds m.feed_trips)) 0
        (all_feeds m.feed_vehicles) no_index).1
      (read_at-positions vehicle_id id full (all_feeds m.feed_vehicles)),
)
