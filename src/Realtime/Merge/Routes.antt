-- ===== src/Realtime/Merge/Routes.antt =====
-- The vehicles by route in the merged view.
use maglev.Prelude.{
  ℕ, suc, Bool, ◌&&◌, not, List, [], ◌∷◌, ◌++◌, Text, text_eq, is_empty, Map, lookup, lookup-insert,
  get_or, keep_if, if◌then◌else◌, ◌==◌, ◌≡◌, refl, sym, ap, ◌∙◌, arith, Bool-cases, inl, inr,
}
use mathlib.Core.List.{append-nil, append_assoc}
use maglev.Realtime.Types.{Trip, Vehicle, Manager}
use maglev.Realtime.Merge.Duplicated.{
  is_under, is_duplicated_under, selected-is_under, selected-is_duplicated_under,
}
use maglev.Realtime.Merge.{
  push, all_feeds, VehicleIndex, no_index, index_vehicles, index_vehicle, vehicle_route_id,
  duplicated_route_of, trip_positions, merge, get_duplicated_vehicles_for_route,
}

module _ {V : Type 0} where
  pub get_or-push :
      (k j : Text) (v : V) (m : Map Text (List V))
      → get_or [] j (push k v m) ≡ (if k == j then get_or [] j m ++ (v ∷ []) else get_or [] j m)
  unfolding push
  get_or-push k j v m =
      ground (arith, text_eq.beq_iff k j, lookup-insert k j (get_or [] k m ++ (v ∷ [])) m)

  -- a loop that appends each element to the list of its key, unless that is ""
  module _ (key : V → Text) where
    push_all : List V → Map Text (List V) → Map Text (List V)
    push_all [] m = m
    push_all (v ∷ vs) m = push_all vs (if is_empty (key v) then m else push (key v) v m)

    -- the elements that the key selects
    abbrev pub selects : Text → V → Bool
    selects k v = not (is_empty (key v)) && key v == k

    get_or-push_all :
        (k : Text) (vs : List V) (m : Map Text (List V))
        → get_or [] k (push_all vs m) ≡ get_or [] k m ++ keep_if (selects k) vs
    unfolding push_all
    get_or-push_all k [] m = sym (append-nil (get_or [] k m))
    get_or-push_all k (v ∷ vs) m = elim (Bool-cases (is_empty (key v))) [
      | inl e ↦ rw e (get_or-push_all k vs m)
      | inr e ↦ elim (Bool-cases (key v == k)) [
        | inl q ↦
            rw (e, q)
              (get_or-push_all k vs (push (key v) v m)
                ∙ ap (λ (l : List V). l ++ keep_if (selects k) vs)
                    (get_or-push (key v) k v m ∙ (rw q refl))
                ∙ append_assoc (get_or [] k m) (v ∷ []) (keep_if (selects k) vs))
        | inr q ↦
            rw (e, q)
              (get_or-push_all k vs (push (key v) v m)
                ∙ ap (λ (l : List V). l ++ keep_if (selects k) vs)
                    (get_or-push (key v) k v m ∙ (rw q refl)))
      ]
    ]

index_vehicles-push_all :
    (trips : List Trip) (lookups : Map Text ℕ) (i : ℕ) (vs : List Vehicle) (idx : VehicleIndex)
    → ((index_vehicles trips lookups i vs idx).by_route ≡ push_all vehicle_route_id vs idx.by_route)
      × ((index_vehicles trips lookups i vs idx).duplicated
          ≡ push_all (duplicated_route_of trips lookups) vs idx.duplicated)
unfolding index_vehicles index_vehicle push_all
index_vehicles-push_all trips lookups i [] idx = (refl, refl)
index_vehicles-push_all trips lookups i (v ∷ vs) idx =
    index_vehicles-push_all trips lookups (suc i) vs (index_vehicle trips lookups i v idx)

-- In the merged view of any store, the vehicles listed under a route are those of all feeds, in
-- the order of the feeds, whose trip has that route ID and the ID is not "". The vehicles listed
-- as duplicated under a route are, in the same order, those of a DUPLICATED trip whose route ID,
-- or the route ID of the last trip update with that trip's ID if it has none, is that route.
pub merge-routes :
    (m : Manager) (route : Text)
    → (get_or [] route (merge m).vehicles_by_route
        ≡ keep_if (is_under route) (all_feeds m.feed_vehicles))
      × (get_duplicated_vehicles_for_route (merge m) route
          ≡ keep_if
              (is_duplicated_under (all_feeds m.feed_trips) route)
              (all_feeds m.feed_vehicles))
unfolding merge get_duplicated_vehicles_for_route lookup
merge-routes m route =
    let trips = all_feeds m.feed_trips in
    let pushed =
      index_vehicles-push_all trips (trip_positions trips) 0 (all_feeds m.feed_vehicles) no_index in
    (
      ap (get_or [] route) pushed.0
          ∙ get_or-push_all vehicle_route_id route (all_feeds m.feed_vehicles) []
          ∙ (λ i. keep_if (λ v. selected-is_under route v i) (all_feeds m.feed_vehicles)),
      ap (get_or [] route) pushed.1
          ∙ get_or-push_all (duplicated_route_of trips (trip_positions trips)) route
              (all_feeds m.feed_vehicles) []
          ∙ (λ i.
              keep_if (λ v. selected-is_duplicated_under trips route v i)
                (all_feeds m.feed_vehicles)),
    )
