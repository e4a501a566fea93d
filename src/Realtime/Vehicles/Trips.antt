-- ===== src/Realtime/Vehicles/Trips.antt =====
-- Which vehicle serves a trip after a snapshot: a reported one takes it from a stored one.
use maglev.Prelude.{
  contains_text, In-contains_text, [], ℕ, true, false, some, List, Text, ◌≡◌, ◌≢◌, sym, ap, ◌∙◌,
  inl, inr, In, filter_map-In, arith,
}
use mathlib.Core.Option.{some-injective}
use maglev.Realtime.Types.{Vehicle, VehicleKey}
use maglev.Realtime.Vehicles.{
  trip_ids_served_by, trip_id_of, release_taken_trip, key_of, index_by_key, valid_vehicles, Fleet,
  apply_snapshot,
}
use maglev.Realtime.Vehicles.Snapshot.{
  IsReported, valid_vehicles-In, IsReported-keys_of, retained-In,
}
use maglev.Realtime.Vehicles.Retention.{apply_snapshot_from, FromLoops, snapshot_trips}

released :
    (pv : Vehicle) (live : List Text) (t : Text)
    → trip_id_of (release_taken_trip pv live) ≡ some t
    → contains_text t live ≡ false
unfolding release_taken_trip trip_id_of
released pv live t h = ground arith

module _ (now : ℕ) (incoming : List Vehicle) (f : Fleet) where
  abbrev after : Fleet
  after = apply_snapshot now incoming f

  live_trip :
      (v : Vehicle) (t : Text)
      → In v (valid_vehicles (index_by_key f.vehicles []) incoming)
      → trip_id_of v ≡ some t
      → contains_text t (snapshot_trips incoming f) ≡ true
  unfolding trip_ids_served_by
  live_trip v t i e = In-contains_text t _ (filter_map-In trip_id_of v t _ i e)

  -- A stored vehicle that the snapshot does not report keeps no trip that a reported vehicle
  -- serves after the snapshot.
  pub trips_exclusive :
      (w v : Vehicle) (j k : VehicleKey) (t : Text)
      → In w after.vehicles
      → key_of w ≡ some j
      → ¬ IsReported j incoming
      → In v after.vehicles
      → key_of v ≡ some k
      → IsReported k incoming
      → trip_id_of w ≡ some t
      → trip_id_of v ≢ some t
  trips_exclusive w v j k t h q n g r p tw tv =
      go (apply_snapshot_from now incoming f w h) (apply_snapshot_from now incoming f v g)
    where
      go : FromLoops now incoming f w → FromLoops now incoming f v → ⊥
      go (inl i) _ =
          let (u, m, iu, qu, c, rw') = valid_vehicles-In f.vehicles incoming w i in
          n (u, iu, qu ∙ sym rw' ∙ q)
      go (inr i) (inl y) =
          let (pv, m, at, ip, qp, rw', out, s, l, e) =
            retained-In now _ after.last_seen _ f.vehicles w i in
          let free = released pv (snapshot_trips incoming f) t (ap trip_id_of (sym e) ∙ tw) in
          let taken = live_trip v t y tv in cc (free, taken)
      go (inr i) (inr y) =
          let (pv, m, at, ip, qp, rv, out, s, l, e) =
            retained-In now _ after.last_seen _ f.vehicles v y in
          let same : m ≡ k = some-injective m k (sym rv ∙ r) in
          let here = IsReported-keys_of f.vehicles incoming k p in cc (here, out, same)
