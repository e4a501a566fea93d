-- ===== src/Realtime/Vehicles/Freshness.antt =====
-- What a snapshot makes of each key: no position goes back in time, no key is served twice.
use maglev.Prelude.{ℕ, true, false, some, List, [], ◌≡◌, sym, ap, ◌∙◌, inl, inr, In, arith, text_eq}
use mathlib.Core.Option.{some-injective}
use maglev.Realtime.Types.{Vehicle, VehicleKey}
use maglev.Realtime.Vehicles.{
  retained, is_vehicle_stale, key_of, index_by_key, choose, valid_vehicles, Fleet, apply_snapshot,
}
use maglev.Realtime.Vehicles.Snapshot.{
  index_by_key_lem, index_by_key_total, choose_cases, release_taken_trip_keeps, valid_vehicles-In,
  IsReported-keys_of, retained-In,
}
use maglev.Realtime.Vehicles.Retention.{
  served_choice, apply_snapshot_from, FromLoops, snapshot_keys, snapshot_trips,
}

-- no two vehicles share a key
abbrev pub OnePerKey : List Vehicle → Type 0
OnePerKey vs =
    (p q : Vehicle) (k : VehicleKey)
    → In p vs
    → In q vs
    → key_of p ≡ some k
    → key_of q ≡ some k
    → p ≡ q

is_vehicle_stale_irrefl : (v : Vehicle) → is_vehicle_stale v v ≡ false
unfolding is_vehicle_stale
is_vehicle_stale_irrefl v = ground arith

is_vehicle_stale_same :
    (p v w : Vehicle) → v.timestamp ≡ w.timestamp → is_vehicle_stale p w ≡ is_vehicle_stale p v
unfolding is_vehicle_stale
is_vehicle_stale_same p v w h = ground arith

is_vehicle_stale_asym : (p v : Vehicle) → is_vehicle_stale p v ≡ true → is_vehicle_stale v p ≡ false
unfolding is_vehicle_stale
is_vehicle_stale_asym p v h = ground arith

module _ (now : ℕ) (incoming : List Vehicle) (f : Fleet) where
  abbrev after : Fleet
  after = apply_snapshot now incoming f

  -- Every report is served: for a reported vehicle that has a key, the store has a vehicle of
  -- that key afterwards which is not older than the report.
  pub report_served :
      (u : Vehicle) (k : VehicleKey)
      → In u incoming
      → key_of u ≡ some k
      → (w : Vehicle) × In w after.vehicles × (key_of w ≡ some k) × (is_vehicle_stale u w ≡ false)
  report_served u k i q = elim (choose_cases (index_by_key f.vehicles []) k u) [
    | inl e ↦ (u, rw e at (served_choice now incoming f u k i q), q, is_vehicle_stale_irrefl u)
    | inr (p, l, s, e) ↦ (
      p,
      rw e at (served_choice now incoming f u k i q),
      (index_by_key_lem f.vehicles k p l).1,
      is_vehicle_stale_asym p u s,
    )
  ]

  module _ (one : OnePerKey f.vehicles) where
    chosen_not_older :
        (p v : Vehicle) (k : VehicleKey)
        → In p f.vehicles
        → key_of p ≡ some k
        → is_vehicle_stale p (choose (index_by_key f.vehicles []) k v) ≡ false
    unfolding choose
    chosen_not_older p v k i q =
        let (r, l) = index_by_key_total f.vehicles [] k p i q in
        let (ir, qr) = index_by_key_lem f.vehicles k r l in
        let same : r ≡ p = one r p k ir i qr q in ground (arith, is_vehicle_stale_irrefl p)

    -- In a store with one vehicle for each key, no vehicle is replaced by an older one: whatever
    -- the snapshot reports, a vehicle served after it is not stale against the stored vehicle of
    -- its key.
    pub never_older :
        (p w : Vehicle) (k : VehicleKey)
        → In p f.vehicles
        → key_of p ≡ some k
        → In w after.vehicles
        → key_of w ≡ some k
        → is_vehicle_stale p w ≡ false
    never_older p w k ip qp h qw = go (apply_snapshot_from now incoming f w h)
      where
        go : FromLoops now incoming f w → is_vehicle_stale p w ≡ false
        go (inl i) =
            let (v, j, iv, q, c, r) = valid_vehicles-In f.vehicles incoming w i in
            let same : j ≡ k = some-injective j k (sym r ∙ qw) in
            ap (is_vehicle_stale p) c ∙ chosen_not_older p v j ip (qp ∙ ap some (sym same))
        go (inr i) =
            let (pv, j, at, iv, q, r, out, s, l, e) =
              retained-In now _ after.last_seen _ f.vehicles w i in
            let same : pv ≡ p = one pv p k iv ip (q ∙ sym r ∙ qw) qp in
            is_vehicle_stale_same p p w (
              sym (
                ap (λ v. v.timestamp) e
                ∙ (release_taken_trip_keeps pv _).1
                ∙ ap (λ v. v.timestamp) same))
            ∙ is_vehicle_stale_irrefl p

    -- A snapshot with one vehicle for each key leaves a store with one vehicle for each key.
    apply_snapshot-OnePerKey : OnePerKey incoming → OnePerKey after.vehicles
    apply_snapshot-OnePerKey distinct w x k h g q r =
        go (apply_snapshot_from now incoming f w h) (apply_snapshot_from now incoming f x g)
      where
        stored_or_reported :
            (y z : Vehicle)
            → In y (valid_vehicles (index_by_key f.vehicles []) incoming)
            → key_of y ≡ some k
            → In z (
                retained now
                  (snapshot_keys incoming f)
                  after.last_seen
                  (snapshot_trips incoming f)
                  f.vehicles)
            → key_of z ≡ some k
            → ⊥
        stored_or_reported y z i ky j kz =
            let (v, m, iv, qv, c, ry) = valid_vehicles-In f.vehicles incoming y i in
            let (pv, n, at, ip, qp, rz, out, s, l, e) =
              retained-In now _ after.last_seen _ f.vehicles z j in
            let same : m ≡ n = some-injective m n (sym ry ∙ ky ∙ sym kz ∙ rz) in
            let here = IsReported-keys_of f.vehicles incoming n (v, iv, qv ∙ ap some same) in
            cc (here, out)

        go : FromLoops now incoming f w → FromLoops now incoming f x → w ≡ x
        go (inl i) (inl j) =
            let (v, m, iv, qv, c, rw') = valid_vehicles-In f.vehicles incoming w i in
            let (u, n, iu, qu, d, rx) = valid_vehicles-In f.vehicles incoming x j in
            let mk : m ≡ k = some-injective m k (sym rw' ∙ q) in
            let nk : n ≡ k = some-injective n k (sym rx ∙ r) in
            let same : v ≡ u = distinct v u k iv iu (qv ∙ ap some mk) (qu ∙ ap some nk) in
            cc (c, d, mk, nk, same)
        go (inl i) (inr j) = absurd (stored_or_reported w x i q j r)
        go (inr i) (inl j) = absurd (stored_or_reported x w j r i q)
        go (inr i) (inr j) =
            let (pv, m, at, ip, qp, rw', out, s, l, e) =
              retained-In now _ after.last_seen _ f.vehicles w i in
            let (pu, n, at', iu, qu, rx, out', s', l', e') =
              retained-In now _ after.last_seen _ f.vehicles x j in
            let same : pv ≡ pu = one pv pu k ip iu (qp ∙ sym rw' ∙ q) (qu ∙ sym rx ∙ r) in
            cc (e, e', same)
