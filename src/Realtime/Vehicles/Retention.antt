-- ===== src/Realtime/Vehicles/Retention.antt =====
-- The last-seen map through a snapshot and a cleanup: which vehicles a feed still serves, and for
-- how long after their last report.
use maglev.Prelude.{
  ap, ◌+◌, ◌↔◌, In-append_right, In-append_left, ℕ, ◌≤◌, false, not, ◌||◌, none, some, List, [],
  ◌∷◌, Map, lookup, insert, lookup-insert, lookup-keep_if, keep_if-UniqueKeys, insert-UniqueKeys,
  UniqueKeys, if◌then◌else◌, ◌≡◌, refl, sym, ◌∙◌, ◌⊎◌, inl, inr, In, In-append, Bool-cases, arith,
  Text,
}
use mathlib.Core.Option.{some-injective}
use maglev.Realtime.Types.{Vehicle, VehicleKey, vehicle_key_eq}
use maglev.Realtime.Vehicles.{
  choose, release_taken_trip, stale_vehicle_timeout, contains_key, key_of, index_by_key,
  valid_vehicles, keys_of, mark_seen, expired, drop_expired, retained, Fleet, apply_snapshot,
  trip_ids_served_by,
}
use maglev.Realtime.Vehicles.Snapshot.{
  retained-In, In-retained, valid_vehicles-In, IsReported, IsReported-keys_of, keys_of-IsReported,
  In-valid_vehicles, release_taken_trip_keeps,
}

-- what holds of a feed's vehicles between two updates: every vehicle has a key, and that key a
-- last-seen time
pub record IsTracked (f : Fleet) : Type 0 where
  pub unique : UniqueKeys f.last_seen
  pub seen :
      (v : Vehicle)
      → In v f.vehicles
      → (k : VehicleKey) × (at : ℕ) × (key_of v ≡ some k) × (lookup k f.last_seen ≡ some at)

lookup-mark_seen :
    (now : ℕ) (ks : List VehicleKey) (m : Map VehicleKey ℕ) (k : VehicleKey)
    → lookup k (mark_seen now ks m) ≡ (if contains_key k ks then some now else lookup k m)
unfolding mark_seen contains_key
lookup-mark_seen now [] m k = refl
lookup-mark_seen now (j ∷ ks) m k =
    ground (arith, lookup-mark_seen now ks (insert j now m) k, lookup-insert j k now m)

mark_seen-UniqueKeys :
    (now : ℕ) (ks : List VehicleKey) (m : Map VehicleKey ℕ)
    → UniqueKeys m
    → UniqueKeys (mark_seen now ks m)
unfolding mark_seen
mark_seen-UniqueKeys now [] m u = u
mark_seen-UniqueKeys now (j ∷ ks) m u =
    mark_seen-UniqueKeys now ks (insert j now m) (insert-UniqueKeys j now m u)

abbrev pub snapshot_keys : List Vehicle → Fleet → List VehicleKey
snapshot_keys incoming f = keys_of (valid_vehicles (index_by_key f.vehicles []) incoming)

abbrev pub snapshot_trips : List Vehicle → Fleet → List Text
snapshot_trips incoming f =
    trip_ids_served_by (valid_vehicles (index_by_key f.vehicles []) incoming)

-- the last-seen time of a key after a snapshot
lookup-last_seen :
    (now : ℕ) (incoming : List Vehicle) (f : Fleet) (k : VehicleKey)
    → IsTracked f
    → lookup k (apply_snapshot now incoming f).last_seen ≡ (
        if contains_key k (snapshot_keys incoming f)
        then some now
        else elim (lookup k f.last_seen) [
          | none ↦ none
          | some at ↦ if expired now at then none else some at
        ])
unfolding apply_snapshot drop_expired
lookup-last_seen now incoming f k t =
    let ks = snapshot_keys incoming f in
    ground (
      arith,
      lookup-keep_if (λ (e : VehicleKey × ℕ). contains_key e.0 ks || not (expired now e.1)) k
          (mark_seen now ks f.last_seen) (mark_seen-UniqueKeys now ks f.last_seen t.unique),
      lookup-mark_seen now ks f.last_seen k,
    )

-- where a vehicle served after a snapshot comes from, by the two loops
abbrev pub FromLoops : ℕ → List Vehicle → Fleet → Vehicle → Type 0
FromLoops now incoming f w =
    In w (valid_vehicles (index_by_key f.vehicles []) incoming)
    ⊎ In w (
        retained now (snapshot_keys incoming f) (apply_snapshot now incoming f).last_seen
          (snapshot_trips incoming f) f.vehicles)

pub apply_snapshot_from :
    (now : ℕ) (incoming : List Vehicle) (f : Fleet) (w : Vehicle)
    → In w (apply_snapshot now incoming f).vehicles
    → FromLoops now incoming f w
unfolding apply_snapshot
apply_snapshot_from now incoming f w h = In-append w _ _ h

pub served_choice :
    (now : ℕ) (incoming : List Vehicle) (f : Fleet) (v : Vehicle) (k : VehicleKey)
    → In v incoming
    → key_of v ≡ some k
    → In (choose (index_by_key f.vehicles []) k v) (apply_snapshot now incoming f).vehicles
unfolding apply_snapshot
served_choice now incoming f v k i q =
    In-append_left _ (valid_vehicles (index_by_key f.vehicles []) incoming) _
      (In-valid_vehicles f.vehicles incoming v k i q)

module _ (now : ℕ) (incoming : List Vehicle) (f : Fleet) (t : IsTracked f) where
  abbrev after : Fleet
  after = apply_snapshot now incoming f

  -- the time noted for a key, from the two kinds of vehicle
  seen_now : (k : VehicleKey) → IsReported k incoming → lookup k after.last_seen ≡ some now
  seen_now k r =
      ground
        (arith, lookup-last_seen now incoming f k t, IsReported-keys_of f.vehicles incoming k r)

  served_within :
      (w : Vehicle)
      → In w after.vehicles
      → (k : VehicleKey) × (at : ℕ) × (key_of w ≡ some k)
        × (lookup k after.last_seen ≡ some at)
        × (now ≤ at + stale_vehicle_timeout)
  served_within w h = elim (apply_snapshot_from now incoming f w h) [
    | inl i ↦
        let (v, k, iv, q, c, r) = valid_vehicles-In f.vehicles incoming w i in
        (k, now, r, seen_now k (v, iv, q), omega arith)
    | inr i ↦
        let (pv, k, at, ip, p, q, out, s, l, r) =
          retained-In now _ after.last_seen _ f.vehicles w i in
        (k, at, q, s, l)
  ]

  -- A snapshot keeps the fleet tracked: each key has one last-seen time, and every vehicle of the
  -- fleet has a key that was seen.
  pub apply_snapshot-IsTracked : IsTracked after
  apply_snapshot-IsTracked = record {
    unique = last_seen-UniqueKeys;
    seen = λ w h. let (k, at, q, s, l) = served_within w h in (k, at, q, s);
  }
    where
      last_seen-UniqueKeys : UniqueKeys after.last_seen
      last_seen-UniqueKeys =
          unfold apply_snapshot drop_expired in
          keep_if-UniqueKeys _ _ (mark_seen-UniqueKeys now _ f.last_seen t.unique)

  unreported :
      (k : VehicleKey) → ¬ IsReported k incoming → contains_key k (snapshot_keys incoming f) ≡ false
  unreported k n = elim (Bool-cases (contains_key k (snapshot_keys incoming f))) [
    | inl y ↦ absurd (n (keys_of-IsReported f.vehicles incoming k y))
    | inr e ↦ e
  ]

  -- A vehicle that the snapshot does not report is served after it exactly when it was served
  -- before and was last seen no longer ago than the timeout.
  pub unreported_iff :
      (k : VehicleKey)
      → ¬ IsReported k incoming
      → ((w : Vehicle) × In w after.vehicles × (key_of w ≡ some k)) ↔ (
          (p : Vehicle) × (at : ℕ) × In p f.vehicles
          × (key_of p ≡ some k)
          × (lookup k f.last_seen ≡ some at)
          × (now ≤ at + stale_vehicle_timeout))
  unreported_iff k n = (
    λ s. was_served s.0 s.2 (apply_snapshot_from now incoming f s.0 s.1),
    λ s. stays s.0 s.1 s.2 s.3 s.4 s.5,
  )
    where
      seen_before : (at : ℕ) → lookup k after.last_seen ≡ some at → lookup k f.last_seen ≡ some at
      seen_before at s = ground (arith, lookup-last_seen now incoming f k t, unreported k n)

      was_served :
          (w : Vehicle)
          → key_of w ≡ some k
          → FromLoops now incoming f w
          → (p : Vehicle) × (at : ℕ) × In p f.vehicles
            × (key_of p ≡ some k)
            × (lookup k f.last_seen ≡ some at)
            × (now ≤ at + stale_vehicle_timeout)
      was_served w e (inl i) =
          let (v, j, iv, q, c, r) = valid_vehicles-In f.vehicles incoming w i in
          absurd (n (v, iv, q ∙ sym r ∙ e))
      was_served w e (inr i) =
          let (pv, j, at, ip, p, q, out, s, l, r) =
            retained-In now _ after.last_seen _ f.vehicles w i in
          let same : j ≡ k = some-injective j k (sym q ∙ e) in
          (pv, at, ip, p ∙ ap some same, seen_before at (rw same at s), l)

      stays :
          (p : Vehicle) (at : ℕ)
          → In p f.vehicles
          → key_of p ≡ some k
          → lookup k f.last_seen ≡ some at
          → now ≤ at + stale_vehicle_timeout
          → (w : Vehicle) × In w after.vehicles × (key_of w ≡ some k)
      stays p at ip q s l = (
        release_taken_trip p (snapshot_trips incoming f),
        unfold apply_snapshot in
            In-append_right _ (valid_vehicles (index_by_key f.vehicles []) incoming) _ (
              In-retained now _ after.last_seen _ f.vehicles p k at ip q (unreported k n)
                (ground (arith, lookup-last_seen now incoming f k t, unreported k n)) l),
        (release_taken_trip_keeps p _).0 ∙ q,
      )
