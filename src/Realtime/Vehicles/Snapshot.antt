-- ===== src/Realtime/Vehicles/Snapshot.antt =====
-- Membership in what the loops of `apply_snapshot` build.
use maglev.Prelude.{
  ◌+◌, ◌≤◌, ap, ◌∙◌, In-filter_map, filter_map-In, ℕ, true, false, some, List, [], ◌∷◌, Map, lookup,
  lookup-insert, if◌then◌else◌, ◌≡◌, ◌⊎◌, inl, inr, In, Bool-cases, Option-cases, arith, Text,
  text_eq,
}
use maglev.Realtime.Types.{Vehicle, VehicleKey, vehicle_key_eq}
use maglev.Realtime.Vehicles.{
  stale_vehicle_timeout, retained, valid_vehicles, keys_of, is_vehicle_stale, contains_key,
  release_taken_trip, key_of, index_vehicle, index_by_key, choose, validate, retain, expired,
}

contains_key-In : (k : VehicleKey) (ks : List VehicleKey) → contains_key k ks ≡ true → In k ks
unfolding contains_key
contains_key-In k [] h = cc
contains_key-In k (j ∷ ks) h = ground (arith, vehicle_key_eq.beq_iff j k, contains_key-In k ks)

In-contains_key : (k : VehicleKey) (ks : List VehicleKey) → In k ks → contains_key k ks ≡ true
unfolding contains_key
In-contains_key k [] h = absurd h
In-contains_key k (j ∷ ks) h = ground (arith, vehicle_key_eq.beq_iff j k, In-contains_key k ks)

index_vehicle-lookup :
    (v : Vehicle) (m : Map VehicleKey Vehicle) (k : VehicleKey) (p : Vehicle)
    → lookup k (index_vehicle v m) ≡ some p
    → ((p ≡ v) × (key_of p ≡ some k)) ⊎ (lookup k m ≡ some p)
unfolding index_vehicle
index_vehicle-lookup v m k p h = elim (Option-cases (key_of v)) [
  | inl e ↦ ground arith
  | inr (j, e) ↦ ground (arith, lookup-insert j k v m, vehicle_key_eq.beq_iff j k)
]

-- an indexed vehicle is one of the list, under its own key
index_by_key-In :
    (vs : List Vehicle) (m : Map VehicleKey Vehicle) (k : VehicleKey) (p : Vehicle)
    → lookup k (index_by_key vs m) ≡ some p
    → (In p vs × (key_of p ≡ some k)) ⊎ (lookup k m ≡ some p)
unfolding index_by_key
index_by_key-In [] m k p h = inr h
index_by_key-In (v ∷ vs) m k p h =
    ground (arith, index_by_key-In vs (index_vehicle v m) k p, index_vehicle-lookup v m k p)

-- the index misses no vehicle that has a key
index_vehicle_mono :
    (v : Vehicle) (m : Map VehicleKey Vehicle) (k : VehicleKey) (q : Vehicle)
    → lookup k m ≡ some q
    → (p : Vehicle) × (lookup k (index_vehicle v m) ≡ some p)
unfolding index_vehicle
index_vehicle_mono v m k q h = elim (Option-cases (key_of v)) [
  | inl e ↦ (q, ground arith)
  | inr (j, e) ↦ (if vehicle_key_eq.beq j k then v else q, ground (arith, lookup-insert j k v m))
]

index_by_key_mono :
    (vs : List Vehicle) (m : Map VehicleKey Vehicle) (k : VehicleKey) (q : Vehicle)
    → lookup k m ≡ some q
    → (p : Vehicle) × (lookup k (index_by_key vs m) ≡ some p)
unfolding index_by_key
index_by_key_mono [] m k q h = (q, h)
index_by_key_mono (v ∷ vs) m k q h =
    let (p, e) = index_vehicle_mono v m k q h in index_by_key_mono vs (index_vehicle v m) k p e

pub index_by_key_total :
    (vs : List Vehicle) (m : Map VehicleKey Vehicle) (k : VehicleKey) (q : Vehicle)
    → In q vs
    → key_of q ≡ some k
    → (p : Vehicle) × (lookup k (index_by_key vs m) ≡ some p)
unfolding index_by_key
index_by_key_total [] m k q h e = absurd h
index_by_key_total (v ∷ vs) m k q (inl h) e =
    index_by_key_mono vs (index_vehicle v m) k v (at_head e h)
  where
    at_head : key_of q ≡ some k → q ≡ v → lookup k (index_vehicle v m) ≡ some v
    at_head e h =
        unfold index_vehicle in ground (arith, lookup-insert k k v m, vehicle_key_eq.beq_iff k k)
index_by_key_total (v ∷ vs) m k q (inr h) e = index_by_key_total vs (index_vehicle v m) k q h e

-- the indexed vehicle of a key, from the empty index
pub index_by_key_lem :
    (vs : List Vehicle) (k : VehicleKey) (p : Vehicle)
    → lookup k (index_by_key vs []) ≡ some p
    → In p vs × (key_of p ≡ some k)
unfolding lookup
index_by_key_lem vs k p h = ground (arith, index_by_key-In vs [] k p)

pub choose_cases :
    (prev : Map VehicleKey Vehicle) (k : VehicleKey) (v : Vehicle)
    → (choose prev k v ≡ v)
      ⊎ ((p : Vehicle) × (lookup k prev ≡ some p)
          × (is_vehicle_stale p v ≡ true)
          × (choose prev k v ≡ p))
unfolding choose
choose_cases prev k v = elim (Option-cases (lookup k prev)) [
  | inl e ↦ inl (rw (e, choose))
  | inr (p, e) ↦ elim (Bool-cases (is_vehicle_stale p v)) [
    | inl s ↦ inr (p, e, s, rw (e, choose, s))
    | inr s ↦ inl (rw (e, choose, s))
  ]
]

validate-some :
    (prev : Map VehicleKey Vehicle) (v w : Vehicle)
    → validate prev v ≡ some w
    → (k : VehicleKey) × (key_of v ≡ some k) × (w ≡ choose prev k v)
unfolding validate
validate-some prev v w h = elim (Option-cases (key_of v)) [
  | inl e ↦ absurd (ground arith)
  | inr (k, e) ↦ (k, e, ground arith)
]

-- the conditions under which a vehicle of the store is retained
retain-some :
    (now : ℕ) (current : List VehicleKey) (seen : Map VehicleKey ℕ) (live : List Text)
    (pv w : Vehicle)
    → retain now current seen live pv ≡ some w
    → (k : VehicleKey) × (at : ℕ) × (key_of pv ≡ some k)
      × (contains_key k current ≡ false)
      × (lookup k seen ≡ some at)
      × (expired now at ≡ false)
      × (w ≡ release_taken_trip pv live)
unfolding retain
retain-some now current seen live pv w h = elim (Option-cases (key_of pv)) [
  | inl e ↦ absurd (ground arith)
  | inr (k, e) ↦ elim (Option-cases (lookup k seen)) [
    | inl n ↦ absurd (ground arith)
    | inr (at, s) ↦ (k, at, e, ground arith, s, ground arith, ground arith)
  ]
]

pub release_taken_trip_keeps :
    (pv : Vehicle) (live : List Text)
    → (key_of (release_taken_trip pv live) ≡ key_of pv)
      × ((release_taken_trip pv live).timestamp ≡ pv.timestamp)
unfolding release_taken_trip key_of
release_taken_trip_keeps pv live = ground arith

module _ (now : ℕ) (current : List VehicleKey) (seen : Map VehicleKey ℕ) (live : List Text) where
  -- a vehicle that the last loop appends, and the stored one that it comes from
  pub retained-In :
      (stored : List Vehicle) (w : Vehicle)
      → In w (retained now current seen live stored)
      → (pv : Vehicle) × (k : VehicleKey) × (at : ℕ) × In pv stored
        × (key_of pv ≡ some k)
        × (key_of w ≡ some k)
        × (contains_key k current ≡ false)
        × (lookup k seen ≡ some at)
        × (now ≤ at + stale_vehicle_timeout)
        × (w ≡ release_taken_trip pv live)
  unfolding retained
  retained-In stored w h =
      let (pv, i, e) = In-filter_map (retain now current seen live) w stored h in
      let (k, at, q, out, s, x, r) = retain-some now current seen live pv w e in
      (
        pv,
        k,
        at,
        i,
        q,
        ap key_of r ∙ (release_taken_trip_keeps pv live).0 ∙ q,
        out,
        s,
        ground arith,
        r,
      )

  pub In-retained :
      (stored : List Vehicle) (pv : Vehicle) (k : VehicleKey) (at : ℕ)
      → In pv stored
      → key_of pv ≡ some k
      → contains_key k current ≡ false
      → lookup k seen ≡ some at
      → now ≤ at + stale_vehicle_timeout
      → In (release_taken_trip pv live) (retained now current seen live stored)
  unfolding retained retain
  In-retained stored pv k at i q out s l =
      filter_map-In (retain now current seen live) pv (release_taken_trip pv live) stored i
        (ground arith)

-- a key that some vehicle of the snapshot has
abbrev pub IsReported : VehicleKey → List Vehicle → Type 0
IsReported k incoming = (u : Vehicle) × In u incoming × (key_of u ≡ some k)

module _ (stored incoming : List Vehicle) where
  abbrev index : Map VehicleKey Vehicle
  index = index_by_key stored []

  key_of-choose :
      (k : VehicleKey) (v : Vehicle) → key_of v ≡ some k → key_of (choose index k v) ≡ some k
  key_of-choose k v h = elim (choose_cases index k v) [
    | inl e ↦ rw e h
    | inr (p, l, s, e) ↦ rw e (index_by_key_lem stored k p l).1
  ]

  pub valid_vehicles-In :
      (w : Vehicle)
      → In w (valid_vehicles index incoming)
      → (v : Vehicle) × (k : VehicleKey) × In v incoming
        × (key_of v ≡ some k)
        × (w ≡ choose index k v)
        × (key_of w ≡ some k)
  unfolding valid_vehicles
  valid_vehicles-In w h =
      let (v, i, e) = In-filter_map (validate index) w incoming h in
      let (k, q, c) = validate-some index v w e in
      (v, k, i, q, c, ap key_of c ∙ key_of-choose k v q)

  pub In-valid_vehicles :
      (v : Vehicle) (k : VehicleKey)
      → In v incoming
      → key_of v ≡ some k
      → In (choose index k v) (valid_vehicles index incoming)
  unfolding valid_vehicles validate
  In-valid_vehicles v k h q =
      filter_map-In (validate index) v (choose index k v) incoming h (ground arith)

  pub keys_of-IsReported :
      (k : VehicleKey)
      → contains_key k (keys_of (valid_vehicles index incoming)) ≡ true
      → IsReported k incoming
  unfolding keys_of
  keys_of-IsReported k h =
      let (w, i, e) =
        In-filter_map key_of k (valid_vehicles index incoming) (contains_key-In k _ h) in
      let (v, j, iv, q, c, r) = valid_vehicles-In w i in (v, iv, cc)

  pub IsReported-keys_of :
      (k : VehicleKey)
      → IsReported k incoming
      → contains_key k (keys_of (valid_vehicles index incoming)) ≡ true
  unfolding keys_of
  IsReported-keys_of k (u, i, q) = In-contains_key k _ (
      filter_map-In key_of (choose index k u) k (valid_vehicles index incoming)
        (In-valid_vehicles u k i q) (key_of-choose k u q))
