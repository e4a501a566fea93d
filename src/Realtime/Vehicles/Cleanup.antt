-- ===== src/Realtime/Vehicles/Cleanup.antt =====
-- `cleanupExpiredVehicles`: what stays of a feed's vehicles.
use maglev.Prelude.{
  ℕ, ◌+◌, ◌≤◌, not, none, some, ◌≡◌, ◌↔◌, refl, inl, inr, lookup, lookup-keep_if,
  keep_if-UniqueKeys, keep_if, In, In-keep_if, keep_if-In, if◌then◌else◌, Option-cases, arith,
}
use maglev.Realtime.Types.{Vehicle, VehicleKey, vehicle_key_eq}
use maglev.Realtime.Vehicles.{stale_vehicle_timeout, key_of, expired, Fleet, cleanup_expired}
use maglev.Realtime.Vehicles.Retention.{IsTracked}

cleanup_lookup :
    (now : ℕ) (f : Fleet) (k : VehicleKey)
    → IsTracked f
    → lookup k (cleanup_expired now f).last_seen ≡ elim (lookup k f.last_seen) [
      | none ↦ none
      | some at ↦ if not (expired now at) then some at else none
    ]
unfolding cleanup_expired
cleanup_lookup now f k t =
    lookup-keep_if (λ (e : VehicleKey × ℕ). not (expired now e.1)) k f.last_seen t.unique

served_by_cleanup :
    (now : ℕ) (f : Fleet) (v : Vehicle)
    → In v (cleanup_expired now f).vehicles
    → In v f.vehicles
      × (k : VehicleKey) × (at : ℕ) × (key_of v ≡ some k)
      × (lookup k (cleanup_expired now f).last_seen ≡ some at)
unfolding cleanup_expired
served_by_cleanup now f v h =
    let seen = keep_if (λ (e : VehicleKey × ℕ). not (expired now e.1)) f.last_seen in
    let (i, e) = In-keep_if _ v f.vehicles h in
    elim (Option-cases (key_of v)) [
      | inl n ↦ absurd (ground arith)
      | inr (k, q) ↦ elim (Option-cases (lookup k seen)) [
        | inl n ↦ absurd (ground arith)
        | inr (at, s) ↦ (i, k, at, q, s)
      ]
    ]

-- Cleaning up keeps a fleet tracked.
pub cleanup_expired-IsTracked :
    (now : ℕ) (f : Fleet) → IsTracked f → IsTracked (cleanup_expired now f)
cleanup_expired-IsTracked now f t = record {
  unique = unfold cleanup_expired in keep_if-UniqueKeys _ f.last_seen t.unique;
  seen = λ v h. let (i, k, at, q, s) = served_by_cleanup now f v h in (k, at, q, s);
}

-- A tracked feed's cleanup serves exactly the vehicles last seen no longer ago than the timeout.
pub cleanup_expired_iff :
    (now : ℕ) (f : Fleet) (v : Vehicle)
    → IsTracked f
    → In v (cleanup_expired now f).vehicles ↔ (
        In v f.vehicles
        × ((k : VehicleKey) × (at : ℕ) × (key_of v ≡ some k)
            × (lookup k f.last_seen ≡ some at)
            × (now ≤ at + stale_vehicle_timeout)))
cleanup_expired_iff now f v t = (to, λ h. from h.0 h.1.0 h.1.1 h.1.2 h.1.3 h.1.4)
  where
    to :
        In v (cleanup_expired now f).vehicles
        → In v f.vehicles
          × ((k : VehicleKey) × (at : ℕ) × (key_of v ≡ some k)
              × (lookup k f.last_seen ≡ some at)
              × (now ≤ at + stale_vehicle_timeout))
    to h =
        let (i, k, at, q, s) = served_by_cleanup now f v h in
        (
          i,
          (
            k,
            at,
            q,
            ground (arith, cleanup_lookup now f k t),
            ground (arith, cleanup_lookup now f k t),
          ),
        )

    from :
        In v f.vehicles
        → (k : VehicleKey) (at : ℕ) → key_of v ≡ some k
        → lookup k f.last_seen ≡ some at
        → now ≤ at + stale_vehicle_timeout
        → In v (cleanup_expired now f).vehicles
    from i k at q s l =
        let kept : lookup k (cleanup_expired now f).last_seen ≡ some at =
          ground (arith, cleanup_lookup now f k t) in
        unfold cleanup_expired in keep_if-In _ v f.vehicles i (rw q (rw kept refl))
