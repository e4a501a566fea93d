-- ===== src/Realtime/Feed/Stages.antt =====
-- The fleet of the polled feed through the stages of a poll.
use maglev.Prelude.{
  ℕ, Bool, true, false, Option, none, some, List, Text, text_eq, lookup, lookup-insert_self, ◌≡◌,
  refl, sym, subst, arith, Bool-cases, Option-cases, inl, inr,
}
use maglev.Realtime.Types.{Manager, Vehicle}
use maglev.Realtime.Merge.{rebuild_merged_realtime}
use maglev.Realtime.Vehicles.{Fleet, apply_snapshot, cleanup_expired}
use maglev.Realtime.Vehicles.Retention.{IsTracked, apply_snapshot-IsTracked}
use maglev.Realtime.Vehicles.Cleanup.{cleanup_expired-IsTracked}
use maglev.Realtime.Feed.{
  Fetched, fleet, store_trips, store_vehicles, store_snapshot, is_old_snapshot, note_timestamp,
  store_fleet, cleanup_expired_vehicles, store_alerts, publish,
}

module _ (now : ℕ) (feed : Text) where
  pub fleet-store_fleet : (f : Fleet) (m : Manager) → fleet feed (store_fleet feed f m) ≡ f
  unfolding fleet store_fleet
  fleet-store_fleet f m = ground (
    arith,
    lookup-insert_self feed f.vehicles m.feed_vehicles,
    lookup-insert_self feed f.last_seen m.feed_vehicle_last_seen,
  )

  store_fleet-IsTracked :
      (f : Fleet) (m : Manager) → IsTracked f → IsTracked (fleet feed (store_fleet feed f m))
  store_fleet-IsTracked f m t = subst IsTracked (sym (fleet-store_fleet f m)) t

  fleet-note_timestamp :
      (created : Option ℕ) (m : Manager) → fleet feed (note_timestamp feed created m) ≡ fleet feed m
  unfolding fleet note_timestamp
  fleet-note_timestamp none m = refl
  fleet-note_timestamp (some t) m = refl

  cleanup_vehicles-IsTracked :
      (m : Manager)
      → IsTracked (fleet feed m)
      → IsTracked (fleet feed (cleanup_expired_vehicles now feed m))
  unfolding cleanup_expired_vehicles
  cleanup_vehicles-IsTracked m t = elim (Option-cases (lookup feed m.feed_vehicle_last_seen)) [
    | inl n ↦ rw (n, cleanup_expired_vehicles) t
    | inr (seen, e) ↦
        rw (e, cleanup_expired_vehicles)
          (store_fleet-IsTracked (cleanup_expired now (fleet feed m)) m
            (cleanup_expired-IsTracked now (fleet feed m) t))
  ]

  store_snapshot-IsTracked :
      (created : Option ℕ) (vehicles : List Vehicle) (m : Manager)
      → IsTracked (fleet feed m)
      → IsTracked (fleet feed (store_snapshot now feed created vehicles m))
  unfolding store_snapshot
  store_snapshot-IsTracked created vehicles m t =
      elim (Bool-cases (is_old_snapshot feed created m)) [
        | inl e ↦ rw (store_snapshot, e) (cleanup_vehicles-IsTracked m t)
        | inr e ↦
            rw (store_snapshot, e)
              (store_fleet-IsTracked (apply_snapshot now vehicles (fleet feed m))
                (note_timestamp feed created m)
                (apply_snapshot-IsTracked now vehicles (fleet feed m) t))
      ]

  pub store_vehicles-IsTracked :
      (d : Fetched) (m : Manager)
      → IsTracked (fleet feed m)
      → IsTracked (fleet feed (store_vehicles now feed d m))
  unfolding store_vehicles
  store_vehicles-IsTracked d m t = elim (Option-cases d.vehicles) [
    | inl n ↦ rw (n, store_vehicles) t
    | inr (vs, e) ↦ rw (e, store_vehicles) (store_snapshot-IsTracked d.created_at vs m t)
  ]

  pub fleet-store_trips :
      (d : Fetched) (m : Manager) → fleet feed (store_trips feed d m) ≡ fleet feed m
  unfolding fleet store_trips
  fleet-store_trips d m = ground arith

  pub fleet-store_alerts :
      (d : Fetched) (m : Manager) → fleet feed (store_alerts feed d m) ≡ fleet feed m
  unfolding fleet store_alerts
  fleet-store_alerts d m = ground arith

  pub fleet-publish :
      (new : Bool) (done : ℕ) (m : Manager) → fleet feed (publish new done feed m) ≡ fleet feed m
  unfolding fleet publish rebuild_merged_realtime
  fleet-publish true done m = refl
  fleet-publish false done m = refl
