-- ===== src/Realtime/Feed/Timestamps.antt =====
-- The time of the last vehicle snapshot that was applied to a feed never goes back by a poll.
use maglev.Prelude.{
  ℕ, ◌≤◌, ◌<◌, max, [], ◌∷◌, true, false, some, List, Text, text_eq, lookup-insert_self, get_or,
  leb, ◌≡◌, refl, ap, arith, ◌∙◌, Bool-cases, inl, inr, sym, ◌⊎◌,
}
use maglev.Realtime.Types.{Manager, Vehicle}
use maglev.Realtime.Vehicles.{apply_snapshot}
use maglev.Realtime.Feed.Stages.{fleet-store_fleet}
use maglev.Realtime.Feed.{
  fleet, store_snapshot, is_old_snapshot, note_timestamp, store_fleet, cleanup_expired_vehicles,
}

abbrev pub last_applied : Text → Manager → ℕ
last_applied feed m = get_or 0 feed m.feed_vehicle_timestamp

is_old_snapshot-eq :
    (feed : Text) (created : ℕ) (m : Manager)
    → is_old_snapshot feed (some created) m ≡ leb created (last_applied feed m)
unfolding is_old_snapshot
is_old_snapshot-eq feed created m = refl

leb→le : (a b : ℕ) → leb a b ≡ true → a ≤ b
leb→le a b h = ground arith

leb→lt : (a b : ℕ) → leb a b ≡ false → b < a
leb→lt a b h = ground arith

cleanup_timestamp :
    (now : ℕ) (feed : Text) (m : Manager)
    → (cleanup_expired_vehicles now feed m).feed_vehicle_timestamp ≡ m.feed_vehicle_timestamp
unfolding cleanup_expired_vehicles store_fleet
cleanup_timestamp now feed m = ground arith

-- What a snapshot that carries a time does: one that is not newer than the last one applied only
-- expires vehicles, and leaves the time; a newer one is applied, and its time noted.
store_snapshot-cases :
    (now : ℕ) (feed : Text) (created : ℕ) (vehicles : List Vehicle) (m : Manager)
    → ((created ≤ last_applied feed m)
        × (store_snapshot now feed (some created) vehicles m ≡ cleanup_expired_vehicles now feed m)
        × (last_applied feed (store_snapshot now feed (some created) vehicles m)
            ≡ last_applied feed m))
      ⊎ ((last_applied feed m < created)
          × (fleet feed (store_snapshot now feed (some created) vehicles m)
              ≡ apply_snapshot now vehicles (fleet feed m))
          × (last_applied feed (store_snapshot now feed (some created) vehicles m) ≡ created))
store_snapshot-cases now feed created vehicles m =
    elim (Bool-cases (is_old_snapshot feed (some created) m)) [
      | inl e ↦ inl (
        leb→le created (last_applied feed m) (sym (is_old_snapshot-eq feed created m) ∙ e),
        (skipped e).0,
        (skipped e).1,
      )
      | inr e ↦ inr (
        leb→lt created (last_applied feed m) (sym (is_old_snapshot-eq feed created m) ∙ e),
        (applied e).0,
        (applied e).1,
      )
    ]
  where
    result : Manager
    result = store_snapshot now feed (some created) vehicles m

    skipped :
        is_old_snapshot feed (some created) m ≡ true
        → (result ≡ cleanup_expired_vehicles now feed m)
          × (last_applied feed result ≡ last_applied feed m)
    skipped e =
        let same : result ≡ cleanup_expired_vehicles now feed m =
          unfold store_snapshot in rw (e, store_snapshot) refl in
        (
          same,
          ap (λ (n : Manager). last_applied feed n) same
              ∙ ap (get_or 0 feed) (cleanup_timestamp now feed m),
        )

    newer : Manager
    newer =
        store_fleet feed (apply_snapshot now vehicles (fleet feed m))
          (note_timestamp feed (some created) m)

    applied :
        is_old_snapshot feed (some created) m ≡ false
        → (fleet feed result ≡ apply_snapshot now vehicles (fleet feed m))
          × (last_applied feed result ≡ created)
    applied e =
        let same : result ≡ newer = unfold store_snapshot in rw (e, store_snapshot) refl in
        (
          ap (fleet feed) same
              ∙ fleet-store_fleet now feed (apply_snapshot now vehicles (fleet feed m))
                  (note_timestamp feed (some created) m),
          ap (λ (n : Manager). last_applied feed n) same ∙ noted,
        )
      where
        noted : last_applied feed newer ≡ created
        noted =
            unfold store_fleet note_timestamp in
            ground (arith, lookup-insert_self feed created m.feed_vehicle_timestamp)

-- the snapshots that a feed sends: when each arrives, the time that it carries, and its vehicles
abbrev pub Snapshots : Type 0
Snapshots = List (ℕ × ℕ × List Vehicle)

-- one stored after the other
abbrev pub store_all : Text → Snapshots → Manager → Manager
store_all feed [] m = m
store_all feed ((now, created, vehicles) ∷ ss) m =
    store_all feed ss (store_snapshot now feed (some created) vehicles m)

-- the greatest of a time and the times that the snapshots carry
abbrev pub newest : Snapshots → ℕ → ℕ
newest [] time = time
newest ((now, created, vehicles) ∷ ss) time = newest ss (max created time)

last_applied-store_snapshot :
    (now : ℕ) (feed : Text) (created : ℕ) (vehicles : List Vehicle) (m : Manager)
    → last_applied feed (store_snapshot now feed (some created) vehicles m)
      ≡ max created (last_applied feed m)
last_applied-store_snapshot now feed created vehicles m =
    elim (store_snapshot-cases now feed created vehicles m) [
      | inl (older, same, time) ↦ omega (arith, older, time)
      | inr (newer, applied, time) ↦ omega (arith, newer, time)
    ]

-- After any sequence of snapshots of a feed that carry their times, in whatever order they come, the time
-- noted for the feed is the greatest of those that they carry and the one noted before; and one more
-- snapshot is applied to the feed's vehicles if its time is later than all of these, and else only expires
-- vehicles.
pub newest_applied :
    (feed : Text) (before : Snapshots) (m : Manager) (now created : ℕ) (vehicles : List Vehicle)
    → (last_applied feed (store_all feed before m) ≡ newest before (last_applied feed m))
      × (((newest before (last_applied feed m) < created)
            × (fleet feed
                  (store_snapshot now feed (some created) vehicles (store_all feed before m))
                ≡ apply_snapshot now vehicles (fleet feed (store_all feed before m))))
          ⊎ ((created ≤ newest before (last_applied feed m))
              × (store_snapshot now feed (some created) vehicles (store_all feed before m)
                  ≡ cleanup_expired_vehicles now feed (store_all feed before m))))
newest_applied feed [] m now created vehicles =
    elim (store_snapshot-cases now feed created vehicles m) [
      | inl (older, same, time) ↦ (refl, inr (older, same))
      | inr (newer, applied, time) ↦ (refl, inl (newer, applied))
    ]
newest_applied feed ((at_now, at_created, at_vehicles) ∷ ss) m now created vehicles =
    let stored = store_snapshot at_now feed (some at_created) at_vehicles m in
    let time : max at_created (last_applied feed m) ≡ last_applied feed stored =
      sym (last_applied-store_snapshot at_now feed at_created at_vehicles m) in
    rw time (newest_applied feed ss stored now created vehicles)
