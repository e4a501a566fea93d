-- ===== src/Blocks/Snapshots/Cache.antt =====
-- internal/restapi/scheduled_block_helper.go: what the cache of the snapshots holds.
use maglev.Prelude.{
  some, List, [], ◌∷◌, In, Text, lookup, insert, lookup-insert, ◌==◌, ◌≡◌, ◌⊎◌, refl, sym, ap, ◌∙◌,
  subst, inl, inr, Bool-cases, Option-cases,
}
use maglev.Blocks.{BlockTrip, Sort, keep_shift_containing_trip, block_trip_ids_for_service_date}
use maglev.Blocks.Mates.{
  UniqueIds, OneBlock, keep_shift_containing_trip-In, keep_shift_containing_trip-mate,
  block_trip_ids-mate,
}
use maglev.Blocks.Orders.{SortLaws}
use maglev.Timeline.{Searching, Floats}
use maglev.Blocks.Snapshots.{CacheKey, cache_key_eq, Instant, Snapshot, FloatOrder, BlockData}
use maglev.Blocks.Snapshots.Requests.{
  SnapshotCache, make_snapshot_cache_key, populate_snapshot_cache, shift_among, load_shift_trips,
  snapshot_of_shift, compute_uncached, compute_scheduled_block_snapshot,
}

-- the trips that are loaded are among those asked for, no two have the same ID, and each trip of a
-- block has that block
pub record DataLaws {N L : Type 0} (data_of : BlockData N L) (sort : Sort) : Type 0 where
  pub asked :
      (ids : List Text) (t : BlockTrip) → In t (data_of.load_block_trip_data ids) → In t.id ids
  pub unique :
      (ids : List Text)
      → UniqueIds
          (sort.sort_by (λ (t : BlockTrip). t.first_seconds) (data_of.load_block_trip_data ids))
  pub one_block : (service : Instant L) → OneBlock (data_of.queries service)

List-cases : {A : Type 0} (xs : List A) → (xs ≡ []) ⊎ ((a : A) × (rest : List A) × (xs ≡ a ∷ rest))
List-cases [] = inl refl
List-cases (a ∷ rest) = inr (a, rest, refl)

module _ {N L : Type 0} (data_of : BlockData N L) (sort : Sort) (sorts : SortLaws sort)
    (laws : DataLaws data_of sort) where
  abbrev sorted : List Text → List BlockTrip
  sorted ids = sort.sort_by (λ (t : BlockTrip). t.first_seconds) (data_of.load_block_trip_data ids)

  shift_among-sorted :
      (ids : List Text) (target : Text) (t : BlockTrip) (ts : List BlockTrip)
      → data_of.load_block_trip_data ids ≡ t ∷ ts
      → (id : Text) → In id ids
      → shift_among data_of sort ids target ≡ keep_shift_containing_trip (sorted ids) target
  unfolding shift_among
  shift_among-sorted [] target t ts e id i = absurd i
  shift_among-sorted (x ∷ ids) target t ts e id i =
      rw (e, shift_among)
        (ap
          (λ (xs : List BlockTrip).
            keep_shift_containing_trip (sort.sort_by (λ (u : BlockTrip). u.first_seconds) xs)
              target)
          (sym e))

  shift_among-empty :
      (ids : List Text) (target : Text)
      → data_of.load_block_trip_data ids ≡ []
      → shift_among data_of sort ids target ≡ []
  unfolding shift_among
  shift_among-empty [] target e = refl
  shift_among-empty (x ∷ ids) target e = rw (e, shift_among) refl

  -- a trip that is kept was loaded
  shift_among-loaded :
      (ids : List Text) (target : Text) (mate : BlockTrip)
      → In mate (shift_among data_of sort ids target)
      → In mate (data_of.load_block_trip_data ids)
        × ((t : BlockTrip) × (ts : List BlockTrip) × (data_of.load_block_trip_data ids ≡ t ∷ ts))
  unfolding shift_among
  shift_among-loaded [] target mate i = absurd i
  shift_among-loaded (x ∷ ids) target mate i =
      elim (List-cases (data_of.load_block_trip_data (x ∷ ids))) [
        | inl e ↦ absurd (subst (In mate) (shift_among-empty (x ∷ ids) target e) i)
        | inr (t, ts, e) ↦ (
          (sorts.members (λ (u : BlockTrip). u.first_seconds)
                (data_of.load_block_trip_data (x ∷ ids)) mate).0
              (keep_shift_containing_trip-In (sorted (x ∷ ids)) target mate
                (subst (In mate) (shift_among-sorted (x ∷ ids) target t ts e x (inl refl)) i)),
          (t, ts, e),
        )
      ]

  shift_among-mate :
      (ids : List Text) (target : Text) (mate : BlockTrip)
      → In mate (shift_among data_of sort ids target)
      → In mate.id ids
        × (shift_among data_of sort ids mate.id ≡ shift_among data_of sort ids target)
  shift_among-mate ids target mate i =
      let (loaded, (t, ts, e)) = shift_among-loaded ids target mate i in
      let among : In mate.id ids = laws.asked ids mate loaded in
      let own = shift_among-sorted ids target t ts e mate.id among in
      (
        among,
        shift_among-sorted ids mate.id t ts e mate.id among
            ∙ keep_shift_containing_trip-mate (sorted ids) target mate (laws.unique ids)
                (subst (In mate) own i)
            ∙ sym own,
      )

  -- each trip of a shift has that shift
  load_shift_trips-mate :
      (target : Text) (service : Instant L) (mate : BlockTrip)
      → In mate (load_shift_trips data_of sort target service)
      → load_shift_trips data_of sort mate.id service ≡ load_shift_trips data_of sort target service
  unfolding load_shift_trips
  load_shift_trips-mate target service mate i =
      let (among, same) =
        shift_among-mate (block_trip_ids_for_service_date (data_of.queries service) target) target
          mate i in
      ap (λ (ids : List Text). shift_among data_of sort ids mate.id)
        (block_trip_ids-mate (data_of.queries service) (laws.one_block service) mate.id target
          among)
      ∙ same

  module _ (floats : Floats N) (order : FloatOrder N) (search : Searching) where
    -- each entry of the cache is what would be computed for its key at times in two locations
    abbrev pub IsFresh : L → L → SnapshotCache N → Type 0
    IsFresh here there cache =
        (key : CacheKey) (snap : Snapshot N)
        → lookup key cache ≡ some snap
        → compute_uncached floats order search sort data_of key.trip_id
            (record { unix_nano = key.current_time_unix; location = here })
            (record { unix_nano = key.service_date_unix; location = there })
          ≡ some snap

    populate_snapshot_cache-IsFresh :
        (snap : Snapshot N) (trips : List BlockTrip) (current service : Instant L)
        (cache : SnapshotCache N)
        → ((t : BlockTrip)
            → In t trips
            → compute_uncached floats order search sort data_of t.id current service ≡ some snap)
        → IsFresh current.location service.location cache
        → IsFresh current.location service.location
            (populate_snapshot_cache snap trips current service cache)
    unfolding populate_snapshot_cache make_snapshot_cache_key
    populate_snapshot_cache-IsFresh snap [] current service cache all fresh = fresh
    populate_snapshot_cache-IsFresh snap (t ∷ ts) current service cache all fresh =
        populate_snapshot_cache-IsFresh snap ts current service
          (insert (make_snapshot_cache_key t.id current service) snap cache) (λ u i. all u (inr i))
          (λ key other h. by_key key other h)
      where
        by_key :
            (key : CacheKey) (other : Snapshot N)
            → lookup key (insert (make_snapshot_cache_key t.id current service) snap cache)
              ≡ some other
            → compute_uncached floats order search sort data_of key.trip_id
                (record { unix_nano = key.current_time_unix; location = current.location })
                (record { unix_nano = key.service_date_unix; location = service.location })
              ≡ some other
        by_key key other h =
            let found =
              sym (
                lookup-insert {V = Snapshot N} (make_snapshot_cache_key t.id current service) key
                  snap cache)
              ∙ h in
            elim (Bool-cases (make_snapshot_cache_key t.id current service == key)) [
              | inl q ↦
                  subst
                    (λ (k : CacheKey).
                      compute_uncached floats order search sort data_of k.trip_id
                        (record { unix_nano = k.current_time_unix; location = current.location })
                        (record { unix_nano = k.service_date_unix; location = service.location })
                      ≡ some other)
                    ((cache_key_eq.beq_iff (make_snapshot_cache_key t.id current service) key).0 q)
                    (all t (inl refl) ∙ (rw q at found))
              | inr q ↦ fresh key other (rw q at found)
            ]

    fresh_hit :
        (target : Text) (current service : Instant L) (cache : SnapshotCache N) (hit : Snapshot N)
        → IsFresh current.location service.location cache
        → lookup (make_snapshot_cache_key target current service) cache ≡ some hit
        → compute_uncached floats order search sort data_of target current service ≡ some hit
    unfolding make_snapshot_cache_key
    fresh_hit target current service cache hit fresh e =
        fresh (make_snapshot_cache_key target current service) hit e

    compute_uncached-mate :
        (target : Text) (current service : Instant L) (mate : BlockTrip)
        → In mate (load_shift_trips data_of sort target service)
        → compute_uncached floats order search sort data_of mate.id current service
          ≡ compute_uncached floats order search sort data_of target current service
    unfolding compute_uncached
    compute_uncached-mate target current service mate i =
        ap
          (λ (trips : List BlockTrip).
            snapshot_of_shift floats order search sort data_of trips current service)
          (load_shift_trips-mate target service mate i)

    -- With a cache whose entries are what would be computed for their keys at times in the locations of
    -- the request's two times, a request for the snapshot of the block of a trip at these times returns
    -- what would be computed without a cache, and leaves such a cache,
    -- where the trips of a block are all known to have that block, no two trips that
    -- are loaded have the same ID, only trips that are asked for are loaded, and the sort keeps the
    -- elements and orders them by the key.
    pub compute_scheduled_block_snapshot-IsFresh :
        (target : Text) (current service : Instant L) (cache : SnapshotCache N)
        → IsFresh current.location service.location cache
        → ((compute_scheduled_block_snapshot floats order search sort data_of target current service
              cache).0
            ≡ compute_uncached floats order search sort data_of target current service)
          × IsFresh current.location service.location
              (compute_scheduled_block_snapshot floats order search sort data_of target current
                service cache).1
    unfolding compute_scheduled_block_snapshot
    compute_scheduled_block_snapshot-IsFresh target current service cache fresh =
        elim (Option-cases (lookup (make_snapshot_cache_key target current service) cache)) [
          | inr (hit, e) ↦
              rw (e, compute_scheduled_block_snapshot)
                (sym (fresh_hit target current service cache hit fresh e), fresh)
          | inl e ↦
              elim (Option-cases
                (compute_uncached floats order search sort data_of target current service)) [
                  | inl n ↦ rw (e, compute_scheduled_block_snapshot, n) (refl, fresh)
                  | inr (snap, n) ↦
                      rw (e, compute_scheduled_block_snapshot, n)
                        (
                          refl,
                          populate_snapshot_cache-IsFresh snap
                              (load_shift_trips data_of sort target service) current service cache
                              (λ t i. compute_uncached-mate target current service t i ∙ n) fresh,
                        )
                ]
        ]
