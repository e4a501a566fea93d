-- ===== src/Tests/Snapshots.antt =====
-- Two trips of a block and a request for the second after one for the first.
use maglev.Prelude.{
  ℕ, zero, suc, ◌+◌, Bool, true, false, not, none, some, List, [], ◌∷◌, bytes, Text, text_eq,
  list_beq, contains_text, contains_text-In, In, ◌==◌, if◌then◌else◌, ltb, lookup, pos, abs_int,
  lt_int, ◌≡◌, ◌⊎◌, refl, sym, ap, subst, arith, inl, inr, Bool-cases,
}
use maglev.Blocks.{BlockTrip, BlockQueries}
use maglev.Blocks.Mates.{UniqueIds, OneBlock}
use maglev.Deviation.Block.{Calendar}
use maglev.Blocks.Snapshots.{Instant, cache_key_eq, EmittedStop, FloatOrder, BlockData}
use maglev.Blocks.Snapshots.Requests.{
  SnapshotCache, compute_uncached, compute_scheduled_block_snapshot,
}
use maglev.Blocks.Snapshots.Cache.{DataLaws, IsFresh, compute_scheduled_block_snapshot-IsFresh}
use maglev.Tests.Shifts.{put, put_all, insertion_sort, insertion_sort-SortLaws}
use maglev.Tests.Timelines.{counting, percents}

abbrev trip : Text → ℕ → ℕ → BlockTrip
trip id first last = record { id = id; first_seconds = pos first; last_seconds = pos last }

unfoldable trips_if : Bool → Bool → List BlockTrip
trips_if true true = trip (bytes "a") 10 50 ∷ trip (bytes "c") 60 120 ∷ []
trips_if true false = trip (bytes "a") 10 50 ∷ []
trips_if false true = trip (bytes "c") 60 120 ∷ []
trips_if false false = []

abbrev queries : BlockQueries
queries = record {
  get_block_id_by_trip_id = λ id. some (bytes "k");
  get_trips_by_block_id = λ id.
      if id == bytes "k"
      then some (
          record { id = bytes "a"; service_id = bytes "w" }
          ∷ record { id = bytes "c"; service_id = bytes "w" }
          ∷ [])
      else none;
  get_active_service_ids_for_date = some (bytes "w" ∷ []);
}

-- one stop for each trip, where it starts
unfoldable starts : ℕ → List BlockTrip → List (EmittedStop ℕ) × List ℕ
starts metres [] = ([], [])
starts metres (t ∷ ts) =
    let rest = starts (metres + 1000) ts in
    (
      record {
        key = record { trip_id = t.id; stop_sequence_in_trip = pos 1 };
        metric = record {
          block_sequence = pos metres;
          effective_stop_seconds = t.first_seconds;
          distance_along_block = metres;
        };
      }
          ∷ rest.0,
      metres ∷ rest.1,
    )

-- the seconds of a time in any location
abbrev hours : Calendar (Instant ℕ)
hours = record {
  hour = λ t date. 0;
  minute = λ t date. 0;
  second = λ t date. abs_int t.unix_nano;
  day = λ t date. pos 0;
}

abbrev half_past : Instant ℕ
half_past = record { unix_nano = pos 30; location = 2 }

abbrev service_start : Instant ℕ
service_start = record { unix_nano = pos 0; location = 2 }

abbrev database : BlockData ℕ ℕ
database = record {
  queries = λ service. queries;
  load_block_trip_data =
      λ ids. trips_if (contains_text (bytes "a") ids) (contains_text (bytes "c") ids);
  emit_block_stops = λ ts. starts 0 ts;
  calendar = hours;
}

order : FloatOrder ℕ
order = record { at_least = λ a b. not (ltb a b); max_zero = λ a. a }

trips_if-asked :
    (a c : Bool) (t : BlockTrip)
    → In t (trips_if a c)
    → ((a ≡ true) × (t.id ≡ bytes "a")) ⊎ ((c ≡ true) × (t.id ≡ bytes "c"))
unfolding trips_if
trips_if-asked true true t (inl e) = inl (refl, ap (λ (x : BlockTrip). x.id) e)
trips_if-asked true true t (inr (inl e)) = inr (refl, ap (λ (x : BlockTrip). x.id) e)
trips_if-asked true true t (inr (inr i)) = absurd i
trips_if-asked true false t (inl e) = inl (refl, ap (λ (x : BlockTrip). x.id) e)
trips_if-asked true false t (inr i) = absurd i
trips_if-asked false true t (inl e) = inr (refl, ap (λ (x : BlockTrip). x.id) e)
trips_if-asked false true t (inr i) = absurd i
trips_if-asked false false t i = absurd i

UniqueIds_pair : (x y : BlockTrip) → (x.id == y.id) ≡ false → UniqueIds (x ∷ y ∷ [])
UniqueIds_pair x y d zero zero t u g h e = refl
UniqueIds_pair x y d zero (suc zero) t u g h e =
    let same : x.id ≡ y.id = cc in absurd (ground (arith, text_eq.beq_iff x.id y.id, same))
UniqueIds_pair x y d (suc zero) zero t u g h e =
    let same : x.id ≡ y.id = cc in absurd (ground (arith, text_eq.beq_iff x.id y.id, same))
UniqueIds_pair x y d (suc zero) (suc zero) t u g h e = refl
UniqueIds_pair x y d zero (suc (suc j)) t u g h e = absurd (cc h)
UniqueIds_pair x y d (suc zero) (suc (suc j)) t u g h e = absurd (cc h)
UniqueIds_pair x y d (suc (suc i)) j t u g h e = absurd (cc g)

UniqueIds_one : (x : BlockTrip) → UniqueIds (x ∷ [])
UniqueIds_one x zero zero t u g h e = refl
UniqueIds_one x zero (suc j) t u g h e = absurd (cc h)
UniqueIds_one x (suc i) j t u g h e = absurd (cc g)

UniqueIds_trips :
    (a c : Bool)
    → UniqueIds (insertion_sort.sort_by (λ (t : BlockTrip). t.first_seconds) (trips_if a c))
unfolding trips_if put_all put lt_int
UniqueIds_trips true true =
    UniqueIds_pair (trip (bytes "a") 10 50) (trip (bytes "c") 60 120) (unfold list_beq in refl)
UniqueIds_trips true false = UniqueIds_one (trip (bytes "a") 10 50)
UniqueIds_trips false true = UniqueIds_one (trip (bytes "c") 60 120)
UniqueIds_trips false false = λ i j t u g h e. absurd (cc g)

queries-OneBlock : OneBlock queries
queries-OneBlock block_id rows r e i = elim (Bool-cases (block_id == bytes "k")) [
  | inl q ↦ ap some (sym ((text_eq.beq_iff block_id (bytes "k")).0 q))
  | inr q ↦ absurd (cc (rw q at e))
]

database-DataLaws : DataLaws database insertion_sort
database-DataLaws = record {
  asked = λ ids t i.
      elim (trips_if-asked (contains_text (bytes "a") ids) (contains_text (bytes "c") ids) t i) [
        | inl (p, e) ↦ subst (λ (x : Text). In x ids) (sym e) (contains_text-In (bytes "a") ids p)
        | inr (p, e) ↦ subst (λ (x : Text). In x ids) (sym e) (contains_text-In (bytes "c") ids p)
      ];
  unique = λ ids. UniqueIds_trips (contains_text (bytes "a") ids) (contains_text (bytes "c") ids);
  one_block = λ service. queries-OneBlock;
}

abbrev empty_cache : SnapshotCache ℕ
empty_cache = []

empty_cache-IsFresh :
    IsFresh database insertion_sort insertion_sort-SortLaws database-DataLaws percents order
      counting 2 2 empty_cache
unfolding lookup
empty_cache-IsFresh key snap e = absurd (cc e)

-- the cache after a request for the snapshot of "a" at 30
abbrev used_cache : SnapshotCache ℕ
used_cache =
    (compute_scheduled_block_snapshot percents order counting insertion_sort database (bytes "a")
      half_past service_start empty_cache).1

used_cache-IsFresh :
    IsFresh database insertion_sort insertion_sort-SortLaws database-DataLaws percents order
      counting 2 2 used_cache
used_cache-IsFresh =
    (compute_scheduled_block_snapshot-IsFresh database insertion_sort insertion_sort-SortLaws
      database-DataLaws percents order counting (bytes "a") half_past service_start empty_cache
      empty_cache-IsFresh).1

compute_scheduled_block_snapshot-IsFresh_example :
    ((compute_scheduled_block_snapshot percents order counting insertion_sort database
        (bytes "c")
        half_past
        service_start
        used_cache).0
      ≡ compute_uncached percents order counting insertion_sort database
          (bytes "c")
          half_past
          service_start)
    × IsFresh database insertion_sort insertion_sort-SortLaws database-DataLaws percents order
        counting 2 2
        (compute_scheduled_block_snapshot percents order counting insertion_sort database
          (bytes "c")
          half_past
          service_start
          used_cache).1
compute_scheduled_block_snapshot-IsFresh_example =
    compute_scheduled_block_snapshot-IsFresh database insertion_sort insertion_sort-SortLaws
      database-DataLaws percents order counting (bytes "c") half_past service_start used_cache
      used_cache-IsFresh
