-- ===== src/Realtime/Feed/Polls.antt =====
-- The store through any sequence of polls and clearings: what holds between two of them.
use maglev.Prelude.{
  ℕ, Bool, true, false, Option, none, some, [], Text, text_eq, eq_refl, Map, lookup,
  lookup-insert_self, lookup-delete, sort_texts, get_or, ◌==◌, ◌≡◌, refl, sym, ◌∙◌, subst, arith,
  Bool-cases, inl, inr,
}
use maglev.Realtime.Types.{Manager}
use maglev.Realtime.Agency.{Db}
use maglev.Realtime.Merge.{
  rebuild_merged_realtime, merged_realtime, merge, empty_merged_realtime, all_feeds, trip_positions,
  index_vehicles, alert_index, index_alerts,
}
use maglev.Realtime.Vehicles.Retention.{IsTracked}
use maglev.Realtime.Feed.{
  RealtimeData, FeedConfig, Fetched, filter_by_agency, fetch, fleet, store_trips, store_vehicles,
  store_alerts, has_new_data, store, store_data, publish, complete_poll, update_feed_realtime,
  clear_feed_data,
}
use maglev.Realtime.Feed.Stages.{
  fleet-store_trips, store_vehicles-IsTracked, fleet-publish, fleet-store_alerts,
}
use maglev.Realtime.Feed.Isolation.{
  SameFeed, update_feed_realtime-SameFeed, clear_feed_data-SameFeed,
}

-- between two operations: each feed's vehicles are tracked, and the readers see the merge of what
-- the feeds hold
pub record IsConsistent (m : Manager) : Type 0 where
  pub tracked : (feed : Text) → IsTracked (fleet feed m)
  pub published : merged_realtime m ≡ merge m

-- one operation on the store
pub data Step (m : Manager) : Manager → Type 0 where
  poll :
      (load : Text → Option RealtimeData) (db : Option Db) (cancelled : Bool) (now done : ℕ)
      (cfg : FeedConfig)
      → Step m (update_feed_realtime load db cancelled now done cfg m).0
  clear : (feed : Text) → Step m (clear_feed_data feed m)

pub data Reach (m : Manager) : Manager → Type 0 where
  here : Reach m m
  next : {n p : Manager} → Reach m n → Step n p → Reach m p

fleet_of_same : (feed : Text) (m n : Manager) → SameFeed feed m n → fleet feed n ≡ fleet feed m
unfolding fleet
fleet_of_same feed m n s = ground arith

publish_published :
    (new : Bool) (done : ℕ) (feed : Text) (m : Manager)
    → merged_realtime (publish new done feed m) ≡ merge (publish new done feed m)
unfolding publish rebuild_merged_realtime merged_realtime merge
publish_published true done feed m = refl
publish_published false done feed m = refl

module _ (now done : ℕ) (cfg : FeedConfig) (m : Manager) (t : IsTracked (fleet cfg.id m)) where
  store-IsTracked : (d : Fetched) → IsTracked (fleet cfg.id (store now done cfg d m).0)
  unfolding store store_data
  store-IsTracked d =
      let a = store_trips cfg.id d m in
      let b = store_vehicles now cfg.id d a in
      let at_trips : IsTracked (fleet cfg.id a) =
        subst IsTracked (sym (fleet-store_trips now cfg.id d m)) t in
      let at_vehicles = store_vehicles-IsTracked now cfg.id d a at_trips in
      subst IsTracked
        (sym (
          fleet-publish now cfg.id (has_new_data cfg d) done (store_alerts cfg.id d b)
          ∙ fleet-store_alerts now cfg.id d b))
        at_vehicles

  complete_poll-IsTracked :
      (o : Option Fetched) → IsTracked (fleet cfg.id (complete_poll now done cfg m o).0)
  unfolding complete_poll
  complete_poll-IsTracked none = t
  complete_poll-IsTracked (some d) = store-IsTracked d

  poll-IsTracked :
      (load : Text → Option RealtimeData) (db : Option Db) (cancelled : Bool)
      → IsTracked (fleet cfg.id (update_feed_realtime load db cancelled now done cfg m).0)
  unfolding update_feed_realtime
  poll-IsTracked load db true = t
  poll-IsTracked load db false =
      complete_poll-IsTracked
        (filter_by_agency db (get_or [] cfg.id m.feed_agency_filter) (fetch load cfg))

complete_poll_published :
    (now done : ℕ) (cfg : FeedConfig) (m : Manager) (o : Option Fetched)
    → merged_realtime m ≡ merge m
    → merged_realtime (complete_poll now done cfg m o).0 ≡ merge (complete_poll now done cfg m o).0
unfolding complete_poll store
complete_poll_published now done cfg m none h = h
complete_poll_published now done cfg m (some d) h =
    publish_published (has_new_data cfg d) done cfg.id (store_data now cfg d m)

poll_published :
    (load : Text → Option RealtimeData) (db : Option Db) (cancelled : Bool) (now done : ℕ)
    (cfg : FeedConfig) (m : Manager)
    → merged_realtime m ≡ merge m
    → merged_realtime (update_feed_realtime load db cancelled now done cfg m).0
      ≡ merge (update_feed_realtime load db cancelled now done cfg m).0
unfolding update_feed_realtime
poll_published load db true now done cfg m h = h
poll_published load db false now done cfg m h =
    complete_poll_published now done cfg m
      (filter_by_agency db (get_or [] cfg.id m.feed_agency_filter) (fetch load cfg)) h

empty_fleet-IsTracked : IsTracked (record { vehicles = []; last_seen = [] })
empty_fleet-IsTracked = record { unique = tt; seen = λ v h. absurd h }

fleet-clear :
    (feed : Text) (m : Manager)
    → fleet feed (clear_feed_data feed m) ≡ record { vehicles = []; last_seen = [] }
unfolding fleet clear_feed_data rebuild_merged_realtime
fleet-clear feed m = ground (
  arith,
  lookup-insert_self feed [] m.feed_vehicles,
  lookup-delete feed feed m.feed_vehicle_last_seen,
  eq_refl feed,
)

Step-IsConsistent : {m n : Manager} → Step m n → IsConsistent m → IsConsistent n
Step-IsConsistent {m} (poll load db cancelled now done cfg) c = record {
  tracked = λ feed. elim (Bool-cases (cfg.id == feed)) [
    | inl e ↦
        subst
          (λ (f : Text).
            IsTracked (fleet f (update_feed_realtime load db cancelled now done cfg m).0))
          ((text_eq.beq_iff cfg.id feed).0 e)
          (poll-IsTracked now done cfg m (c.tracked cfg.id) load db cancelled)
    | inr e ↦
        subst IsTracked
          (sym (
            fleet_of_same feed m _
              (update_feed_realtime-SameFeed cfg feed e now done m load db cancelled)))
          (c.tracked feed)
  ];
  published = poll_published load db cancelled now done cfg m c.published;
}
Step-IsConsistent {m} (clear feed) c = record {
  tracked = λ other. elim (Bool-cases (feed == other)) [
    | inl e ↦
        subst (λ (f : Text). IsTracked (fleet f (clear_feed_data feed m)))
          ((text_eq.beq_iff feed other).0 e)
          (subst IsTracked (sym (fleet-clear feed m)) empty_fleet-IsTracked)
    | inr e ↦
        subst IsTracked (sym (fleet_of_same other m _ (clear_feed_data-SameFeed feed other m e)))
          (c.tracked other)
  ];
  published = unfold clear_feed_data rebuild_merged_realtime merged_realtime merge in refl;
}

-- the store that `InitGTFSManager` starts with, for the agency filters of the configuration
unfoldable pub new_manager : Map Text (Map Text Bool) → Manager
new_manager filters = record {
  feed_trips = [];
  feed_unattributed_trips = [];
  feed_vehicles = [];
  feed_alerts = [];
  feed_agency_filter = filters;
  feed_vehicle_timestamp = [];
  feed_vehicle_last_seen = [];
  feed_last_update = [];
  merged = none;
}

new_manager-IsConsistent : (filters : Map Text (Map Text Bool)) → IsConsistent (new_manager filters)
unfolding new_manager
new_manager-IsConsistent filters = record {
  tracked = λ feed. unfold fleet lookup in empty_fleet-IsTracked;
  published =
      unfold merged_realtime merge empty_merged_realtime all_feeds sort_texts trip_positions
        index_vehicles alert_index index_alerts in
      refl;
}

preserved_along_Reach : {m n : Manager} → IsConsistent m → Reach m n → IsConsistent n
preserved_along_Reach c here = c
preserved_along_Reach c (next r s) = Step-IsConsistent s (preserved_along_Reach c r)

-- Whatever polls and clearings follow the start, in whatever order and with whatever fetches, at
-- every time between two of them each vehicle of each feed has a key with one last-seen time, and
-- the merged view that the readers load is the merge of what the feeds hold then.
pub Reach-IsConsistent :
    (filters : Map Text (Map Text Bool)) (m : Manager)
    → Reach (new_manager filters) m
    → IsConsistent m
Reach-IsConsistent filters m r = preserved_along_Reach (new_manager-IsConsistent filters) r
