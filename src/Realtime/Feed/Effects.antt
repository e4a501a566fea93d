-- ===== src/Realtime/Feed/Effects.antt =====
-- What one poll does to the store: nothing without new data, and never an older snapshot.
use maglev.Prelude.{
  ℕ, Bool, true, false, Option, none, some, List, [], ◌∷◌, Text, text_eq, is_empty, is_some, Map,
  get_or, ◌≡◌, refl, ◌⊎◌, inl, inr, arith, Option-cases,
}
use maglev.Realtime.Types.{Manager, Trip}
use maglev.Realtime.Agency.{Db, build_route_agency_map, collect_realtime_route_ids}
use maglev.Realtime.Merge.{rebuild_merged_realtime}
use maglev.Realtime.Feed.{
  RealtimeData, FeedConfig, Fetched, fetch, filter_trips, filter_by_agency, has_new_data, store,
  complete_poll, update_feed_realtime,
}

-- the parts of a poll's data that came
abbrev SameParts : Fetched → Fetched → Type 0
SameParts d e =
    (is_some d.trips ≡ is_some e.trips)
    × (is_some d.vehicles ≡ is_some e.vehicles)
    × (is_some d.alerts ≡ is_some e.alerts)

filter_trips-some :
    (db : Option Db) (allowed : Map Text Bool) (routes : Map Text Text) (trips : Option (List Trip))
    (r : Option (List Trip) × List Trip)
    → filter_trips db allowed routes trips ≡ some r
    → is_some r.0 ≡ is_some trips
unfolding filter_trips
filter_trips-some db allowed routes none r h = ground arith
filter_trips-some db allowed routes (some ts) r h = ground arith

filter_by_agency-SameParts :
    (db : Option Db) (allowed : Map Text Bool) (d e : Fetched)
    → filter_by_agency db allowed d ≡ some e
    → SameParts e d
unfolding filter_by_agency
filter_by_agency-SameParts db [] d e h = ground arith
filter_by_agency-SameParts db (a ∷ allowed) d e h =
    elim (Option-cases
      (build_route_agency_map db (collect_realtime_route_ids d.trips d.vehicles d.alerts))) [
        | inl n ↦ absurd (ground arith)
        | inr (routes, q) ↦ elim (Option-cases (filter_trips db (a ∷ allowed) routes d.trips)) [
          | inl n ↦ absurd (ground arith)
          | inr (r, p) ↦ ground (arith, filter_trips-some db (a ∷ allowed) routes d.trips r p)
        ]
      ]

-- data comes only from a URL that is configured
fetch_configured :
    (load : Text → Option RealtimeData) (cfg : FeedConfig)
    → (is_some (fetch load cfg).trips ≡ true → is_empty cfg.trip_updates_url ≡ false)
      × (is_some (fetch load cfg).vehicles ≡ true → is_empty cfg.vehicle_positions_url ≡ false)
      × (is_some (fetch load cfg).alerts ≡ true → is_empty cfg.service_alerts_url ≡ false)
unfolding fetch
fetch_configured load cfg = (λ h. ground arith, λ h. ground arith, λ h. ground arith)

-- a stage of `store` that had no data does nothing
store_nothing :
    (now done : ℕ) (cfg : FeedConfig) (d : Fetched) (m : Manager)
    → d.trips ≡ none
    → d.vehicles ≡ none
    → d.alerts ≡ none
    → (store now done cfg d m).0 ≡ rebuild_merged_realtime m
unfolding store
store_nothing now done cfg d m t v a = ground arith

module _ (load : Text → Option RealtimeData) (db : Option Db) (cancelled : Bool) (now done : ℕ)
    (cfg : FeedConfig) (m : Manager) where
  stored_nothing :
      (d : Fetched)
      → SameParts d (fetch load cfg)
      → has_new_data cfg d ≡ false
      → (store now done cfg d m).0 ≡ rebuild_merged_realtime m
  stored_nothing d s h =
      store_nothing now done cfg d m
        (nothing d.trips (unfold has_new_data in ground (arith, (fetch_configured load cfg).0)))
        (nothing d.vehicles (unfold has_new_data in ground (arith, (fetch_configured load cfg).1)))
        (nothing d.alerts (unfold has_new_data in ground (arith, (fetch_configured load cfg).2)))
    where
      nothing : {A : Type 0} (o : Option A) → is_some o ≡ false → o ≡ none
      nothing none e = refl
      nothing (some x) e = absurd (cc e)

  completed_nothing :
      (o : Option Fetched)
      → ((d : Fetched) → o ≡ some d → SameParts d (fetch load cfg))
      → (complete_poll now done cfg m o).1 ≡ false
      → ((complete_poll now done cfg m o).0 ≡ m)
        ⊎ ((complete_poll now done cfg m o).0 ≡ rebuild_merged_realtime m)
  completed_nothing none s h = unfold complete_poll in inl refl
  completed_nothing (some d) s h =
      unfold complete_poll in inr (stored_nothing d (s d refl) (unfold complete_poll in h))

  -- A poll that reports no new data (because it was cancelled, the agencies could not be resolved,
  -- or no configured URL gave data) leaves every feed's data as it was; at most it publishes the
  -- merged view again.
  pub no_new_data_keeps :
      (update_feed_realtime load db cancelled now done cfg m).1 ≡ false
      → ((update_feed_realtime load db cancelled now done cfg m).0 ≡ m)
        ⊎ ((update_feed_realtime load db cancelled now done cfg m).0 ≡ rebuild_merged_realtime m)
  no_new_data_keeps h = by_cancelled cancelled h
    where
      allowed : Map Text Bool
      allowed = get_or [] cfg.id m.feed_agency_filter

      by_cancelled :
          (c : Bool)
          → (update_feed_realtime load db c now done cfg m).1 ≡ false
          → ((update_feed_realtime load db c now done cfg m).0 ≡ m)
            ⊎ ((update_feed_realtime load db c now done cfg m).0 ≡ rebuild_merged_realtime m)
      by_cancelled true h = unfold update_feed_realtime in inl refl
      by_cancelled false h =
          unfold update_feed_realtime in
          completed_nothing (filter_by_agency db allowed (fetch load cfg))
            (λ d e. filter_by_agency-SameParts db allowed (fetch load cfg) d e)
            (unfold update_feed_realtime in h)
