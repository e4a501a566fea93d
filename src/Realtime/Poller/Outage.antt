-- ===== src/Realtime/Poller/Outage.antt =====
-- What a poller holds of its feed through an outage, whatever the polls of other feeds do between
-- its ticks.
use maglev.Prelude.{
  ◌+◌, ◌≤◌, Bool, true, false, none, [], Text, text_eq, eq_refl, lookup, lookup-insert_self,
  lookup-delete, get_or, ◌≡◌, ◌⊎◌, refl, arith, Bool-cases, inl, inr,
}
use maglev.Realtime.Types.{Manager}
use maglev.Realtime.Merge.{rebuild_merged_realtime}
use maglev.Realtime.Feed.{FeedConfig, update_feed_realtime, clear_feed_data}
use maglev.Realtime.Feed.Effects.{no_new_data_keeps}
use maglev.Realtime.Feed.Isolation.{SameFeed, SameFeed-refl}
use maglev.Realtime.Poller.{
  Poller, Circumstances, stale_feed_threshold, succeed, must_clear, protect, fail, settle, tick,
}

-- nothing is held of the feed
pub record HoldsNothing (feed : Text) (m : Manager) : Type 0 where
  pub trips : get_or [] feed m.feed_trips ≡ []
  pub unattributed : lookup feed m.feed_unattributed_trips ≡ none
  pub vehicles : get_or [] feed m.feed_vehicles ≡ []
  pub alerts : get_or [] feed m.feed_alerts ≡ []
  pub timestamp : lookup feed m.feed_vehicle_timestamp ≡ none
  pub last_seen : lookup feed m.feed_vehicle_last_seen ≡ none
  pub last_update : lookup feed m.feed_last_update ≡ none

pub clear_feed_data-HoldsNothing :
    (feed : Text) (m : Manager) → HoldsNothing feed (clear_feed_data feed m)
unfolding clear_feed_data rebuild_merged_realtime
clear_feed_data-HoldsNothing feed m = ground (
  arith,
  eq_refl feed,
  lookup-insert_self feed [] m.feed_trips,
  lookup-insert_self feed [] m.feed_vehicles,
  lookup-insert_self feed [] m.feed_alerts,
  lookup-delete feed feed m.feed_unattributed_trips,
  lookup-delete feed feed m.feed_vehicle_timestamp,
  lookup-delete feed feed m.feed_vehicle_last_seen,
  lookup-delete feed feed m.feed_last_update,
)

pub SameFeed-HoldsNothing :
    {feed : Text} {m n : Manager} → SameFeed feed m n → HoldsNothing feed m → HoldsNothing feed n
SameFeed-HoldsNothing s h = ground arith

rebuild-SameFeed : (feed : Text) (m : Manager) → SameFeed feed m (rebuild_merged_realtime m)
unfolding rebuild_merged_realtime
rebuild-SameFeed feed m = ground arith

module _ (cfg : FeedConfig) (c : Circumstances) (p : Poller) where
  -- what the poll of a tick returns
  abbrev pub polled : Manager × Bool
  polled = update_feed_realtime c.load c.db c.cancelled c.now c.done cfg p.manager

  failed_poll-SameFeed : polled.1 ≡ false → SameFeed cfg.id p.manager polled.0
  failed_poll-SameFeed h =
      elim (no_new_data_keeps c.load c.db c.cancelled c.now c.done cfg p.manager h) [
        | inl e ↦ rw e (SameFeed-refl cfg.id p.manager)
        | inr e ↦ rw e (rebuild-SameFeed cfg.id p.manager)
      ]

  settle_failed : (r : Manager × Bool) → r.1 ≡ false → settle cfg c p r ≡ fail cfg c r.0 p
  unfolding settle
  settle_failed (m, false) h = refl
  settle_failed (m, true) h = absurd (cc h)

  settle_succeeded :
      (r : Manager × Bool) → r.1 ≡ true → settle cfg c p r ≡ succeed cfg c.succeeded_at r.0
  unfolding settle
  settle_succeeded (m, true) h = refl
  settle_succeeded (m, false) h = absurd (cc h)

  pub tick_failed : polled.1 ≡ false → tick cfg c p ≡ fail cfg c polled.0 p
  unfolding tick
  tick_failed h = settle_failed polled h

  pub tick_succeeded : polled.1 ≡ true → tick cfg c p ≡ succeed cfg c.succeeded_at polled.0
  unfolding tick
  tick_succeeded h = settle_succeeded polled h

  -- A tick whose poll brings no new data, no later than five minutes after the last success,
  -- changes nothing that is held of the feed.
  pub failed_tick-SameFeed :
      polled.1 ≡ false
      → c.checked_at ≤ p.last_successful_fetch + stale_feed_threshold
      → SameFeed cfg.id p.manager (tick cfg c p).manager
  failed_tick-SameFeed h soon = rw (tick_failed h) (unfold fail in rw kept (failed_poll-SameFeed h))
    where
      kept : protect cfg c.checked_at polled.0 p ≡ (polled.0, p.feed_cleared)
      kept = unfold protect must_clear in ground arith

  -- the two outcomes of the staleness protection
  protect-cases :
      (m : Manager)
      → (protect cfg c.checked_at m p ≡ (m, p.feed_cleared))
        ⊎ (protect cfg c.checked_at m p ≡ (clear_feed_data cfg.id m, true))
  unfolding protect
  protect-cases m = elim (Bool-cases (must_clear c.checked_at p)) [
    | inl e ↦ inr (rw e refl)
    | inr e ↦ inl (rw e refl)
  ]

-- the flag tells the truth: a feed that was cleared holds nothing
abbrev pub TellsTheTruth : FeedConfig → Poller → Type 0
TellsTheTruth cfg p = p.feed_cleared ≡ true → HoldsNothing cfg.id p.manager

pub failed-TellsTheTruth :
    (cfg : FeedConfig) (c : Circumstances) (p : Poller)
    → (polled cfg c p).1 ≡ false
    → TellsTheTruth cfg p
    → TellsTheTruth cfg (fail cfg c (polled cfg c p).0 p)
unfolding fail
failed-TellsTheTruth cfg c p h truth = elim (protect-cases cfg c p (polled cfg c p).0) [
  | inl e ↦ rw e (λ flag. SameFeed-HoldsNothing (failed_poll-SameFeed cfg c p h) (truth flag))
  | inr e ↦ rw e (λ flag. clear_feed_data-HoldsNothing cfg.id (polled cfg c p).0)
]
