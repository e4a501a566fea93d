-- ===== src/Tests/Pollers.antt =====
-- A poller whose feed cannot be fetched, and the interval after its failures.
use maglev.Prelude.{ℕ, ◌*◌, ◌≤◌, min, max, false, none, bytes, lookup, refl, arith, ◌≡◌, text_eq}
use maglev.Realtime.Feed.{
  update_feed_realtime, fetch, filter_by_agency, complete_poll, store, has_new_data, load_url,
}
use maglev.Realtime.Feed.Polls.{new_manager}
use maglev.Realtime.Feed.Isolation.{SameFeed}
use maglev.Realtime.Poller.{
  Poller, Circumstances, start_poller, tick, settle, fail, protect, must_clear, calculate_backoff,
  scaled_interval, add_jitter, base_interval, max_interval,
}
use maglev.Realtime.Poller.Outage.{HoldsNothing, failed_tick-SameFeed}
use maglev.Realtime.Poller.Runs.{Run, here, ticked, Run-HoldsNothing, Run-interval}
use maglev.Tests.Polling.{north, start}

abbrev down : ℕ → Circumstances
down at = record {
  load = λ url. none;
  db = none;
  cancelled = false;
  now = at;
  done = at;
  succeeded_at = at;
  checked_at = at;
  random = record { draw = 3; unit = 4 };
}

abbrev new_poller : Poller
new_poller = start_poller north 0 start

-- 301 seconds after the start
abbrev failed_once : Poller
failed_once = tick north (down 301_000_000_000) new_poller

one_failure : Run north new_poller failed_once
one_failure = ticked here (down 301_000_000_000) (omega arith)

-- three failures of a 30 second feed, and the draw 0.75: 240 seconds and a twentieth
three_failures :
    calculate_backoff (record { draw = 3; unit = 4 }) 30_000_000_000 3 max_interval
    ≡ 252_000_000_000
unfolding calculate_backoff scaled_interval add_jitter
three_failures = refl

Run-HoldsNothing_example : HoldsNothing (bytes "north") failed_once.manager
Run-HoldsNothing_example = Run-HoldsNothing north 0 start failed_once one_failure (
    unfold tick settle fail protect must_clear start_poller update_feed_realtime fetch
      filter_by_agency complete_poll store has_new_data load_url lookup new_manager in
    refl)

failed_tick-SameFeed_example :
    SameFeed
      (bytes "north")
      new_poller.manager
      (tick north (down 100_000_000_000) new_poller).manager
failed_tick-SameFeed_example =
    failed_tick-SameFeed north (down 100_000_000_000) new_poller
      (unfold start_poller update_feed_realtime fetch filter_by_agency complete_poll store
          has_new_data load_url lookup new_manager in
        refl)
      (unfold start_poller in omega arith)

Run-interval_example :
    (9 * min (base_interval north) max_interval ≤ 10 * failed_once.interval)
    × (10 * failed_once.interval ≤ max (10 * base_interval north) (11 * max_interval))
Run-interval_example = Run-interval north 0 start failed_once one_failure
