-- ===== src/Realtime/Poller.antt =====
-- internal/gtfs/realtime.go: `pollFeed`, the loop that polls one feed, and `calculateBackoff`, its
-- next interval after a failure. Each tick of the timer is one step; times are nanoseconds. The
-- clock's readings, the fetches and the random draw of a tick are its arguments.
pub mod Backoff
pub mod Outage
pub mod Runs
use maglev.Prelude.{
  ℕ, ◌+◌, ◌-◌, ◌*◌, ◌/◌, ◌^◌, Bool, true, false, ◌&&◌, not, Option, Text, ltb, leb, if◌then◌else◌,
}
use maglev.Realtime.Types.{Manager}
use maglev.Realtime.Agency.{Db}
use maglev.Realtime.Feed.{RealtimeData, FeedConfig, update_feed_realtime, clear_feed_data}

-- `staleFeedThreshold`
abbrev pub stale_feed_threshold : ℕ
stale_feed_threshold = 5 * 60 * 1_000_000_000

-- `maxInterval`
abbrev pub max_interval : ℕ
max_interval = 5 * 60 * 1_000_000_000

-- `baseInterval`, with the default for an interval that is not positive (here: 0)
unfoldable pub base_interval : FeedConfig → ℕ
base_interval cfg =
    (if leb cfg.refresh_interval 0 then 30 else cfg.refresh_interval) * 1_000_000_000

-- what `rand.Float64()` returns, a number from 0 up to but not 1, as `draw / unit`
pub record Draw : Type 0 where
  pub draw : ℕ
  pub unit : ℕ

-- `nextInterval` before the jitter
unfoldable pub scaled_interval : ℕ → ℕ → ℕ → ℕ
scaled_interval base errors limit =
    let exponent = if ltb 5 errors then 5 else errors in
    let next = base * 2 ^ exponent in if ltb limit next then limit else next

-- `nextInterval + jitter`, where the jitter is `(rand - 0.5) * 0.2 * nextInterval` cut to a whole
-- number towards 0
unfoldable pub add_jitter : Draw → ℕ → ℕ
add_jitter r next =
    if leb r.unit (2 * r.draw)
    then next + next * (2 * r.draw - r.unit) / (10 * r.unit)
    else next - next * (r.unit - 2 * r.draw) / (10 * r.unit)

-- `calculateBackoff`
unfoldable pub calculate_backoff : Draw → ℕ → ℕ → ℕ → ℕ
calculate_backoff r base errors limit = add_jitter r (scaled_interval base errors limit)

-- the loop's variables, the store, and what the timer was last set to
pub record Poller : Type 0 where
  pub manager : Manager
  pub consecutive_errors : ℕ
  pub last_successful_fetch : ℕ
  pub feed_cleared : Bool
  pub interval : ℕ

-- the state before the first tick, at the time `started`
unfoldable pub start_poller : FeedConfig → ℕ → Manager → Poller
start_poller cfg started m = record {
  manager = m;
  consecutive_errors = 0;
  last_successful_fetch = started;
  feed_cleared = false;
  interval = base_interval cfg;
}

-- what a tick meets: the fetches, the database, the cancelled context, the clock and the draw
pub record Circumstances : Type 0 where
  pub load : Text → Option RealtimeData
  pub db : Option Db
  pub cancelled : Bool
  -- the readings in `updateFeedRealtime`, and those of the tick after it
  pub now : ℕ
  pub done : ℕ
  pub succeeded_at : ℕ
  pub checked_at : ℕ
  pub random : Draw

-- `hasNewData`
unfoldable pub succeed : FeedConfig → ℕ → Manager → Poller
succeed cfg at m = record {
  manager = m;
  consecutive_errors = 0;
  last_successful_fetch = at;
  feed_cleared = false;
  interval = base_interval cfg;
}

-- `time.Since(lastSuccessfulFetch) > staleFeedThreshold` and `!feedCleared`
unfoldable pub must_clear : ℕ → Poller → Bool
must_clear at p = ltb stale_feed_threshold (at - p.last_successful_fetch) && not p.feed_cleared

-- the store and the flag after the staleness protection
unfoldable pub protect : FeedConfig → ℕ → Manager → Poller → Manager × Bool
protect cfg at m p =
    if must_clear at p then (clear_feed_data cfg.id m, true) else (m, p.feed_cleared)

-- no new data
unfoldable pub fail : FeedConfig → Circumstances → Manager → Poller → Poller
fail cfg c m p =
    let errors = p.consecutive_errors + 1 in
    let kept = protect cfg c.checked_at m p in
    record {
      manager = kept.0;
      consecutive_errors = errors;
      last_successful_fetch = p.last_successful_fetch;
      feed_cleared = kept.1;
      interval = calculate_backoff c.random (base_interval cfg) errors max_interval;
    }

-- the tick after the poll of the feed
unfoldable pub settle : FeedConfig → Circumstances → Poller → Manager × Bool → Poller
settle cfg c p (m, true) = succeed cfg c.succeeded_at m
settle cfg c p (m, false) = fail cfg c m p

-- one tick of the timer
unfoldable pub tick : FeedConfig → Circumstances → Poller → Poller
tick cfg c p =
    settle cfg c p (update_feed_realtime c.load c.db c.cancelled c.now c.done cfg p.manager)
