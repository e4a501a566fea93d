-- ===== src/Realtime/Poller/Runs.antt =====
-- A poller from its start on: ticks of its timer, and between them whatever else happens to the
-- store that leaves its feed alone, such as the polls of other feeds.
use native.Mathlib.Nat.{mul-le-mul_left, one-le-pow}
use maglev.Prelude.{ℕ, ◌+◌, ◌*◌, ◌^◌, ◌≤◌, ◌<◌, min, max, true, ◌≡◌, arith, Bool-cases, inl, inr}
use maglev.Realtime.Types.{Manager}
use maglev.Realtime.Feed.{FeedConfig}
use maglev.Realtime.Feed.Isolation.{SameFeed}
use maglev.Realtime.Poller.{
  Poller, Circumstances, start_poller, max_interval, base_interval, succeed, fail, tick,
}
use maglev.Realtime.Poller.Backoff.{calculate_backoff-bounds}
use maglev.Realtime.Poller.Outage.{
  HoldsNothing, TellsTheTruth, polled, tick_failed, tick_succeeded, failed-TellsTheTruth,
  SameFeed-HoldsNothing,
}

pub data Run (cfg : FeedConfig) (p : Poller) : Poller → Type 0 where
  here : Run cfg p p
  ticked :
      {q : Poller}
      → Run cfg p q
      → (c : Circumstances) → c.random.draw < c.random.unit
      → Run cfg p (tick cfg c q)
  elsewhere :
      {q : Poller}
      → Run cfg p q
      → (m : Manager) → SameFeed cfg.id q.manager m
      → Run cfg p (record q { manager = m })

tick-TellsTheTruth :
    (cfg : FeedConfig) (c : Circumstances) (p : Poller)
    → TellsTheTruth cfg p
    → TellsTheTruth cfg (tick cfg c p)
tick-TellsTheTruth cfg c p truth = elim (Bool-cases (polled cfg c p).1) [
  | inl e ↦ rw (tick_succeeded cfg c p e) (unfold succeed in λ flag. absurd (cc flag))
  | inr e ↦ rw (tick_failed cfg c p e) (failed-TellsTheTruth cfg c p e truth)
]

Run-TellsTheTruth :
    {cfg : FeedConfig} {p q : Poller} → TellsTheTruth cfg p → Run cfg p q → TellsTheTruth cfg q
Run-TellsTheTruth t here = t
Run-TellsTheTruth {cfg} t (ticked {q} r c h) = tick-TellsTheTruth cfg c q (Run-TellsTheTruth t r)
Run-TellsTheTruth t (elsewhere r m s) = λ flag. SameFeed-HoldsNothing s (Run-TellsTheTruth t r flag)

start-TellsTheTruth :
    (cfg : FeedConfig) (started : ℕ) (m : Manager) → TellsTheTruth cfg (start_poller cfg started m)
unfolding start_poller
start-TellsTheTruth cfg started m = λ flag. absurd (cc flag)

-- At any time after its start, a poller that has cleared its feed and had no success since holds
-- nothing of the feed: no poll without new data brings anything back.
pub Run-HoldsNothing :
    (cfg : FeedConfig) (started : ℕ) (m : Manager) (p : Poller)
    → Run cfg (start_poller cfg started m) p
    → p.feed_cleared ≡ true
    → HoldsNothing cfg.id p.manager
Run-HoldsNothing cfg started m p r flag =
    Run-TellsTheTruth (start-TellsTheTruth cfg started m) r flag

one-le_power : (k : ℕ) → 1 ≤ 2 ^ k
one-le_power k = one-le-pow k 2 (omega arith)

base-le_power : (base k : ℕ) → base ≤ base * 2 ^ k
base-le_power base k = omega (arith, mul-le-mul_left base (one-le_power k))

-- the bounds on the interval
abbrev IsBounded : FeedConfig → Poller → Type 0
IsBounded cfg p =
    (9 * min (base_interval cfg) max_interval ≤ 10 * p.interval)
    × (10 * p.interval ≤ max (10 * base_interval cfg) (11 * max_interval))

backoff-IsBounded :
    (base next interval : ℕ)
    → base ≤ next
    → (9 * min next max_interval ≤ 10 * interval) × (10 * interval ≤ 11 * min next max_interval)
    → (9 * min base max_interval ≤ 10 * interval)
      × (10 * interval ≤ max (10 * base) (11 * max_interval))
backoff-IsBounded base next interval h b = ground arith

tick-IsBounded :
    (cfg : FeedConfig) (c : Circumstances) (p : Poller)
    → c.random.draw < c.random.unit
    → IsBounded cfg (tick cfg c p)
tick-IsBounded cfg c p h = elim (Bool-cases (polled cfg c p).1) [
  | inl e ↦ rw (tick_succeeded cfg c p e) (unfold succeed in ground arith)
  | inr e ↦ rw (tick_failed cfg c p e) (
      unfold fail in
      backoff-IsBounded (base_interval cfg)
        (base_interval cfg * 2 ^ min (p.consecutive_errors + 1) 5) _
        (base-le_power (base_interval cfg) (min (p.consecutive_errors + 1) 5))
        (calculate_backoff-bounds c.random (base_interval cfg) (p.consecutive_errors + 1)
          max_interval h))
]

Run-IsBounded : {cfg : FeedConfig} {p q : Poller} → IsBounded cfg p → Run cfg p q → IsBounded cfg q
Run-IsBounded b here = b
Run-IsBounded {cfg} b (ticked {q} r c h) = tick-IsBounded cfg c q h
Run-IsBounded b (elsewhere r m s) = Run-IsBounded b r

-- The interval that the timer of a poller is set to, at any time after its start, is at least nine
-- tenths of the base interval or of five minutes, whichever is less, and at most the base interval
-- or eleven tenths of five minutes, whichever is more.
pub Run-interval :
    (cfg : FeedConfig) (started : ℕ) (m : Manager) (p : Poller)
    → Run cfg (start_poller cfg started m) p
    → (9 * min (base_interval cfg) max_interval ≤ 10 * p.interval)
      × (10 * p.interval ≤ max (10 * base_interval cfg) (11 * max_interval))
Run-interval cfg started m p r = Run-IsBounded started_bounded r
  where
    started_bounded : IsBounded cfg (start_poller cfg started m)
    started_bounded = unfold start_poller in ground arith
