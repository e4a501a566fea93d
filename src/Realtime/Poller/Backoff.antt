-- ===== src/Realtime/Poller/Backoff.antt =====
-- The interval after a failure: `calculateBackoff`.
use native.Mathlib.Nat.{
  mul_assoc, div-mul-le_self, mul-le-mul_left, le_of_mul-le-mul_right, le_trans,
}
use maglev.Prelude.{ℕ, ◌-◌, ◌*◌, ◌/◌, ◌^◌, ◌≤◌, ◌<◌, min, ◌≡◌, sym, subst, arith}
use maglev.Realtime.Poller.{Draw, scaled_interval, add_jitter, calculate_backoff}

-- the jitter is at most a tenth of the interval
tenth : (n k u : ℕ) → 0 < u → k ≤ u → 10 * (n * k / (10 * u)) ≤ n
tenth n k u pos h = omega (arith, within)
  where
    part : ℕ
    part = n * k / (10 * u)

    within : part * 10 ≤ n
    within =
        le_of_mul-le-mul_right
          (subst (λ (x : ℕ). x ≤ n * u) (sym (mul_assoc part 10 u))
            (le_trans (div-mul-le_self (n * k) (10 * u)) (mul-le-mul_left n h)))
          pos

scaled_interval-min :
    (base errors limit : ℕ)
    → scaled_interval base errors limit ≡ min (base * 2 ^ min errors 5) limit
unfolding scaled_interval
scaled_interval-min base errors limit = ground arith

add_jitter-bounds :
    (r : Draw) (n : ℕ)
    → r.draw < r.unit
    → (9 * n ≤ 10 * add_jitter r n) × (10 * add_jitter r n ≤ 11 * n)
unfolding add_jitter
add_jitter-bounds r n h =
    ground (arith, tenth n (2 * r.draw - r.unit) r.unit, tenth n (r.unit - 2 * r.draw) r.unit)

-- For any random draw from 0 up to but not 1, the next interval is within a tenth of the base
-- interval times two to the power of the number of consecutive errors, of which at most five count,
-- capped at the maximum.
pub calculate_backoff-bounds :
    (r : Draw) (base errors limit : ℕ)
    → r.draw < r.unit
    → (9 * min (base * 2 ^ min errors 5) limit ≤ 10 * calculate_backoff r base errors limit)
      × (10 * calculate_backoff r base errors limit ≤ 11 * min (base * 2 ^ min errors 5) limit)
unfolding calculate_backoff
calculate_backoff-bounds r base errors limit h =
    rw (sym (scaled_interval-min base errors limit))
      (add_jitter-bounds r (scaled_interval base errors limit) h)
