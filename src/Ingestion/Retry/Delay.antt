-- ===== src/Ingestion/Retry/Delay.antt =====
-- How long a retry waits.
use balanz.Prelude.{ℕ, ◌+◌, ◌*◌, ◌/◌, ◌≤◌, ◌<◌, arith}
use native.Mathlib.Nat.{mul-div-le, lt_of_mul-lt-mul_left, mul-lt-mul_of_pos_right}
use balanz.Ingestion.Retry.{delay_seconds}

-- The jitter is not negative and stays below its percentage of the base and a second: the delay
-- is at least the base and less than a second more than the base with its percentage.
pub delay_seconds_bounds :
    (base jitter draw range : ℕ)
    → draw < range
    → (base ≤ delay_seconds base jitter draw range)
      × (delay_seconds base jitter draw range * 100 < base * 100 + base * jitter + 100)
unfolding delay_seconds
delay_seconds_bounds base jitter draw range h =
    let m = base * jitter + 100 in
    let v = draw * m / (range * 100) in
    let floor = mul-div-le (draw * m) (range * 100) in
    let below : draw * m < range * m = mul-lt-mul_of_pos_right h (omega arith) in
    let small : v * 100 < m = lt_of_mul-lt-mul_left range (omega (arith, floor, below)) in
    omega (arith, small)
