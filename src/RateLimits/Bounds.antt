-- ===== src/RateLimits/Bounds.antt =====
-- The overflow considerations in `__post_init__` of weasyl/rate_limits.py.
use native.Mathlib.Nat.{mul-le-mul, div-le_self}
use weasyl.Prelude.{ℕ, ◌+◌, ◌*◌, ◌/◌, ◌^◌, ◌≤◌, ◌<◌, ◌≡◌, some, arith}
use weasyl.Prelude.Int.{ℤ}
use weasyl.RateLimits.{GlobalRateLimit, create, max_parameter}

create_ranges :
    (c p : ℤ) {limit : GlobalRateLimit}
    → create c p ≡ some limit
    → (limit.capacity ≤ max_parameter) × (0 < limit.period) × (limit.period ≤ max_parameter)
unfolding create
create_ranges c p e = ground arith

-- Every limit that `__post_init__` accepts divides by a positive period, and for up to 2 ^ 33 ticks
-- (the seconds since the epoch until the year 2242) the products and sums of the update fit in a
-- signed 64-bit integer.
pub create_fits_bigint :
    (c p : ℤ) (ticks : ℕ) {limit : GlobalRateLimit}
    → create c p ≡ some limit
    → ticks ≤ 2 ^ 33
    → (0 < limit.period)
      × (ticks * limit.capacity < 2 ^ 63)
      × (limit.capacity + ticks * limit.capacity / limit.period < 2 ^ 63)
create_fits_bigint c p ticks {limit} e h =
    let (cap, pos_period, _) = create_ranges c p e in
    let product : ticks * limit.capacity ≤ 2 ^ 33 * max_parameter = mul-le-mul h cap in
    (pos_period, omega arith, omega (arith, div-le_self (ticks * limit.capacity) limit.period))
