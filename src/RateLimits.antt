-- ===== src/RateLimits.antt =====
-- weasyl/rate_limits.py: `GlobalRateLimit`. SQL's `/` on integers truncates towards 0, which is the
-- quotient of ℕ here, since the ticks and both parameters are never negative.
pub mod Bounds
pub mod Window
use weasyl.Prelude.{
  ℕ, ◌+◌, ◌-◌, ◌*◌, ◌/◌, Bool, true, false, not, ◌&&◌, ◌||◌, Option, none, some, List, [], ◌∷◌, ltb,
  if◌then◌else◌,
}
use weasyl.Prelude.Int.{ℤ, pos, pos_part, ◌+ℤ◌, ◌-ℤ◌, ltb_ℤ, leb_ℤ, min_ℤ}

pub record GlobalRateLimit : Type 0 where
  pub capacity : ℕ
  pub period : ℕ

abbrev pub max_parameter : ℕ
max_parameter = 0x3fffffff

-- `__post_init__`: `none` is its `ValueError`.
unfoldable pub create : ℤ → ℤ → Option GlobalRateLimit
create capacity period =
    if not (leb_ℤ (pos 0) capacity && leb_ℤ capacity (pos max_parameter))
    then none
    else if not (ltb_ℤ (pos 0) period && leb_ℤ period (pos max_parameter))
    then none
    else some (record { capacity = pos_part capacity; period = pos_part period })

-- The row of `global_rate_limits` for the limit's id.
pub record Bucket : Type 0 where
  pub available : ℤ
  pub last_update : ℕ

module _ (limit : GlobalRateLimit) where
  open limit use {capacity, period}

  -- `greatest(0, now - last_update)` is the truncated difference.
  abbrev pub ticks : ℕ → Bucket → ℕ
  ticks now bucket = now - bucket.last_update

  abbrev pub newly_available : ℕ → Bucket → ℕ
  newly_available now bucket = ticks now bucket * capacity / period

  -- `take_one` at a time `now` of the database's clock. `none` is the error `globalLimit`, where
  -- the `UPDATE` matched no row.
  pub take_one : ℕ → Bucket → Option Bucket
  take_one now bucket =
      if ltb_ℤ (pos 0) bucket.available || ltb 0 (newly_available now bucket)
      then some (record {
        available =
            min_ℤ (pos capacity) (bucket.available +ℤ pos (newly_available now bucket)) -ℤ pos 1;
        last_update = bucket.last_update + ticks now bucket;
      })
      else none

  -- A run of calls at the given times: how many of them are let through.
  pub taken : List ℕ → Bucket → ℕ
  taken [] bucket = 0
  taken (now ∷ times) bucket = elim (take_one now bucket) [
    | none ↦ taken times bucket
    | some bucket' ↦ taken times bucket' + 1
  ]
