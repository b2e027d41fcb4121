-- ===== src/RateLimits/Window.antt =====
-- What the rate limit of weasyl/rate_limits.py lets through in a span of time.
use native.Mathlib.Nat.{
  le-div_iff_mul-le, div-mul-le_self, mul-le-mul_right, mul-div_cancel_left, zero-div,
}
use weasyl.Prelude.{
  ℕ, ◌+◌, ◌-◌, ◌*◌, ◌/◌, ◌≤◌, ◌<◌, ◌≡◌, some, List, [], ◌∷◌, arith, All, inl, inr, Option-cases,
  min,
}
use weasyl.Prelude.Int.{pos}
use weasyl.RateLimits.{GlobalRateLimit, Bucket, ticks, newly_available, take_one, taken}

div_add_le : (x y p : ℕ) → 0 < p → x / p + y / p ≤ (x + y) / p
div_add_le x y p h =
    (le-div_iff_mul-le h).1 (omega (arith, div-mul-le_self x p, div-mul-le_self y p))

-- What is gained by `u` ticks and then by `v` is gained by both together.
split_gain : (u v c p : ℕ) → 0 < p → u * c / p + v * c / p ≤ (u + v) * c / p
split_gain u v c p h =
    let sum : (u + v) * c ≡ u * c + v * c = omega arith in rw sum (div_add_le (u * c) (v * c) p h)

gain_mono : (u v c p : ℕ) → 0 < p → u ≤ v → u * c / p ≤ v * c / p
gain_mono u v c p h l =
    (le-div_iff_mul-le h).1 (omega (arith, div-mul-le_self (u * c) p, mul-le-mul_right c l))

full_gain : (c p : ℕ) → 0 < p → p * c / p ≡ c
full_gain c p h = mul-div_cancel_left c h

gain_pos : (u c p : ℕ) → 0 < u * c / p → 0 < c
gain_pos u c p h = grind (arith, zero-div)

-- A bucket holds between none and `capacity` tokens.
abbrev pub Holds : GlobalRateLimit → ℕ → Bucket → Type 0
Holds limit n bucket = (bucket.available ≡ pos n) × (n ≤ limit.capacity)

module _ (limit : GlobalRateLimit) (now : ℕ) (bucket : Bucket) (n : ℕ)
    (holds : Holds limit n bucket) where
  -- A call that is let through takes one token, after the gain since the last one.
  take_one-some :
      (bucket' : Bucket)
      → take_one limit now bucket ≡ some bucket'
      → (m : ℕ) × (bucket'.available ≡ pos m)
        × (m + 1 ≤ n + newly_available limit now bucket)
        × (m < limit.capacity)
        × (bucket'.last_update ≡ bucket.last_update + ticks limit now bucket)
  unfolding take_one
  take_one-some bucket' e =
      let gain = gain_pos (ticks limit now bucket) limit.capacity limit.period in
      (
        min limit.capacity (n + newly_available limit now bucket) - 1,
        ground (arith, gain),
        ground (arith, gain),
        ground (arith, gain),
        ground (arith, gain),
      )

module _ (limit : GlobalRateLimit) (until : ℕ) (period_pos : 0 < limit.period) where
  abbrev UpTo : List ℕ → Type 0
  UpTo = All (λ now. now ≤ until)

  -- By a given time no more is let through than the bucket holds and gains until then.
  taken-le :
      (times : List ℕ) (bucket : Bucket) (n : ℕ)
      → Holds limit n bucket
      → UpTo times
      → taken limit times bucket ≤ n + (until - bucket.last_update) * limit.capacity / limit.period
  unfolding taken
  taken-le [] bucket n holds up = omega arith
  taken-le (now ∷ times) bucket n holds up = elim (Option-cases (take_one limit now bucket)) [
    | inl e ↦ rw (e, taken) (taken-le times bucket n holds up.1)
    | inr (bucket', e) ↦
        let (m, held, spent, low, later) = take_one-some limit now bucket n holds bucket' e in
        let left = until - bucket'.last_update in
        let rest = taken-le times bucket' m (held, omega arith) up.1 in
        let gain : newly_available limit now bucket + left * limit.capacity / limit.period
            ≤ (ticks limit now bucket + left) * limit.capacity / limit.period =
          split_gain (ticks limit now bucket) left limit.capacity limit.period period_pos in
        let span : (ticks limit now bucket + left) * limit.capacity / limit.period
            ≤ (until - bucket.last_update) * limit.capacity / limit.period =
          gain_mono (ticks limit now bucket + left) (until - bucket.last_update) limit.capacity
            limit.period period_pos (omega (arith, up.0)) in
        rw (e, taken) (omega arith)
  ]

-- For a positive period, and from a row whose `available` is not negative and at most the capacity,
-- the calls at any times of a span of one period, in whatever order they come and wherever the
-- clock of the last update stands, let at most twice the capacity through.
pub taken-le-twice_capacity :
    (limit : GlobalRateLimit) (start : ℕ) (times : List ℕ) (bucket : Bucket) (n : ℕ)
    → 0 < limit.period
    → Holds limit n bucket
    → All (λ now. start ≤ now) times
    → All (λ now. now ≤ start + limit.period) times
    → taken limit times bucket ≤ 2 * limit.capacity
unfolding taken
taken-le-twice_capacity limit start [] bucket n pp holds late up = omega arith
taken-le-twice_capacity limit start (now ∷ times) bucket n pp holds late up =
    elim (Option-cases (take_one limit now bucket)) [
      | inl e ↦
          rw (e, taken) (taken-le-twice_capacity limit start times bucket n pp holds late.1 up.1)
      | inr (bucket', e) ↦
          let (m, held, spent, low, later) = take_one-some limit now bucket n holds bucket' e in
          let until = start + limit.period in
          let rest = taken-le limit until pp times bucket' m (held, omega arith) up.1 in
          let gain : (until - bucket'.last_update) * limit.capacity / limit.period
              ≤ limit.period * limit.capacity / limit.period =
            gain_mono (until - bucket'.last_update) limit.period limit.capacity limit.period pp
              (omega (arith, late.0)) in
          rw (e, taken) (omega (arith, full_gain limit.capacity limit.period pp))
    ]
