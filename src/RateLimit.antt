-- ===== src/RateLimit.antt =====
-- ratelimit.go: the token bucket. The mutex makes `Allow` one atomic step; a reading of the clock
-- is the argument `now`. The float64 quantities are modelled exactly, by scaled integers: tokens
-- are counted in units, `unit` of them to a token, such that the rate is a whole number `rate` of
-- units in a nanosecond. (A rate of p/q tokens in a second has `unit` = 10^9 q and `rate` = p.)
-- So the rounding of float64 is not modelled. `unrep` is what Go's conversion of a float to an
-- int64 makes of a value out of range, which the language leaves to the implementation.
pub mod Level
pub mod Sweep
pub mod Answer
pub mod Budget
pub mod Retry
mod Tests
use nitrokit.Prelude.{
  ℕ, ◌+◌, ◌*◌, ◌/◌, ◌≤◌, Bool, true, false, Option, none, some, [], ltb_ℤ, leb_ℤ, leb,
  if◌then◌else◌, ℤ, pos, negsuc, ◌+ℤ◌, ◌-ℤ◌, ◌||◌, pos_part, max_int64, suc,
}
use nitrokit.Dict.{Dict, lookup, insert, delete_if}
use nitrokit.Text.{Text, text_eq}
use nitrokit.Clock.{Time, zero_time, Duration, minute, sub}

pub record Bucket : Type 0 where
  pub tokens : ℤ
  pub last : Time

pub record Limiter : Type 0 where
  pub unit : ℕ
  pub rate : ℕ
  pub burst : ℕ
  pub buckets : Dict Text Bucket
  pub last_sweep : Time

abbrev pub sweep_interval : Duration
sweep_interval = pos (5 * minute)

abbrev pub min_idle_evict : Duration
min_idle_evict = pos (10 * minute)

-- `none` is the panic on a limiter that could never issue a token.
pub new_limiter : ℕ → ℤ → ℤ → Option Limiter
new_limiter unit rate burst =
    if leb_ℤ rate (pos 0) || ltb_ℤ burst (pos unit)
    then none
    else some (record {
      unit = unit;
      rate = pos_part rate;
      burst = pos_part burst;
      buckets = [];
      last_sweep = zero_time;
    })

-- Units that flow in during a duration.
unfoldable pub inflow : Duration → ℕ → ℤ
inflow (pos d) rate = pos (d * rate)
inflow (negsuc d) rate = pos 0 -ℤ pos (suc d * rate)

abbrev pub min_ℤ : ℤ → ℤ → ℤ
min_ℤ a b = if leb_ℤ a b then a else b

abbrev pub max_ℤ : ℤ → ℤ → ℤ
max_ℤ a b = if leb_ℤ a b then b else a

-- min(l.burst, b.tokens + now.Sub(b.last).Seconds()*l.rate)
unfoldable pub refill : Limiter → Time → Bucket → ℤ
refill l now b = min_ℤ (pos l.burst) (b.tokens +ℤ inflow (sub now b.last) l.rate)

-- The bucket as the request finds it: new and full, or refilled.
unfoldable pub found : Text → Time → Limiter → ℤ
found key now l = elim (lookup key l.buckets) [ none ↦ pos l.burst | some b ↦ refill l now b ]

pub put : Text → Time → ℤ → Limiter → Limiter
put key now tokens l = record l {
  buckets = insert key (record { tokens = tokens; last = now }) l.buckets;
}

module _ (unrep : ℕ → Duration) where
  -- time.Duration of a whole number of nanoseconds
  pub to_duration : ℕ → Duration
  to_duration n = if leb n max_int64 then pos n else unrep n

  pub idle_limit : Limiter → Duration
  unfolding to_duration
  idle_limit l = max_ℤ min_idle_evict (to_duration (l.burst / l.rate))

  pub sweep : Time → Limiter → Limiter
  sweep now l = if ltb_ℤ (sub now l.last_sweep) sweep_interval then l else record l {
    last_sweep = now;
    buckets = delete_if (λ b. ltb_ℤ (idle_limit l) (sub now b.last)) l.buckets;
  }

  -- The answer with its wait, and the limiter afterwards.
  pub take_token : Text → Time → ℤ → Limiter → (Bool × Duration) × Limiter
  unfolding to_duration
  take_token key now tokens l =
      if leb_ℤ (pos l.unit) tokens
      then ((true, pos 0), put key now (tokens -ℤ pos l.unit) l)
      else ((false, to_duration (pos_part (pos l.unit -ℤ tokens) / l.rate)), put key now tokens l)

  pub allow : Text → Time → Limiter → (Bool × Duration) × Limiter
  unfolding take_token
  allow key now l = let l' = sweep now l in take_token key now (found key now l') l'
