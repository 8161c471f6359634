-- ===== src/RateLimit/Retry.antt =====
-- The wait that a refusal names.
use native.Mathlib.Nat.{le_refl, mul-le-mul_right, le-div_iff_mul-le, div-mul-le_self}
use nitrokit.Prelude.{
  ℕ, ◌+◌, ◌-◌, ◌*◌, ◌/◌, ◌≤◌, ◌<◌, ◌≡◌, true, false, arith, leb, pos, ◌+ℤ◌, ◌-ℤ◌, ◌<ℤ◌, max_int64,
  min,
}
use nitrokit.Dict.{lookup-insert}
use nitrokit.Text.{Text, text_eq, text_beq_iff}
use nitrokit.Clock.{Time, Duration, sub}
use nitrokit.RateLimit.{Limiter, inflow, refill, found, put, sweep, take_token, allow, to_duration}
use nitrokit.RateLimit.Level.{IsValid, later-IsValid, found_pos}
use nitrokit.RateLimit.Sweep.{InRange, InRange-of_config, config-sweep}
use nitrokit.RateLimit.Answer.{level, allow_lem, allow-level, config-allow, allow-IsValid}

-- The level after a wait, if no other request on the key comes between.
found-put_later :
    (k : Text) (now d n : ℕ) (l : Limiter)
    → d ≤ max_int64
    → found k (now + d) (put k now (pos n) l) ≡ pos (min l.burst (n + d * l.rate))
unfolding found put refill ◌+ℤ◌ inflow sub
found-put_later k now d n l h =
    ground
      (arith, lookup-insert k k (record { tokens = pos n; last = now }) l.buckets, text_beq_iff k k)

-- A stretch that is shorter than the quotient brings less than is missing, a longer one as much.
wait_short : (missing rate d : ℕ) → 0 < rate → d < missing / rate → d * rate < missing
wait_short missing rate d h k = omega (arith, mul-le-mul_right rate k, h)

wait_long : (missing rate d : ℕ) → 0 < rate → missing / rate < d → missing ≤ d * rate
wait_long missing rate d h k = omega (arith, mul-le-mul_right rate k)

wait_fits : (unit n burst rate : ℕ) → 0 < rate → unit ≤ burst → (unit - n) / rate ≤ burst / rate
wait_fits unit n burst rate h k =
    (le-div_iff_mul-le h).1 (omega (arith, div-mul-le_self (unit - n) rate))

take_token_wait :
    (unrep : ℕ → Duration) (k : Text) (now n : ℕ) (l : Limiter)
    → n < l.unit
    → (l.unit - n) / l.rate ≤ max_int64
    → (take_token unrep k now (pos n) l).0.1 ≡ pos ((l.unit - n) / l.rate)
unfolding take_token ◌-ℤ◌ to_duration
take_token_wait unrep k now n l h fits = ground arith

module _ (unrep : ℕ → Duration) (k : Text) (now : Time) (l : Limiter) (r : InRange l)
    (v : IsValid l now) (denied : (allow unrep k now l).0.0 ≡ false) where
  -- Tokens are missing, and the wait is the missing units over the rate.
  wait_lem :
      (level k now l < l.unit)
      × ((allow unrep k now l).0.1 ≡ pos ((l.unit - level k now l) / l.rate))
  wait_lem =
      let n = level k now l in
      let l' = sweep unrep now l in
      let (same_unit, same_rate, _) = config-sweep unrep now l in
      let poor : n < l.unit = ground (arith, (allow-level unrep k now l r v).0) in
      let fits : (l.unit - n) / l.rate ≤ max_int64 =
        omega (arith, wait_fits l.unit n l.burst l.rate v.rate_pos v.unit-le-burst) in
      (
        poor,
        ground (
          arith,
          allow_lem unrep k now l r v,
          found_pos l k now now v (le_refl now),
          same_unit,
          same_rate,
          take_token_wait unrep k now n l' (omega (arith, same_unit))
              (rw (same_unit, same_rate) fits),
        ),
      )

  -- The next answer, if no other request on the key comes between.
  next_answer :
      (d : ℕ)
      → d ≤ max_int64
      → (allow unrep k (now + d) (allow unrep k now l).1).0.0
        ≡ leb l.unit (min l.burst (level k now l + d * l.rate))
  next_answer d h =
      let n = level k now l in
      let l' = (allow unrep k now l).1 in
      let s = sweep unrep now l in
      let (same_unit, same_rate, same_burst) = config-allow unrep k now l in
      let (_, swept_rate, swept_burst) = config-sweep unrep now l in
      let v' = later-IsValid now (now + d) l' (omega arith) (allow-IsValid unrep k now l r v) in
      let r' = InRange-of_config l l' same_rate same_burst r in
      let ans = (allow-level unrep k (now + d) l' r' v').0 in
      let put_eq = (allow-level unrep k now l r v).1 in
      let after = found-put_later k now d n s h in
      ground (arith, wait_lem.0, ans, put_eq, after, same_unit, swept_rate, swept_burst)

  -- After a refusal by a valid limiter whose refill time fits a duration, a request that comes
  -- later than the wait named and no more than 2^63 - 1 nanoseconds later than the refusal, with
  -- no other on the key in between, is allowed.
  pub retry_enough :
      (d : ℕ)
      → d ≤ max_int64
      → (allow unrep k now l).0.1 <ℤ pos d
      → (allow unrep k (now + d) (allow unrep k now l).1).0.0 ≡ true
  retry_enough d h longer =
      let n = level k now l in
      let (poor, wait) = wait_lem in
      let long : (l.unit - n) / l.rate < d = ground (arith, wait) in
      ground
        (arith, next_answer d h, v.unit-le-burst, wait_long (l.unit - n) l.rate d v.rate_pos long)

  -- A request that comes earlier than the wait that a refusal by a valid limiter whose refill
  -- time fits a duration names, with no other on the key in between, is refused again.
  pub retry_needed :
      (d : ℕ)
      → d ≤ max_int64
      → pos d <ℤ (allow unrep k now l).0.1
      → (allow unrep k (now + d) (allow unrep k now l).1).0.0 ≡ false
  retry_needed d h shorter =
      let n = level k now l in
      let (poor, wait) = wait_lem in
      let short : d < (l.unit - n) / l.rate = ground (arith, wait) in
      ground (arith, next_answer d h, wait_short (l.unit - n) l.rate d v.rate_pos short)
