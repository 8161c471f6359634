-- ===== src/RateLimit/Level.antt =====
-- The level of a key's bucket at an instant, as a request at that instant would find it.
use nitrokit.Prelude.{
  ℕ, ◌+◌, ◌-◌, ◌*◌, ◌≤◌, ◌<◌, ◌≡◌, some, arith, pos, ◌+ℤ◌, ◌≤ℤ◌, pos_part, max_int64, Option-cases,
  inl, inr, min,
}
use native.Mathlib.Nat.{mul-le-mul_right}
use nitrokit.Dict.{lookup, Distinct}
use nitrokit.Text.{Text, text_eq}
use nitrokit.Clock.{Time, sub}
use nitrokit.RateLimit.{Bucket, Limiter, inflow, refill, found}

-- A bucket is not overfull, not overdrawn, and not touched after `now`.
pub record IsSound (l : Limiter) (now : Time) (b : Bucket) : Type 0 where
  pub not_negative : pos 0 ≤ℤ b.tokens
  pub within : b.tokens ≤ℤ pos l.burst
  pub past : b.last ≤ now

pub record IsValid (l : Limiter) (now : Time) : Type 0 where
  pub rate_pos : 0 < l.rate
  pub unit-le-burst : l.unit ≤ l.burst
  pub distinct : Distinct l.buckets
  pub swept : l.last_sweep ≤ now
  pub sound : (k : Text) (b : Bucket) → lookup k l.buckets ≡ some b → IsSound l now b

-- What holds at an instant holds later.
pub later-IsValid : (s t : Time) (l : Limiter) → s ≤ t → IsValid l s → IsValid l t
later-IsValid s t l h v = record {
  rate_pos = v.rate_pos;
  unit-le-burst = v.unit-le-burst;
  distinct = v.distinct;
  swept = omega (arith, v.swept);
  sound = λ k b e.
      let x = v.sound k b e in
      record { not_negative = x.not_negative; within = x.within; past = omega (arith, x.past) };
}

-- Elapsed time, held to the range of a duration.
pub elapsed : Time → Time → ℕ
elapsed t u = min (t - u) max_int64

pub inflow-sub : (t u rate : ℕ) → u ≤ t → inflow (sub t u) rate ≡ pos (elapsed t u * rate)
unfolding inflow sub elapsed
inflow-sub t u rate h = ground arith

elapsed_le : (t u : ℕ) → elapsed t u ≤ t - u
unfolding elapsed
elapsed_le t u = omega arith

pub sub-elapsed : (t u : ℕ) → u ≤ t → sub t u ≡ pos (elapsed t u)
unfolding sub elapsed
sub-elapsed t u h = ground arith

pub elapsed_mono : (t t' u : ℕ) → t ≤ t' → elapsed t u ≤ elapsed t' u
unfolding elapsed
elapsed_mono t t' u h = omega arith

-- Over a further stretch the inflow grows, and by no more than the stretch brings.
inflow_grows :
    (t t' u rate : ℕ)
    → u ≤ t
    → t ≤ t'
    → (elapsed t u * rate ≤ elapsed t' u * rate)
      × (elapsed t' u * rate ≤ elapsed t u * rate + (t' - t) * rate)
unfolding elapsed
inflow_grows t t' u rate h k =
    let a : elapsed t u ≤ elapsed t' u = omega arith in
    let b : elapsed t' u ≤ elapsed t u + (t' - t) = omega arith in
    (mul-le-mul_right rate a, omega (arith, mul-le-mul_right rate b))

pub refill_pos :
    (l : Limiter) (now t : Time) (b : Bucket)
    → IsSound l now b
    → now ≤ t
    → refill l t b ≡ pos (min l.burst (pos_part b.tokens + elapsed t b.last * l.rate))
unfolding refill ◌+ℤ◌
refill_pos l now t b s h = ground (arith, inflow-sub t b.last l.rate, s.past, s.not_negative)

module _ (l : Limiter) (k : Text) where
  pub found-le-burst : (t : Time) → found k t l ≤ℤ pos l.burst
  unfolding found refill
  found-le-burst t = ground arith

  -- A level of a valid limiter is a number.
  pub found_pos :
      (now t : Time) → IsValid l now → now ≤ t → found k t l ≡ pos (pos_part (found k t l))
  unfolding found
  found_pos now t v h = elim (Option-cases (lookup k l.buckets)) [
    | inl e ↦ ground arith
    | inr (b, e) ↦ ground (arith, refill_pos l now t b (v.sound k b e) h)
  ]

  -- Between two requests a level never falls, and grows by what the rate allows.
  pub found_grows :
      (now t t' : Time)
      → IsValid l now
      → now ≤ t
      → t ≤ t'
      → (pos_part (found k t l) ≤ pos_part (found k t' l))
        × (pos_part (found k t' l) ≤ pos_part (found k t l) + (t' - t) * l.rate)
  unfolding found
  found_grows now t t' v h h' = elim (Option-cases (lookup k l.buckets)) [
    | inl e ↦ ground arith
    | inr (b, e) ↦
        let s = v.sound k b e in
        let g = inflow_grows t t' b.last l.rate (omega (arith, s.past)) h' in
        ground (arith, e, refill_pos l now t b s h, refill_pos l now t' b s (omega arith), g.0, g.1)
  ]
