-- ===== src/RateLimit/Sweep.antt =====
-- The sweep of idle buckets: no request can tell that it has happened.
use native.Mathlib.Nat.{mul-le-mul_right, le_refl}
use nitrokit.Prelude.{
  ℕ, ◌*◌, ◌/◌, ◌≤◌, ◌<◌, ◌≡◌, true, some, arith, ltb_ℤ, ℤ, pos, ◌≤ℤ◌, ◌<ℤ◌, pos_part, neg_part,
  max_int64, Option-cases, Bool-cases, inl, inr, ◌⊎◌, ap, ◌∙◌,
}
use nitrokit.Dict.{lookup, Distinct, delete_if, lookup-delete_if, delete_if-Distinct}
use nitrokit.Text.{Text, text_eq}
use nitrokit.Clock.{Time, Duration, sub}
use nitrokit.RateLimit.{Bucket, Limiter, refill, found, idle_limit, sweep}
use nitrokit.RateLimit.Level.{IsSound, IsValid, elapsed, refill_pos, sub-elapsed, elapsed_mono}

-- An idle stretch longer than burst/rate brings at least `burst` units.
idle_fills : (rate burst d : ℕ) → 0 < rate → burst / rate < d → burst ≤ d * rate
idle_fills rate burst d h k = omega (arith, mul-le-mul_right rate k)

ltb_ℤ→lt : (a b : ℤ) → ltb_ℤ a b ≡ true → a <ℤ b
ltb_ℤ→lt a b h = ground arith

-- The refill time fits a duration: 292 years at most.
abbrev pub InRange : Limiter → Type 0
InRange l = l.burst / l.rate ≤ max_int64

pub InRange-of_config :
    (l l' : Limiter) → l'.rate ≡ l.rate → l'.burst ≡ l.burst → InRange l → InRange l'
InRange-of_config l l' p q r = rw (p, q) r

module _ (unrep : ℕ → Duration) where
  idle_limit_ge : (l : Limiter) → InRange l → pos (l.burst / l.rate) ≤ℤ idle_limit unrep l
  unfolding idle_limit
  idle_limit_ge l h = ground arith

  -- A bucket that the sweep drops is full.
  refill_of_idle :
      (l : Limiter) (now t : Time) (b : Bucket)
      → InRange l
      → 0 < l.rate
      → IsSound l now b
      → now ≤ t
      → idle_limit unrep l <ℤ sub now b.last
      → refill l t b ≡ pos l.burst
  refill_of_idle l now t b r p s h idle =
      let e = elapsed t b.last in
      let q : l.burst / l.rate < e = omega (
        arith,
        idle_limit_ge l r,
        elapsed_mono now t b.last h,
        ap pos_part (sub-elapsed now b.last s.past),
        ap neg_part (sub-elapsed now b.last s.past),
      ) in
      refill_pos l now t b s h ∙ ap pos (omega (arith, idle_fills l.rate l.burst e p q))

  -- The sweep when it is due.
  abbrev dropped : Time → Limiter → Limiter
  dropped now l = record l {
    last_sweep = now;
    buckets = delete_if (λ b. ltb_ℤ (idle_limit unrep l) (sub now b.last)) l.buckets;
  }

  found-dropped :
      (now t : Time) (k : Text) (l : Limiter)
      → InRange l
      → 0 < l.rate
      → ((b : Bucket) → lookup k l.buckets ≡ some b → IsSound l now b)
      → Distinct l.buckets
      → now ≤ t
      → found k t (dropped now l) ≡ found k t l
  unfolding found refill
  found-dropped now t k l r p s d h =
      let drop = λ (b : Bucket). ltb_ℤ (idle_limit unrep l) (sub now b.last) in
      elim (Option-cases (lookup k l.buckets)) [
        | inl e ↦ ground (arith, lookup-delete_if drop k l.buckets d)
        | inr (b, e) ↦ elim (Bool-cases (drop b)) [
          | inl idle ↦ ground (
            arith,
            lookup-delete_if drop k l.buckets d,
            refill_of_idle l now t b r p (s b e) h
                (ltb_ℤ→lt (idle_limit unrep l) (sub now b.last) idle),
          )
          | inr busy ↦ ground (arith, lookup-delete_if drop k l.buckets d)
        ]
      ]

  IsSound-dropped :
      (now : Time) (k : Text) (l : Limiter) (b : Bucket)
      → ((b : Bucket) → lookup k l.buckets ≡ some b → IsSound l now b)
      → Distinct l.buckets
      → lookup k (dropped now l).buckets ≡ some b
      → IsSound l now b
  IsSound-dropped now k l b s d e =
      let drop = λ (b : Bucket). ltb_ℤ (idle_limit unrep l) (sub now b.last) in
      s b (ground (arith, lookup-delete_if drop k l.buckets d))

  sweep_cases :
      (now : Time) (l : Limiter) → (sweep unrep now l ≡ l) ⊎ (sweep unrep now l ≡ dropped now l)
  unfolding sweep
  sweep_cases now l = ground arith

  -- No level changes.
  pub found-sweep :
      (now t : Time) (k : Text) (l : Limiter)
      → InRange l
      → IsValid l now
      → now ≤ t
      → found k t (sweep unrep now l) ≡ found k t l
  found-sweep now t k l r v h = elim (sweep_cases now l) [
    | inl e ↦ rw e
    | inr e ↦ rw e (found-dropped now t k l r v.rate_pos (v.sound k) v.distinct h)
  ]

  dropped-IsValid : (now : Time) (l : Limiter) → IsValid l now → IsValid (dropped now l) now
  dropped-IsValid now l v = record {
    rate_pos = v.rate_pos;
    unit-le-burst = v.unit-le-burst;
    distinct = delete_if-Distinct _ l.buckets v.distinct;
    swept = le_refl now;
    sound = λ k b e.
        let s = IsSound-dropped now k l b (v.sound k) v.distinct e in
        record { not_negative = s.not_negative; within = s.within; past = s.past };
  }

  pub sweep-IsValid : (now : Time) (l : Limiter) → IsValid l now → IsValid (sweep unrep now l) now
  sweep-IsValid now l v = elim (sweep_cases now l) [
    | inl e ↦ rw e v
    | inr e ↦ rw e (dropped-IsValid now l v)
  ]

  pub config-sweep :
      (now : Time) (l : Limiter)
      → ((sweep unrep now l).unit ≡ l.unit)
        × ((sweep unrep now l).rate ≡ l.rate)
        × ((sweep unrep now l).burst ≡ l.burst)
  unfolding sweep
  config-sweep now l = ground arith
