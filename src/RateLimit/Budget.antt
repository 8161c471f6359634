-- ===== src/RateLimit/Budget.antt =====
-- How much a limiter can ever grant.
use nitrokit.Prelude.{
  ℕ, ◌+◌, ◌-◌, ◌*◌, ◌≤◌, ◌<◌, ◌≡◌, some, List, [], ◌∷◌, arith, if◌then◌else◌, ℤ, neg_part,
  Bool-cases, inl, inr, ◌&&◌, ap,
}
use native.Mathlib.Nat.{le_refl}
use nitrokit.Dict.{lookup, ◌≟◌}
use nitrokit.Text.{Text, text_eq}
use nitrokit.Clock.{Time, Duration}
use nitrokit.RateLimit.{Bucket, Limiter, allow, new_limiter}
use nitrokit.RateLimit.Level.{IsValid, later-IsValid, found-le-burst, found_pos, found_grows}
use nitrokit.RateLimit.Sweep.{InRange, InRange-of_config}
use nitrokit.RateLimit.Answer.{level, allow-IsValid, config-allow, spent}

-- A history of requests in the order of time, between two instants.
abbrev pub InOrder : Time → List (Text × Time) → Time → Type 0
InOrder s [] e = s ≤ e
InOrder s ((k, t) ∷ calls) e = (s ≤ t) × InOrder t calls e

InOrder-le : (s : Time) (calls : List (Text × Time)) (e : Time) → InOrder s calls e → s ≤ e
InOrder-le s [] e h = h
InOrder-le s ((k, t) ∷ calls) e (h, o) = omega (arith, InOrder-le t calls e o)

spans : (s t e rate : ℕ) → s ≤ t → t ≤ e → (e - s) * rate ≡ (e - t) * rate + (t - s) * rate
spans s t e rate h k =
    let a : e - s ≡ e - t + (t - s) = omega arith in omega (arith, ap (λ (x : ℕ). x * rate) a)

new_limiter_lem :
    (unit : ℕ) (rate burst : ℤ) {l : Limiter}
    → new_limiter unit rate burst ≡ some l
    → (l.buckets ≡ []) × (0 < l.rate) × (l.unit ≤ l.burst) × (l.last_sweep ≡ 0)
unfolding new_limiter
new_limiter_lem unit rate burst h = ground arith

nothing : (k : Text) (b : Bucket) → lookup {V = Bucket} k [] ≡ some b → ⊥
unfolding lookup
nothing k b e = cc

pub new_limiter-IsValid :
    (unit : ℕ) (rate burst : ℤ) (s : Time) {l : Limiter}
    → new_limiter unit rate burst ≡ some l
    → IsValid l s
new_limiter-IsValid unit rate burst s {l} h =
    let (empty, r, u, z) = new_limiter_lem unit rate burst h in
    record {
      rate_pos = r;
      unit-le-burst = u;
      distinct = rw empty tt;
      swept = omega (arith, z);
      sound = λ k b e. absurd (nothing k b (rw empty at e));
    }

module _ (unrep : ℕ → Duration) where
  -- How many requests on the key are allowed.
  pub granted : Text → List (Text × Time) → Limiter → ℕ
  granted j [] l = 0
  granted j ((k, now) ∷ calls) l =
      let (answer, l') = allow unrep k now l in
      (if (k ≟ j) && answer.0 then 1 else 0) + granted j calls l'

  granted_le :
      (j : Text) (calls : List (Text × Time)) (s e : Time) (l : Limiter)
      → InRange l
      → IsValid l s
      → InOrder s calls e
      → granted j calls l * l.unit ≤ level j s l + (e - s) * l.rate
  unfolding granted
  granted_le j [] s e l r v h = omega arith
  granted_le j ((k, t) ∷ calls) s e l r v (h, o) =
      let l' = (allow unrep k t l).1 in
      let w = later-IsValid s t l h v in
      let (same_unit, same_rate, same_burst) = config-allow unrep k t l in
      let r' = InRange-of_config l l' same_rate same_burst r in
      let ih = granted_le j calls t e l' r' (allow-IsValid unrep k t l r w) o in
      let grown = (found_grows l j s s t v (le_refl s) h).1 in
      let span : (e - s) * l.rate ≡ (e - t) * l.rate + (t - s) * l.rate =
        spans s t e l.rate h (InOrder-le t calls e o) in
      let ih' : granted j calls l' * l.unit ≤ level j t l' + (e - t) * l.rate = omega (
        arith,
        ih,
        ap (λ (u : ℕ). granted j calls l' * u) same_unit,
        ap (λ (q : ℕ). (e - t) * q) same_rate,
      ) in
      elim (Bool-cases ((k ≟ j) && (allow unrep k t l).0.0)) [
        | inl paid ↦ rw paid (omega (arith, ih', grown, span, rw paid at (spent unrep k j t l r w)))
        | inr free ↦ rw free (omega (arith, ih', grown, span, rw free at (spent unrep k j t l r w)))
      ]

  -- However the requests of all keys interleave, under a clock that does not go back, and
  -- whatever the sweeps evict in between, a new limiter whose refill time fits a duration allows
  -- one key no more than its burst and what the rate yields over the time observed.
  pub granted-le :
      (unit : ℕ) (rate burst : ℤ) (j : Text) (calls : List (Text × Time)) (s e : Time) {l : Limiter}
      → new_limiter unit rate burst ≡ some l
      → InRange l
      → InOrder s calls e
      → granted j calls l * l.unit ≤ l.burst + (e - s) * l.rate
  granted-le unit rate burst j calls s e {l} h r o =
      let v = new_limiter-IsValid unit rate burst s h in
      omega (
        arith,
        granted_le j calls s e l r v o,
        found-le-burst l j s,
        ap neg_part (found_pos l j s s v (le_refl s)),
      )
