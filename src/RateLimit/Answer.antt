-- ===== src/RateLimit/Answer.antt =====
-- What `Allow` answers, and what it does to the levels of the keys.
use nitrokit.Prelude.{
  ℕ, ◌+◌, ◌-◌, ◌≤◌, ◌≡◌, ◌≢◌, some, arith, leb_ℤ, leb, if◌then◌else◌, pos, ◌+ℤ◌, ◌-ℤ◌, pos_part,
  Bool-cases, inl, inr, -ℤ_parts, ◌&&◌, ap, ◌∙◌,
}
use native.Mathlib.Nat.{le_refl}
use nitrokit.Dict.{lookup, insert, lookup-insert, insert-Distinct, ◌≟◌}
use nitrokit.Text.{Text, text_eq, text_beq_iff}
use nitrokit.Clock.{Time, Duration, sub}
use nitrokit.RateLimit.{Bucket, Limiter, inflow, refill, found, put, sweep, take_token, allow}
use nitrokit.RateLimit.Level.{IsSound, IsValid, found-le-burst, found_pos}
use nitrokit.RateLimit.Sweep.{InRange, found-sweep, sweep-IsValid, config-sweep}

inflow-now : (now rate : ℕ) → inflow (sub now now) rate ≡ pos 0
unfolding inflow sub
inflow-now now rate = ground arith

found-put_self :
    (k : Text) (now n : ℕ) (l : Limiter) → n ≤ l.burst → found k now (put k now (pos n) l) ≡ pos n
unfolding found put refill ◌+ℤ◌
found-put_self k now n l h = ground (
  arith,
  lookup-insert k k (record { tokens = pos n; last = now }) l.buckets,
  text_beq_iff k k,
  inflow-now now l.rate,
)

found-put_ne :
    (j k : Text) (now t : Time) (n : ℕ) (l : Limiter)
    → k ≢ j
    → found j t (put k now (pos n) l) ≡ found j t l
unfolding found put refill
found-put_ne j k now t n l h =
    ground
      (arith, lookup-insert k j (record { tokens = pos n; last = now }) l.buckets, text_beq_iff k j)

put-IsSound :
    (j k : Text) (now n : ℕ) (l : Limiter) (b : Bucket)
    → n ≤ l.burst
    → (lookup j l.buckets ≡ some b → IsSound l now b)
    → lookup j (insert k (record { tokens = pos n; last = now }) l.buckets) ≡ some b
    → IsSound l now b
put-IsSound j k now n l b h s e = elim (Bool-cases (k ≟ j)) [
  | inl same ↦ ground (arith, lookup-insert k j (record { tokens = pos n; last = now }) l.buckets)
  | inr other ↦
      s (ground (arith, lookup-insert k j (record { tokens = pos n; last = now }) l.buckets))
]

put-IsValid :
    (k : Text) (now n : ℕ) {l : Limiter}
    → n ≤ l.burst
    → IsValid l now
    → IsValid (put k now (pos n) l) now
unfolding put
put-IsValid k now n {l} h v = record {
  rate_pos = v.rate_pos;
  unit-le-burst = v.unit-le-burst;
  distinct = insert-Distinct k _ l.buckets v.distinct;
  swept = v.swept;
  sound = λ j b e.
      let s = put-IsSound j k now n l b h (v.sound j b) e in
      record { not_negative = s.not_negative; within = s.within; past = s.past };
}

-- The level as a number of units.
abbrev pub level : Text → Time → Limiter → ℕ
level k now l = pos_part (found k now l)

-- Units that a request takes from a level.
abbrev pub cost : ℕ → ℕ → ℕ
cost unit level = if leb unit level then unit else 0

module _ (unrep : ℕ → Duration) where
  pub take_token_pos :
      (k : Text) (now n : ℕ) (l : Limiter)
      → ((take_token unrep k now (pos n) l).0.0 ≡ leb l.unit n)
        × ((take_token unrep k now (pos n) l).1 ≡ put k now (pos (n - cost l.unit n)) l)
  unfolding take_token ◌-ℤ◌
  take_token_pos k now n l = elim (Bool-cases (leb l.unit n)) [
    | inl rich ↦ ground arith
    | inr poor ↦ ground arith
  ]

  pub allow_lem :
      (k : Text) (now : Time) (l : Limiter)
      → InRange l
      → IsValid l now
      → allow unrep k now l ≡ take_token unrep k now (found k now l) (sweep unrep now l)
  unfolding allow
  allow_lem k now l r v =
      ap (λ n. take_token unrep k now n (sweep unrep now l))
        (found-sweep unrep now now k l r v (le_refl now))

  pub allow-level :
      (k : Text) (now : Time) (l : Limiter)
      → InRange l
      → IsValid l now
      → ((allow unrep k now l).0.0 ≡ leb l.unit (level k now l))
        × ((allow unrep k now l).1
            ≡ put k now (pos (level k now l - cost l.unit (level k now l))) (sweep unrep now l))
        × (level k now l ≤ l.burst)
  allow-level k now l r v =
      let n = level k now l in
      let l' = sweep unrep now l in
      ground (
        arith,
        allow_lem k now l r v,
        found_pos l k now now v (le_refl now),
        take_token_pos k now n l',
        config-sweep unrep now l,
        found-le-burst l k now,
      )

  pub config-allow :
      (k : Text) (now : Time) (l : Limiter)
      → ((allow unrep k now l).1.unit ≡ l.unit)
        × ((allow unrep k now l).1.rate ≡ l.rate)
        × ((allow unrep k now l).1.burst ≡ l.burst)
  unfolding allow take_token put
  config-allow k now l =
      let l' = sweep unrep now l in
      elim (Bool-cases (leb_ℤ (pos l'.unit) (found k now l'))) [
        | inl rich ↦ ground (arith, config-sweep unrep now l)
        | inr poor ↦ ground (arith, config-sweep unrep now l)
      ]

  -- `Allow` keeps a valid limiter valid, if its refill time fits a duration: its configuration
  -- keeps its bounds, no key has two buckets, and every bucket holds between zero and `burst`
  -- tokens and is dated no later than the request.
  pub allow-IsValid :
      (k : Text) (now : Time) (l : Limiter)
      → InRange l
      → IsValid l now
      → IsValid (allow unrep k now l).1 now
  allow-IsValid k now l r v =
      let n = level k now l in
      let (_, e, small) = allow-level k now l r v in
      rw e (
        put-IsValid k now (n - cost l.unit n) (omega (arith, small, (config-sweep unrep now l).2))
          (sweep-IsValid unrep now l v))

  -- For every key, `Allow` on a valid limiter whose refill time fits a duration is an ideal token
  -- bucket, the eviction of idle keys included: it answers true exactly when the key's level, its
  -- bucket refilled up to that instant or full if it has none, holds a token, and it takes one
  -- token off the level then and nothing otherwise.
  pub allow-found :
      (k : Text) (now : Time) (l : Limiter)
      → InRange l
      → IsValid l now
      → ((allow unrep k now l).0.0 ≡ leb_ℤ (pos l.unit) (found k now l))
        × (found k now (allow unrep k now l).1 ≡ (
            if leb_ℤ (pos l.unit) (found k now l)
            then found k now l -ℤ pos l.unit
            else found k now l))
  unfolding ◌-ℤ◌
  allow-found k now l r v =
      let n = level k now l in
      let l' = sweep unrep now l in
      let (ok, e, small) = allow-level k now l r v in
      let fits : n - cost l.unit n ≤ l'.burst =
        omega (arith, small, (config-sweep unrep now l).2) in
      (
        ground (arith, ok, found_pos l k now now v (le_refl now)),
        ground (
          arith,
          ok,
          e,
          found-put_self k now (n - cost l.unit n) l' fits,
          found_pos l k now now v (le_refl now),
        ),
      )

  -- A request on one key, which may sweep idle buckets away, leaves the level of every other key
  -- of a valid limiter whose refill time fits a duration as it is, at that instant and at any
  -- later one.
  pub allow-found_ne :
      (k j : Text) (now t : Time) (l : Limiter)
      → InRange l
      → IsValid l now
      → now ≤ t
      → k ≢ j
      → found j t (allow unrep k now l).1 ≡ found j t l
  allow-found_ne k j now t l r v h ne =
      let n = level k now l in
      ap (found j t) (allow-level k now l r v).1
      ∙ found-put_ne j k now t (n - cost l.unit n) (sweep unrep now l) ne
      ∙ found-sweep unrep now t j l r v h

  -- What one request costs the level of a key.
  pub spent :
      (k j : Text) (now : Time) (l : Limiter)
      → InRange l
      → IsValid l now
      → level j now (allow unrep k now l).1
          + (if (k ≟ j) && (allow unrep k now l).0.0 then l.unit else 0)
        ≤ level j now l
  spent k j now l r v = elim (Bool-cases (k ≟ j)) [
    | inl same ↦
        let e : k ≡ j = (text_beq_iff k j).0 same in
        let (ok, took) = allow-found k now l r v in
        rw same (
          rw (← e) (
            ground (
              arith,
              ok,
              took,
              found_pos l k now now v (le_refl now),
              -ℤ_parts (found k now l) (pos l.unit),
            )))
    | inr other ↦
        rw other (ground (arith, allow-found_ne k j now now l r v (le_refl now), text_beq_iff k j))
  ]
