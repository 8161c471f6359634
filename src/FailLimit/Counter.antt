-- ===== src/FailLimit/Counter.antt =====
-- What the failure limiter promises for one key, and that it keeps the promise for every key at
-- once while its map has room.
use nitrokit.Prelude.{
  ◌+◌, ◌≤◌, ◌<◌, ◌≡◌, refl, Bool, false, Option, none, some, List, [], ◌∷◌, arith, length, ℤ, pos,
  leb_ℤ, inc_int64, if◌then◌else◌, Option-cases, inl, inr,
}
use nitrokit.Dict.{
  Dict, lookup, insert, keep_unless, ◌≟◌, lookup-insert, lookup-delete, length-insert,
  length-delete,
}
use nitrokit.Text.{Text, text_eq, text_beq_iff}
use nitrokit.Clock.{Time, Duration}
use nitrokit.FailLimit.{
  FailTrack, FailLimiter, max_fail_keys, blocked, make_room, start_window, fail, pass, Event,
  checked, failed, passed, step, run, is_over,
}

-- The calls that concern one key.
pub data KeyEvent : Type 0 where
  seen struck : Time → KeyEvent
  cleared : KeyEvent

-- What is known of a key: a count, and since when.
abbrev pub Strikes : Type 0
Strikes = Option FailTrack

-- Strikes whose window is over are as good as none.
abbrev pub live : Duration → Time → Strikes → Strikes
live window now = keep_unless (is_over window now)

abbrev pub strike : Time → Strikes → FailTrack
strike now none = record { count = pos 1; window_start = now }
strike now (some t) = record t { count = inc_int64 t.count }

unfoldable pub count_step : Duration → Strikes → KeyEvent → Strikes
count_step window s (seen now) = live window now s
count_step window s (struck now) = some (strike now (live window now s))
count_step window s cleared = none

unfoldable pub count_run : Duration → Strikes → List KeyEvent → Strikes
count_run window s [] = s
count_run window s (e ∷ es) = count_run window (count_step window s e) es

abbrev pub reached : ℤ → Strikes → Bool
reached limit none = false
reached limit (some t) = leb_ℤ limit t.count

unfoldable pub verdict : ℤ → Duration → Time → Strikes → Bool
verdict limit window now s = reached limit (live window now s)

-- The calls of a history that name the key.
unfoldable pub events_on : Text → List Event → List KeyEvent
events_on j [] = []
events_on j (checked k now ∷ es) = if k ≟ j then seen now ∷ events_on j es else events_on j es
events_on j (failed k now ∷ es) = if k ≟ j then struck now ∷ events_on j es else events_on j es
events_on j (passed k ∷ es) = if k ≟ j then cleared ∷ events_on j es else events_on j es

pub length-events_on : (j : Text) (es : List Event) → length (events_on j es) ≤ length es
unfolding events_on
length-events_on j [] = omega arith
length-events_on j (checked k now ∷ es) = ground (arith, length-events_on j es)
length-events_on j (failed k now ∷ es) = ground (arith, length-events_on j es)
length-events_on j (passed k ∷ es) = ground (arith, length-events_on j es)

pub blocked-verdict :
    (j : Text) (now : Time) (l : FailLimiter)
    → (blocked j now l).0 ≡ verdict l.limit l.window now (lookup j l.fails)
unfolding blocked verdict
blocked-verdict j now l = ground arith

pub lookup-blocked :
    (j k : Text) (now : Time) (l : FailLimiter)
    → lookup j (blocked k now l).1.fails
      ≡ (if k ≟ j then count_step l.window (lookup j l.fails) (seen now) else lookup j l.fails)
unfolding blocked count_step
lookup-blocked j k now l = ground (arith, lookup-delete k j l.fails, text_beq_iff k j)

pub lookup-pass :
    (j k : Text) (l : FailLimiter)
    → lookup j (pass k l).fails
      ≡ (if k ≟ j then count_step l.window (lookup j l.fails) cleared else lookup j l.fails)
unfolding pass count_step
lookup-pass j k l = lookup-delete k j l.fails

-- The map that the key's new count is written to: only a key with no live strikes needs room.
abbrev pub target :
    (Dict Text FailTrack → List Text) → Time → FailLimiter → Strikes → Dict Text FailTrack
target order now l none = make_room order now l
target order now l (some t) = l.fails

module _ (order : Dict Text FailTrack → List Text) where
  pub fails-fail :
      (k : Text) (now : Time) (l : FailLimiter)
      → (fail order k now l).fails ≡ (
          let s = live l.window now (lookup k l.fails) in
          insert k (strike now s) (target order now l s))
  unfolding fail start_window is_over
  fails-fail k now l = elim (Option-cases (lookup k l.fails)) [
    | inl e ↦ ground arith
    | inr (t, e) ↦ ground arith
  ]

  -- The key that fails is always tracked afterwards, full map or not.
  pub lookup-fail_self :
      (k : Text) (now : Time) (l : FailLimiter)
      → lookup k (fail order k now l).fails ≡ count_step l.window (lookup k l.fails) (struck now)
  unfolding count_step
  lookup-fail_self k now l =
      let s = live l.window now (lookup k l.fails) in
      ground (
        arith,
        fails-fail k now l,
        lookup-insert k k (strike now s) (target order now l s),
        text_beq_iff k k,
      )

  pub make_room_spare :
      (now : Time) (l : FailLimiter)
      → length l.fails < max_fail_keys
      → make_room order now l ≡ l.fails
  unfolding make_room
  make_room_spare now l h = ground arith

  target_spare :
      (now : Time) (l : FailLimiter) (s : Strikes)
      → length l.fails < max_fail_keys
      → target order now l s ≡ l.fails
  target_spare now l none h = make_room_spare now l h
  target_spare now l (some t) h = refl

  pub lookup-fail :
      (j k : Text) (now : Time) (l : FailLimiter)
      → length l.fails < max_fail_keys
      → lookup j (fail order k now l).fails
        ≡ (if k ≟ j then count_step l.window (lookup j l.fails) (struck now) else lookup j l.fails)
  unfolding count_step
  lookup-fail j k now l h =
      let s = live l.window now (lookup k l.fails) in
      ground (
        arith,
        fails-fail k now l,
        target_spare now l s h,
        lookup-insert k j (strike now s) l.fails,
        text_beq_iff k j,
      )

  pub config-step :
      (e : Event) (l : FailLimiter)
      → ((step order l e).limit ≡ l.limit) × ((step order l e).window ≡ l.window)
  unfolding step blocked fail start_window pass
  config-step (checked k now) l = ground arith
  config-step (failed k now) l = ground arith
  config-step (passed k) l = ground arith

  length-step :
      (e : Event) (l : FailLimiter)
      → length l.fails < max_fail_keys
      → length (step order l e).fails ≤ length l.fails + 1
  unfolding step blocked pass
  length-step (checked k now) l h = ground (arith, length-delete k l.fails)
  length-step (failed k now) l h =
      let s = live l.window now (lookup k l.fails) in
      ground
        (arith, fails-fail k now l, target_spare now l s h, length-insert k (strike now s) l.fails)
  length-step (passed k) l h = ground (arith, length-delete k l.fails)

  -- What the rest of a history does to a key's strikes.
  lookup-step :
      (j : Text) (e : Event) (es : List Event) (l : FailLimiter)
      → length l.fails < max_fail_keys
      → count_run l.window (lookup j (step order l e).fails) (events_on j es)
        ≡ count_run l.window (lookup j l.fails) (events_on j (e ∷ es))
  unfolding step count_run events_on
  lookup-step j (checked k now) es l h = ground (arith, lookup-blocked j k now l)
  lookup-step j (failed k now) es l h = ground (arith, lookup-fail j k now l h)
  lookup-step j (passed k) es l h = ground (arith, lookup-pass j k l)

  pub lookup-run :
      (j : Text) (es : List Event) (l : FailLimiter)
      → length l.fails + length es ≤ max_fail_keys
      → lookup j (run order l es).fails ≡ count_run l.window (lookup j l.fails) (events_on j es)
  unfolding run count_run events_on
  lookup-run j [] l h = refl
  lookup-run j (e ∷ es) l h = cc (
    lookup-run j es (step order l e) (omega (arith, length-step e l (omega arith))),
    (config-step e l).1,
    lookup-step j e es l (omega arith),
  )

  pub config-run :
      (es : List Event) (l : FailLimiter)
      → ((run order l es).limit ≡ l.limit) × ((run order l es).window ≡ l.window)
  unfolding run
  config-run [] l = (refl, refl)
  config-run (e ∷ es) l = ground (arith, config-step e l, config-run es (step order l e))

  -- While a history is too short to fill the map, whatever it mixes, the limiter answers for each
  -- key as a counter of its own that sees the calls on that key and no others.
  pub blocked-run :
      (j : Text) (now : Time) (es : List Event) (l : FailLimiter)
      → length l.fails + length es ≤ max_fail_keys
      → (blocked j now (run order l es)).0
        ≡ verdict l.limit l.window now (count_run l.window (lookup j l.fails) (events_on j es))
  blocked-run j now es l h = cc (
    blocked-verdict j now (run order l es),
    (config-run es l).0,
    (config-run es l).1,
    lookup-run j es l h,
  )
