-- ===== src/FailLimit.antt =====
-- faillimit.go: the limiter of authentication failures. The mutex makes each method one atomic
-- step, so a method is a function on the limiter; a reading of the clock is the argument `now`.
pub mod Invariant
pub mod Counter
pub mod Lockout
pub mod Windows
pub mod Eviction
mod Tests
use nitrokit.Prelude.{
  ℕ, ◌+◌, ◌≤◌, ◌<◌, ◌≡◌, Bool, true, false, Option, none, some, List, [], ◌∷◌, arith, length, ltb,
  leb, ltb_ℤ, leb_ℤ, if◌then◌else◌, ℤ, pos, negsuc, inc_int64, ◌||◌, ◌≤ℤ◌,
}
use nitrokit.Dict.{Dict, lookup, insert, delete, delete_if}
use nitrokit.Text.{Text, text_eq}
use nitrokit.Clock.{Time, Duration, sub}

pub record FailTrack : Type 0 where
  pub count : ℤ
  pub window_start : Time

pub record FailLimiter : Type 0 where
  pub limit : ℤ
  pub window : Duration
  pub fails : Dict Text FailTrack

abbrev pub max_fail_keys : ℕ
max_fail_keys = 4096

-- `none` is the panic on a limiter that could block nothing.
pub new_fail_limiter : ℤ → Duration → Option FailLimiter
new_fail_limiter limit window =
    if ltb_ℤ limit (pos 1) || leb_ℤ window (pos 0)
    then none
    else some (record { limit = limit; window = window; fails = [] })

-- now.Sub(t.windowStart) >= l.window
unfoldable pub is_over : Duration → Time → FailTrack → Bool
is_over window now t = leb_ℤ window (sub now t.window_start)

pub blocked : Text → Time → FailLimiter → Bool × FailLimiter
blocked key now l = elim (lookup key l.fails) [
  | none ↦ (false, l)
  | some t ↦
      if is_over l.window now t
      then (false, record l { fails = delete key l.fails })
      else (leb_ℤ l.limit t.count, l)
]

-- The loop that evicts arbitrary keys: `visit` is the order in which the map yields them.
pub evict : List Text → Dict Text FailTrack → Dict Text FailTrack
evict [] m = m
evict (k ∷ visit) m =
    let rest = evict visit (delete k m) in if ltb (length m) max_fail_keys then m else rest

-- What a full map goes through before a new key: expired entries first, then arbitrary ones.
pub make_room : (Dict Text FailTrack → List Text) → Time → FailLimiter → Dict Text FailTrack
make_room order now l =
    if leb max_fail_keys (length l.fails)
    then (let swept = delete_if (is_over l.window now) l.fails in evict (order swept) swept)
    else l.fails

pub start_window : (Dict Text FailTrack → List Text) → Text → Time → FailLimiter → FailLimiter
unfolding make_room
start_window order key now l =
    let room = make_room order now l in
    record l { fails = insert key (record { count = pos 1; window_start = now }) room }

pub fail : (Dict Text FailTrack → List Text) → Text → Time → FailLimiter → FailLimiter
fail order key now l = elim (lookup key l.fails) [
  | none ↦ start_window order key now l
  | some t ↦
      if ltb_ℤ (sub now t.window_start) l.window
      then record l { fails = insert key (record t { count = inc_int64 t.count }) l.fails }
      else start_window order key now l
]

pub pass : Text → FailLimiter → FailLimiter
pass key l = record l { fails = delete key l.fails }

-- One call of a method, with the reading of the clock that it makes.
pub data Event : Type 0 where
  checked failed : Text → Time → Event
  passed : Text → Event

pub step : (Dict Text FailTrack → List Text) → FailLimiter → Event → FailLimiter
step order l (checked k now) = (blocked k now l).1
step order l (failed k now) = fail order k now l
step order l (passed k) = pass k l

-- A history of calls, the earliest first.
pub run : (Dict Text FailTrack → List Text) → FailLimiter → List Event → FailLimiter
run order l [] = l
run order l (e ∷ es) = run order (step order l e) es
