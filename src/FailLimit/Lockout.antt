-- ===== src/FailLimit/Lockout.antt =====
-- What the counter of one key says: when a key is blocked, and that asking changes nothing.
use nitrokit.Prelude.{
  ℕ, suc, ◌+◌, ◌≤◌, ◌≡◌, refl, none, some, List, [], ◌∷◌, arith, length, ℤ, pos, ltb_ℤ, leb_ℤ,
  inc_int64-pos, max_int64, ◌<ℤ◌, map, ◌&&◌, All, ap,
}
use nitrokit.Dict.{Dict, lookup}
use nitrokit.Text.{Text, text_eq}
use nitrokit.Clock.{Time, Duration, sub, sub_mono}
use nitrokit.FailLimit.{
  FailTrack, FailLimiter, max_fail_keys, blocked, Event, checked, run, is_over,
}
use nitrokit.FailLimit.Counter.{
  KeyEvent, seen, struck, cleared, Strikes, live, count_step, count_run, verdict, events_on,
  length-events_on, blocked-run,
}

-- The failures, at these times.
abbrev pub struck_at : List Time → List KeyEvent
struck_at = map struck

pub length-struck_at : (ts : List Time) → length (struck_at ts) ≡ length ts
length-struck_at [] = refl
length-struck_at (t ∷ ts) = ap suc (length-struck_at ts)

-- Within one window every failure counts.
pub count_run-struck :
    (window : Duration) (start : Time) (c : ℕ) (ts : List Time)
    → All (λ t. sub t start <ℤ window) ts
    → c + length ts ≤ max_int64
    → count_run window (some (record { count = pos c; window_start = start })) (struck_at ts)
      ≡ some (record { count = pos (c + length ts); window_start = start })
unfolding count_run count_step is_over
count_run-struck window start c [] h b = ground arith
count_run-struck window start c (t ∷ ts) (p, h) b =
    ground (arith, inc_int64-pos c, count_run-struck window start (c + 1) ts h)

-- A key with no strikes that then fails, first at `start` and again at `ts` within the window, and
-- meets no other call, is blocked exactly while the window lasts and from the limit on: whatever
-- other keys do in the meantime, as long as the map has room.
pub blocked-struck :
    (order : Dict Text FailTrack → List Text) (k : Text) (start now : Time) (ts : List Time)
    (es : List Event) (l : FailLimiter)
    → lookup k l.fails ≡ none
    → events_on k es ≡ struck_at (start ∷ ts)
    → All (λ t. sub t start <ℤ l.window) ts
    → length l.fails + length es ≤ max_fail_keys
    → (blocked k now (run order l es)).0
      ≡ (ltb_ℤ (sub now start) l.window && leb_ℤ l.limit (pos (1 + length ts)))
unfolding count_run count_step verdict is_over
blocked-struck order k start now ts es l fresh only h room =
    let few : 1 + length ts ≤ max_fail_keys =
      omega (arith, length-events_on k es, ap length only, length-struck_at ts) in
    ground (
      arith,
      blocked-run order k now es l room,
      count_run-struck l.window start 1 ts h (omega arith),
    )

live-live :
    (window : Duration) (now later : Time) (s : Strikes)
    → now ≤ later
    → live window later (live window now s) ≡ live window later s
unfolding is_over
live-live window now later none h = refl
live-live window now later (some t) h = ground (arith, sub_mono now later t.window_start h)

-- The call is not before the instant.
abbrev pub NotBefore : Time → KeyEvent → Type 0
NotBefore now (seen t) = now ≤ t
NotBefore now (struck t) = now ≤ t
NotBefore now cleared = Unit

verdict-seen :
    (limit : ℤ) (window : Duration) (now later : Time) (s : Strikes) (es : List KeyEvent)
    → now ≤ later
    → All (NotBefore now) es
    → verdict limit window later (count_run window (count_step window s (seen now)) es)
      ≡ verdict limit window later (count_run window s es)
unfolding verdict count_run count_step
verdict-seen limit window now later s [] h k = rw (live-live window now later s h)
verdict-seen limit window now later s (seen t ∷ es) h (p, k) = rw (live-live window now t s p)
verdict-seen limit window now later s (struck t ∷ es) h (p, k) = rw (live-live window now t s p)
verdict-seen limit window now later s (cleared ∷ es) h k = refl

-- Asking is silent: while the map has room, a call of `Blocked` before the rest of a history whose
-- clock does not go back changes no later answer, for any key, although it may delete an entry.
pub blocked-silent :
    (order : Dict Text FailTrack → List Text) (k : Text) (now : Time) (j : Text) (later : Time)
    (es : List Event) (l : FailLimiter)
    → now ≤ later
    → All (NotBefore now) (events_on j es)
    → length l.fails + length es + 1 ≤ max_fail_keys
    → (blocked j later (run order l (checked k now ∷ es))).0 ≡ (blocked j later (run order l es)).0
unfolding count_run events_on
blocked-silent order k now j later es l h all room = ground (
  arith,
  blocked-run order j later (checked k now ∷ es) l (omega arith),
  blocked-run order j later es l (omega arith),
  verdict-seen l.limit l.window now later (lookup j l.fails) (events_on j es) h all,
)
