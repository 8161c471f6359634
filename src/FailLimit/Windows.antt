-- ===== src/FailLimit/Windows.antt =====
-- Windows do not roll: a new one starts from nothing, however recent the failures of the last.
use nitrokit.Prelude.{
  ◌+◌, ◌≤◌, ◌≡◌, refl, none, some, List, [], ◌∷◌, ◌++◌, arith, length, pos, ltb_ℤ, leb_ℤ, max_int64,
  ◌<ℤ◌, ◌≤ℤ◌, ◌&&◌, All, ap, length-append,
}
use nitrokit.Dict.{Dict, lookup, keep_unless}
use nitrokit.Text.{Text, text_eq}
use nitrokit.Clock.{Time, Duration, sub}
use nitrokit.FailLimit.{FailTrack, FailLimiter, max_fail_keys, blocked, Event, run, is_over}
use nitrokit.FailLimit.Counter.{
  KeyEvent, Strikes, count_step, count_run, verdict, events_on, length-events_on, blocked-run,
}
use nitrokit.FailLimit.Lockout.{struck_at, length-struck_at, count_run-struck}

count_run-append :
    (window : Duration) (s : Strikes) (es fs : List KeyEvent)
    → count_run window s (es ++ fs) ≡ count_run window (count_run window s es) fs
unfolding count_run
count_run-append window s [] fs = refl
count_run-append window s (e ∷ es) fs = count_run-append window (count_step window s e) es fs

count_run-window :
    (window : Duration) (s : Strikes) (start : Time) (ts : List Time)
    → keep_unless (is_over window start) s ≡ none
    → All (λ t. sub t start <ℤ window) ts
    → 1 + length ts ≤ max_int64
    → count_run window s (struck_at (start ∷ ts))
      ≡ some (record { count = pos (1 + length ts); window_start = start })
unfolding count_run count_step
count_run-window window s start ts fresh h b =
    ground (arith, count_run-struck window start 1 ts h b)

-- A key fails first at `start` and then at `ts` within that window, then, the window being over,
-- at `start'` and at `ts'` within the window that this failure opens, and meets no other call.
-- Only the failures of the second window count: those of the first are forgotten even if they lie
-- less than a window back.
pub blocked_two_windows :
    (order : Dict Text FailTrack → List Text) (k : Text) (start start' now : Time)
    (ts ts' : List Time) (es : List Event) (l : FailLimiter)
    → lookup k l.fails ≡ none
    → events_on k es ≡ struck_at (start ∷ ts) ++ struck_at (start' ∷ ts')
    → All (λ t. sub t start <ℤ l.window) ts
    → l.window ≤ℤ sub start' start
    → All (λ t. sub t start' <ℤ l.window) ts'
    → length l.fails + length es ≤ max_fail_keys
    → (blocked k now (run order l es)).0
      ≡ (ltb_ℤ (sub now start') l.window && leb_ℤ l.limit (pos (1 + length ts')))
unfolding verdict is_over
blocked_two_windows order k start start' now ts ts' es l fresh only h over h' room =
    let few : 1 + length ts + (1 + length ts') ≤ max_fail_keys = omega (
      arith,
      length-events_on k es,
      ap length only,
      length-append (struck_at (start ∷ ts)) (struck_at (start' ∷ ts')),
      length-struck_at ts,
      length-struck_at ts',
    ) in
    let first : Strikes = some (record { count = pos (1 + length ts); window_start = start }) in
    ground (
      arith,
      blocked-run order k now es l room,
      count_run-append l.window none (struck_at (start ∷ ts)) (struck_at (start' ∷ ts')),
      count_run-window l.window none start ts refl h (omega arith),
      count_run-window l.window first start' ts' (ground arith) h' (omega arith),
    )
