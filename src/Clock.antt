-- ===== src/Clock.antt =====
-- Go's time.Time and time.Duration, as the kit uses them: an instant is its distance in
-- nanoseconds from the zero Time (year 1), a duration a signed number of nanoseconds.
use nitrokit.Prelude.{
  ℕ, ◌+◌, ◌-◌, ◌*◌, ◌≤◌, ◌≡◌, ℤ, pos, negsuc, arith, leb, min, if◌then◌else◌, max_int64, ◌≤ℤ◌,
}

abbrev pub Time : Type 0
Time = ℕ

-- time.Time{}
abbrev pub zero_time : Time
zero_time = 0

abbrev pub Duration : Type 0
Duration = ℤ

abbrev pub second : ℕ
second = 1_000_000_000

abbrev pub minute : ℕ
minute = 60 * second

-- t.Sub(u): the difference, held to the range of an int64.
unfoldable pub sub : Time → Time → Duration
sub t u = if leb u t then pos (min (t - u) max_int64) else negsuc (min (u - t - 1) max_int64)

-- A difference in range is exact.
pub sub_lem : (t u : Time) → u ≤ t → t - u ≤ max_int64 → sub t u ≡ pos (t - u)
unfolding sub
sub_lem t u h k = ground arith

-- A later instant is no less far from a given one.
pub sub_mono : (t t' u : Time) → t ≤ t' → sub t u ≤ℤ sub t' u
unfolding sub
sub_mono t t' u h = ground arith

-- t.Add(d), for a sum that is not before the zero Time.
unfoldable pub add : Time → Duration → Time
add t (pos n) = t + n
add t (negsuc n) = t - n - 1
