-- ===== src/RateLimit/Tests.antt =====
-- The rate limiter on concrete requests, and the theorems at inputs that meet their hypotheses.
use nitrokit.Prelude.{
  ℕ, ◌+◌, ◌-◌, ◌*◌, ◌≤◌, ◌≡◌, refl, ◌≢◌, true, false, none, some, List, [], ◌∷◌, arith, pos, negsuc,
  leb_ℤ, ◌-ℤ◌, ◌+ℤ◌, if◌then◌else◌,
}
use nitrokit.Dict.{lookup, insert, delete_if}
use nitrokit.Text.{Text, codes, text_eq, text_beq_iff}
use nitrokit.Clock.{Time, Duration, second, minute, sub}
use nitrokit.RateLimit.{
  Limiter, new_limiter, inflow, refill, found, put, to_duration, idle_limit, sweep, take_token,
  allow,
}
use nitrokit.RateLimit.Level.{IsValid, later-IsValid}
use nitrokit.RateLimit.Sweep.{InRange}
use nitrokit.RateLimit.Answer.{allow-found, allow-found_ne, allow-IsValid}
use nitrokit.RateLimit.Budget.{new_limiter-IsValid, granted, granted-le}
use nitrokit.RateLimit.Retry.{retry_enough, retry_needed}

-- What amd64 makes of a float out of range.
abbrev lowest : ℕ → Duration
lowest n = negsuc 9_223_372_036_854_775_807

-- One token in a second, and a burst of two.
abbrev slow : Limiter
slow = record { unit = second; rate = 1; burst = 2 * second; buckets = []; last_sweep = 0 }

methods : Unit {0}
unfolding new_limiter inflow refill found put to_duration idle_limit sweep take_token allow lookup
    insert delete_if sub ◌-ℤ◌ ◌+ℤ◌
methods = tt

new_lem : new_limiter second (pos 1) (pos (2 * second)) ≡ some slow
unfolding methods
new_lem = refl

refused :
    (new_limiter second (pos 0) (pos (2 * second)) ≡ none)
    × (new_limiter second (pos 1) (pos 999_999_999) ≡ none)
unfolding methods
refused = (refl, refl)

abbrev alice : Text
alice = codes "10.0.0.1"

abbrev bob : Text
bob = codes "10.0.0.2"

-- Twenty minutes after the zero time, so that the first request sweeps.
abbrev start : Time
start = 20 * minute

abbrev once : Limiter
once = (allow lowest alice start slow).1

abbrev twice : Limiter
twice = (allow lowest alice start once).1

-- The third request of a burst is refused, with a second to wait.
burst_tests :
    ((allow lowest alice start once).0 ≡ (true, pos 0))
    × ((allow lowest alice start twice).0 ≡ (false, pos second))
    × ((allow lowest bob start twice).0 ≡ (true, pos 0))
    × ((allow lowest alice (start + second) twice).0 ≡ (true, pos 0))
unfolding methods
burst_tests = (refl, refl, refl, refl)

slow-IsValid : (t : Time) → IsValid slow t
slow-IsValid t = new_limiter-IsValid second (pos 1) (pos (2 * second)) t new_lem

in_range : InRange slow
in_range = omega arith

once-IsValid : IsValid once start
once-IsValid = allow-IsValid lowest alice start slow in_range (slow-IsValid start)

InRange-once : InRange once
unfolding methods
InRange-once = omega arith

InRange-twice : InRange twice
unfolding methods
InRange-twice = omega arith

twice-IsValid : IsValid twice start
twice-IsValid = allow-IsValid lowest alice start once InRange-once once-IsValid

allow-IsValid_test : IsValid (allow lowest alice start slow).1 start
allow-IsValid_test = allow-IsValid lowest alice start slow in_range (slow-IsValid start)

allow-found_example :
    ((allow lowest alice start twice).0.0 ≡ leb_ℤ (pos twice.unit) (found alice start twice))
    × (found alice start (allow lowest alice start twice).1 ≡ (
        if leb_ℤ (pos twice.unit) (found alice start twice)
        then found alice start twice -ℤ pos twice.unit
        else found alice start twice))
allow-found_example = allow-found lowest alice start twice InRange-twice twice-IsValid

alice≢bob : alice ≢ bob
alice≢bob e = ground (arith, text_beq_iff alice bob)

bob≢alice : bob ≢ alice
bob≢alice e = ground (arith, text_beq_iff bob alice)

-- An hour later bob's request sweeps alice's bucket away, and her level is what it would be.
allow-found_ne_test :
    found alice (start + 60 * minute) (allow lowest bob (start + 60 * minute) once).1
    ≡ found alice (start + 60 * minute) once
allow-found_ne_test =
    allow-found_ne lowest bob alice (start + 60 * minute) (start + 60 * minute) once InRange-once
      (later-IsValid start (start + 60 * minute) once (omega arith) once-IsValid) (omega arith)
      bob≢alice

abbrev hammering : List (Text × Time)
hammering = (alice, start) ∷ (bob, start) ∷ (alice, start) ∷ (alice, start + second) ∷ []

granted-le_example :
    granted lowest alice hammering slow * second ≤ 2 * second + (start + second - start) * 1
granted-le_example =
    granted-le lowest second (pos 1) (pos (2 * second)) alice hammering start (start + second)
      new_lem in_range (omega arith)

denied : (allow lowest alice start twice).0.0 ≡ false
unfolding methods
denied = refl

wait_of_twice : (allow lowest alice start twice).0.1 ≡ pos second
unfolding methods
wait_of_twice = refl

retry_enough_example :
    (allow lowest alice (start + 2 * second) (allow lowest alice start twice).1).0.0 ≡ true
unfolding methods
retry_enough_example =
    retry_enough lowest alice start twice InRange-twice twice-IsValid denied (2 * second)
      (omega arith) (omega arith)

retry_needed_test : (allow lowest alice (start + 5) (allow lowest alice start twice).1).0.0 ≡ false
unfolding methods
retry_needed_test =
    retry_needed lowest alice start twice InRange-twice twice-IsValid denied 5 (omega arith)
      (omega arith)
