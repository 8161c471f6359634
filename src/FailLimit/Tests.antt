-- ===== src/FailLimit/Tests.antt =====
-- The failure limiter on concrete histories, and the theorems at inputs that meet their hypotheses.
use nitrokit.Prelude.{
  ◌*◌, ◌≡◌, refl, ◌≢◌, ◌⊎◌, true, false, none, some, List, [], ◌∷◌, ◌++◌, arith, pos, ltb_ℤ, leb_ℤ,
  ◌&&◌, inc_int64,
}
use nitrokit.Dict.{Dict, lookup, delete_if, insert, delete}
use nitrokit.Text.{Text, codes, text_eq, text_beq_iff}
use nitrokit.Clock.{minute, sub}
use nitrokit.FailLimit.{
  FailTrack, FailLimiter, new_fail_limiter, blocked, fail, Event, checked, failed, passed, run,
  is_over, step, start_window, evict, pass,
}
use nitrokit.FailLimit.Invariant.{IsRange, IsValid, Listed, run-IsValid}
use nitrokit.FailLimit.Counter.{live, count_run, verdict, events_on, blocked-run}
use nitrokit.FailLimit.Lockout.{blocked-struck, blocked-silent}
use nitrokit.FailLimit.Windows.{blocked_two_windows}
use nitrokit.FailLimit.Eviction.{lookup-fail_ne, live-fail_ne}

-- A `range` in the order of insertion.
abbrev in_order : Dict Text FailTrack → List Text
in_order [] = []
in_order ((k, t) ∷ m) = k ∷ in_order m

in_order_lem :
    (m : Dict Text FailTrack) (k : Text) (t : FailTrack)
    → lookup k m ≡ some t
    → Listed k (in_order m)
unfolding lookup
in_order_lem [] k t h = cc
in_order_lem ((j, u) ∷ m) k t h = ground (arith, text_beq_iff j k, in_order_lem m k t)

in_order-IsRange : IsRange in_order
in_order-IsRange = record { yields = in_order_lem }

abbrev alice : Text
alice = codes "10.0.0.1"

abbrev bob : Text
bob = codes "10.0.0.2"

-- Three failures within ten minutes.
abbrev three_in_ten : FailLimiter
three_in_ten = record { limit = pos 3; window = pos (10 * minute); fails = [] }

abbrev attack : List Event
attack =
    failed alice (1 * minute)
    ∷ failed bob (2 * minute)
    ∷ failed alice (3 * minute)
    ∷ failed alice (4 * minute)
    ∷ []

methods : Unit {0}
unfolding blocked fail run step start_window evict is_over insert delete delete_if lookup sub
    new_fail_limiter inc_int64 pass
methods = tt

new_lem : new_fail_limiter (pos 3) (pos (10 * minute)) ≡ some three_in_ten
unfolding methods
new_lem = refl

refused : (new_fail_limiter (pos 0) (pos 1) ≡ none) × (new_fail_limiter (pos 1) (pos 0) ≡ none)
unfolding methods
refused = (refl, refl)

attack_tests :
    ((blocked alice (5 * minute) (run in_order three_in_ten attack)).0 ≡ true)
    × ((blocked bob (5 * minute) (run in_order three_in_ten attack)).0 ≡ false)
    × ((blocked alice (11 * minute) (run in_order three_in_ten attack)).0 ≡ false)
unfolding methods
attack_tests = (refl, refl, refl)

-- A success clears the strikes.
abbrev forgiven : FailLimiter
forgiven = run in_order three_in_ten (attack ++ passed alice ∷ [])

pass_test : (blocked alice (5 * minute) forgiven).0 ≡ false
unfolding methods
pass_test = refl

run-IsValid_example : IsValid (run in_order three_in_ten attack)
run-IsValid_example = run-IsValid in_order-IsRange (pos 3) (pos (10 * minute)) attack new_lem

blocked-run_example :
    (blocked alice (5 * minute) (run in_order three_in_ten attack)).0
    ≡ verdict
        (pos 3)
        (pos (10 * minute))
        (5 * minute)
        (count_run (pos (10 * minute)) (lookup alice []) (events_on alice attack))
blocked-run_example = blocked-run in_order alice (5 * minute) attack three_in_ten (omega arith)

blocked-struck_test :
    (blocked alice (5 * minute) (run in_order three_in_ten attack)).0
    ≡ (ltb_ℤ (sub (5 * minute) (1 * minute)) (pos (10 * minute)) && leb_ℤ (pos 3) (pos 3))
unfolding lookup events_on sub
blocked-struck_test =
    blocked-struck in_order alice (1 * minute) (5 * minute) (3 * minute ∷ 4 * minute ∷ []) attack
      three_in_ten refl refl (omega arith) (omega arith)

blocked-silent_test :
    (blocked alice (5 * minute) (run in_order three_in_ten (checked bob 0 ∷ attack))).0
    ≡ (blocked alice (5 * minute) (run in_order three_in_ten attack)).0
unfolding events_on
blocked-silent_test =
    blocked-silent in_order bob 0 alice (5 * minute) attack three_in_ten (omega arith) (omega arith)
      (omega arith)

-- Two failures late in one window and two early in the next: four within a minute, and no block.
abbrev straddling : List Event
straddling =
    failed alice (1 * minute)
    ∷ failed alice (10 * minute)
    ∷ failed alice (11 * minute)
    ∷ failed alice (11 * minute)
    ∷ []

blocked_two_windows_example :
    (blocked alice (11 * minute) (run in_order three_in_ten straddling)).0
    ≡ (ltb_ℤ (sub (11 * minute) (11 * minute)) (pos (10 * minute)) && leb_ℤ (pos 3) (pos 2))
unfolding lookup events_on sub
blocked_two_windows_example =
    blocked_two_windows in_order alice (1 * minute) (11 * minute) (11 * minute) (10 * minute ∷ [])
      (11 * minute ∷ []) straddling three_in_ten refl refl (omega arith) (omega arith) (omega arith)
      (omega arith)

abbrev one_strike : FailLimiter
one_strike = record three_in_ten { fails = (bob, record { count = pos 1; window_start = 0 }) ∷ [] }

alice≢bob : alice ≢ bob
alice≢bob e = ground (arith, text_beq_iff alice bob)

lookup-fail_ne_test :
    (lookup bob (fail in_order alice 5 one_strike).fails ≡ lookup bob one_strike.fails)
    ⊎ (lookup bob (fail in_order alice 5 one_strike).fails ≡ none)
unfolding lookup
lookup-fail_ne_test = lookup-fail_ne in_order bob alice 5 one_strike (refl, tt) alice≢bob

live-fail_ne_test :
    live (pos (10 * minute)) 5 (lookup bob (fail in_order alice 5 one_strike).fails)
    ≡ live (pos (10 * minute)) 5 (lookup bob one_strike.fails)
unfolding lookup delete_if is_over sub
live-fail_ne_test = live-fail_ne in_order bob alice 5 one_strike (refl, tt) alice≢bob (omega arith)
