-- ===== src/Lifecycle/Tests.antt =====
-- A run on two servers, one of which fails, and the theorems at it.
use nitrokit.Prelude.{
  ℕ, ◌≡◌, ◌≤◌, ◌*◌, ◌+◌, refl, true, false, Option, none, some, [], ◌∷◌, inl, inr, pos, length, All,
  arith,
}
use nitrokit.Text.{Text, codes}
use nitrokit.Lifecycle.{
  HttpServer, new_server, listen_and_serve, listen_and_serve_tls, run, server_closed, failed,
  or_else, Server, returned, System, IsDown, stops, first_stop, shuts_down, drained, receives,
  returns, run_all, Steps, here, next,
}
use nitrokit.Lifecycle.Counts.{serving_count, first_failure, first_late}
use nitrokit.Lifecycle.Invariant.{run_all_result}
use nitrokit.Lifecycle.Ending.{run_all_bound, run_all_ends}

code : Unit {0}
unfolding new_server run
code = tt

abbrev plain : HttpServer ℕ
plain = new_server (codes ":80") 7

run_tests :
    (run {H = ℕ} [] ≡ inl (codes "nitrokit: Run called with no servers"))
    × (run (plain ∷ record plain { tls_config = true } ∷ [])
        ≡ inr (
            record { srv = plain; serve = listen_and_serve }
            ∷ record { srv = record plain { tls_config = true }; serve = listen_and_serve_tls }
            ∷ []))
    × (plain.write_timeout ≡ pos 30_000_000_000)
unfolding code
run_tests = (refl, refl, refl)

-- The second server cannot listen; the first is shut down, with a drain that runs out of time.
abbrev working : Server
working = record { serving = true; up = true }

abbrev half : Server
half = record { serving = true; up = false }

abbrev silent : Server
silent = record { serving = false; up = false }

abbrev used : Text
used = codes "port in use"

abbrev late : Text
late = codes "deadline"

abbrev failing : (s : System) × Steps (run_all 2) 8 s × (s.pc ≡ returned (some used))
failing = (
  _,
  next
      (next
        (next
          (next
            (next
              (next
                (next (next here (stops (working ∷ []) working [] (failed used) refl refl))
                  (first_stop (some used) refl refl))
                (shuts_down (some used) 1 (working ∷ []) (record { serving = false; up = true }) []
                  none refl refl refl))
              (shuts_down (some used) 1 [] working (silent ∷ []) (some late) refl refl refl))
            (stops [] half (silent ∷ []) server_closed refl refl))
          (drained (some used) 1 refl (refl, (refl, tt))))
        (receives (some used) 1 none refl (omega arith) refl))
      (returns (some used) 2 refl refl),
  refl,
)

run_all_result_example :
    (serving_count failing.0.servers ≡ 0)
    × All IsDown failing.0.servers
    × (length failing.0.exits ≡ 2)
    × (length failing.0.shutdowns ≡ 2)
    × (◌≡◌ {A = Option Text}
        (some used)
        (or_else (first_failure failing.0.exits) (first_late failing.0.shutdowns)))
run_all_result_example = run_all_result failing.1 failing.2

run_all_bound_example : 8 ≤ 3 * 2 + 3
run_all_bound_example = run_all_bound 2 failing.1

abbrev starting : Steps (run_all 2) 0 (run_all 2)
starting = here

run_all_ends_example :
    (j : ℕ) × (t : System) × (r : Option Text) × Steps (run_all 2) j t × (t.pc ≡ returned r)
run_all_ends_example = run_all_ends 2 starting
