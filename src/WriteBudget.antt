-- ===== src/WriteBudget.antt =====
-- writebudget.go: the write deadline that writes renew. Of the connection, what the code sets is
-- kept: its write deadlines, the newest first. A reading of the clock is the argument `now`.
pub mod Renewal
mod Tests
use nitrokit.Prelude.{
  ℕ, ◌+◌, ◌≡◌, Bool, true, false, Option, none, some, List, [], ◌∷◌, leb_ℤ, if◌then◌else◌, ℤ, pos,
  negsuc,
}
use nitrokit.Text.{Text}
use nitrokit.Clock.{Time, Duration, sub, add, second, zero_time}
use nitrokit.Http.{Response, write}

pub record BudgetWriter : Type 0 where
  pub response : Response
  pub deadlines : List Time
  pub budget : Duration
  pub last : Time

unfoldable pub bump : Time → BudgetWriter → BudgetWriter
bump now b =
    if leb_ℤ (pos second) (sub now b.last)
    then record b { deadlines = add now b.budget ∷ b.deadlines; last = now }
    else b

unfoldable pub new_budget_writer : Response → List Time → Duration → Time → BudgetWriter
unfolding bump
new_budget_writer w deadlines budget now =
    bump now (record { response = w; deadlines = deadlines; budget = budget; last = zero_time })

-- b.Write(p)
unfoldable pub budget_write : Text → Time → BudgetWriter → BudgetWriter
unfolding bump
budget_write p now b = let b' = bump now b in record b' { response = write p b'.response }

-- A handler that makes the given writes, each at its reading of the clock.
unfoldable pub run_writes : List (Time × Text) → BudgetWriter → BudgetWriter
run_writes [] b = b
run_writes ((now, p) ∷ ws) b = run_writes ws (budget_write p now b)

-- WriteBudget(budget, next) on a connection without deadlines; `none` is the panic.
unfoldable pub write_budget : Duration → Time → List (Time × Text) → Response → Option BudgetWriter
unfolding run_writes
write_budget budget start next w =
    if leb_ℤ budget (pos 0)
    then none
    else some (run_writes next (new_budget_writer w [] budget start))
