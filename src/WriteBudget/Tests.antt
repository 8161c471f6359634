-- ===== src/WriteBudget/Tests.antt =====
-- A handler that writes three times, and the theorem at it.
use mathlib.Core.Option
use nitrokit.Prelude.{◌≡◌, refl, none, some, List, [], ◌∷◌, pos, negsuc, arith}
use nitrokit.Text.{Text, codes}
use nitrokit.Clock.{Time, sub, add}
use nitrokit.Http.{Response, write}
use nitrokit.WriteBudget.{
  BudgetWriter, bump, new_budget_writer, budget_write, run_writes, write_budget,
}
use nitrokit.WriteBudget.Renewal.{IsRenewed, plain_writes, write_budget_lem}

code : Unit {0}
unfolding budget_write new_budget_writer run_writes write_budget bump sub add write
code = tt

abbrev fresh : Response
fresh = record { header = []; sent = none; body = [] }

abbrev three : List (Time × Text)
three =
    (100_500_000_000, codes "a") ∷ (101_200_000_000, codes "b") ∷ (101_300_000_000, codes "c") ∷ []

write_budget_tests :
    (Option.map (λ b. b.deadlines) (write_budget (pos 30_000_000_000) 100_000_000_000 three fresh)
      ≡ some (131_200_000_000 ∷ 130_000_000_000 ∷ []))
    × (write_budget (pos 0) 5 three fresh ≡ none)
    × (write_budget (negsuc 0) 5 three fresh ≡ none)
unfolding code
write_budget_tests = (refl, refl, refl)

write_budget_lem_example :
    (b : BudgetWriter) × (write_budget (pos 30_000_000_000) 100_000_000_000 three fresh ≡ some b)
    × (b.response ≡ plain_writes three fresh)
    × IsRenewed 30_000_000_000 101_300_000_000 b
write_budget_lem_example =
    write_budget_lem 30_000_000_000 100_000_000_000 three fresh (ground arith) (ground arith)
      (ground arith)
