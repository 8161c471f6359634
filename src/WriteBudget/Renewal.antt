-- ===== src/WriteBudget/Renewal.antt =====
-- When the deadline is renewed, and to what.
use nitrokit.Prelude.{
  subst, ℕ, ◌+◌, ◌≤◌, ◌<◌, ◌≡◌, refl, ap, ◌∙◌, some, List, [], ◌∷◌, leb, pos, arith, Bool-cases,
  inl, inr,
}
use nitrokit.Text.{Text}
use nitrokit.Clock.{Time, sub, add, second, zero_time}
use nitrokit.Http.{Response, write}
use nitrokit.WriteBudget.{
  BudgetWriter, bump, new_budget_writer, budget_write, run_writes, write_budget,
}

-- The readings of a clock that does not go back, the first not before `t`.
abbrev pub Rising : Time → List (Time × Text) → Type 0
Rising t [] = Unit
Rising t ((now, p) ∷ ws) = (t ≤ now) × Rising now ws

-- The reading at the last write, `t` if there is none.
abbrev pub last_reading : Time → List (Time × Text) → Time
last_reading t [] = t
last_reading t ((now, p) ∷ ws) = last_reading now ws

-- Deadlines, the newest first, each at least a second after the one before it.
abbrev pub IsSpaced : List Time → Type 0
IsSpaced [] = Unit
IsSpaced (d ∷ []) = Unit
IsSpaced (d ∷ e ∷ ds) = (e + second ≤ d) × IsSpaced (e ∷ ds)

-- The deadline in force counts from the last renewal, which is less than a second back; the ones
-- before it are a second apart at least.
abbrev pub IsRenewed : ℕ → Time → BudgetWriter → Type 0
IsRenewed n now b =
    (b.budget ≡ pos n)
    × (b.last ≤ now)
    × (now < b.last + second)
    × ((rest : List Time) × (b.deadlines ≡ (b.last + n) ∷ rest))
    × IsSpaced b.deadlines

bump_first :
    (n : ℕ) (now : Time) (b : BudgetWriter)
    → b.budget ≡ pos n
    → b.last ≡ 0
    → b.deadlines ≡ []
    → second ≤ now
    → bump now b ≡ record b { deadlines = (now + n) ∷ []; last = now }
unfolding bump sub add
bump_first n now b e z d h = ground arith

-- A bump renews if the last renewal is a second back, and does nothing otherwise.
bump_renews :
    (n : ℕ) (now : Time) (b : BudgetWriter)
    → b.budget ≡ pos n
    → b.last + second ≤ now
    → bump now b ≡ record b { deadlines = (now + n) ∷ b.deadlines; last = now }
unfolding bump sub add
bump_renews n now b e h = ground arith

bump_keeps : (now : Time) (b : BudgetWriter) → b.last ≤ now → now < b.last + second → bump now b ≡ b
unfolding bump sub
bump_keeps now b h k = ground arith

bump-IsRenewed :
    (n : ℕ) (t now : Time) (b : BudgetWriter)
    → t ≤ now
    → IsRenewed n t b
    → IsRenewed n now (bump now b)
bump-IsRenewed n t now b h (e, l, u, (rest, d), s) = elim (Bool-cases (leb (b.last + second) now)) [
  | inl old ↦
      let far : b.last + second ≤ now = ground arith in
      rw (bump_renews n now b e far) (
        e,
        ground arith,
        ground arith,
        (b.deadlines, refl),
        rw d (ground arith, subst IsSpaced d s),
      )
  | inr new ↦
      let near : now < b.last + second = ground arith in
      rw (bump_keeps now b (ground arith) near) (e, ground arith, near, (rest, d), s)
]

budget_write-IsRenewed :
    (n : ℕ) (t now : Time) (p : Text) (b : BudgetWriter)
    → t ≤ now
    → IsRenewed n t b
    → IsRenewed n now (budget_write p now b)
unfolding budget_write
budget_write-IsRenewed n t now p b h i = bump-IsRenewed n t now b h i

run_writes-IsRenewed :
    (n : ℕ) (t : Time) (ws : List (Time × Text)) (b : BudgetWriter)
    → Rising t ws
    → IsRenewed n t b
    → IsRenewed n (last_reading t ws) (run_writes ws b)
unfolding run_writes
run_writes-IsRenewed n t [] b h i = i
run_writes-IsRenewed n t ((now, p) ∷ ws) b (h, hs) i =
    run_writes-IsRenewed n now ws _ hs (budget_write-IsRenewed n t now p b h i)

-- The writes on a plain writer.
abbrev pub plain_writes : List (Time × Text) → Response → Response
plain_writes [] w = w
plain_writes ((now, p) ∷ ws) w = plain_writes ws (write p w)

bump-response : (now : Time) (b : BudgetWriter) → (bump now b).response ≡ b.response
unfolding bump
bump-response now b = ground arith

run_writes-response :
    (ws : List (Time × Text)) (b : BudgetWriter)
    → (run_writes ws b).response ≡ plain_writes ws b.response
unfolding run_writes budget_write
run_writes-response [] b = refl
run_writes-response ((now, p) ∷ ws) b =
    run_writes-response ws _ ∙ ap (λ w. plain_writes ws (write p w)) (bump-response now b)

-- With a positive budget, under a clock that does not go back and that stands a second past the
-- zero Time at least, a handler that makes any writes builds the response that it builds without
-- the wrapper; after the last of them, the deadline in force is the budget after a renewal less
-- than a second back, and no two deadlines were set within a second.
pub write_budget_lem :
    (n : ℕ) (start : Time) (next : List (Time × Text)) (w : Response)
    → 0 < n
    → second ≤ start
    → Rising start next
    → (b : BudgetWriter) × (write_budget (pos n) start next w ≡ some b)
      × (b.response ≡ plain_writes next w)
      × IsRenewed n (last_reading start next) b
unfolding write_budget new_budget_writer
write_budget_lem n start next w h k rising =
    let b0 : BudgetWriter = record {
      response = w;
      deadlines = [];
      budget = pos n;
      last = zero_time;
    } in
    let first : IsRenewed n start (bump start b0) =
      rw (bump_first n start b0 refl refl refl k)
        (refl, ground arith, ground arith, ([], refl), tt) in
    (
      run_writes next (bump start b0),
      ground arith,
      run_writes-response next _ ∙ ap (plain_writes next) (bump-response start b0),
      run_writes-IsRenewed n start next _ rising first,
    )
