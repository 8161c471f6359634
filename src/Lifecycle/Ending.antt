-- ===== src/Lifecycle/Ending.antt =====
-- Every run of runAll ends, and none of them is stuck before it has.
use nitrokit.Prelude.{
  ℕ, zero, suc, ◌+◌, ◌-◌, ◌*◌, ◌≤◌, ◌<◌, ◌≡◌, refl, sym, ap, ◌∙◌, subst, false, Option, none, arith,
  length, ◌⊎◌, inl, inr, Bool-cases, split_of_count, All-of_count, get_elem?-of_lt, ltb, ◌==◌,
}
use nitrokit.Text.{Text}
use nitrokit.Lifecycle.{
  server_closed, Pc, selecting, draining, collecting, returned, System, Step, stops, cancelled,
  first_stop, shuts_down, drained, receives, returns, run_all, Steps, here, next,
}
use nitrokit.Lifecycle.Counts.{
  serving_count, up_count, serving_count-stopped, up_count-stopped, serving_count-shut_down,
  up_count-shut_down, length-same,
}
use nitrokit.Lifecycle.Invariant.{
  IsSound, AtPc, Step-IsSound, Steps-IsSound, serving_count-fresh, up_count-fresh, length-fresh,
}

-- What is left to do for runAll itself.
abbrev pc_left : ℕ → Pc → ℕ
pc_left n selecting = n + 3
pc_left n (draining e k) = n - k + 2
pc_left n (collecting e k) = n - k + 1
pc_left n (returned r) = 0

abbrev pub work_left : System → ℕ
work_left s = serving_count s.servers + up_count s.servers + pc_left (length s.servers) s.pc

-- Every step does some of it.
work_left-Step : {n : ℕ} {s t : System} → Step s t → IsSound n s → work_left t < work_left s
work_left-Step {s = s} (stops left v right e h u) i = omega (
  arith,
  ap serving_count h,
  serving_count-stopped left v right u,
  ap up_count h,
  up_count-stopped left v right,
  ap (λ m. pc_left m s.pc)
      (length-same left v right (record v { serving = false }) ∙ sym (ap length h)),
)
work_left-Step {s = s} (cancelled p) i = rw (ap (pc_left (length s.servers)) p) (omega arith)
work_left-Step {s = s} (first_stop e p g) i = rw (ap (pc_left (length s.servers)) p) (omega arith)
work_left-Step {s = s} (shuts_down se k left v right e p h u) i = omega (
  arith,
  ap serving_count h,
  serving_count-shut_down left v right,
  ap up_count h,
  up_count-shut_down left v right u,
  ap (λ m. pc_left m s.pc) (length-same left v right (record v { up = false }) ∙ sym (ap length h)),
)
work_left-Step {s = s} (drained se k p h) i = rw (ap (pc_left (length s.servers)) p) (omega arith)
work_left-Step {s = s} (receives se k e p h g) i =
    rw (ap (pc_left (length s.servers)) p) (omega arith)
work_left-Step {s = s} (returns se k p h) i = rw (ap (pc_left (length s.servers)) p) (omega arith)

Steps-left : (n : ℕ) {k : ℕ} {s : System} → Steps (run_all n) k s → k + work_left s ≤ 3 * n + 3
Steps-left n here = omega (arith, serving_count-fresh n, up_count-fresh n, length-fresh n)
Steps-left n (next r st) = omega (arith, Steps-left n r, work_left-Step st (Steps-IsSound r))

-- However the goroutines interleave and whatever the servers return, a run of runAll on n servers
-- has 3 n + 3 steps at most, its own and theirs.
pub run_all_bound : (n : ℕ) {k : ℕ} {s : System} → Steps (run_all n) k s → k ≤ 3 * n + 3
run_all_bound n steps = omega (arith, Steps-left n steps)

-- A step that is possible, unless runAll has returned.
Step-at :
    (n : ℕ) (s : System) (p : Pc)
    → s.pc ≡ p
    → IsSound n s
    → ((t : System) × Step s t) ⊎ ((r : Option Text) × (p ≡ returned r))
Step-at n s selecting e i = inl (_, cancelled e)
Step-at n s (draining se k) e i = elim (Bool-cases (up_count s.servers == 0)) [
  | inl z ↦ inl (_, drained se k e (All-of_count (λ v. v.up) s.servers (ground arith)))
  | inr more ↦
      let (left, v, right, at, u) = split_of_count (λ v. v.up) s.servers (ground arith) in
      inl (_, shuts_down se k left v right none e at u)
]
Step-at n s (collecting se k) e i =
    let (a, b, c) = subst (AtPc s) e i.at in
    elim (Bool-cases (length s.servers == k)) [
      | inl full ↦ inl (_, returns se k e (ground arith))
      | inr more ↦ elim (Bool-cases (ltb k (length s.errc))) [
        | inl there ↦
            let (x, g) = get_elem?-of_lt k s.errc (ground arith) in
            inl (_, receives se k x e (ground arith) g)
        | inr empty ↦
            let (left, v, right, at, u) =
              split_of_count (λ v. v.serving) s.servers (ground arith) in
            inl (_, stops left v right server_closed at u)
      ]
    ]
Step-at n s (returned r) e i = inr (r, refl)

Steps-trans : {s t u : System} {j k : ℕ} → Steps s j t → Steps t k u → (m : ℕ) × Steps s m u
Steps-trans r here = (_, r)
Steps-trans r (next q st) = let (m, x) = Steps-trans r q in (suc m, next x st)

ends_within :
    (fuel n : ℕ) (s : System)
    → work_left s < fuel
    → IsSound n s
    → (j : ℕ) × (t : System) × (r : Option Text) × Steps s j t × (t.pc ≡ returned r)
ends_within zero n s h i = absurd (omega arith)
ends_within (suc fuel) n s h i = elim (Step-at n s s.pc refl i) [
  | inr (r, e) ↦ (0, s, r, here, e)
  | inl (t, st) ↦
      let (j, u, r, steps, e) =
        ends_within fuel n t (omega (arith, h, work_left-Step st i)) (Step-IsSound st i) in
      let (m, all) = Steps-trans (next here st) steps in (m, u, r, all, e)
]

-- Wherever a run of runAll has got to, it can go on until runAll has returned: no interleaving leads
-- to a deadlock, whatever servers have failed and whether or not a stop was asked for.
pub run_all_ends :
    (n : ℕ) {k : ℕ} {s : System}
    → Steps (run_all n) k s
    → (j : ℕ) × (t : System) × (r : Option Text) × Steps s j t × (t.pc ≡ returned r)
run_all_ends n {s = s} steps =
    ends_within (suc (work_left s)) n s (omega arith) (Steps-IsSound steps)
