-- ===== src/Lifecycle/Counts.antt =====
-- What is counted of the servers of runAll, and the first of their errors.
use nitrokit.Prelude.{
  ℕ, suc, ◌≡◌, refl, ap, true, false, Option, none, some, List, [], ◌∷◌, ◌++◌, arith, length,
  length-append, count_if, count_if-append, map,
}
use nitrokit.Text.{Text, codes}
use nitrokit.Lifecycle.{Stopped, server_closed, failed, sent_error, or_else, shutdown_error, Server}

-- The first error in the order of arrival.
abbrev pub first_error : List (Option Text) → Option Text
first_error [] = none
first_error (e ∷ es) = or_else e (first_error es)

pub or_else_assoc : (a b c : Option Text) → or_else (or_else a b) c ≡ or_else a (or_else b c)
or_else_assoc none b c = refl
or_else_assoc (some e) b c = refl

pub first_error-append :
    (es : List (Option Text)) (e : Option Text)
    → first_error (es ++ e ∷ []) ≡ or_else (first_error es) e
first_error-append [] none = refl
first_error-append [] (some e) = refl
first_error-append (none ∷ es) e = first_error-append es e
first_error-append (some x ∷ es) e = refl

pub map-snoc :
    {A : Type 0} (f : A → Option Text) (es : List A) (e : A)
    → map f (es ++ e ∷ []) ≡ map f es ++ f e ∷ []
map-snoc f [] e = refl
map-snoc f (x ∷ es) e = ap (◌∷◌ (f x)) (map-snoc f es e)

-- The first failure of serving that is not the orderly ErrServerClosed.
abbrev pub first_failure : List Stopped → Option Text
first_failure [] = none
first_failure (server_closed ∷ es) = first_failure es
first_failure (failed e ∷ es) = some e

-- The first error of Shutdown, as runAll reports it.
abbrev pub first_late : List (Option Text) → Option Text
first_late [] = none
first_late (none ∷ es) = first_late es
first_late (some e ∷ es) = some (codes "shutdown: " ++ e)

pub first_error-sent : (es : List Stopped) → first_error (map sent_error es) ≡ first_failure es
first_error-sent [] = refl
first_error-sent (server_closed ∷ es) = first_error-sent es
first_error-sent (failed e ∷ es) = refl

pub first_error-shutdown :
    (es : List (Option Text)) → first_error (map shutdown_error es) ≡ first_late es
first_error-shutdown [] = refl
first_error-shutdown (none ∷ es) = first_error-shutdown es
first_error-shutdown (some e ∷ es) = refl

-- How many servers still serve, and of how many Shutdown has yet to return.
abbrev pub serving_count : List Server → ℕ
serving_count vs = count_if (λ v. v.serving) vs

abbrev pub up_count : List Server → ℕ
up_count vs = count_if (λ v. v.up) vs

-- One server after the other's place in the list.
module _ (left : List Server) (v : Server) (right : List Server) where
  abbrev pub stopped : List Server
  stopped = left ++ record v { serving = false } ∷ right

  abbrev pub shut_down : List Server
  shut_down = left ++ record v { up = false } ∷ right

  pub serving_count-stopped :
      v.serving ≡ true → serving_count (left ++ v ∷ right) ≡ suc (serving_count stopped)
  serving_count-stopped h = ground (
    arith,
    count_if-append (λ w. w.serving) left (v ∷ right),
    count_if-append (λ w. w.serving) left (record v { serving = false } ∷ right),
  )

  pub up_count-stopped : up_count stopped ≡ up_count (left ++ v ∷ right)
  up_count-stopped = ground (
    arith,
    count_if-append (λ w. w.up) left (v ∷ right),
    count_if-append (λ w. w.up) left (record v { serving = false } ∷ right),
  )

  pub serving_count-shut_down : serving_count shut_down ≡ serving_count (left ++ v ∷ right)
  serving_count-shut_down = ground (
    arith,
    count_if-append (λ w. w.serving) left (v ∷ right),
    count_if-append (λ w. w.serving) left (record v { up = false } ∷ right),
  )

  pub up_count-shut_down : v.up ≡ true → up_count (left ++ v ∷ right) ≡ suc (up_count shut_down)
  up_count-shut_down h = ground (
    arith,
    count_if-append (λ w. w.up) left (v ∷ right),
    count_if-append (λ w. w.up) left (record v { up = false } ∷ right),
  )

  pub length-same : (w : Server) → length (left ++ w ∷ right) ≡ length (left ++ v ∷ right)
  length-same w = omega (arith, length-append left (w ∷ right), length-append left (v ∷ right))
