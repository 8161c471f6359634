-- ===== src/Prelude/Lists.antt =====
-- Lists measured by native numbers, under the library's names, and predicates over lists.
use Prim.Native.Nat.{ℕ, zero, suc, ◌+◌, ◌≤◌, ◌<◌}
use mathlib.Core.Path.{◌≡◌, refl, ap}
use mathlib.Core.Bool.{Bool, true, false}
use mathlib.Core.Option.{Option, none, some}
use mathlib.Core.Logic.{inl, inr}
use nitrokit.Prelude.Tests.{if◌then◌else◌, Bool-cases}
use mathlib.Core.List.{List, [], ◌∷◌, ◌++◌}
use native.Mathlib.Omega.{arith}

-- A predicate by recursion computes to tuples, which the tactics read and build.
module _ {ℓ κ} {A : Type ℓ} (P : A → Type κ) where
  abbrev pub All : List A → Type κ
  All [] = Unit
  All (x ∷ xs) = P x × All xs

  pub All-append : (xs ys : List A) → All xs → All ys → All (xs ++ ys)
  All-append [] ys hx hy = hy
  All-append (x ∷ xs) ys (p, hx) hy = (p, All-append xs ys hx hy)

module _ {ℓ} {A : Type ℓ} where
  abbrev pub length : List A → ℕ
  length [] = 0
  length (x ∷ xs) = suc (length xs)

  abbrev pub take : ℕ → List A → List A
  take zero xs = []
  take (suc n) [] = []
  take (suc n) (x ∷ xs) = x ∷ take n xs

  abbrev pub drop : ℕ → List A → List A
  drop zero xs = xs
  drop (suc n) [] = []
  drop (suc n) (x ∷ xs) = drop n xs

  abbrev pub get_elem? : List A → ℕ → Option A
  get_elem? [] i = none
  get_elem? (x ∷ xs) zero = some x
  get_elem? (x ∷ xs) (suc i) = get_elem? xs i

  pub length-append : (xs ys : List A) → length (xs ++ ys) ≡ length xs + length ys
  length-append [] ys = omega arith
  length-append (x ∷ xs) ys = omega (arith, length-append xs ys)

  pub take-append : (k : ℕ) (xs ys : List A) → k ≤ length xs → take k (xs ++ ys) ≡ take k xs
  take-append zero xs ys h = refl
  take-append (suc k) [] ys h = absurd (omega arith)
  take-append (suc k) (x ∷ xs) ys h = ap (◌∷◌ x) (take-append k xs ys (omega arith))

  pub take-length : (xs : List A) → take (length xs) xs ≡ xs
  take-length [] = refl
  take-length (x ∷ xs) = ap (◌∷◌ x) (take-length xs)

  -- Taking one element more.
  pub take-suc :
      (k : ℕ) (xs : List A) {x : A}
      → get_elem? xs k ≡ some x
      → (take (suc k) xs ≡ take k xs ++ x ∷ []) × (suc k ≤ length xs)
  take-suc zero [] h = cc
  take-suc zero (y ∷ xs) h = (ground arith, omega arith)
  take-suc (suc k) [] h = cc
  take-suc (suc k) (y ∷ xs) h = let (e, l) = take-suc k xs h in (ap (◌∷◌ y) e, omega arith)

  pub get_elem?-of_lt : (k : ℕ) (xs : List A) → k < length xs → (x : A) × (get_elem? xs k ≡ some x)
  get_elem?-of_lt k [] h = absurd (omega arith)
  get_elem?-of_lt zero (x ∷ xs) h = (x, refl)
  get_elem?-of_lt (suc k) (x ∷ xs) h = get_elem?-of_lt k xs (omega arith)

  -- How many elements pass a test.
  abbrev pub count_if : (A → Bool) → List A → ℕ
  count_if f [] = 0
  count_if f (x ∷ xs) = if f x then suc (count_if f xs) else count_if f xs

  pub count_if-append :
      (f : A → Bool) (xs ys : List A) → count_if f (xs ++ ys) ≡ count_if f xs + count_if f ys
  count_if-append f [] ys = omega arith
  count_if-append f (x ∷ xs) ys = ground (arith, count_if-append f xs ys)

  -- Where one of them stands.
  pub split_of_count :
      (f : A → Bool) (xs : List A)
      → 0 < count_if f xs
      → (left : List A) × (x : A) × (right : List A) × (xs ≡ left ++ x ∷ right) × (f x ≡ true)
  split_of_count f [] h = absurd (omega arith)
  split_of_count f (x ∷ xs) h = elim (Bool-cases (f x)) [
    | inl e ↦ ([], x, xs, refl, e)
    | inr e ↦
        let (left, y, right, at, t) = split_of_count f xs (ground arith) in
        (x ∷ left, y, right, ap (◌∷◌ x) at, t)
  ]

  pub All-of_count : (f : A → Bool) (xs : List A) → count_if f xs ≡ 0 → All (λ x. f x ≡ false) xs
  All-of_count f [] h = tt
  All-of_count f (x ∷ xs) h = (ground arith, All-of_count f xs (ground arith))
