-- ===== src/Result.antt =====
-- Go results with an error, and code that also changes the world: what lies outside the program is a
-- value of `W` that each call of it changes. An error is its text.
pub mod Triple
pub mod Forward
use nitrokit.Prelude.{◌≡◌, ◌⊎◌, inl, inr, refl, ◌++◌}
use nitrokit.Text.{Text, codes}

pub data Result {ℓ} (A : Type ℓ) : Type ℓ where
  ok : A → Result A
  err : Text → Result A

pub Result-cases : {A : Type 0} (r : Result A) → ((a : A) × (r ≡ ok a)) ⊎ ((e : Text) × (r ≡ err e))
Result-cases (ok a) = inl (a, refl)
Result-cases (err e) = inr (e, refl)

-- fmt.Errorf("what: %w", err)
abbrev pub wrap {ℓ} : {A : Type ℓ} → Text → Result A → Result A
wrap what (ok a) = ok a
wrap what (err e) = err (what ++ codes ": " ++ e)

-- A function with an error result that acts on the world.
abbrev pub Io : Type 0 → Type 0 → Type 0
Io W A = W → Result A × W

module _ {W : Type 0} where
  abbrev pub and_then : {A B : Type 0} → Result A × W → (A → Io W B) → Result B × W
  and_then (ok a, w) f = f a w
  and_then (err e, w) f = (err e, w)

  infixl 5 ◌>>=◌ ◌>>◌
  unfoldable pub ◌>>=◌ : {A B : Type 0} → Io W A → (A → Io W B) → Io W B
  ◌>>=◌ m f w = and_then (m w) f

  abbrev pub ◌>>◌ : {B : Type 0} → Io W (Unit {0}) → Io W B → Io W B
  m >> k = m >>= λ _. k

  unfoldable pub return : {A : Type 0} → A → Io W A
  return a w = (ok a, w)

  unfoldable pub fail : {A : Type 0} → Text → Io W A
  fail e w = (err e, w)

  -- A result that does not depend on the world.
  unfoldable pub pure : {A : Type 0} → Result A → Io W A
  pure r w = (r, w)

  unfoldable pub wrapped : {A : Type 0} → Text → Io W A → Io W A
  wrapped what m w = let (r, w') = m w in (wrap what r, w')

  -- `defer`: what is done on the way out, whatever the result.
  unfoldable pub deferred : {A : Type 0} → (W → W) → Io W A → Io W A
  deferred last m w = let (r, w') = m w in (r, last w')
