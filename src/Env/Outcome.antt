-- ===== src/Env/Outcome.antt =====
-- What a call on the environment returns.
use nitrokit.Prelude.{◌≡◌, ◌≢◌, refl, none, some, [], ◌++◌, ◌⊎◌, inl, inr, Bool-cases, arith}
use nitrokit.Text.{Text, codes, text_beq, text_beq_iff}
use nitrokit.Env.{Environment, Parser, Result, key_error, env_parsed}

-- What a typed getter may return: the fallback for a variable that is unset or empty, the value that
-- a variable that is set parses to, or the type's zero value with an error that starts with the
-- variable's name and ends with the parser's message.
pub data Returns {A : Type 0} (p : Parser A) (v key : Text) (fallback : A) (r : Result A)
    : Type 0 where
  default : v ≡ [] → r.val ≡ fallback → r.err ≡ none → Returns p v key fallback r
  parsed : v ≢ [] → p.parse v ≡ inl r.val → r.err ≡ none → Returns p v key fallback r
  failed :
      (cause : Text)
      → v ≢ []
      → p.parse v ≡ inr cause
      → r.val ≡ p.zero_value
      → r.err ≡ some (key ++ codes ": " ++ cause)
      → Returns p v key fallback r

sum_cases : {A B : Type 0} (x : A ⊎ B) → ((a : A) × (x ≡ inl a)) ⊎ ((b : B) × (x ≡ inr b))
sum_cases (inl a) = inl (a, refl)
sum_cases (inr b) = inr (b, refl)

-- Whatever the type, a getter returns in one of three ways: the fallback without an error, exactly
-- for a variable that is unset or empty; the value that the variable parses to, without an error;
-- or the zero value of the type, with an error that names the variable and then gives the parser's.
pub env_parsed-Returns :
    {A : Type 0} (p : Parser A) (getenv : Environment) (key : Text) (fallback : A)
    → Returns p (getenv key) key fallback (env_parsed p getenv key fallback)
unfolding env_parsed key_error
env_parsed-Returns p getenv key fallback = elim (Bool-cases (text_beq (getenv key) [])) [
  | inl unset ↦ rw (unset) (default ((text_beq_iff (getenv key) []).0 unset) refl refl)
  | inr set ↦
      let is_set : getenv key ≢ [] = ground (arith, text_beq_iff (getenv key) []) in
      elim (sum_cases (p.parse (getenv key))) [
        | inl (x, e) ↦ rw (set, e) (parsed is_set e refl)
        | inr (cause, e) ↦ rw (set, e) (failed cause is_set e refl refl)
      ]
]
