-- ===== src/Env.antt =====
-- env.go. The environment is a function: the value of a variable, empty if it is unset. The parsers
-- are strconv's and time's, arguments here: a value, or the text of the error.
pub mod Outcome
mod Tests
use nitrokit.Prelude.{
  ℕ, Bool, true, false, Option, none, some, List, [], ◌∷◌, ◌++◌, if◌then◌else◌, ◌⊎◌, inl, inr,
}
use nitrokit.Text.{Text, codes, text_beq}

-- os.Getenv
abbrev pub Environment : Type 0
Environment = Text → Text

-- What strconv and time parse, and Go's zero value of the type.
pub record Parser (A : Type 0) : Type 0 where
  pub parse : Text → A ⊎ Text
  pub zero_value : A

-- A Go result with its error.
pub record Result (A : Type 0) : Type 0 where
  pub val : A
  pub err : Option Text

unfoldable pub env_or : Environment → Text → Text → Text
env_or getenv key fallback = let v = getenv key in if text_beq v [] then fallback else v

-- fmt.Errorf("%s: %w", key, err)
unfoldable pub key_error : Text → Text → Text
key_error key err = key ++ codes ": " ++ err

-- The body that the four functions below share word for word.
unfoldable pub env_parsed : {A : Type 0} → Parser A → Environment → Text → A → Result A
unfolding key_error
env_parsed p getenv key fallback =
    let v = getenv key in
    if text_beq v [] then record { val = fallback; err = none } else (elim (p.parse v) [
      | inr err ↦ record { val = p.zero_value; err = some (key_error key err) }
      | inl x ↦ record { val = x; err = none }
    ])

module _ (getenv : Environment) where
  -- strconv.Atoi
  abbrev pub env_int : {Z : Type 0} → Parser Z → Text → Z → Result Z
  env_int atoi key fallback = env_parsed atoi getenv key fallback

  -- strconv.ParseFloat at 64 bits
  abbrev pub env_float : {F : Type 0} → Parser F → Text → F → Result F
  env_float parse_float key fallback = env_parsed parse_float getenv key fallback

  -- strconv.ParseBool
  abbrev pub env_bool : (Text → Bool ⊎ Text) → Text → Bool → Result Bool
  env_bool parse_bool key fallback =
      env_parsed (record { parse = parse_bool; zero_value = false }) getenv key fallback

  -- time.ParseDuration
  abbrev pub env_duration : {D : Type 0} → Parser D → Text → D → Result D
  env_duration parse_duration key fallback = env_parsed parse_duration getenv key fallback
