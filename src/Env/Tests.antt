-- ===== src/Env/Tests.antt =====
-- Concrete variables, and the theorem at one of them.
use nitrokit.Prelude.{ℕ, ◌≡◌, refl, Bool, true, false, ◌⊎◌, inl, inr, none, some, [], if◌then◌else◌}
use nitrokit.Text.{Text, codes, text_beq}
use nitrokit.Env.{Environment, Parser, env_or, env_parsed, key_error, env_int, env_bool}
use nitrokit.Env.Outcome.{Returns, env_parsed-Returns}

code : Unit {0}
unfolding env_or env_parsed key_error
code = tt

abbrev getenv : Environment
getenv key = if text_beq key (codes "PORT") then codes "8080" else []

abbrev no_bool : Text → Bool ⊎ Text
no_bool t = inr (codes "invalid syntax")

-- A parser of the one number that the tests use.
abbrev port_parser : Parser ℕ
port_parser = record {
  parse = λ t. if text_beq t (codes "8080") then inl 8080 else inr (codes "invalid syntax");
  zero_value = 0;
}

env_tests :
    (env_or getenv (codes "PORT") (codes "1") ≡ codes "8080")
    × (env_or getenv (codes "HOST") (codes "1") ≡ codes "1")
    × (env_int getenv port_parser (codes "PORT") 80 ≡ record { val = 8080; err = none })
    × (env_int getenv port_parser (codes "HOST") 80 ≡ record { val = 80; err = none })
    × (env_bool getenv no_bool (codes "PORT") true
        ≡ record { val = false; err = some (codes "PORT: invalid syntax") })
unfolding code
env_tests = (refl, refl, refl, refl, refl)

env_parsed-Returns_example :
    Returns port_parser
      (codes "8080")
      (codes "PORT")
      80
      (env_parsed port_parser getenv (codes "PORT") 80)
env_parsed-Returns_example = env_parsed-Returns port_parser getenv (codes "PORT") 80
