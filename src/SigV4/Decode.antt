-- ===== src/SigV4/Decode.antt =====
-- The encoding can be undone, and uses no byte outside the unreserved ones but the percent sign.
use nitrokit.Prelude.{
  ℕ, ◌+◌, ◌-◌, ◌*◌, ◌/◌, ◌%◌, ◌<◌, ◌≡◌, ◌≢◌, inl, inr, refl, ap, ◌∙◌, true, false, [], ◌∷◌, arith,
  All, ◌==◌, ltb, if◌then◌else◌, Bool-cases,
}
use nitrokit.Text.{Text, has_byte}
use nitrokit.SigV4.{unreserved, upper_digit, escape_byte, aws_escape}

-- The value of an upper-case hexadecimal digit.
abbrev digit_value : ℕ → ℕ
digit_value c = if ltb c 65 then c - 48 else c - 55

-- Percent-decoding as RFC 3986 has it.
pub percent_decode : Text → Text
percent_decode [] = []
percent_decode (c ∷ []) = c ∷ []
percent_decode (c ∷ a ∷ []) = c ∷ a ∷ []
percent_decode (c ∷ a ∷ b ∷ s) =
    let two = percent_decode s in
    let one = percent_decode (a ∷ b ∷ s) in
    if c == b'%' then (digit_value a * 16 + digit_value b) ∷ two else c ∷ one

digit_value-upper_digit : (d : ℕ) → d < 16 → digit_value (upper_digit d) ≡ d
unfolding upper_digit
digit_value-upper_digit d h = ground arith

not_percent : (c : ℕ) → has_byte c unreserved ≡ true → c ≢ b'%'
unfolding has_byte
not_percent c h e = let no : has_byte c unreserved ≡ false = ap (λ d. has_byte d unreserved) e in cc

decode_plain : (c : ℕ) (s : Text) → c ≢ b'%' → percent_decode (c ∷ s) ≡ c ∷ percent_decode s
unfolding percent_decode
decode_plain c [] h = refl
decode_plain c (a ∷ []) h = refl
decode_plain c (a ∷ b ∷ s) h = ground arith

decode_escaped :
    (a b : ℕ) (s : Text)
    → percent_decode (b'%' ∷ a ∷ b ∷ s) ≡ (digit_value a * 16 + digit_value b) ∷ percent_decode s
unfolding percent_decode
decode_escaped a b s = refl

digits_of_byte :
    (c : ℕ)
    → c < 256
    → digit_value (upper_digit (c / 16)) * 16 + digit_value (upper_digit (c % 16)) ≡ c
digits_of_byte c h =
    let high : c / 16 < 16 = omega arith in
    let low : c % 16 < 16 = omega arith in
    rw (digit_value-upper_digit (c / 16) high, digit_value-upper_digit (c % 16) low) (omega arith)

escape_plain : (c : ℕ) → has_byte c unreserved ≡ true → escape_byte c ≡ c ∷ []
unfolding escape_byte
escape_plain c h = rw (escape_byte, h) refl

escape_other :
    (c : ℕ)
    → has_byte c unreserved ≡ false
    → escape_byte c ≡ b'%' ∷ upper_digit (c / 16) ∷ upper_digit (c % 16) ∷ []
unfolding escape_byte
escape_other c h = rw (escape_byte, h) refl

-- Decoding a name or value that was encoded gives its bytes back.
pub percent_decode-aws_escape :
    (s : Text) → All (λ c. c < 256) s → percent_decode (aws_escape s) ≡ s
unfolding aws_escape percent_decode
percent_decode-aws_escape [] h = refl
percent_decode-aws_escape (c ∷ s) (p, h) = elim (Bool-cases (has_byte c unreserved)) [
  | inl plain ↦ rw (escape_plain c plain) (
      decode_plain c (aws_escape s) (not_percent c plain)
      ∙ ap (◌∷◌ c) (percent_decode-aws_escape s h))
  | inr other ↦ rw (escape_other c other) (
      decode_escaped (upper_digit (c / 16)) (upper_digit (c % 16)) (aws_escape s)
      ∙ rw (digits_of_byte c p, percent_decode-aws_escape s h) refl)
]
