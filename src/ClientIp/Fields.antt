-- ===== src/ClientIp/Fields.antt =====
-- What parse_fields makes of one field of a trust list.
use nitrokit.Prelude.{
  ◌≡◌, ◌≢◌, ◌⊎◌, inl, inr, refl, none, some, List, [], ◌∷◌, ◌++◌, arith, Option-cases,
}
use nitrokit.Text.{Text, trim_space}
use nitrokit.Netip.{Prefix, unmap, bit_len, prefix_from, masked, parse_addr, parse_prefix}
use nitrokit.Netip.Blocks.{masked-masked}
use nitrokit.ClientIp.{bad_field, field_prefix, parse_fields}

-- The host bits are cleared.
abbrev pub IsMasked : Prefix → Type 0
IsMasked n = masked n ≡ n

pub field_prefix-IsMasked : (f : Text) (n : Prefix) → field_prefix f ≡ some n → IsMasked n
unfolding field_prefix
field_prefix-IsMasked f n h = elim (Option-cases (parse_prefix f)) [
  | inl e ↦ elim (Option-cases (parse_addr f)) [
    | inl e' ↦ ground arith
    | inr (a, e') ↦ let b = unmap a in ground (arith, masked-masked (prefix_from b (bit_len b)))
  ]
  | inr (m, e) ↦ ground (arith, masked-masked m)
]

-- One turn of the loop, by the trimmed field.
pub parse_fields-blank :
    (nets : List Prefix) (f : Text) (fs : List Text)
    → trim_space f ≡ []
    → parse_fields nets (f ∷ fs) ≡ parse_fields nets fs
unfolding parse_fields
parse_fields-blank nets f fs e = ground arith

pub parse_fields-bad :
    (nets : List Prefix) (f : Text) (fs : List Text)
    → trim_space f ≢ []
    → field_prefix (trim_space f) ≡ none
    → parse_fields nets (f ∷ fs) ≡ bad_field (trim_space f)
unfolding parse_fields
parse_fields-bad nets f fs ne e = ground arith

pub parse_fields-good :
    (nets : List Prefix) (f : Text) (fs : List Text) (n : Prefix)
    → trim_space f ≢ []
    → field_prefix (trim_space f) ≡ some n
    → parse_fields nets (f ∷ fs) ≡ parse_fields (nets ++ n ∷ []) fs
unfolding parse_fields
parse_fields-good nets f fs n ne e = ground arith

pub data FieldCase (f : Text) : Type 0 where
  blank : trim_space f ≡ [] → FieldCase f
  bad : trim_space f ≢ [] → field_prefix (trim_space f) ≡ none → FieldCase f
  good : (n : Prefix) → trim_space f ≢ [] → field_prefix (trim_space f) ≡ some n → FieldCase f

pub nil_cases : (s : Text) → (s ≡ []) ⊎ (s ≢ [])
nil_cases [] = inl refl
nil_cases (c ∷ s) = inr (λ e. cc)

pub field_case : (f : Text) → FieldCase f
field_case f = elim (nil_cases (trim_space f)) [
  | inl e ↦ blank e
  | inr ne ↦ elim (Option-cases (field_prefix (trim_space f))) [
    | inl e ↦ bad ne e
    | inr (n, e) ↦ good n ne e
  ]
]
