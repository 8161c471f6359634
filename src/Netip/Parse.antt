-- ===== src/Netip/Parse.antt =====
-- netip.ParseAddr and netip.ParsePrefix. `none` is an error.
use nitrokit.Prelude.{
  ℕ, ◌+◌, ◌*◌, ◌-◌, ◌/◌, ◌%◌, ◌^◌, ◌&&◌, ◌||◌, Option, none, some, List, [], ◌∷◌, ◌++◌, ◌==◌, leb,
  ltb, if◌then◌else◌, ◌≡◌, refl, length,
}
use mathlib.Core.Option
use nitrokit.Text.{Text, codes, split, cut, cut_last, is_digit, digits_value, has_byte}
use nitrokit.Netip.Defs.{Addr, v4, v6, Prefix, prefix_from, bit_len}

infixl 5 ◌>>=◌
abbrev ◌>>=◌ {ℓ κ} : {A : Type ℓ} {B : Type κ} → Option A → (A → Option B) → Option B
none >>= f = none
some a >>= f = f a

-- An octet: digits only, no leading zero, at most 255.
octet : Text → Option ℕ
octet [] = none
octet (c ∷ s) = do
  n ← digits_value 0 (c ∷ s)
  if (c == b'0' && ltb 0 (length s)) || ltb 255 n then none else some n

-- Four octets between dots.
parse_v4_fields : List Text → Option ℕ
unfolding octet
parse_v4_fields (a ∷ b ∷ c ∷ d ∷ []) = do
  w ← octet a
  x ← octet b
  y ← octet c
  z ← octet d
  some (((w * 256 + x) * 256 + y) * 256 + z)
parse_v4_fields _ = none

parse_v4 : Text → Option ℕ
unfolding parse_v4_fields
parse_v4 s = parse_v4_fields (split b'.' s)

hex_digit : ℕ → Option ℕ
hex_digit c =
    if is_digit c
    then some (c - 48)
    else if leb b'a' c && leb c b'f'
    then some (c - 87)
    else if leb b'A' c && leb c b'F'
    then some (c - 55)
    else none

hex_value : ℕ → Text → Option ℕ
unfolding hex_digit
hex_value acc [] = some acc
hex_value acc (c ∷ s) = do d ← hex_digit c; hex_value (acc * 16 + d) s

-- A group: one to four hexadecimal digits.
group : Text → Option (List ℕ)
unfolding hex_value
group s =
    if length s == 0 || ltb 4 (length s) then none else Option.map (λ n. n ∷ []) (hex_value 0 s)

-- The last field: a group, or an IPv4 address that fills two groups.
last_group : Text → Option (List ℕ)
unfolding group parse_v4
last_group s =
    if has_byte b'.' s
    then Option.map (λ n. (n / 65536) ∷ (n % 65536) ∷ []) (parse_v4 s)
    else group s

-- Fields between colons, none of them the last of the text.
groups : List Text → Option (List ℕ)
unfolding group
groups [] = some []
groups (f ∷ fs) = do a ← group f; b ← groups fs; some (a ++ b)

-- Fields between colons, up to the end of the text.
final_groups : List Text → Option (List ℕ)
unfolding last_group
final_groups [] = some []
final_groups (f ∷ []) = last_group f
final_groups (f ∷ g ∷ fs) = do a ← group f; b ← final_groups (g ∷ fs); some (a ++ b)

fields : Text → List Text
fields [] = []
fields (c ∷ s) = split b':' (c ∷ s)

-- The first "::" of a text: what stands before and after it.
cut_ellipsis : Text → Option (Text × Text)
cut_ellipsis [] = none
cut_ellipsis (c ∷ []) = none
cut_ellipsis (c ∷ d ∷ s) =
    let rest = Option.map (λ (p : Text × Text). (c ∷ p.0, p.1)) (cut_ellipsis (d ∷ s)) in
    if c == b':' && d == b':' then some ([], s) else rest

-- Groups of 16 bits as one number.
from_groups : ℕ → List ℕ → ℕ
from_groups acc [] = acc
from_groups acc (g ∷ gs) = from_groups (acc * 65536 + g) gs

-- The groups around an ellipsis, which stands for at least one group of zeros.
expand : List ℕ → List ℕ → Option ℕ
unfolding from_groups
expand left right =
    let count = length left + length right in
    if leb count 7
    then some (from_groups 0 left * 65536 ^ (8 - length left) + from_groups 0 right)
    else none

parse_v6_bare : Text → Option ℕ
unfolding groups final_groups fields cut_ellipsis expand
parse_v6_bare s = elim (cut_ellipsis s) [
  | none ↦ do
    gs ← final_groups (split b':' s)
    if length gs == 8 then some (from_groups 0 gs) else none
  | some (left, right) ↦ do a ← groups (fields left); b ← final_groups (fields right); expand a b
]

-- A zone, if there is a '%', is not empty.
parse_v6 : Text → Option Addr
unfolding parse_v6_bare
parse_v6 s = elim (cut b'%' s) [
  | none ↦ Option.map (λ n. v6 n []) (parse_v6_bare s)
  | some (_, []) ↦ none
  | some (t, z ∷ zone) ↦ Option.map (λ n. v6 n (z ∷ zone)) (parse_v6_bare t)
]

-- The first of '.', ':' and '%' tells the family.
family : Text → Text → Option Addr
unfolding parse_v4 parse_v6
family s [] = none
family s (c ∷ t) =
    let rest = family s t in
    if c == b'.'
    then Option.map v4 (parse_v4 s)
    else if c == b':'
    then parse_v6 s
    else if c == b'%'
    then none
    else rest

unfoldable pub parse_addr : Text → Option Addr
unfolding family split cut is_digit digits_value has_byte
parse_addr s = family s s

-- The length of a prefix: digits only, no leading zero.
prefix_bits : Text → Option ℕ
prefix_bits [] = none
prefix_bits (c ∷ s) = if c == b'0' && ltb 0 (length s) then none else digits_value 0 (c ∷ s)

-- A prefix takes no zone.
abbrev zone_of : Addr → Text
zone_of (v6 n zone) = zone
zone_of _ = []

unfoldable pub parse_prefix : Text → Option Prefix
unfolding parse_addr prefix_bits cut_last bit_len prefix_from
parse_prefix s = do
  p ← cut_last b'/' s
  a ← parse_addr p.0
  n ← prefix_bits p.1
  if ltb 0 (length (zone_of a)) || ltb (bit_len a) n then none else some (prefix_from a n)

parse_tests :
    (parse_addr (codes "10.0.0.1") ≡ some (v4 0x0a000001))
    × (parse_addr (codes "::1") ≡ some (v6 1 []))
    × (parse_addr (codes "fe80::1:2%eth0")
        ≡ some (v6 0xfe800000_00000000_00000000_00010002 (codes "eth0")))
    × (parse_addr (codes "::ffff:192.168.0.1") ≡ some (v6 0xffff_c0a80001 []))
    × (parse_addr (codes "1:2:3:4:5:6:7:8") ≡ some (v6 0x00010002_00030004_00050006_00070008 []))
unfolding parse_addr
parse_tests = (refl, refl, refl, refl, refl)

parse_refusals :
    (parse_addr (codes "10.0.0.01") ≡ none)
    × (parse_addr (codes "10.0.0.256") ≡ none)
    × (parse_addr (codes "1:2:3:4:5:6:7::8") ≡ none)
    × (parse_addr (codes "1::2::3") ≡ none)
    × (parse_addr (codes "::1%") ≡ none)
    × (parse_addr (codes "unknown") ≡ none)
unfolding parse_addr
parse_refusals = (refl, refl, refl, refl, refl, refl)

prefix_tests :
    (parse_prefix (codes "10.1.2.3/8") ≡ some (record { addr = v4 0x0a010203; bits = 8 }))
    × (parse_prefix (codes "::1/128") ≡ some (record { addr = v6 1 []; bits = 128 }))
    × (parse_prefix (codes "10.0.0.0/33") ≡ none)
    × (parse_prefix (codes "10.0.0.0/08") ≡ none)
    × (parse_prefix (codes "10.0.0.0") ≡ none)
unfolding parse_prefix
prefix_tests = (refl, refl, refl, refl, refl)
