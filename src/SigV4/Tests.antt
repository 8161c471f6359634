-- ===== src/SigV4/Tests.antt =====
-- Concrete names, and the theorem at one of them.
use nitrokit.Prelude.{Option, none, some, ◌≡◌, List, ◌<◌, refl, [], ◌∷◌, arith, All}
use nitrokit.Text.{Text, text_eq, codes, has_byte, join, to_lower, has_prefix, trim_space, hex}
use nitrokit.Dict.{Dict, lookup, insert}
use mathlib.Core.List.Perm
use nitrokit.SigV4.Order.{authorization-Perm}
use nitrokit.SigV4.SortSample.{sort, sort-IsSort}
use nitrokit.SigV4.Sign.{
  Header, Request, Primitives, Credentials, sign_v4, authorization, sign_v4-authorization,
}
use nitrokit.SigV4.{
  upper_digit, escape_byte, aws_escape, canonical_query, canonical_uri, parts_of_names, query_parts,
}
use nitrokit.SigV4.Decode.{percent_decode, percent_decode-aws_escape}

code : Unit {0}
unfolding aws_escape escape_byte upper_digit has_byte
code = tt

aws_escape_tests :
    (aws_escape (codes "a b/c~") ≡ codes "a%20b%2Fc~")
    × (aws_escape (195 ∷ 169 ∷ []) ≡ codes "%C3%A9")
    × (aws_escape [] ≡ [])
unfolding code
aws_escape_tests = (refl, refl, refl)

canonical_tests :
    (canonical_query
        (λ xs. xs)
        ((codes "a", codes "1" ∷ codes "x y" ∷ []) ∷ (codes "b", [] ∷ []) ∷ [])
      ≡ codes "a=1&a=x%20y&b=")
    × (canonical_uri [] [] ≡ codes "/")
unfolding code canonical_query canonical_uri parts_of_names query_parts lookup join
canonical_tests = (refl, refl)

bytes : All (λ c. c < 256) (codes "a b%")
bytes = ground arith

percent_decode-aws_escape_example : percent_decode (aws_escape (codes "a b%")) ≡ codes "a b%"
percent_decode-aws_escape_example = percent_decode-aws_escape (codes "a b%") bytes

abbrev primitives : Primitives
primitives = record {
  sha256 = λ s. 1 ∷ [];
  hmac_sha256 = λ k s. 2 ∷ [];
  sorted = λ xs. xs;
  amz_format = λ t. codes "20250102T030405Z";
}

abbrev unsigned : Request
unsigned = record {
  method = codes "GET";
  host = [];
  url_host = codes "h";
  path = codes "/p";
  escaped_path = codes "/p";
  query = [];
  header = (codes "Content-Type", codes " text/plain" ∷ []) ∷ [];
}

abbrev credentials : Credentials
credentials = record { access_key = codes "A"; secret_key = codes "S"; session_token = codes "T" }

abbrev or_unsigned : Option Request → Request
or_unsigned none = unsigned
or_unsigned (some r) = r

abbrev signed : Request
signed = or_unsigned (sign_v4 primitives credentials (codes "r") (codes "s") 0 unsigned (codes "b"))

sign_v4_test :
    sign_v4 primitives credentials (codes "r") (codes "s") 0 unsigned (codes "b") ≡ some signed
unfolding sign_v4 code canonical_query canonical_uri parts_of_names query_parts lookup insert
    to_lower has_prefix trim_space join hex
sign_v4_test = refl

sign_v4-authorization_example :
    (a : Text) × (authorization primitives credentials (codes "r") (codes "s") 0 signed (codes "b")
      ≡ some a)
    × (lookup (codes "Authorization") signed.header ≡ some (a ∷ []))
sign_v4-authorization_example =
    sign_v4-authorization primitives credentials (codes "r") (codes "s") 0 unsigned signed
      (codes "b") sign_v4_test

abbrev sorting : Primitives
sorting = record primitives { sorted = sort }

-- A header and a query of two names each, in one order and in the other.
abbrev length_field : Text × List Text
length_field = (codes "X-Amz-Meta", codes "9" ∷ [])

abbrev type_field : Text × List Text
type_field = (codes "Content-Type", codes "text/plain" ∷ [])

abbrev query_a : Text × List Text
query_a = (codes "a", codes "1" ∷ [])

abbrev query_b : Text × List Text
query_b = (codes "b", codes "2" ∷ [])

abbrev two_fields : Request
two_fields = record unsigned {
  header = type_field ∷ length_field ∷ [];
  query = query_b ∷ query_a ∷ [];
}

abbrev other_header : Header
other_header = length_field ∷ type_field ∷ []

abbrev other_query : Dict Text (List Text)
other_query = query_a ∷ query_b ∷ []

authorization-Perm_example :
    authorization sorting credentials
      (codes "r")
      (codes "s")
      0
      (record two_fields { header = other_header; query = other_query })
      (codes "b")
    ≡ authorization sorting credentials (codes "r") (codes "s") 0 two_fields (codes "b")
unfolding lookup to_lower
authorization-Perm_example =
    authorization-Perm sorting credentials (codes "r") (codes "s") 0 sort-IsSort two_fields
      (codes "b") other_header other_query (Perm.swap length_field type_field []) (refl, (refl, tt))
      (Perm.swap query_a query_b []) (refl, (refl, tt))
