-- ===== src/SigV4.antt =====
-- sigv4.go: the canonical forms of a path and of a query, and their percent-encoding.
pub mod Decode
pub mod Sign
pub mod Gathering
pub mod Order
mod SortSample
mod Tests
use nitrokit.Prelude.{
  Option, none, some, map, ℕ, ◌+◌, ◌/◌, ◌%◌, Bool, true, false, List, [], ◌∷◌, ◌++◌, ltb,
  if◌then◌else◌,
}
use nitrokit.Dict.{Dict, lookup}
use nitrokit.Text.{Text, codes, has_byte, text_beq, text_eq, join}

abbrev pub unreserved : Text
unreserved = codes "ABCDEFGHIJKLMNOPQRSTUVWXYZabcdefghijklmnopqrstuvwxyz0123456789-._~"

-- strings.ToUpper of a digit of hex.EncodeToString
unfoldable pub upper_digit : ℕ → ℕ
upper_digit d = if ltb d 10 then 48 + d else 55 + d

unfoldable pub escape_byte : ℕ → Text
unfolding upper_digit
escape_byte c =
    if has_byte c unreserved
    then c ∷ []
    else b'%' ∷ upper_digit (c / 16) ∷ upper_digit (c % 16) ∷ []

unfoldable pub aws_escape : Text → Text
unfolding escape_byte
aws_escape [] = []
aws_escape (c ∷ s) = escape_byte c ++ aws_escape s

-- The path as the URL of the request has it, and its EscapedPath.
unfoldable pub canonical_uri : Text → Text → Text
canonical_uri path escaped_path = if text_beq path [] then codes "/" else escaped_path

-- The inner loop: one name with its values.
unfoldable pub query_parts : Text → List Text → List Text
query_parts n [] = []
query_parts n (v ∷ vals) = (aws_escape n ++ codes "=" ++ aws_escape v) ∷ query_parts n vals

abbrev values : Option (List Text) → List Text
values none = []
values (some vals) = vals

-- The query as the URL parses it, a name with its values; `sorted` is slices.Sort.
module _ (sorted : List Text → List Text) (q : Dict Text (List Text)) where
  unfoldable pub parts_of_names : List Text → List Text
  unfolding query_parts
  parts_of_names [] = []
  parts_of_names (n ∷ names) = query_parts n (sorted (values (lookup n q))) ++ parts_of_names names

  unfoldable pub canonical_query : Text
  unfolding parts_of_names
  canonical_query = join b'&' (parts_of_names (sorted (map (λ p. p.0) q)))
