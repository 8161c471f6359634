-- ===== src/Json/Tests.antt =====
-- Requests and responses at concrete codecs, and the theorems at inputs that meet their hypotheses.
use nitrokit.Prelude.{
  ◌≡◌, ◌↔◌, ◌⊎◌, refl, Bool, true, false, Option, none, some, [], ◌∷◌, ◌++◌, if◌then◌else◌, ℤ, pos,
  negsuc, ltb, length,
}
use nitrokit.Dict.{lookup, insert}
use nitrokit.Text.{Text, codes, text_beq, has_prefix}
use nitrokit.Http.{Response, get, set, set_header, write, close_past_cap, string_eq}
use nitrokit.Http.Laws.{closing}
use nitrokit.Json.{
  write_json_bytes, Encoder, write_json_indent, json_error, Decoded, value, error, Request, is_json,
  read_json, max_json_body,
}
use nitrokit.Json.Responses.{
  json_fields, json_answer, IsJsonType, write_json_bytes_lem, get-json_fields, read_json_lem,
  is_json_iff,
}

code : Unit {0}
unfolding write_json_bytes write_json_indent json_error read_json is_json get lookup insert set
    set_header write has_prefix close_past_cap
code = tt

-- Values that are texts, between quotes; a quote cannot be encoded.
abbrev quoted : Text → Option Text
quoted v = if text_beq v (34 ∷ []) then none else some (34 ∷ v ++ 34 ∷ [])

abbrev quote_codec : Encoder Text
quote_codec = record { marshal = quoted; marshal_indent = quoted; error_value = λ t. 101 ∷ t }

-- A decoder that takes any body within the cap.
abbrev decode : ℤ → Text → Decoded Text × Bool
decode (pos n) b = if ltb n (length b) then (error (codes "too large"), true) else (value b, false)
decode (negsuc n) b = (error (codes "too large"), true)

abbrev fresh : Response
fresh = record { header = []; sent = none; body = [] }

abbrev cached : Response
cached = record fresh { header = ("Cache-Control", codes "max-age=60" ∷ []) ∷ [] }

abbrev request : Text → Request
request ct = record { content_type = ct; body = codes "[1]" }

is_json_tests :
    (is_json (codes "application/json; charset=utf-8") ≡ true)
    × (is_json (codes "application/jsonx") ≡ false)
    × (is_json [] ≡ false)
unfolding code
is_json_tests = (refl, refl, refl)

read_json_tests :
    (read_json quote_codec decode true fresh
        (request (codes "application/json"))
        (pos max_json_body)
      ≡ (some (codes "[1]"), fresh))
    × ((read_json quote_codec decode true fresh (request (codes "application/json")) (pos 2)).1.body
        ≡ codes "\"einvalid JSON: too large\"\n")
    × ((read_json quote_codec decode true fresh (request (codes "text/json")) (pos 9)).0 ≡ none)
unfolding code
read_json_tests = (refl, refl, refl)

write_json_indent_test :
    (write_json_indent quote_codec cached 201 (codes "a")).sent
    ≡ some (record { status = 201; fields = json_fields cached.header })
unfolding code
write_json_indent_test = refl

write_json_bytes_lem_test : write_json_bytes cached 201 (codes "a") quoted ≡ record {
  header = json_fields cached.header;
  sent = some (record { status = 201; fields = json_fields cached.header });
  body = codes "\"a\"\n";
}
write_json_bytes_lem_test = write_json_bytes_lem cached 201 (codes "a") quoted (refl, refl) refl

json_fields_test :
    (get "Content-Type" (json_fields cached.header) ≡ codes "application/json")
    × (get "Cache-Control" (json_fields cached.header) ≡ codes "max-age=60")
unfolding code
json_fields_test = get-json_fields cached.header

abbrev too_large : Text
too_large = codes "\"einvalid JSON: too large\""

closed_test :
    read_json quote_codec decode true fresh (request (codes "application/json")) (pos 2)
    ≡ (none, json_answer (closing true fresh) 400 too_large)
unfolding code
closed_test = refl

read_json_lem_example :
    let r = request (codes "application/json") in
    ((¬ IsJsonType (codes "application/json"))
      × (read_json quote_codec decode true fresh r (pos 2)
          ≡ (none, json_answer fresh 415 (codes "\"eexpected application/json\""))))
    ⊎ ((a : Text) × IsJsonType (codes "application/json")
        × ((decode (pos 2) (codes "[1]")).0 ≡ value a)
        × (read_json quote_codec decode true fresh r (pos 2) ≡ (some a, closing true fresh)))
    ⊎ ((e : Text) × IsJsonType (codes "application/json")
        × ((decode (pos 2) (codes "[1]")).0 ≡ error e)
        × (read_json quote_codec decode true fresh r (pos 2) ≡ (
          none,
          json_answer
              (closing true fresh)
              400
              (34 ∷ 101 ∷ (codes "invalid JSON: " ++ e) ++ 34 ∷ []),
        )))
unfolding code
read_json_lem_example =
    read_json_lem quote_codec decode true (λ t. 34 ∷ 101 ∷ t ++ 34 ∷ []) (λ t. refl) fresh
      (request (codes "application/json")) (pos 2) (refl, refl)

is_json_iff_test : (is_json (codes "application/json;") ≡ true) ↔ (
    (codes "application/json;" ≡ codes "application/json")
    ⊎ ((rest : Text) × (codes "application/json;" ≡ codes "application/json;" ++ rest)))
is_json_iff_test = is_json_iff (codes "application/json;")
