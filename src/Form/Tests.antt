-- ===== src/Form/Tests.antt =====
-- Forms at concrete parsers, and the theorem at an input that meets its hypothesis.
use nitrokit.Prelude.{
  ◌≡◌, inl, inr, refl, true, false, none, some, [], ◌∷◌, pos, leb_ℤ, if◌then◌else◌,
}
use nitrokit.Text.{Text, codes}
use nitrokit.Http.{Response, close_past_cap}
use nitrokit.Http.Laws.{closing}
use nitrokit.Form.{max_bytes_error, FormParsers, read_form, read_form_lem, error_answer}

code : Unit {0}
unfolding read_form close_past_cap
code = tt

-- A request is its media type and its body; a form is its body, a multipart form has a part more.
abbrev parsers : FormParsers (Text × Text) Text
parsers = record {
  media_type = λ (media, b). media;
  parse_multipart = λ cap memory (media, b). (inl (0 ∷ b), false);
  parse_form =
      λ cap (media, b). if leb_ℤ (pos 4) cap then (inl b, false) else (inr max_bytes_error, true);
}

abbrev fresh : Response
fresh = record { header = []; sent = none; body = [] }

read_form_tests :
    (read_form parsers true fresh (codes "multipart/form-data", codes "a=1") (pos 1)
      ≡ (some (0 ∷ codes "a=1"), fresh))
    × (read_form parsers true fresh ([], codes "a=1") (pos 9) ≡ (some (codes "a=1"), fresh))
unfolding code
read_form_tests = (refl, refl)

read_form_error_test :
    read_form parsers true fresh ([], codes "a=1") (pos 3)
    ≡ (none, error_answer parsers true (closing true fresh) 413 (codes "request body too large"))
read_form_error_test = read_form_lem parsers true fresh ([], codes "a=1") (pos 3) (refl, refl)
