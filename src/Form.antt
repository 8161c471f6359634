-- ===== src/Form.antt =====
-- form.go. The parsing of media types and of form bodies is the Go library's, an argument here.
mod Tests
use nitrokit.Prelude.{
  ℕ, ap, ◌∙◌, ◌^◌, ◌*◌, ◌≡◌, refl, ◌↔◌, Bool, true, false, not, ◌&&◌, Option, none, some, List, [],
  ◌∷◌, ◌++◌, if◌then◌else◌, ℤ, pos, leb_ℤ, arith, Option-cases, Bool-cases, inl, inr, ◌⊎◌,
}
use nitrokit.Text.{Text, codes, text_beq, text_beq_iff}
use nitrokit.Http.{
  Response, Sent, close_past_cap, http_error, status_too_large, status_bad_request, IsFresh,
}
use nitrokit.Http.Laws.{error_fields, http_error_lem, closing, close_past_cap_lem}

abbrev pub max_multipart_memory : ℕ
max_multipart_memory = 10 * 2 ^ 20

pub data FormError : Type 0 where
  max_bytes_error other_error : FormError

-- What the Go library does with a request: the media type of a Content-Type (empty if it has
-- none), and the two parsers, on a body that is cut off at a number of bytes. The multipart parser
-- also takes the bytes that it may keep in memory. A form is a value of `F`; beside their result, the
-- parsers say whether the body was read past its cap.
pub record FormParsers (R F : Type 0) : Type 0 where
  pub media_type : R → Text
  pub parse_multipart : ℤ → ℤ → R → (F ⊎ FormError) × Bool
  pub parse_form : ℤ → R → (F ⊎ FormError) × Bool

abbrev min_ℤ : ℤ → ℤ → ℤ
min_ℤ a b = if leb_ℤ a b then a else b

-- `own` says whether the writer is net/http's own.
module _ {R F : Type 0} (ps : FormParsers R F) (own : Bool) where
  -- The parser that the Content-Type chooses.
  unfoldable pub parse_body : R → ℤ → (F ⊎ FormError) × Bool
  parse_body r max_bytes =
      if text_beq (ps.media_type r) (codes "multipart/form-data")
      then ps.parse_multipart max_bytes (min_ℤ max_bytes (pos max_multipart_memory)) r
      else ps.parse_form max_bytes r

  unfoldable pub parse_result : Response → F ⊎ FormError → Option F × Response
  parse_result w (inl form) = (some form, w)
  parse_result w (inr max_bytes_error) =
      (none, http_error (codes "request body too large") status_too_large w)
  parse_result w (inr other_error) = (none, http_error (codes "bad form") status_bad_request w)

  -- `none` for false; the form stands for true and the fields that are set in the request.
  unfoldable pub read_form : Response → R → ℤ → Option F × Response
  unfolding parse_body parse_result
  read_form w r max_bytes =
      let (result, past) = parse_body r max_bytes in parse_result (close_past_cap own past w) result

  -- A plain-text error on a fresh response.
  abbrev pub error_answer : Response → ℕ → Text → Response
  error_answer w status t = record {
    header = error_fields w.header;
    sent = some (record { status = status; fields = error_fields w.header });
    body = t ++ 10 ∷ [];
  }

  answer_lem :
      (w : Response)
      → IsFresh w
      → (x : F ⊎ FormError)
      → parse_result w x ≡ (elim x [
        | inl form ↦ (some form, w)
        | inr max_bytes_error ↦
            (none, error_answer w status_too_large (codes "request body too large"))
        | inr other_error ↦ (none, error_answer w status_bad_request (codes "bad form"))
      ])
  unfolding parse_result
  answer_lem w fresh (inl form) = refl
  answer_lem w fresh (inr max_bytes_error) =
      ap (λ x. (none, x))
        (http_error_lem (codes "request body too large") status_too_large w fresh refl)
  answer_lem w fresh (inr other_error) =
      ap (λ x. (none, x)) (http_error_lem (codes "bad form") status_bad_request w fresh refl)

  -- On a fresh response: a body of multipart type goes to the multipart parser, any other to the
  -- plain one, both under the caller's cap; a form leaves the response alone, a body over the cap
  -- is answered by 413 and any other failure by 400, and then, and only then, the result is
  -- false. In each case Connection: close is set if the body was read past its cap and the writer
  -- is net/http's own.
  pub read_form_lem :
      (w : Response) (r : R) (max_bytes : ℤ)
      → IsFresh w
      → let (result, past) =
          if text_beq (ps.media_type r) (codes "multipart/form-data")
          then ps.parse_multipart max_bytes (min_ℤ max_bytes (pos max_multipart_memory)) r
          else ps.parse_form max_bytes r in
        let w1 = closing (own && past) w in
        read_form w r max_bytes ≡ (elim result [
          | inl form ↦ (some form, w1)
          | inr max_bytes_error ↦
              (none, error_answer w1 status_too_large (codes "request body too large"))
          | inr other_error ↦ (none, error_answer w1 status_bad_request (codes "bad form"))
        ])
  unfolding read_form parse_body
  read_form_lem w r max_bytes fresh =
      let (result, past) = parse_body r max_bytes in
      ap (λ x. parse_result x result) (close_past_cap_lem own past w fresh)
      ∙ answer_lem (closing (own && past) w) fresh result
