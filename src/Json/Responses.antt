-- ===== src/Json/Responses.antt =====
-- What is sent, on every branch.
use nitrokit.Prelude.{
  ℕ, ◌≡◌, ◌↔◌, ◌⊎◌, inl, inr, refl, Bool, true, false, ◌&&◌, Option, none, some, [], ◌∷◌, ◌++◌,
  arith, if◌then◌else◌, ℤ, Option-cases, Bool-cases, ◌∙◌, ap,
}
use nitrokit.Text.{Text, codes, text_beq, text_beq_iff, has_prefix}
use nitrokit.Http.{
  Header, Response, get, set, set_header, write_header, write, status_internal, status_unsupported,
  status_bad_request, string_eq, IsFresh, HasBody,
}
use nitrokit.Http.Laws.{get-set, error_fields, http_error_lem, closing, close_past_cap_lem}
use nitrokit.Json.{
  write_json_bytes, Encoder, write_json, json_error, Decoded, value, error, Request, decode_result,
  is_json, read_json,
}

-- The fields that a JSON response is sent with.
abbrev pub json_fields : Header → Header
json_fields h =
    let h1 = set "Content-Type" (codes "application/json") h in
    if text_beq (get "Cache-Control" h1) [] then set "Cache-Control" (codes "no-store") h1 else h1

-- On a fresh response, with a status that carries a body: a value that cannot be encoded is a
-- clean 500, with nothing of the value and not the status asked for; any other is sent with the
-- status asked for, the JSON fields, and the encoded bytes with a newline.
pub write_json_bytes_lem {ℓ} :
    {V : Type ℓ} (w : Response) (status : ℕ) (v : V) (marshal : V → Option Text)
    → IsFresh w
    → HasBody status
    → write_json_bytes w status v marshal ≡ (elim (marshal v) [
      | none ↦ record {
        header = error_fields w.header;
        sent = some (record { status = status_internal; fields = error_fields w.header });
        body = codes "internal error" ++ 10 ∷ [];
      }
      | some b ↦ record {
        header = json_fields w.header;
        sent = some (record { status = status; fields = json_fields w.header });
        body = b ++ 10 ∷ [];
      }
    ])
unfolding write_json_bytes set_header write_header write
write_json_bytes_lem w status v marshal fresh ok = elim (Option-cases (marshal v)) [
  | inl e ↦ ground (arith, http_error_lem (codes "internal error") status_internal w fresh refl)
  | inr (b, e) ↦
      elim (Bool-cases (
        text_beq (get "Cache-Control" (set "Content-Type" (codes "application/json") w.header))
          [])) [ inl none_set ↦ ground arith | inr policy ↦ ground arith ]
]

-- A Cache-Control that the handler has set is sent as it is, and no-store is sent otherwise.
pub get-json_fields :
    (h : Header)
    → (get "Content-Type" (json_fields h) ≡ codes "application/json")
      × (get "Cache-Control" (json_fields h) ≡ (
          if text_beq (get "Cache-Control" h) [] then codes "no-store" else get "Cache-Control" h))
get-json_fields h =
    let same : get "Cache-Control" (set "Content-Type" (codes "application/json") h)
        ≡ get "Cache-Control" h =
      get-set "Content-Type" "Cache-Control" (codes "application/json") h in
    elim (Bool-cases (text_beq (get "Cache-Control" h) [])) [
      | inl e ↦ simp (same, e) (simp get-set (refl, refl))
      | inr e ↦ simp (same, e) (simp get-set (refl, refl))
    ]

-- A JSON answer on a fresh response.
abbrev pub json_answer : Response → ℕ → Text → Response
json_answer w status b = record {
  header = json_fields w.header;
  sent = some (record { status = status; fields = json_fields w.header });
  body = b ++ 10 ∷ [];
}

json_error-answer {ℓ} :
    {V : Type ℓ} (enc : Encoder V) (w : Response) (status : ℕ) (t b : Text)
    → IsFresh w
    → HasBody status
    → enc.marshal (enc.error_value t) ≡ some b
    → json_error enc w status t ≡ json_answer w status b
unfolding json_error write_json
json_error-answer enc w status t b fresh ok e =
    write_json_bytes_lem w status (enc.error_value t) enc.marshal fresh ok ∙ rw e

has_prefix-append : (p s : Text) → has_prefix (p ++ s) p ≡ true
unfolding has_prefix
has_prefix-append [] [] = refl
has_prefix-append [] (c ∷ s) = refl
has_prefix-append (c ∷ p) s = ground (arith, has_prefix-append p s)

has_prefix_rest : (s p : Text) → has_prefix s p ≡ true → (rest : Text) × (s ≡ p ++ rest)
unfolding has_prefix
has_prefix_rest s [] h = (s, refl)
has_prefix_rest [] (c ∷ p) h = cc
has_prefix_rest (d ∷ s) (c ∷ p) h =
    let (rest, e) = has_prefix_rest s p (ground arith) in (rest, ground arith)

-- The media type application/json, with parameters or without.
abbrev pub IsJsonType : Text → Type 0
IsJsonType ct =
    (ct ≡ codes "application/json") ⊎ ((rest : Text) × (ct ≡ codes "application/json;" ++ rest))

pub is_json_iff : (ct : Text) → (is_json ct ≡ true) ↔ IsJsonType ct
unfolding is_json
is_json_iff ct = (
  λ h. elim (Bool-cases (text_beq ct (codes "application/json"))) [
    | inl e ↦ inl ((text_beq_iff ct (codes "application/json")).0 e)
    | inr e ↦ inr (has_prefix_rest ct (codes "application/json;") (ground arith))
  ],
  elim [
    | inl e ↦ ground (arith, text_beq_iff ct (codes "application/json"))
    | inr (rest, e) ↦
        let p : has_prefix ct (codes "application/json;") ≡ true =
          rw e (has_prefix-append (codes "application/json;") rest) in
        ground arith
  ],
)

module _ {ℓ κ} {V : Type ℓ} {A : Type κ} (enc : Encoder V) (decode : ℤ → Text → Decoded A × Bool)
    (own : Bool) (msg : Text → Text)
    (encodes : (t : Text) → enc.marshal (enc.error_value t) ≡ some (msg t)) where
  -- The response that goes on once the decoder has read the body.
  abbrev pub after_body : Response → Bool → Response
  after_body w past = closing (own && past) w

  of_other_type :
      (w : Response) (r : Request) (max_bytes : ℤ)
      → IsFresh w
      → is_json r.content_type ≡ false
      → read_json enc decode own w r max_bytes
        ≡ (none, json_answer w status_unsupported (msg (codes "expected application/json")))
  unfolding read_json
  of_other_type w r max_bytes fresh no_json =
      let t = codes "expected application/json" in
      rw (no_json, read_json)
        (ap (λ x. (none, x))
          (json_error-answer enc w status_unsupported t (msg t) fresh refl (encodes t)))

  of_json_type :
      (w : Response) (r : Request) (max_bytes : ℤ)
      → IsFresh w
      → is_json r.content_type ≡ true
      → read_json enc decode own w r max_bytes
        ≡ decode_result enc decode own
            (after_body w (decode max_bytes r.body).1)
            (decode max_bytes r.body).0
  unfolding read_json
  of_json_type w r max_bytes fresh json =
      let (d, past) = decode max_bytes r.body in
      rw (json, read_json)
        (ap (λ x. decode_result enc decode own x d) (close_past_cap_lem own past w fresh))

  decode_result_cases :
      (w : Response)
      → IsFresh w
      → (d : Decoded A)
      → ((a : A) × (d ≡ value a) × (decode_result enc decode own w d ≡ (some a, w)))
        ⊎ ((e : Text) × (d ≡ error e)
            × (decode_result enc decode own w d
                ≡ (none, json_answer w status_bad_request (msg (codes "invalid JSON: " ++ e)))))
  unfolding decode_result
  decode_result_cases w fresh (value a) = inl (a, refl, refl)
  decode_result_cases w fresh (error e) =
      let t = codes "invalid JSON: " ++ e in
      inr (
        e,
        refl,
        ap (λ x. (none, x))
            (json_error-answer enc w status_bad_request t (msg t) fresh refl (encodes t)),
      )

  -- If error texts can be encoded, `ReadJSON` on a fresh response does one of three things. Unless
  -- the Content-Type is application/json, alone or followed by a semicolon, it answers 415 and gives
  -- no value. Under that type, with a value of the decoder it gives the value and answers nothing,
  -- and with an error of the decoder it gives none and answers 400 with the text of the error; in
  -- both cases the field Connection: close is set if the body was read past its cap and the writer is
  -- net/http's own, and no field is otherwise set but those of the answer.
  pub read_json_lem :
      (w : Response) (r : Request) (max_bytes : ℤ)
      → IsFresh w
      → ((¬ IsJsonType r.content_type)
          × (read_json enc decode own w r max_bytes
              ≡ (none, json_answer w status_unsupported (msg (codes "expected application/json")))))
        ⊎ ((a : A) × IsJsonType r.content_type
            × ((decode max_bytes r.body).0 ≡ value a)
            × (read_json enc decode own w r max_bytes
                ≡ (some a, after_body w (decode max_bytes r.body).1)))
        ⊎ ((e : Text) × IsJsonType r.content_type
            × ((decode max_bytes r.body).0 ≡ error e)
            × (read_json enc decode own w r max_bytes ≡ (
              none,
              json_answer
                  (after_body w (decode max_bytes r.body).1)
                  status_bad_request
                  (msg (codes "invalid JSON: " ++ e)),
            )))
  read_json_lem w r max_bytes fresh = elim (Bool-cases (is_json r.content_type)) [
    | inr no_json ↦ inl (
      λ h. absurd (ground (arith, no_json, (is_json_iff r.content_type).1 h)),
      of_other_type w r max_bytes fresh no_json,
    )
    | inl json ↦
        let (d, past) = decode max_bytes r.body in
        let same = of_json_type w r max_bytes fresh json in
        let is_type = (is_json_iff r.content_type).0 json in
        elim (decode_result_cases (after_body w past) fresh d) [
          | inl (a, e, q) ↦ inr (inl (a, is_type, e, same ∙ q))
          | inr (t, e, q) ↦ inr (inr (t, is_type, e, same ∙ q))
        ]
  ]
