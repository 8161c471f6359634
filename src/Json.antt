-- ===== src/Json.antt =====
-- json.go. Encoding and decoding are encoding/json's: `marshal` and `decode` are arguments.
pub mod Responses
mod Tests
use nitrokit.Prelude.{
  ℕ, Bool, true, false, not, ◌&&◌, Option, none, some, List, [], ◌∷◌, ◌++◌, ◌^◌, ◌*◌, if◌then◌else◌,
  ℤ,
}
use nitrokit.Text.{Text, codes, text_beq, has_prefix}
use nitrokit.Http.{
  Response, get, set, set_header, close_past_cap, write_header, write, http_error, status_internal,
  status_unsupported, status_bad_request,
}

abbrev pub max_json_body : ℕ
max_json_body = 2 ^ 20

unfoldable pub write_json_bytes {ℓ} : {V : Type ℓ} → Response → ℕ → V → (V → Option Text) → Response
write_json_bytes w status v marshal = elim (marshal v) [
  | none ↦ http_error (codes "internal error") status_internal w
  | some b ↦
      let w1 = set_header "Content-Type" (codes "application/json") w in
      let w2 =
        if text_beq (get "Cache-Control" w1.header) []
        then set_header "Cache-Control" (codes "no-store") w1
        else w1 in
      write (b ++ 10 ∷ []) (write_header status w2)
]

-- json.Marshal, json.MarshalIndent(v, "", "  "), and the map {"error": msg} as a value.
pub record Encoder {ℓ} (V : Type ℓ) : Type ℓ where
  pub marshal : V → Option Text
  pub marshal_indent : V → Option Text
  pub error_value : Text → V

module _ {ℓ} {V : Type ℓ} (enc : Encoder V) where
  unfoldable pub write_json : Response → ℕ → V → Response
  unfolding write_json_bytes
  write_json w status v = write_json_bytes w status v enc.marshal

  unfoldable pub write_json_indent : Response → ℕ → V → Response
  unfolding write_json_bytes
  write_json_indent w status v = write_json_bytes w status v enc.marshal_indent

  unfoldable pub json_error : Response → ℕ → Text → Response
  unfolding write_json
  json_error w status msg = write_json w status (enc.error_value msg)

-- What the decoder makes of a body that is cut off at a number of bytes: a value, or the text of
-- its error. Beside it, `decode` says whether the body was read past that number; a value does not
-- exclude it, as the decoder reads ahead.
pub data Decoded {ℓ} (A : Type ℓ) : Type ℓ where
  value : A → Decoded A
  error : Text → Decoded A

pub record Request : Type 0 where
  pub content_type : Text
  pub body : Text

-- The test on the Content-Type.
unfoldable pub is_json : Text → Bool
is_json ct = not (
    not (text_beq ct (codes "application/json")) && not (has_prefix ct (codes "application/json;")))

module _ {ℓ κ} {V : Type ℓ} {A : Type κ} (enc : Encoder V) (decode : ℤ → Text → Decoded A × Bool)
    (own : Bool) where
  unfoldable pub decode_result : Response → Decoded A → Option A × Response
  decode_result w (value a) = (some a, w)
  decode_result w (error e) =
      (none, json_error enc w status_bad_request (codes "invalid JSON: " ++ e))

  -- The decoded value stands for `true` and the write to `dst`; `none` for `false`. `own` says whether
  -- the writer is net/http's own.
  unfoldable pub read_json : Response → Request → ℤ → Option A × Response
  unfolding decode_result
  read_json w r max_bytes =
      let (d, past) = decode max_bytes r.body in
      if is_json r.content_type
      then decode_result (close_past_cap own past w) d
      else (none, json_error enc w status_unsupported (codes "expected application/json"))
