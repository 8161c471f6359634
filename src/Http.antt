-- ===== src/Http.antt =====
-- What the handlers use of net/http: header fields, the response that a ResponseWriter builds, and
-- http.Error. A header name is written in one spelling throughout, so that the canonical form that
-- Set and Get give it is not modelled.
pub mod Laws
use text.Mathlib.Text.{◌==◌ as str_eq}
use text.Mathlib.TextEquality.{eq_iff}
use nitrokit.Prelude.{
  ℕ, ◌≡◌, ◌≤◌, ◌⊎◌, Bool, true, false, not, ◌&&◌, ◌||◌, Option, none, some, List, [], ◌∷◌, ◌++◌,
  String, ◌==◌, ltb, if◌then◌else◌,
}
use nitrokit.Dict.{Dict, Eq, lookup, insert, delete}
use nitrokit.Text.{Text, codes}

instance abbrev pub string_eq : Eq String
string_eq = record { beq = str_eq; beq_iff = eq_iff }

-- http.Header
abbrev pub Header : Type 0
Header = Dict String (List Text)

abbrev first : Option (List Text) → Text
first none = []
first (some []) = []
first (some (v ∷ vs)) = v

-- h.Get(name)
unfoldable pub get : String → Header → Text
get name h = first (lookup name h)

-- h.Set(name, value)
unfoldable pub set : String → Text → Header → Header
set name value h = insert name (value ∷ []) h

-- h.Del(name)
unfoldable pub del : String → Header → Header
del name h = delete name h

-- The status line and the header fields, once they have been sent.
pub record Sent : Type 0 where
  pub status : ℕ
  pub fields : Header

-- A response under way: the header map, what has been sent of it, and the body. `sent` is `none`
-- until the status line is committed; after that the header map has no effect.
pub record Response : Type 0 where
  pub header : Header
  pub sent : Option Sent
  pub body : Text

abbrev pub status_ok : ℕ
status_ok = 200

abbrev pub status_not_modified : ℕ
status_not_modified = 304

abbrev pub status_bad_request : ℕ
status_bad_request = 400

abbrev pub status_too_large : ℕ
status_too_large = 413

abbrev pub status_unsupported : ℕ
status_unsupported = 415

abbrev pub status_internal : ℕ
status_internal = 500

unfoldable pub set_header : String → Text → Response → Response
set_header name value w = record w { header = set name value w.header }

-- A status that is sent ahead of the response and commits nothing.
abbrev pub informational : ℕ → Bool
informational status = not (ltb status 100) && ltb status 200 && not (status == 101)

-- A status that WriteHeader takes without a panic and commits.
abbrev pub IsFinal : ℕ → Type 0
IsFinal status = ((status ≡ 101) ⊎ (200 ≤ status)) × (status ≤ 999)

-- w.WriteHeader(status): only the first call with a status that is not informational counts. The
-- panic on a status outside 100 to 999 is not modelled.
unfoldable pub write_header : ℕ → Response → Response
write_header status w = elim w.sent [
  | some s ↦ w
  | none ↦
      if informational status
      then w
      else record w { sent = some (record { status = status; fields = w.header }) }
]

-- A status whose response carries a body.
abbrev pub carries_body : ℕ → Bool
carries_body status =
    (ltb status 100 || not (ltb status 200))
    && not (status == 204)
    && not (status == status_not_modified)

abbrev pub HasBody : ℕ → Type 0
HasBody status = carries_body status ≡ true

-- A response that may carry a body.
abbrev pub body_allowed : Option Sent → Bool
body_allowed none = true
body_allowed (some s) = carries_body s.status

-- w.Write(b): a first write without a status sends 200.
unfoldable pub write : Text → Response → Response
unfolding write_header
write b w =
    let w' = write_header status_ok w in
    if body_allowed w'.sent then record w' { body = w'.body ++ b } else w'

-- What http.MaxBytesReader(w, body, cap) does to the response: when the body runs past the cap and w
-- is net/http's own writer for HTTP/1, the connection is to be closed. Any other writer, and one
-- that wraps that writer, is left alone.
unfoldable pub close_past_cap : Bool → Bool → Response → Response
unfolding set_header
close_past_cap own past w =
    if own && past
    then (elim w.sent [ some s ↦ w | none ↦ set_header "Connection" (codes "close") w ])
    else w

-- http.Error(w, message, status)
unfoldable pub http_error : Text → ℕ → Response → Response
unfolding set_header write_header write
http_error message status w =
    let w1 = record w { header = del "Content-Length" w.header } in
    let w2 = set_header "Content-Type" (codes "text/plain; charset=utf-8") w1 in
    let w3 = set_header "X-Content-Type-Options" (codes "nosniff") w2 in
    let w4 = write_header status w3 in write (message ++ 10 ∷ []) w4

-- The status that a response has been given, 200 for a handler that gives none.
abbrev pub final_status : Response → ℕ
final_status w = elim w.sent [ none ↦ status_ok | some s ↦ s.status ]

-- A response of which nothing has been sent.
abbrev pub IsFresh : Response → Type 0
IsFresh w = (w.sent ≡ none) × (w.body ≡ [])
