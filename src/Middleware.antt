-- ===== src/Middleware.antt =====
-- middleware.go. A handler is a function on the response; what it reads of the request is fixed.
pub mod Recorder
mod Tests
use text.Mathlib.TextEquality.{eq_iff}
use nitrokit.Prelude.{
  ℕ, ◌≡◌, ◌≢◌, refl, ap, Bool, true, false, List, [], ◌∷◌, ◌++◌, if◌then◌else◌, arith, String,
}
use nitrokit.Dict.{◌≟◌}
use nitrokit.Text.{Text, codes, text_beq}
use nitrokit.Http.{Response, Header, get, set, set_header, string_eq}
use nitrokit.Http.Laws.{get-set}

abbrev pub Handler : Type 0
Handler = Response → Response

abbrev pub default_csp : Text
default_csp =
    codes
      "default-src 'none'; style-src 'self'; script-src 'self'; img-src 'self'; base-uri 'none'; form-action 'self'; frame-ancestors 'none'"

abbrev pub default_permissions_policy : Text
default_permissions_policy = codes "geolocation=(), camera=(), microphone=(), interest-cohort=()"

unfoldable pub secure_headers : Text → Text → Handler → Handler
secure_headers csp permissions next w =
    let csp' = if text_beq csp [] then default_csp else csp in
    let permissions' =
      if text_beq permissions [] then default_permissions_policy else permissions in
    let w1 = set_header "Content-Security-Policy" csp' w in
    let w2 = set_header "X-Content-Type-Options" (codes "nosniff") w1 in
    let w3 = set_header "Referrer-Policy" (codes "same-origin") w2 in
    next (set_header "Permissions-Policy" permissions' w3)

unfoldable pub hsts : Handler → Handler
hsts next w = next (set_header "Strict-Transport-Security" (codes "max-age=31536000") w)

-- The handler runs with the four policies set, empty arguments giving the defaults, and with every
-- other field as it was; of the response only the header has changed.
pub secure_headers_lem :
    (csp permissions : Text) (next : Handler) (w : Response)
    → (h : Header) × (secure_headers csp permissions next w ≡ next (record w { header = h }))
      × ((name : String)
          → get name h ≡ (
              if "Permissions-Policy" ≟ name
              then (if text_beq permissions [] then default_permissions_policy else permissions)
              else if "Referrer-Policy" ≟ name
              then codes "same-origin"
              else if "X-Content-Type-Options" ≟ name
              then codes "nosniff"
              else if "Content-Security-Policy" ≟ name
              then (if text_beq csp [] then default_csp else csp)
              else get name w.header))
unfolding secure_headers set_header
secure_headers_lem csp permissions next w = (_, refl, λ name. simp get-set)
