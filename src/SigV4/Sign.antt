-- ===== src/SigV4/Sign.antt =====
-- signV4: the headers that are signed, the canonical request, the chain of keys and the header that
-- carries the signature. SHA-256, HMAC, sorting and the two time formats are arguments.
use nitrokit.Prelude.{
  ◌≡◌, refl, subst, sym, ap, ◌∙◌, arith, Bool, true, false, ◌||◌, Option, none, some, List, [], ◌∷◌,
  ◌++◌, map, take, if◌then◌else◌, Option-cases, Bool-cases, inl, inr,
}
use nitrokit.Dict.{Dict, lookup, insert, lookup-insert}
use nitrokit.Text.{
  Text, codes, text_beq, text_beq_iff, text_eq, has_prefix, to_lower, trim_space, join, hex,
}
use nitrokit.Clock.{Time}
use nitrokit.SigV4.{canonical_uri, canonical_query}

-- http.Header; the names that are used here are written as http.Header.Set spells them.
abbrev pub Header : Type 0
Header = Dict Text (List Text)

-- http.Request, and of its URL the host, the path, the path escaped and the query.
pub record Request : Type 0 where
  pub method : Text
  pub host : Text
  pub url_host : Text
  pub path : Text
  pub escaped_path : Text
  pub query : Dict Text (List Text)
  pub header : Header

-- crypto/sha256, crypto/hmac, slices.Sort, and a UTC time in the format 20060102T150405Z.
pub record Primitives : Type 0 where
  pub sha256 : Text → Text
  pub hmac_sha256 : Text → Text → Text
  pub sorted : List Text → List Text
  pub amz_format : Time → Text

pub record Credentials : Type 0 where
  pub access_key : Text
  pub secret_key : Text
  pub session_token : Text

abbrev pub set : Text → Text → Header → Header
set name value h = insert name (value ∷ []) h

abbrev pub value_of : Option Text → Text
value_of none = []
value_of (some v) = v

unfoldable pub is_signed : Text → Bool
is_signed lower = text_beq lower (codes "content-type") || has_prefix lower (codes "x-amz-")

-- The loop over the header; `none` where vals[0] panics.
unfoldable pub collect : Header → Dict Text Text → Option (Dict Text Text)
unfolding is_signed
collect [] headers = some headers
collect ((name, vals) ∷ rest) headers = elim (is_signed (to_lower name)) [
  | false ↦ collect rest headers
  | true ↦ elim vals [
    | [] ↦ none
    | v ∷ vs ↦ collect rest (insert (to_lower name) (trim_space v) headers)
  ]
]

unfoldable pub signed_headers : Request → Option (Dict Text Text)
unfolding collect
signed_headers req =
    collect req.header
      ((codes "host", (if text_beq req.host [] then req.url_host else req.host)) ∷ [])

unfoldable pub canon_headers : Dict Text Text → List Text → Text
canon_headers headers [] = []
canon_headers headers (n ∷ names) =
    n ++ codes ":" ++ value_of (lookup n headers) ++ codes "\n" ++ canon_headers headers names

module _ (p : Primitives) where
  unfoldable pub canonical_request : Request → Text → Dict Text Text → List Text → Text
  unfolding canon_headers
  canonical_request req body headers names = join 10 (
      req.method
      ∷ canonical_uri req.path req.escaped_path
      ∷ canonical_query p.sorted req.query
      ∷ canon_headers headers names
      ∷ join b';' names
      ∷ hex (p.sha256 body)
      ∷ [])

  module _ (creds : Credentials) (region service : Text) (now : Time) where
    abbrev pub amz_date : Text
    amz_date = p.amz_format now

    abbrev pub date : Text
    date = take 8 amz_date

    abbrev pub scope : Text
    scope = date ++ codes "/" ++ region ++ codes "/" ++ service ++ codes "/aws4_request"

    unfoldable pub signing_key : Text
    signing_key =
        p.hmac_sha256
          (p.hmac_sha256
            (p.hmac_sha256 (p.hmac_sha256 (codes "AWS4" ++ creds.secret_key) date) region) service)
          (codes "aws4_request")

    unfoldable pub string_to_sign : Text → Text
    string_to_sign canonical =
        join 10 (codes "AWS4-HMAC-SHA256" ∷ amz_date ∷ scope ∷ hex (p.sha256 canonical) ∷ [])

    -- From the signed headers on.
    unfoldable pub authorize : Request → Text → Option (Dict Text Text) → Option Text
    unfolding canonical_request signing_key string_to_sign
    authorize req body found_headers = elim found_headers [
      | none ↦ none
      | some headers ↦
          let names = p.sorted (map (λ h. h.0) headers) in
          let canonical = canonical_request req body headers names in
          some (
            codes "AWS4-HMAC-SHA256 Credential="
            ++ creds.access_key
            ++ codes "/"
            ++ scope
            ++ codes ", SignedHeaders="
            ++ join b';' names
            ++ codes ", Signature="
            ++ hex (p.hmac_sha256 signing_key (string_to_sign canonical)))
    ]

    -- The value of the Authorization header of a request whose other headers are final.
    unfoldable pub authorization : Request → Text → Option Text
    unfolding authorize signed_headers
    authorization req body = authorize req body (signed_headers req)

    abbrev dated : Request → Request
    dated req =
        let with_token =
          if text_beq creds.session_token []
          then req.header
          else set (codes "X-Amz-Security-Token") creds.session_token req.header in
        record req { header = set (codes "X-Amz-Date") amz_date with_token }

    unfoldable pub sign_v4 : Request → Text → Option Request
    unfolding authorization
    sign_v4 req body =
        let ready = dated req in
        elim (authorization ready body) [
          | none ↦ none
          | some a ↦ some (record ready { header = set (codes "Authorization") a ready.header })
        ]

abbrev authorization_name : Text
authorization_name = codes "Authorization"

authorization_unsigned : is_signed (to_lower authorization_name) ≡ false
unfolding is_signed to_lower has_prefix
authorization_unsigned = refl

collect_head :
    (name : Text) (vals : List Text) (h h' : Header) (headers : Dict Text Text)
    → ((hs : Dict Text Text) → collect h hs ≡ collect h' hs)
    → collect ((name, vals) ∷ h) headers ≡ collect ((name, vals) ∷ h') headers
unfolding collect
collect_head name [] h h' headers e = ground (arith, e headers)
collect_head name (v ∷ vs) h h' headers e =
    ground (arith, e headers, e (insert (to_lower name) (trim_space v) headers))

pub collect_skip :
    (name : Text) (vals : List Text) (h : Header) (headers : Dict Text Text)
    → is_signed (to_lower name) ≡ false
    → collect ((name, vals) ∷ h) headers ≡ collect h headers
unfolding collect
collect_skip name vals h headers e = rw (e, collect) refl

-- The Authorization header is not itself signed.
collect-set :
    (a : Text) (h : Header) (headers : Dict Text Text)
    → collect (set authorization_name a h) headers ≡ collect h headers
unfolding insert
collect-set a [] headers = collect_skip authorization_name _ [] headers authorization_unsigned
collect-set a ((j, vals) ∷ h) headers = elim (Bool-cases (text_beq j authorization_name)) [
  | inl e ↦
      let same = (text_beq_iff j authorization_name).0 e in
      let unsigned : is_signed (to_lower j) ≡ false = rw same authorization_unsigned in
      rw e (collect_skip j _ h headers unsigned ∙ sym (collect_skip j vals h headers unsigned))
  | inr e ↦ rw e (collect_head j vals _ h headers (collect-set a h))
]

module _ (p : Primitives) (creds : Credentials) (region service : Text) (now : Time) where
  authorization-set :
      (a : Text) (req : Request) (body : Text)
      → authorization p creds region service now
          (record req { header = set authorization_name a req.header })
          body
        ≡ authorization p creds region service now req body
  unfolding authorization signed_headers authorize canonical_request
  authorization-set a req body =
      ap (authorize p creds region service now req body) (collect-set a req.header _)

  -- A request that signV4 has signed carries, as its Authorization header, exactly what is computed
  -- from the request as it is sent: a server that knows the secret and the date of the signature, and
  -- computes the header from what it has received, finds the header that it has received.
  pub sign_v4-authorization :
      (req signed : Request) (body : Text)
      → sign_v4 p creds region service now req body ≡ some signed
      → (a : Text) × (authorization p creds region service now signed body ≡ some a)
        × (lookup authorization_name signed.header ≡ some (a ∷ []))
  unfolding sign_v4
  sign_v4-authorization req signed body h =
      let ready = dated p creds region service now req in
      elim (Option-cases (authorization p creds region service now ready body)) [
        | inl e ↦ absurd (ground (arith, e))
        | inr (a, e) ↦
            let sent = record ready { header = set authorization_name a ready.header } in
            let same : sent ≡ signed = ground (arith, e, h) in
            subst
              (λ r.
                (c : Text) × (authorization p creds region service now r body ≡ some c)
                × (lookup authorization_name r.header ≡ some (c ∷ [])))
              same
              (
                a,
                authorization-set a ready body ∙ e,
                lookup-insert authorization_name authorization_name (a ∷ []) ready.header,
              )
      ]
