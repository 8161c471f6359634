-- ===== src/SigV4/Order.antt =====
-- signV4 ranges over two Go maps, the header and the query: the order in which it does.
use mathlib.Core.List.{Perm}
use mathlib.Core.List.Perm
use nitrokit.Prelude.{
  ◌≡◌, refl, subst, sym, ap, ◌∙◌, arith, false, Option, List, [], ◌∷◌, ◌++◌, map, if◌then◌else◌,
  Bool-cases, inl, inr,
}
use nitrokit.Dict.{Dict, lookup, Distinct}
use nitrokit.Dict.Reordering.{lookup-Perm, Distinct-Perm}
use nitrokit.Text.{Text, codes, text_beq, text_beq_iff, text_eq, to_lower, has_prefix, join}
use nitrokit.Clock.{Time}
use nitrokit.SigV4.Gathering.{
  lowered, IsApart, gathered, collect_lem, AllDistinct, collect-AllDistinct, Reordered,
  gathered-Perm,
}
use nitrokit.SigV4.{parts_of_names, canonical_query, values, query_parts}
use nitrokit.SigV4.Sign.{
  Header, Request, Primitives, Credentials, value_of, is_signed, collect, signed_headers,
  canon_headers, canonical_request, authorize, authorization,
}

canon_headers_same :
    (headers headers' : Dict Text Text) (names : List Text)
    → ((k : Text) → lookup k headers ≡ lookup k headers')
    → canon_headers headers names ≡ canon_headers headers' names
unfolding canon_headers
canon_headers_same headers headers' [] same = refl
canon_headers_same headers headers' (n ∷ names) same =
    ap (λ v. n ++ codes ":" ++ value_of v ++ codes "\n" ++ canon_headers headers names) (same n)
    ∙ ap (λ t. n ++ codes ":" ++ value_of (lookup n headers') ++ codes "\n" ++ t)
        (canon_headers_same headers headers' names same)

-- slices.Sort: what is sorted does not depend on the order before.
pub record IsSort (sorted : List Text → List Text) : Type 0 where
  pub sorts : {xs ys : List Text} → Perm xs ys → sorted xs ≡ sorted ys

Texts_set : IsSet (List Text)
Texts_set = hlevel

Text_set : IsSet Text
Text_set = hlevel

module _ (sorted : List Text → List Text) (is_sort : IsSort sorted) where
  parts_same :
      (q q' : Dict Text (List Text)) (names : List Text)
      → ((k : Text) → lookup k q ≡ lookup k q')
      → parts_of_names sorted q names ≡ parts_of_names sorted q' names
  unfolding parts_of_names
  parts_same q q' [] same = refl
  parts_same q q' (n ∷ names) same =
      ap (λ v. query_parts n (sorted (values v)) ++ parts_of_names sorted q names) (same n)
      ∙ ap (λ t. query_parts n (sorted (values (lookup n q'))) ++ t) (parts_same q q' names same)

  -- The canonical query does not depend on the order in which its names are ranged over.
  canonical_query-Perm :
      {q q' : Dict Text (List Text)}
      → Perm q q'
      → Distinct q
      → canonical_query sorted q ≡ canonical_query sorted q'
  unfolding canonical_query
  canonical_query-Perm {q} {q'} p d =
      ap (λ ns. join b'&' (parts_of_names sorted q ns)) (is_sort.sorts (Perm.map (λ e. e.0) p))
      ∙ ap (join b'&') (parts_same q q' _ (lookup-Perm Texts_set p d))

-- The field that every request has.
abbrev host_field : Request → Dict Text Text
host_field req = (codes "host", (if text_beq req.host [] then req.url_host else req.host)) ∷ []

host_unsigned : is_signed (codes "host") ≡ false
unfolding is_signed has_prefix
host_unsigned = refl

host-IsApart : (h : Dict Text (List Text)) (req : Request) → IsApart h (host_field req)
unfolding lookup
host-IsApart h req k vals e signed = elim (Bool-cases (text_beq (codes "host") k)) [
  | inl same ↦
      let eq = ap is_signed ((text_beq_iff (codes "host") k).0 same) in
      absurd (ground (arith, sym host_unsigned ∙ eq ∙ signed))
  | inr other ↦ rw other refl
]

signed_headers-Perm :
    (req : Request) (header : Header)
    → Perm req.header header
    → Distinct (lowered req.header)
    → Reordered (signed_headers req) (signed_headers (record req { header = header }))
unfolding signed_headers lookup
signed_headers-Perm req header p d =
    let host = host_field req in
    let pl = Perm.map (λ e. (to_lower e.0, e.1)) p in
    let before = collect_lem req.header host d (host-IsApart (lowered req.header) req) in
    let after =
      collect_lem header host (Distinct-Perm Texts_set pl d) (host-IsApart (lowered header) req) in
    let distinct = subst AllDistinct before (collect-AllDistinct req.header host (refl, tt)) in
    subst (λ a. Reordered a (collect header host)) (sym before)
      (subst (Reordered (gathered (lowered req.header) host)) (sym after)
        (gathered-Perm host pl distinct))

module _ (p : Primitives) (creds : Credentials) (region service : Text) (now : Time)
    (is_sort : IsSort p.sorted) where
  canonical_request_headers :
      (req : Request) (body : Text) (hs hs' : Dict Text Text) (names : List Text)
      → canon_headers hs names ≡ canon_headers hs' names
      → canonical_request p req body hs names ≡ canonical_request p req body hs' names
  unfolding canonical_request
  canonical_request_headers req body hs hs' names e = rw e refl

  canonical_request_query :
      (req : Request) (query : Dict Text (List Text)) (body : Text) (hs : Dict Text Text)
      (names : List Text)
      → Perm req.query query
      → Distinct req.query
      → canonical_request p req body hs names
        ≡ canonical_request p (record req { query = query }) body hs names
  unfolding canonical_request
  canonical_request_query req query body hs names pq dq =
      rw (canonical_query-Perm p.sorted is_sort pq dq) refl

  authorize-Reordered :
      (req req' : Request) (body : Text) (a b : Option (Dict Text Text))
      → ((names : List Text) (hs : Dict Text Text)
          → canonical_request p req body hs names ≡ canonical_request p req' body hs names)
      → Reordered a b
      → authorize p creds region service now req body a
        ≡ authorize p creds region service now req' body b
  unfolding authorize
  authorize-Reordered req req' body a b same (inl (x, y)) = rw (x, y) refl
  authorize-Reordered req req' body a b same (inr (hs, hs', x, y, perm, d)) =
      let names = p.sorted (map (λ h. h.0) hs) in
      let ns = is_sort.sorts (Perm.map (λ h. h.0) perm) in
      let hs_same = canon_headers_same hs hs' names (lookup-Perm Text_set perm d) in
      let canonical =
        same names hs
        ∙ canonical_request_headers req' body hs hs' names hs_same
        ∙ ap (canonical_request p req' body hs') ns in
      rw (x, y, canonical, ns) refl

  -- What signV4 signs, and so the header that carries the signature, does not depend on the order in
  -- which the header and the query are ranged over, if sorting does not depend on the order of what it
  -- sorts, no two names of the header are the same in lower case, and no two of the query are the same.
  pub authorization-Perm :
      (req : Request) (body : Text) (header : Header) (query : Dict Text (List Text))
      → Perm req.header header
      → Distinct (lowered req.header)
      → Perm req.query query
      → Distinct req.query
      → authorization p creds region service now
          (record req { header = header; query = query })
          body
        ≡ authorization p creds region service now req body
  unfolding authorization
  authorization-Perm req body header query ph dh pq dq = sym (
      authorize-Reordered req (record req { header = header; query = query }) body
        (signed_headers req) (signed_headers (record req { header = header }))
        (λ names hs. canonical_request_query req query body hs names pq dq)
        (signed_headers-Perm req header ph dh))
