-- ===== src/ClientIp.antt =====
-- clientip.go: which peers may set forwarding headers, and the address a request is attributed to.
pub mod Walk
pub mod Fields
pub mod Trust
pub mod Private
mod Tests
use nitrokit.Prelude.{
  ℕ, Bool, true, false, Option, none, some, List, [], ◌∷◌, ◌++◌, ◌||◌, not, map, reverse,
  if◌then◌else◌,
}
use nitrokit.Text.{Text, codes, split, trim_space}
use nitrokit.HostPort.{split_host_port}
use nitrokit.Netip.{
  Addr, invalid, Prefix, is_valid, unmap, without_zone, bit_len, prefix_from, masked,
  prefix_contains, parse_addr, parse_prefix,
}

pub record ProxyTrust : Type 0 where
  pub nets : List Prefix

-- What a request brings here: r.RemoteAddr, and the values of its X-Forwarded-For headers.
pub record Request : Type 0 where
  pub remote_addr : Text
  pub forwarded : List Text

-- The trust list, or the field that is neither a prefix nor an address.
pub data Parsed : Type 0 where
  ok : ProxyTrust → Parsed
  bad_field : Text → Parsed

-- A field as a prefix: a bare address means that one address.
pub field_prefix : Text → Option Prefix
field_prefix field = elim (parse_prefix field) [
  | some n ↦ some (masked n)
  | none ↦ elim (parse_addr field) [
    | none ↦ none
    | some a ↦ let b = unmap a in some (masked (prefix_from b (bit_len b)))
  ]
]

-- The loop over the fields, which appends to `nets`.
pub parse_fields : List Prefix → List Text → Parsed
parse_fields nets [] = ok (record { nets = nets })
parse_fields nets (f ∷ fs) =
    let field = trim_space f in
    elim field [
      | [] ↦ parse_fields nets fs
      | c ∷ rest ↦ elim (field_prefix (c ∷ rest)) [
        | none ↦ bad_field (c ∷ rest)
        | some n ↦ parse_fields (nets ++ n ∷ []) fs
      ]
    ]

pub parse_trusted_proxies : Text → Parsed
unfolding parse_fields field_prefix
parse_trusted_proxies list = parse_fields [] (split b',' list)

abbrev pub private_ranges : List Text
private_ranges =
    codes "127.0.0.0/8"
    ∷ codes "::1/128"
    ∷ codes "10.0.0.0/8"
    ∷ codes "172.16.0.0/12"
    ∷ codes "192.168.0.0/16"
    ∷ codes "fc00::/7"
    ∷ codes "169.254.0.0/16"
    ∷ codes "fe80::/10"
    ∷ []

-- `none` is the panic of netip.MustParsePrefix.
must_parse : List Text → Option (List Prefix)
must_parse [] = some []
must_parse (s ∷ ss) = elim (parse_prefix s) [
  | none ↦ none
  | some n ↦ elim (must_parse ss) [ none ↦ none | some ns ↦ some (n ∷ ns) ]
]

pub trust_private_proxies : Option ProxyTrust
unfolding must_parse
trust_private_proxies = elim (must_parse private_ranges) [
  | none ↦ none
  | some nets ↦ some (record { nets = nets })
]

any_contains : List Prefix → Addr → Bool
any_contains [] a = false
any_contains (n ∷ ns) a = prefix_contains n a || any_contains ns a

-- `none` is the nil pointer.
pub trusted : Option ProxyTrust → Addr → Bool
unfolding any_contains
trusted none a = false
trusted (some p) a = if not (is_valid a) then false else any_contains p.nets (unmap a)

pub peer_addr : Request → Addr
peer_addr r =
    let host : Text = elim (split_host_port r.remote_addr) [
      | none ↦ r.remote_addr
      | some (h, _) ↦ h
    ] in
    elim (parse_addr host) [ none ↦ invalid | some a ↦ without_zone (unmap a) ]

-- The fields of the headers, left to right.
pub hops : List Text → List Text
hops [] = []
hops (v ∷ vs) = map trim_space (split b',' v) ++ hops vs

-- The loop over the hops, the rightmost first.
pub walk : Option ProxyTrust → Addr → List Text → Addr
walk p peer [] = peer
walk p peer (hop ∷ rest) = elim (parse_addr hop) [
  | none ↦ peer
  | some a ↦ let next = walk p peer rest in if trusted p (unmap a) then next else unmap a
]

pub client_ip : Option ProxyTrust → Request → Addr
unfolding walk hops
client_ip p r =
    let peer = peer_addr r in
    if trusted p peer then walk p peer (reverse (hops r.forwarded)) else peer
