-- ===== src/ClientIp/Trust.antt =====
-- What a trust list covers: the fields that it was parsed from, and the built-in private ranges.
use nitrokit.Prelude.{
  ℕ, ◌≤◌, ◌≡◌, ◌≢◌, inl, inr, refl, sym, ap, ◌∙◌, Bool, true, false, ◌&&◌, ◌||◌, none, some, List,
  [], ◌∷◌, ◌++◌, arith, All, All-append, Option-cases,
}
use mathlib.Core.List.{Memᴰ}
use nitrokit.Text.{Text, split, trim_space}
use nitrokit.Netip.{
  Addr, v6, Prefix, is_valid, unmap, bit_len, prefix_from, masked, is_mapped, prefix_contains,
  parse_addr, parse_prefix,
}
use nitrokit.Netip.Blocks.{prefix_contains-masked, prefix_contains-mapped}
use nitrokit.ClientIp.{
  ProxyTrust, Request, ok, bad_field, field_prefix, parse_fields, parse_trusted_proxies,
  any_contains, trusted, peer_addr, client_ip,
}
use nitrokit.ClientIp.Fields.{
  IsMasked, field_prefix-IsMasked, parse_fields-blank, parse_fields-bad, parse_fields-good, blank,
  bad, good, field_case,
}

-- A nil trust list and the zero value trust no one: every request is attributed to its peer.
pub client_ip_of_no_trust :
    (r : Request)
    → (client_ip none r ≡ peer_addr r) × (client_ip (some (record { nets = [] })) r ≡ peer_addr r)
unfolding client_ip trusted
client_ip_of_no_trust r = (refl, ground arith)

-- Whether a field of the list covers an address: one that is blank covers none, one that reads as
-- a prefix what the prefix contains, and a bare address what its one-address prefix contains.
unfoldable pub field_covers : Addr → Text → Bool
field_covers a [] = false
field_covers a (c ∷ s) = elim (parse_prefix (c ∷ s)) [
  | some n ↦ prefix_contains n a
  | none ↦ elim (parse_addr (c ∷ s)) [
    | none ↦ false
    | some b ↦ prefix_contains (prefix_from (unmap b) (bit_len (unmap b))) a
  ]
]

pub any_covers : Addr → List Text → Bool
any_covers a [] = false
any_covers a (f ∷ fs) = field_covers a (trim_space f) || any_covers a fs

field_covers_nil : (a : Addr) → field_covers a [] ≡ false
unfolding field_covers
field_covers_nil a = refl

field_covers-good :
    (a : Addr) (s : Text) (n : Prefix)
    → s ≢ []
    → field_prefix s ≡ some n
    → field_covers a s ≡ prefix_contains n a
unfolding field_covers field_prefix
field_covers-good a [] n ne e = absurd (ne refl)
field_covers-good a (c ∷ s) n ne e = elim (Option-cases (parse_prefix (c ∷ s))) [
  | inl p ↦ elim (Option-cases (parse_addr (c ∷ s))) [
    | inl q ↦ ground arith
    | inr (b, q) ↦
        ground (arith, prefix_contains-masked (prefix_from (unmap b) (bit_len (unmap b))) a)
  ]
  | inr (m, p) ↦ ground (arith, prefix_contains-masked m a)
]

any_contains-append :
    (a : Addr) (ns : List Prefix) (n : Prefix)
    → any_contains (ns ++ n ∷ []) a ≡ (any_contains ns a || prefix_contains n a)
unfolding any_contains
any_contains-append a [] n = ground arith
any_contains-append a (m ∷ ns) n = ground (arith, any_contains-append a ns n)

parse_fields-nil : (nets : List Prefix) → parse_fields nets [] ≡ ok (record { nets = nets })
unfolding parse_fields
parse_fields-nil nets = refl

parse_fields-covers :
    (a : Addr) (nets : List Prefix) (fs : List Text) (p : ProxyTrust)
    → parse_fields nets fs ≡ ok p
    → any_contains p.nets a ≡ (any_contains nets a || any_covers a fs)
unfolding any_covers
parse_fields-covers a nets [] p h = ground (arith, parse_fields-nil nets)
parse_fields-covers a nets (f ∷ fs) p h = elim (field_case f) [
  | blank e ↦
      let ih = parse_fields-covers a nets fs p (sym (parse_fields-blank nets f fs e) ∙ h) in
      ground (arith, ih, ap (field_covers a) e, field_covers_nil a)
  | bad ne e ↦ cc (parse_fields-bad nets f fs ne e)
  | good n ne e ↦
      let ih =
        parse_fields-covers a (nets ++ n ∷ []) fs p
          (sym (parse_fields-good nets f fs n ne e) ∙ h) in
      ground (arith, ih, field_covers-good a (trim_space f) n ne e, any_contains-append a nets n)
]

-- A parsed trust list trusts exactly the valid addresses that, unmapped, one of its fields covers:
-- the order of the fields, blanks, and host bits that a field leaves set make no difference.
pub trusted-parse_trusted_proxies :
    (list : Text) (p : ProxyTrust) (a : Addr)
    → parse_trusted_proxies list ≡ ok p
    → trusted (some p) a ≡ (is_valid a && any_covers (unmap a) (split b',' list))
unfolding trusted parse_trusted_proxies any_contains
trusted-parse_trusted_proxies list p a h =
    ground (arith, parse_fields-covers (unmap a) [] (split b',' list) p h)

parse_fields-IsMasked :
    (nets : List Prefix) (fs : List Text) (p : ProxyTrust)
    → parse_fields nets fs ≡ ok p
    → All IsMasked nets
    → All IsMasked p.nets
parse_fields-IsMasked nets [] p h m =
    let e : nets ≡ p.nets = ground (arith, parse_fields-nil nets) in rw (← e) m
parse_fields-IsMasked nets (f ∷ fs) p h m = elim (field_case f) [
  | blank e ↦ parse_fields-IsMasked nets fs p (sym (parse_fields-blank nets f fs e) ∙ h) m
  | bad ne e ↦ cc (parse_fields-bad nets f fs ne e)
  | good n ne e ↦
      parse_fields-IsMasked (nets ++ n ∷ []) fs p (sym (parse_fields-good nets f fs n ne e) ∙ h)
        (All-append IsMasked nets (n ∷ []) m (field_prefix-IsMasked (trim_space f) n e, tt))
]

-- Every block of a parsed trust list has its host bits cleared.
pub parse_trusted_proxies-IsMasked :
    (list : Text) (p : ProxyTrust) → parse_trusted_proxies list ≡ ok p → All IsMasked p.nets
unfolding parse_trusted_proxies
parse_trusted_proxies-IsMasked list p h = parse_fields-IsMasked [] (split b',' list) p h tt

-- A field that the kit can make no sense of.
abbrev pub IsBad : Text → Type 0
IsBad f = (f ≢ []) × (parse_prefix f ≡ none) × (parse_addr f ≡ none)

IsBad-of_none : (f : Text) → f ≢ [] → field_prefix f ≡ none → IsBad f
unfolding field_prefix
IsBad-of_none f ne h = elim (Option-cases (parse_prefix f)) [
  | inl e ↦ elim (Option-cases (parse_addr f)) [
    | inl e' ↦ (ne, e, e')
    | inr (a, e') ↦ (ne, e, ground arith)
  ]
  | inr (m, e) ↦ (ne, ground arith, ground arith)
]

parse_fields-IsBad :
    (nets : List Prefix) (fs : List Text) (g : Text)
    → parse_fields nets fs ≡ bad_field g
    → (f : Text) × Memᴰ f fs × (trim_space f ≡ g) × IsBad g
parse_fields-IsBad nets [] g h = cc (parse_fields-nil nets)
parse_fields-IsBad nets (f ∷ fs) g h = elim (field_case f) [
  | blank e ↦
      let (x, m, t, b) = parse_fields-IsBad nets fs g (sym (parse_fields-blank nets f fs e) ∙ h) in
      (x, Memᴰ.tail m, t, b)
  | bad ne e ↦
      let t : trim_space f ≡ g = ground (arith, parse_fields-bad nets f fs ne e) in
      (f, Memᴰ.head refl, t, rw t at (IsBad-of_none (trim_space f) ne e))
  | good n ne e ↦
      let (x, m, t, b) =
        parse_fields-IsBad (nets ++ n ∷ []) fs g (sym (parse_fields-good nets f fs n ne e) ∙ h) in
      (x, Memᴰ.tail m, t, b)
]

-- A refused list names one of its fields, trimmed, that is not blank and reads neither as a prefix
-- nor as an address.
pub parse_trusted_proxies-IsBad :
    (list g : Text)
    → parse_trusted_proxies list ≡ bad_field g
    → (f : Text) × Memᴰ f (split b',' list) × (trim_space f ≡ g) × IsBad g
unfolding parse_trusted_proxies
parse_trusted_proxies-IsBad list g h = parse_fields-IsBad [] (split b',' list) g h

-- A field that names a block of IPv4-mapped IPv6 addresses, of 96 bits or more, is accepted, and
-- then covers no peer and no hop at all: what is compared with it has been unmapped.
pub field_prefix-mapped :
    (f : Text) (n b : ℕ) (zone : Text) (a : Addr)
    → parse_prefix f ≡ some (record { addr = v6 n zone; bits = b })
    → is_mapped n ≡ true
    → 96 ≤ b
    → (q : Prefix) × (field_prefix f ≡ some q) × (prefix_contains q (unmap a) ≡ false)
unfolding field_prefix
field_prefix-mapped f n b zone a e mapped h =
    let p : Prefix = record { addr = v6 n zone; bits = b } in
    (
      masked p,
      ground arith,
      prefix_contains-masked p (unmap a) ∙ prefix_contains-mapped n b zone a mapped h,
    )
