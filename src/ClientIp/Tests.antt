-- ===== src/ClientIp/Tests.antt =====
-- Client addresses of concrete requests, and the theorems at inputs that meet their hypotheses.
use mathlib.Core.List.{Memᴰ}
use nitrokit.Prelude.{◌≡◌, refl, ◌⊎◌, true, false, ◌&&◌, none, some, [], ◌∷◌, arith, All}
use nitrokit.Text.{Text, codes, split, trim_space}
use nitrokit.HostPort.{split_host_port}
use nitrokit.Netip.{
  invalid, v4, v6, Prefix, is_valid, unmap, without_zone, bit_len, prefix_from, masked,
  prefix_contains, parse_addr, parse_prefix,
}
use nitrokit.ClientIp.{
  ProxyTrust, Request, ok, bad_field, field_prefix, parse_trusted_proxies, trust_private_proxies,
  trusted, peer_addr, hops, client_ip,
}
use nitrokit.ClientIp.Walk.{
  EndsWalk, outside, IsTrustedHop, client_ip_of_untrusted_peer, client_ip_at_stop,
  client_ip_at_no_stop, client_ip_forged, client_ip-not_trusted, answer,
}
use nitrokit.ClientIp.Trust.{
  any_covers, trusted-parse_trusted_proxies, parse_trusted_proxies-IsMasked, IsBad,
  parse_trusted_proxies-IsBad, field_prefix-mapped, client_ip_of_no_trust,
}
use nitrokit.ClientIp.Fields.{IsMasked}
use nitrokit.ClientIp.Private.{trusted-trust_private_proxies}

code : Unit {0}
unfolding parse_addr parse_prefix split_host_port trim_space split is_valid unmap without_zone
    bit_len prefix_from masked prefix_contains parse_trusted_proxies trusted peer_addr hops
    client_ip
code = tt

-- A proxy on the docker network.
abbrev list : Text
list = codes "127.0.0.1/32, ,172.18.5.6/16"

abbrev proxies : ProxyTrust
proxies = record {
  nets =
      record { addr = v4 0x7f000001; bits = 32 } ∷ record { addr = v4 0xac120000; bits = 16 } ∷ [];
}

parsed : parse_trusted_proxies list ≡ ok proxies
unfolding code
parsed = refl

rejected : parse_trusted_proxies (codes "127.0.0.1/32, proxy") ≡ bad_field (codes "proxy")
unfolding code
rejected = refl

abbrev proxied : Request
proxied = record {
  remote_addr = codes "172.18.0.2:40000";
  forwarded = codes "203.0.113.9, 172.18.0.3" ∷ [];
}

-- The same with an address that the client put in front.
abbrev spoofed : Request
spoofed = record proxied { forwarded = codes "10.9.8.7,203.0.113.9, 172.18.0.3" ∷ [] }

client_ip_tests :
    (client_ip (some proxies) proxied ≡ v4 0xcb007109)
    × (client_ip none proxied ≡ v4 0xac120002)
    × (client_ip (some proxies) (record { remote_addr = codes "[::1]:5"; forwarded = [] })
        ≡ v6 1 [])
    × (peer_addr (record { remote_addr = codes "nonsense"; forwarded = [] }) ≡ invalid)
unfolding code
client_ip_tests = (refl, refl, refl, refl)

abbrev outsider : Request
outsider = record { remote_addr = codes "198.51.100.7:9"; forwarded = codes "172.18.0.3" ∷ [] }

client_ip_of_untrusted_peer_test : client_ip (some proxies) outsider ≡ peer_addr outsider
unfolding code
client_ip_of_untrusted_peer_test = client_ip_of_untrusted_peer (some proxies) outsider refl

the_hop : EndsWalk (some proxies) (codes "203.0.113.9")
unfolding code
the_hop = outside (v4 0xcb007109) refl refl

the_proxy : IsTrustedHop (some proxies) (codes "172.18.0.3")
unfolding code
the_proxy = (v4 0xac120003, refl, refl)

client_ip_at_stop_example :
    client_ip (some proxies) spoofed ≡ answer (peer_addr spoofed) (codes "203.0.113.9")
unfolding code
client_ip_at_stop_example =
    client_ip_at_stop (some proxies) spoofed refl (codes "10.9.8.7" ∷ []) (codes "203.0.113.9")
      (codes "172.18.0.3" ∷ []) refl the_hop (the_proxy, tt)

client_ip_forged_example : client_ip (some proxies) spoofed ≡ client_ip (some proxies) proxied
unfolding code
client_ip_forged_example =
    client_ip_forged (some proxies) proxied spoofed (codes "10.9.8.7" ∷ []) [] (codes "203.0.113.9")
      (codes "172.18.0.3" ∷ []) refl refl refl the_hop (the_proxy, tt)

abbrev probe : Request
probe = record { remote_addr = codes "172.18.0.2:40000"; forwarded = codes "172.18.0.3" ∷ [] }

client_ip_at_no_stop_test : client_ip (some proxies) probe ≡ peer_addr probe
unfolding code
client_ip_at_no_stop_test = client_ip_at_no_stop (some proxies) probe refl (the_proxy, tt)

client_ip-not_trusted_test :
    (client_ip (some proxies) spoofed ≡ peer_addr spoofed)
    ⊎ (trusted (some proxies) (client_ip (some proxies) spoofed) ≡ false)
client_ip-not_trusted_test = client_ip-not_trusted (some proxies) spoofed

no_trust_test :
    (client_ip none spoofed ≡ peer_addr spoofed)
    × (client_ip (some (record { nets = [] })) spoofed ≡ peer_addr spoofed)
no_trust_test = client_ip_of_no_trust spoofed

trusted-parse_trusted_proxies_example :
    trusted (some proxies) (v4 0xac120002)
    ≡ (is_valid (v4 0xac120002) && any_covers (unmap (v4 0xac120002)) (split b',' list))
trusted-parse_trusted_proxies_example =
    trusted-parse_trusted_proxies list proxies (v4 0xac120002) parsed

parse_trusted_proxies-IsMasked_test : All IsMasked proxies.nets
parse_trusted_proxies-IsMasked_test = parse_trusted_proxies-IsMasked list proxies parsed

parse_trusted_proxies-IsBad_test :
    (f : Text) × Memᴰ f (split b',' (codes "127.0.0.1/32, proxy"))
    × (trim_space f ≡ codes "proxy")
    × IsBad (codes "proxy")
parse_trusted_proxies-IsBad_test =
    parse_trusted_proxies-IsBad (codes "127.0.0.1/32, proxy") (codes "proxy") rejected

trusted-trust_private_proxies_test :
    (p : ProxyTrust) × (trust_private_proxies ≡ some p)
    × (trusted (some p) (v4 0x0a000001) ≡ true)
    × (trusted (some p) (v6 0x0a000001 []) ≡ false)
trusted-trust_private_proxies_test = trusted-trust_private_proxies 0x0a000001

-- ::ffff:10.0.0.0/104, which is 10.0.0.0/8 in IPv6 dress.
field_prefix-mapped_example :
    (q : Prefix) × (field_prefix (codes "::ffff:10.0.0.0/104") ≡ some q)
    × (prefix_contains q (unmap (v4 0x0a000001)) ≡ false)
unfolding code
field_prefix-mapped_example =
    field_prefix-mapped (codes "::ffff:10.0.0.0/104") 0xffff_0a000000 104 [] (v4 0x0a000001) refl
      refl (omega arith)
