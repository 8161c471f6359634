-- ===== src/ClientIp/Private.antt =====
-- The trust in private ranges.
use nitrokit.Prelude.{
  ℕ, ◌*◌, ◌%◌, ◌==◌, if◌then◌else◌, ◌^◌, ◌/◌, ◌≡◌, inl, inr, refl, Bool, ◌||◌, some, List, [], ◌∷◌,
  arith, Bool-cases,
}
use nitrokit.Netip.{v4, v6, Prefix, is_valid, unmap, is_mapped, prefix_contains, parse_prefix}
use nitrokit.ClientIp.{ProxyTrust, trust_private_proxies, any_contains, trusted}

-- The blocks that `private_ranges` writes, as numbers.
abbrev private_nets : List Prefix
private_nets =
    record { addr = v4 0x7f000000; bits = 8 }
    ∷ record { addr = v6 1 []; bits = 128 }
    ∷ record { addr = v4 0x0a000000; bits = 8 }
    ∷ record { addr = v4 0xac100000; bits = 12 }
    ∷ record { addr = v4 0xc0a80000; bits = 16 }
    ∷ record { addr = v6 (0x7e * 2 ^ 121) []; bits = 7 }
    ∷ record { addr = v4 0xa9fe0000; bits = 16 }
    ∷ record { addr = v6 (0x3fa * 2 ^ 118) []; bits = 10 }
    ∷ []

-- 127/8, 10/8, 172.16/12, 192.168/16 and 169.254/16
abbrev pub private_v4 : ℕ → Bool
private_v4 m =
    m / 2 ^ 24 == 127
    || m / 2 ^ 24 == 10
    || m / 2 ^ 20 == 0xac1
    || m / 2 ^ 16 == 0xc0a8
    || m / 2 ^ 16 == 0xa9fe

-- ::1, fc00::/7 and fe80::/10
abbrev pub private_v6 : ℕ → Bool
private_v6 m = m == 1 || m / 2 ^ 121 == 0x7e || m / 2 ^ 118 == 0x3fa

private_nets_v4 : (m : ℕ) → any_contains private_nets (v4 m) ≡ private_v4 m
unfolding any_contains prefix_contains
private_nets_v4 m = ground arith

private_nets_v6 : (m : ℕ) → any_contains private_nets (v6 m []) ≡ private_v6 m
unfolding any_contains prefix_contains
private_nets_v6 m = ground arith

-- `TrustPrivateProxies` does not panic, and what it returns trusts exactly the IPv4 addresses of
-- 127/8, 10/8, 172.16/12, 192.168/16 and 169.254/16, and of the IPv6 addresses without a zone the
-- mapped ones of those, ::1, fc00::/7 and fe80::/10.
pub trusted-trust_private_proxies :
    (m : ℕ)
    → (p : ProxyTrust) × (trust_private_proxies ≡ some p)
      × (trusted (some p) (v4 m) ≡ private_v4 m)
      × (trusted (some p) (v6 m [])
          ≡ (if is_mapped m then private_v4 (m % 2 ^ 32) else private_v6 m))
unfolding trust_private_proxies parse_prefix trusted unmap is_valid
trusted-trust_private_proxies m = (
  record { nets = private_nets },
  refl,
  private_nets_v4 m,
  elim (Bool-cases (is_mapped m)) [
    | inl e ↦ rw e (private_nets_v4 (m % 2 ^ 32))
    | inr e ↦ rw e (private_nets_v6 m)
  ],
)
