-- ===== src/Netip/Defs.antt =====
-- Addresses and prefixes. An IPv4 address is a number below 2^32, an IPv6 address a number below
-- 2^128 with a zone, which is empty for none; the zero Addr is no address.
use nitrokit.Prelude.{
  ℕ, ◌*◌, ◌/◌, ◌%◌, ◌-◌, ◌^◌, Bool, true, false, ◌&&◌, [], ◌==◌, leb, if◌then◌else◌,
}
use nitrokit.Text.{Text}

pub data Addr : Type 0 where
  invalid : Addr
  v4 : ℕ → Addr
  v6 : ℕ → Text → Addr

unfoldable pub is_valid : Addr → Bool
is_valid invalid = false
is_valid _ = true

-- Whether the address is ::ffff:a.b.c.d: 80 zero bits, then 16 ones.
abbrev pub is_mapped : ℕ → Bool
is_mapped n = n / 2 ^ 32 == 0xffff

-- a.Unmap(): an IPv4-mapped IPv6 address as the IPv4 address, any other as it is.
unfoldable pub unmap : Addr → Addr
unmap (v6 n zone) = if is_mapped n then v4 (n % 2 ^ 32) else v6 n zone
unmap a = a

-- a.WithZone("")
unfoldable pub without_zone : Addr → Addr
without_zone (v6 n zone) = v6 n []
without_zone a = a

-- a.BitLen()
unfoldable pub bit_len : Addr → ℕ
bit_len invalid = 0
bit_len (v4 n) = 32
bit_len (v6 n zone) = 128

-- A prefix holds an address without a zone.
pub record Prefix : Type 0 where
  pub addr : Addr
  pub bits : ℕ

-- netip.PrefixFrom(a, bits), for bits in range
unfoldable pub prefix_from : Addr → ℕ → Prefix
unfolding without_zone
prefix_from a bits = record { addr = without_zone a; bits = bits }

-- A number with all but the first `bits` of its `width` bits cleared.
abbrev pub clear_low : ℕ → ℕ → ℕ → ℕ
clear_low width bits n = n / 2 ^ (width - bits) * 2 ^ (width - bits)

unfoldable pub mask_addr : ℕ → Addr → Addr
mask_addr bits invalid = invalid
mask_addr bits (v4 n) = v4 (clear_low 32 bits n)
mask_addr bits (v6 n zone) = v6 (clear_low 128 bits n) zone

-- p.Masked()
unfoldable pub masked : Prefix → Prefix
unfolding mask_addr
masked p = record p { addr = mask_addr p.bits p.addr }

-- The first `bits` of `width` bits agree.
abbrev pub same_top : ℕ → ℕ → ℕ → ℕ → Bool
same_top width bits n m = n / 2 ^ (width - bits) == m / 2 ^ (width - bits)

unfoldable pub matches : ℕ → Addr → Addr → Bool
matches bits (v4 n) (v4 m) = leb bits 32 && same_top 32 bits n m
matches bits (v6 n zone) (v6 m []) = leb bits 128 && same_top 128 bits n m
matches bits _ _ = false

-- p.Contains(a): of one family, `a` with no zone, and agreeing on the first bits.
unfoldable pub prefix_contains : Prefix → Addr → Bool
unfolding matches
prefix_contains p a = matches p.bits p.addr a
