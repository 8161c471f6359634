-- ===== src/Netip/Blocks.antt =====
-- What a prefix contains, as a range of numbers.
use native.Mathlib.Nat.{
  mul-div_left, pow-le-pow_right, le-div_iff_mul-le, div-mul-le_self, lt_of_mul-lt-mul_left,
  suc-le-suc_iff, zero-add, pow-suc, div-div-eq-div-mul,
}
use Prim.Native.Nat.add
use nitrokit.Prelude.{
  ℕ, zero, suc, ◌+◌, ◌*◌, ◌/◌, ◌-◌, ◌^◌, ◌≤◌, ◌<◌, ◌≡◌, ◌↔◌, refl, ap, true, false, arith, [], ◌∷◌,
  ==_iff, Bool-cases, inl, inr,
}
use nitrokit.Text.{Text}
use nitrokit.Netip.Defs.{
  Addr, invalid, v4, v6, Prefix, unmap, masked, mask_addr, matches, clear_low, same_top,
  prefix_contains, is_mapped,
}

pow_pos : (k : ℕ) → 0 < 2 ^ k
pow_pos k = pow-le-pow_right {n = 2} (omega arith) {i = 0} {j = k} (omega arith)

pub clear_low_idem : (w b n : ℕ) → clear_low w b (clear_low w b n) ≡ clear_low w b n
clear_low_idem w b n = ap (λ q. q * 2 ^ (w - b)) (mul-div_left (n / 2 ^ (w - b)) (pow_pos (w - b)))

mask_addr_idem : (b : ℕ) (a : Addr) → mask_addr b (mask_addr b a) ≡ mask_addr b a
unfolding mask_addr
mask_addr_idem b invalid = refl
mask_addr_idem b (v4 n) = ap v4 (clear_low_idem 32 b n)
mask_addr_idem b (v6 n zone) = ap (λ k. v6 k zone) (clear_low_idem 128 b n)

-- Masking twice is masking once.
pub masked-masked : (p : Prefix) → masked (masked p) ≡ masked p
unfolding masked
masked-masked p = ground (arith, mask_addr_idem p.bits p.addr)

-- Two numbers agree above a block size exactly if the one lies in the block that the other starts.
block_to :
    (size n m : ℕ)
    → 0 < size
    → n / size ≡ m / size
    → (n / size * size ≤ m) × (m < n / size * size + size)
block_to size n m h e =
    let q : n / size * size ≡ m / size * size = ap (λ x. x * size) e in (omega arith, omega arith)

block_from :
    (size n m : ℕ)
    → 0 < size
    → n / size * size ≤ m
    → m < n / size * size + size
    → n / size ≡ m / size
block_from size n m h lo hi =
    let up : n / size ≤ m / size = (le-div_iff_mul-le h).1 lo in
    let down : m / size ≤ n / size = suc-le-suc_iff.0 (
      lt_of_mul-lt-mul_left size {m = m / size} {n = suc (n / size)}
        (omega (arith, div-mul-le_self m size))) in
    omega arith

matches_of_masked : (b : ℕ) (a c : Addr) → matches b (mask_addr b a) c ≡ matches b a c
unfolding matches mask_addr
matches_of_masked b (v4 n) (v4 m) = rw (mul-div_left (n / 2 ^ (32 - b)) (pow_pos (32 - b)))
matches_of_masked b (v6 n zone) (v6 m []) =
    rw (mul-div_left (n / 2 ^ (128 - b)) (pow_pos (128 - b)))
matches_of_masked b (v6 n zone) (v6 m (c ∷ cs)) = refl
matches_of_masked b _ _ = refl

-- Masking a prefix does not change what it contains.
pub prefix_contains-masked :
    (p : Prefix) (a : Addr) → prefix_contains (masked p) a ≡ prefix_contains p a
unfolding prefix_contains masked
prefix_contains-masked p a = matches_of_masked p.bits p.addr a

pub prefix_contains-v4 :
    (n b m : ℕ)
    → b ≤ 32
    → (prefix_contains (record { addr = v4 n; bits = b }) (v4 m) ≡ true)
      ↔ ((clear_low 32 b n ≤ m) × (m < clear_low 32 b n + 2 ^ (32 - b)))
unfolding prefix_contains
prefix_contains-v4 n b m h = (
  λ e. block_to (2 ^ (32 - b)) n m (pow_pos (32 - b)) (ground arith),
  λ r. ground (arith, block_from (2 ^ (32 - b)) n m (pow_pos (32 - b)) r.0 r.1),
)

-- Agreement above a bit is agreement above every higher bit.
agree_above : (i j n m : ℕ) → n / 2 ^ i ≡ m / 2 ^ i → n / 2 ^ (j + i) ≡ m / 2 ^ (j + i)
agree_above i zero n m e = rw zero-add e
agree_above i (suc j) n m e =
    let ih = agree_above i j n m e in
    rw
      (
        add.suc j i,
        pow-suc 2 (j + i),
        ← div-div-eq-div-mul n (2 ^ (j + i)) 2,
        ← div-div-eq-div-mul m (2 ^ (j + i)) 2,
      )
      (ap (λ q. q / 2) ih)

-- A block of IPv4-mapped IPv6 addresses contains no address that has been unmapped.
pub prefix_contains-mapped :
    (n b : ℕ) (zone : Text) (a : Addr)
    → is_mapped n ≡ true
    → 96 ≤ b
    → prefix_contains (record { addr = v6 n zone; bits = b }) (unmap a) ≡ false
unfolding prefix_contains unmap
prefix_contains-mapped n b zone invalid e h = refl
prefix_contains-mapped n b zone (v4 m) e h = refl
prefix_contains-mapped n b zone (v6 m (c ∷ z)) e h = ground arith
prefix_contains-mapped n b zone (v6 m []) e h =
    let i = 128 - b in
    let k : 32 - i + i ≡ 32 = omega arith in
    let up = λ (s : n / 2 ^ i ≡ m / 2 ^ i). rw k at (agree_above i (32 - i) n m s) in
    elim (Bool-cases (same_top 128 b n m)) [
      | inl same ↦ ground (arith, up ((==_iff _ _).0 same))
      | inr other ↦ ground arith
    ]
