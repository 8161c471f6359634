-- ===== src/Tls/Wildcards.antt =====
-- The hosts that a configuration may name.
use nitrokit.Prelude.{
  ℕ, ◌≡◌, ◌≢◌, refl, subst, ap, ◌∙◌, arith, true, false, ◌==◌, [], ◌∷◌, ◌++◌, Bool-cases, inl, inr,
  All-append,
}
use nitrokit.Text.{Text, codes, has_prefix, has_byte, contains}
use nitrokit.Text.Split.{NoByte}
use nitrokit.Tls.{count, is_wildcard}

-- A name without a star.
abbrev pub IsPlain : Text → Type 0
IsPlain h = NoByte b'*' h

-- One leading star, as a whole label, over a name with a dot in it.
abbrev pub IsWildcard : Text → Type 0
IsWildcard h =
    (parent tld : Text) × (h ≡ codes "*." ++ parent ++ b'.' ∷ tld) × IsPlain parent × IsPlain tld

count-zero : (c : ℕ) (s : Text) → count c s ≡ 0 → NoByte c s
unfolding count
count-zero c [] h = tt
count-zero c (d ∷ s) h = (ground (arith, h), count-zero c s (ground (arith, h)))

count-NoByte : (c : ℕ) (s : Text) → NoByte c s → count c s ≡ 0
unfolding count
count-NoByte c [] h = refl
count-NoByte c (d ∷ s) (p, h) = ground (arith, count-NoByte c s h)

pub has_byte-NoByte : (c : ℕ) (s : Text) → NoByte c s → has_byte c s ≡ false
unfolding has_byte
has_byte-NoByte c [] h = refl
has_byte-NoByte c (d ∷ s) (p, h) = ground (arith, has_byte-NoByte c s h)

pub NoByte-has_byte : (c : ℕ) (s : Text) → has_byte c s ≡ false → NoByte c s
unfolding has_byte
NoByte-has_byte c [] h = tt
NoByte-has_byte c (d ∷ s) h = (ground (arith, h), NoByte-has_byte c s (ground (arith, h)))

contains_dot : (s : Text) → contains s (codes ".") ≡ true → (a b : Text) × (s ≡ a ++ b'.' ∷ b)
unfolding contains has_prefix
contains_dot [] h = absurd (ground (arith, h))
contains_dot (c ∷ s) h = elim (Bool-cases (c == b'.')) [
  | inl e ↦ ([], s, ground (arith, e))
  | inr e ↦ let (a, b, q) = contains_dot s (ground (arith, e, h)) in (c ∷ a, b, ap (◌∷◌ c) q)
]

contains-dot : (a b : Text) → contains (a ++ b'.' ∷ b) (codes ".") ≡ true
unfolding contains has_prefix
contains-dot [] b = refl
contains-dot (c ∷ a) b = ground (arith, contains-dot a b)

NoByte-parts : (c : ℕ) (a b : Text) (d : ℕ) → NoByte c (a ++ d ∷ b) → NoByte c a × NoByte c b
NoByte-parts c [] b d (p, h) = (tt, h)
NoByte-parts c (x ∷ a) b d (p, h) = let (k, l) = NoByte-parts c a b d h in ((p, k), l)

pub is_wildcard-IsWildcard : (h : Text) → is_wildcard h ≡ true → IsWildcard h
unfolding is_wildcard has_prefix count
is_wildcard-IsWildcard [] e = absurd (ground (arith, e))
is_wildcard-IsWildcard (c ∷ []) e = absurd (ground (arith, e))
is_wildcard-IsWildcard (c ∷ d ∷ rest) e =
    let star : c ≡ b'*' = ground (arith, e) in
    let dot : d ≡ b'.' = ground (arith, e) in
    let one_star : count b'*' rest ≡ 0 = ground (arith, e) in
    let dotted : contains rest (codes ".") ≡ true = ground (arith, e) in
    let (a, b, q) = contains_dot rest dotted in
    let (none_a, none_b) =
      NoByte-parts b'*' a b b'.' (subst (NoByte b'*') q (count-zero b'*' rest one_star)) in
    (
      a,
      b,
      ap (λ x. x ∷ d ∷ rest) star ∙ ap (λ x. b'*' ∷ x ∷ rest) dot ∙ ap (λ x. b'*' ∷ b'.' ∷ x) q,
      none_a,
      none_b,
    )

pub IsWildcard-is_wildcard : (h : Text) → IsWildcard h → is_wildcard h ≡ true
unfolding is_wildcard has_prefix count
IsWildcard-is_wildcard h (parent, tld, e, p, q) =
    let rest = parent ++ b'.' ∷ tld in
    let none_left : IsPlain rest =
      All-append (λ c. c ≢ b'*') parent (b'.' ∷ tld) p (ground arith, q) in
    rw e (ground (arith, count-NoByte b'*' rest none_left, contains-dot parent tld))

-- A name without a star is no wildcard.
pub is_wildcard-IsPlain : (h : Text) → IsPlain h → is_wildcard h ≡ false
unfolding is_wildcard count
is_wildcard-IsPlain h p = ground (arith, count-NoByte b'*' h p)
