-- ===== src/DnsCert/Names.antt =====
-- Which server names a wildcard covers.
use nitrokit.Prelude.{
  ℕ, ◌≡◌, ◌≢◌, ◌↔◌, true, some, [], ◌∷◌, ◌++◌, arith, Bool-cases, Option-cases, inl, inr, ap, subst,
  refl, All, ◌∙◌, ◌==◌,
}
use nitrokit.Text.{Text, codes, text_beq_iff, to_lower, to_lower_byte, trim_suffix, cut}
use nitrokit.Text.Split.{NoByte}
use nitrokit.DnsCert.{DnsCert, matches}

cut-NoByte : (c : ℕ) (a b : Text) → NoByte c a → cut c (a ++ c ∷ b) ≡ some (a, b)
unfolding cut
cut-NoByte c [] b h = ground arith
cut-NoByte c (d ∷ a) b (p, h) = ground (arith, cut-NoByte c a b h)

cut-eq-some : (c : ℕ) (s a b : Text) → cut c s ≡ some (a, b) → (s ≡ a ++ c ∷ b) × NoByte c a
unfolding cut
cut-eq-some c [] a b h = cc
cut-eq-some c (d ∷ s) a b h = elim (Bool-cases (d == c)) [
  | inl here ↦
      let p : [] ≡ a = ground arith in
      let q : s ≡ b = ground arith in rw (← p, ← q) (ground arith, tt)
  | inr later ↦ elim (Option-cases (cut c s)) [
    | inl e ↦ absurd (ground arith)
    | inr ((a', b'), e) ↦
        let p : d ∷ a' ≡ a = ground arith in
        let q : b' ≡ b = ground arith in
        let (at, plain) = cut-eq-some c s a' b' e in
        rw (← p, ← q) (ap (◌∷◌ d) at, (ground arith, plain))
  ]
]

-- A manager covers a server name exactly if, in lower case and without a final dot, it is one label
-- that is not empty, a dot, and the manager's base: not the apex, and no second label.
pub matches_iff :
    {K : Type 0} (m : DnsCert K) (name : Text)
    → (matches m name ≡ true) ↔ (
        (label : Text) × (label ≢ [])
        × NoByte b'.' label
        × (to_lower (trim_suffix name (codes ".")) ≡ label ++ b'.' ∷ m.base))
unfolding matches
matches_iff m name = (
  λ h. elim (Option-cases (cut b'.' (to_lower (trim_suffix name (codes "."))))) [
    | inl e ↦ absurd (ground arith)
    | inr ((label, rest), e) ↦
        let (at, plain) = cut-eq-some b'.' (to_lower (trim_suffix name (codes "."))) label rest e in
        let same : rest ≡ m.base = ground (arith, text_beq_iff rest m.base) in
        (label, ground (arith, text_beq_iff label []), plain, at ∙ ap (λ x. label ++ b'.' ∷ x) same)
  ],
  λ (label, ne, plain, e).
      let here = ap (cut b'.') e ∙ cut-NoByte b'.' label m.base plain in
      ground (arith, here, ne, text_beq_iff label [], text_beq_iff m.base m.base),
)

to_lower-IsLower : (s : Text) → All (λ c. to_lower_byte c ≡ c) (to_lower s)
unfolding to_lower to_lower_byte
to_lower-IsLower [] = tt
to_lower-IsLower (c ∷ s) = (ground arith, to_lower-IsLower s)

All-right : (P : ℕ → Type 0) (s t : Text) → All P (s ++ t) → All P t
All-right P [] t h = h
All-right P (c ∷ s) t (p, h) = All-right P s t h

to_lower-All : (s : Text) → All (λ c. to_lower_byte c ≡ c) s → to_lower s ≡ s
unfolding to_lower
to_lower-All [] h = refl
to_lower-All (c ∷ s) (p, h) = rw p (ap (◌∷◌ c) (to_lower-All s h))

-- A manager that covers any name at all has its base in lower case: one for a host that is written
-- with an upper-case letter covers none.
pub matches_lower_case :
    {K : Type 0} (m : DnsCert K) (name : Text) → matches m name ≡ true → to_lower m.base ≡ m.base
matches_lower_case m name h =
    let (label, ne, plain, e) = (matches_iff m name).0 h in
    let lower =
      subst (All (λ c. to_lower_byte c ≡ c)) e (to_lower-IsLower (trim_suffix name (codes "."))) in
    let (dot, rest) = All-right (λ c. to_lower_byte c ≡ c) label (b'.' ∷ m.base) lower in
    to_lower-All m.base rest
