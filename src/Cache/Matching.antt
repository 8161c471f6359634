-- ===== src/Cache/Matching.antt =====
-- Which headers match an entity tag.
use mathlib.Core.List.{Memᴰ}
use nitrokit.Prelude.{
  ◌≡◌, ◌↔◌, inl, inr, refl, true, List, [], ◌∷◌, ◌++◌, some, arith, Bool-cases, ap, ◌∙◌,
  Option-cases,
}
use nitrokit.Text.{Text, codes, text_beq, text_beq_iff, split, trim_space, trim_prefix, cut_prefix}
use nitrokit.Text.Split.{NoByte, split-NoByte}
use nitrokit.Cache.{candidate_match, any_match, etag_match}

-- The entity tags that a candidate of the header names: any, this one, or this one as a weak one.
pub data Names (etag : Text) (candidate : Text) : Type 0 where
  any_tag : candidate ≡ codes "*" → Names etag candidate
  strong : candidate ≡ etag → Names etag candidate
  weak : candidate ≡ codes "W/" ++ etag → Names etag candidate

cut_prefix-append : (p s : Text) → cut_prefix (p ++ s) p ≡ some s
unfolding cut_prefix
cut_prefix-append [] s = refl
cut_prefix-append (c ∷ p) s = ground (arith, cut_prefix-append p s)

cut_prefix-eq-some : (s p rest : Text) → cut_prefix s p ≡ some rest → s ≡ p ++ rest
unfolding cut_prefix
cut_prefix-eq-some s [] rest h = ground arith
cut_prefix-eq-some [] (c ∷ p) rest h = cc
cut_prefix-eq-some (d ∷ s) (c ∷ p) rest h = ground (arith, cut_prefix-eq-some s p rest)

candidate_match-Names : (c etag : Text) → candidate_match c etag ≡ true → Names etag c
unfolding candidate_match trim_prefix
candidate_match-Names c etag h = elim (Bool-cases (text_beq c (codes "*"))) [
  | inl e ↦ any_tag ((text_beq_iff c (codes "*")).0 e)
  | inr e ↦ elim (Bool-cases (text_beq c etag)) [
    | inl f ↦ strong ((text_beq_iff c etag).0 f)
    | inr f ↦ elim (Option-cases (cut_prefix c (codes "W/"))) [
      | inl g ↦ strong (ground (arith, text_beq_iff c etag))
      | inr (rest, g) ↦
          let same : rest ≡ etag = ground (arith, text_beq_iff rest etag) in
          weak (cut_prefix-eq-some c (codes "W/") rest g ∙ ap (λ t. codes "W/" ++ t) same)
    ]
  ]
]

Names-candidate_match : (c etag : Text) → Names etag c → candidate_match c etag ≡ true
unfolding candidate_match trim_prefix
Names-candidate_match c etag (any_tag e) = ground (arith, text_beq_iff c (codes "*"))
Names-candidate_match c etag (strong e) = ground (arith, text_beq_iff c etag)
Names-candidate_match c etag (weak e) =
    let cut : cut_prefix c (codes "W/") ≡ some etag = rw e (cut_prefix-append (codes "W/") etag) in
    ground (arith, cut, text_beq_iff etag etag)

any_match-Names :
    (cs : List Text) (etag : Text)
    → any_match cs etag ≡ true
    → (c : Text) × Memᴰ c cs × Names etag (trim_space c)
unfolding any_match
any_match-Names [] etag h = cc
any_match-Names (c ∷ cs) etag h = elim (Bool-cases (candidate_match (trim_space c) etag)) [
  | inl e ↦ (c, Memᴰ.head refl, candidate_match-Names (trim_space c) etag e)
  | inr e ↦ let (d, m, n) = any_match-Names cs etag (ground arith) in (d, Memᴰ.tail m, n)
]

Names-any_match :
    (c : Text) (cs : List Text) (etag : Text)
    → Memᴰ c cs
    → Names etag (trim_space c)
    → any_match cs etag ≡ true
unfolding any_match
Names-any_match c [] etag m n = elim m [ ]
Names-any_match c (d ∷ cs) etag (Memᴰ.head e) n =
    ground (arith, Names-candidate_match (trim_space d) etag (rw (← e) n))
Names-any_match c (d ∷ cs) etag (Memᴰ.tail m) n = ground (arith, Names-any_match c cs etag m n)

-- An If-None-Match header matches a tag exactly if one of its comma-separated fields, trimmed, is
-- "*", the tag, or the tag marked as weak.
pub etag_match_iff :
    (header etag : Text)
    → (etag_match header etag ≡ true)
      ↔ ((c : Text) × Memᴰ c (split b',' header) × Names etag (trim_space c))
unfolding etag_match
etag_match_iff header etag = (
  any_match-Names (split b',' header) etag,
  λ (c, m, n). Names-any_match c (split b',' header) etag m n,
)

-- Byte for byte the tag that was sent matches, if it holds no comma and no space to be trimmed.
pub etag_match_self :
    (etag : Text) → NoByte b',' etag → trim_space etag ≡ etag → etag_match etag etag ≡ true
unfolding etag_match
etag_match_self etag h t =
    rw (split-NoByte b',' etag h)
      (Names-any_match etag (etag ∷ []) etag (Memᴰ.head refl) (strong t))
