-- ===== src/Render/Tag.antt =====
-- The entity tag of a page is one that its own match accepts.
use nitrokit.Prelude.{
  ℕ, ◌≡◌, ◌≢◌, refl, ap, true, [], ◌∷◌, ◌++◌, arith, All-append, if◌then◌else◌, take,
}
use nitrokit.Text.{Text, hex, is_space, trim_left, trim_right, trim_space}
use nitrokit.Text.Split.{NoByte}
use nitrokit.Cache.{etag_match}
use nitrokit.Cache.Matching.{etag_match_self}
use nitrokit.Render.{etag_of}

hex-NoByte : (s : Text) → NoByte b',' (hex s)
unfolding hex
hex-NoByte [] = tt
hex-NoByte (b ∷ s) = (ground arith, (ground arith, hex-NoByte s))

etag_of-NoByte : (sha256 : Text → Text) (buf : Text) → NoByte b',' (etag_of sha256 buf)
unfolding etag_of
etag_of-NoByte sha256 buf = (
  ground arith,
  All-append (λ c. c ≢ b',') (hex (take 16 (sha256 buf))) (34 ∷ []) (hex-NoByte _) (ground arith),
)

-- What stays of a byte before a text that is trimmed on the right.
last_kept : (c : ℕ) (t : Text) → t ≢ [] → trim_right t ≡ t → trim_right (c ∷ t) ≡ c ∷ t
unfolding trim_right
last_kept c [] ne h = absurd (ne refl)
last_kept c (d ∷ t) ne h =
    ap (λ (x : Text). elim x [ [] ↦ if is_space c then [] else c ∷ [] | e ∷ u ↦ c ∷ e ∷ u ]) h

append_ne : (s : Text) (c : ℕ) → s ++ c ∷ [] ≢ []
append_ne [] c = ground arith
append_ne (d ∷ s) c = ground arith

-- A text that ends in a quote is not trimmed on the right.
trim_right-quote : (s : Text) → trim_right (s ++ 34 ∷ []) ≡ s ++ 34 ∷ []
unfolding trim_right is_space
trim_right-quote [] = refl
trim_right-quote (c ∷ s) = last_kept c (s ++ 34 ∷ []) (append_ne s 34) (trim_right-quote s)

trim_space-etag_of :
    (sha256 : Text → Text) (buf : Text) → trim_space (etag_of sha256 buf) ≡ etag_of sha256 buf
unfolding etag_of trim_space trim_left is_space
trim_space-etag_of sha256 buf = trim_right-quote (34 ∷ hex (take 16 (sha256 buf)))

pub etag_match-etag_of :
    (sha256 : Text → Text) (buf : Text)
    → etag_match (etag_of sha256 buf) (etag_of sha256 buf) ≡ true
etag_match-etag_of sha256 buf =
    etag_match_self (etag_of sha256 buf) (etag_of-NoByte sha256 buf) (trim_space-etag_of sha256 buf)
