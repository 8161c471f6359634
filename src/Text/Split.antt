-- ===== src/Text/Split.antt =====
-- Splitting a text at a byte, and joining fields again.
use nitrokit.Prelude.{ℕ, ◌≡◌, refl, ◌≢◌, List, [], ◌∷◌, ◌++◌, arith, All, ap, ◌∙◌, ap, ◌∙◌}
use nitrokit.Text.{Text, split, join}

-- A field holds no separator.
abbrev pub NoByte : ℕ → Text → Type 0
NoByte sep = All (λ c. c ≢ sep)

pub split-NoByte : (sep : ℕ) (f : Text) → NoByte sep f → split sep f ≡ f ∷ []
unfolding split
split-NoByte sep [] h = refl
split-NoByte sep (c ∷ f) (p, h) = ground (arith, split-NoByte sep f h)

pub split-cons : (sep : ℕ) (f s : Text) → NoByte sep f → split sep (f ++ sep ∷ s) ≡ f ∷ split sep s
unfolding split
split-cons sep [] s h = ground arith
split-cons sep (c ∷ f) s (p, h) = ground (arith, split-cons sep f s h)

-- Splitting what was joined gives the fields back.
pub split-join :
    (sep : ℕ) (f : Text) (fs : List Text)
    → All (NoByte sep) (f ∷ fs)
    → split sep (join sep (f ∷ fs)) ≡ f ∷ fs
unfolding join
split-join sep f [] (h, _) = split-NoByte sep f h
split-join sep f (g ∷ fs) (h, k) = split-cons sep f _ h ∙ ap (◌∷◌ f) (split-join sep g fs k)
