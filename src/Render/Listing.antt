-- ===== src/Render/Listing.antt =====
-- How ParseTemplates sorts the files of a listing.
use nitrokit.Prelude.{
  ◌≡◌, refl, ap, arith, Bool, false, not, ◌&&◌, ◌||◌, List, [], ◌∷◌, inl, inr, if◌then◌else◌,
  Bool-cases,
}
use nitrokit.Text.{Text, codes, text_beq, text_beq_iff, text_eq, has_prefix}
use nitrokit.Render.Parse.{sort_files}

abbrev pub is_base : Text → Bool
is_base name = text_beq name (codes "base.html")

abbrev pub is_partial : Text → Bool
is_partial name = not (is_base name) && has_prefix name (codes "_")

abbrev pub is_page : Text → Bool
is_page name = not (is_base name) && not (has_prefix name (codes "_"))

abbrev pub keep : (Text → Bool) → List Text → List Text
keep f [] = []
keep f (n ∷ names) = let rest = keep f names in if f n then n ∷ rest else rest

abbrev pub listed : Text → List Text → Bool
listed name [] = false
listed name (n ∷ names) = let rest = listed name names in text_beq n name || rest

pub sort_files_lem :
    (names : List Text) → sort_files names ≡ (keep is_page names, keep is_partial names)
unfolding sort_files
sort_files_lem [] = refl
sort_files_lem (n ∷ names) = rw (sort_files_lem names) (ground arith)

pub listed-keep :
    (f : Text → Bool) (name : Text) (names : List Text)
    → listed name (keep f names) ≡ (f name && listed name names)
listed-keep f name [] = ground arith
listed-keep f name (n ∷ names) = elim (Bool-cases (text_beq n name)) [
  | inl e ↦ ground (arith, e, ap f ((text_beq_iff n name).0 e), listed-keep f name names)
  | inr e ↦ ground (arith, e, listed-keep f name names)
]
