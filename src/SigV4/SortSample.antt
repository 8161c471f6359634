-- ===== src/SigV4/SortSample.antt =====
-- Sorting of strings byte by byte, by insertion: a sort at which the theorems about signV4 are tried.
use mathlib.Core.List.{foldr}
use mathlib.Core.List.Perm
use nitrokit.Prelude.{
  ◌≡◌, refl, arith, Bool, true, false, ◌&&◌, ◌||◌, ◌==◌, ltb, List, [], ◌∷◌, if◌then◌else◌,
}
use nitrokit.Text.{Text}
use nitrokit.SigV4.Order.{IsSort}

abbrev leb : Text → Text → Bool
leb [] t = true
leb (c ∷ s) [] = false
leb (c ∷ s) (d ∷ t) = let rest = leb s t in ltb c d || ((c == d) && rest)

leb_total : (s t : Text) → leb s t ≡ false → leb t s ≡ true
leb_total [] t e = ground (arith, e)
leb_total (c ∷ s) [] e = refl
leb_total (c ∷ s) (d ∷ t) e = ground (arith, e, leb_total s t)

leb_trans : (s t u : Text) → leb s t ≡ true → leb t u ≡ true → leb s u ≡ true
leb_trans [] t u e f = refl
leb_trans (c ∷ s) [] u e f = absurd (ground (arith, e))
leb_trans (c ∷ s) (d ∷ t) [] e f = absurd (ground (arith, f))
leb_trans (c ∷ s) (d ∷ t) (b ∷ u) e f = ground (arith, e, f, leb_trans s t u)

leb_antisym : (s t : Text) → leb s t ≡ true → leb t s ≡ true → s ≡ t
leb_antisym [] [] e f = refl
leb_antisym [] (d ∷ t) e f = absurd (ground (arith, f))
leb_antisym (c ∷ s) [] e f = absurd (ground (arith, e))
leb_antisym (c ∷ s) (d ∷ t) e f = ground (arith, e, f, leb_antisym s t)

abbrev place : Text → List Text → List Text
place s [] = s ∷ []
place s (t ∷ ts) = let rest = place s ts in if leb s t then s ∷ t ∷ ts else t ∷ rest

place_comm : (s t : Text) (ts : List Text) → place s (place t ts) ≡ place t (place s ts)
place_comm s t [] = ground (arith, leb_total s t, leb_total t s, leb_antisym s t)
place_comm s t (u ∷ ts) = ground (
  arith,
  place_comm s t ts,
  leb_total s t,
  leb_total t s,
  leb_antisym s t,
  leb_trans s t u,
  leb_trans t s u,
  leb_total s u,
  leb_total t u,
)

Texts_set : IsSet (List Text)
Texts_set = hlevel

abbrev pub sort : List Text → List Text
sort ts = foldr place [] ts

pub sort-IsSort : IsSort sort
sort-IsSort = record { sorts = λ p. Perm.foldr-eq Texts_set place place_comm p [] }
