-- ===== src/Render/Parse.antt =====
-- ParseTemplates. The file system and the template library are arguments: `stat` is whether a file
-- is there, `glob` the names that match *.html, and a failure is the text of its error.
use nitrokit.Prelude.{
  Bool, true, false, Option, none, some, List, [], ◌∷◌, ◌++◌, ◌⊎◌, inl, inr, if◌then◌else◌,
}
use nitrokit.Dict.{Dict, insert}
use nitrokit.Text.{Text, codes, text_beq, text_eq, has_prefix}
use nitrokit.Render.{Templates}

pub record Engine (T : Type 0) : Type 0 where
  pub stat : Text → Bool
  pub glob : List Text ⊎ Text
  pub new : Text → T
  pub parse_fs : T → List Text → T ⊎ Text
  pub clone : T → T ⊎ Text

pub data ParseError : Type 0 where
  library : Text → ParseError
  in_page : Text → Text → ParseError
  no_pages : ParseError

-- The three kinds of files, in the order of the listing: pages and partials.
unfoldable pub sort_files : List Text → List Text × List Text
sort_files [] = ([], [])
sort_files (name ∷ names) =
    let (pages, partials) = sort_files names in
    if text_beq name (codes "base.html")
    then (pages, partials)
    else if has_prefix name (codes "_")
    then (pages, name ∷ partials)
    else (name ∷ pages, partials)

-- An early return on an error.
abbrev pub lift : {A : Type 0} → A ⊎ Text → A ⊎ ParseError
lift (inl x) = inl x
lift (inr e) = inr (library e)

abbrev pub and_then : {A B : Type 0} → A ⊎ ParseError → (A → B ⊎ ParseError) → B ⊎ ParseError
and_then (inl x) f = f x
and_then (inr e) f = inr e

module _ {T : Type 0} (g : Engine T) where
  unfoldable pub parse_base : Option T ⊎ ParseError
  parse_base =
      if g.stat (codes "base.html")
      then and_then (lift (g.parse_fs (g.new (codes "base.html")) (codes "base.html" ∷ [])))
          (λ b. inl (some b))
      else inl none

  -- A set with the partials parsed into it, if there are any.
  unfoldable pub with_partials : List Text → T → T ⊎ ParseError
  with_partials [] t = inl t
  with_partials (f ∷ fs) t = lift (g.parse_fs t (f ∷ fs))

  unfoldable pub base_with_partials : List Text → Option T → Option T ⊎ ParseError
  unfolding with_partials
  base_with_partials files none = inl none
  base_with_partials files (some b) = and_then (with_partials files b) (λ b'. inl (some b'))

  unfoldable pub parse_page : Option T → List Text → Text → T ⊎ ParseError
  parse_page (some base) partials name =
      and_then (lift (g.clone base)) (λ c. elim (g.parse_fs c (name ∷ [])) [
        | inl page ↦ inl page
        | inr e ↦ inr (in_page name e)
      ])
  parse_page none partials name = elim (g.parse_fs (g.new name) (partials ++ name ∷ [])) [
    | inl page ↦ inl page
    | inr e ↦ inr (in_page name e)
  ]

  -- The loop over the pages.
  unfoldable pub parse_pages :
      Option T → List Text → List Text → Dict Text T → Dict Text T ⊎ ParseError
  unfolding parse_page
  parse_pages base partials [] pages = inl pages
  parse_pages base partials (name ∷ names) pages =
      and_then (parse_page base partials name)
        (λ page. parse_pages base partials names (insert name page pages))

  abbrev pub has_base : Option T → Bool
  has_base none = false
  has_base (some b) = true

  abbrev pub finish : T → Option T → Dict Text T → Templates T ⊎ ParseError
  finish partials base [] = inr no_pages
  finish partials base (p ∷ pages) =
      inl (record { pages = p ∷ pages; partials = partials; layout = has_base base })

  unfoldable pub parse_templates : Templates T ⊎ ParseError
  unfolding parse_base sort_files with_partials base_with_partials parse_pages
  parse_templates = and_then parse_base (λ base. and_then (lift g.glob) (λ names.
      let (page_files, partial_files) = sort_files names in
      and_then (with_partials partial_files (g.new (codes "partials"))) (λ partials.
        and_then (base_with_partials partial_files base) (λ base'.
          and_then (parse_pages base' partial_files page_files [])
            (λ pages. finish partials base' pages)))))
