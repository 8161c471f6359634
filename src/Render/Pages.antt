-- ===== src/Render/Pages.antt =====
-- What ParseTemplates makes of a directory: which files become pages, and of which files each is
-- parsed.
use nitrokit.Prelude.{
  ◌≡◌, ◌≢◌, refl, subst, sym, ap, ◌∙◌, arith, Bool, true, false, ◌&&◌, Option, none, some, List, [],
  ◌∷◌, ◌++◌, ◌⊎◌, inl, inr, if◌then◌else◌, Bool-cases,
}
use nitrokit.Dict.{Dict, lookup, insert, lookup-insert}
use nitrokit.Text.{Text, codes, text_beq, text_beq_iff, text_eq}
use nitrokit.Render.{Templates}
use nitrokit.Render.Parse.{
  Engine, ParseError, in_page, lift, and_then, parse_base, with_partials, base_with_partials,
  parse_page, parse_pages, has_base, finish, parse_templates,
}
use nitrokit.Render.Listing.{is_partial, is_page, keep, listed, sort_files_lem, listed-keep}

and_then-eq-inl :
    {A B : Type 0} (x : A ⊎ ParseError) (f : A → B ⊎ ParseError) (b : B)
    → and_then x f ≡ inl b
    → (a : A) × (x ≡ inl a) × (f a ≡ inl b)
and_then-eq-inl (inl a) f b h = (a, refl, h)
and_then-eq-inl (inr e) f b h = absurd (ground (arith, h))

inl_inj : {A : Type 0} (a b : A) → ◌≡◌ {A = A ⊎ ParseError} (inl a) (inl b) → a ≡ b
inl_inj a b h = ground (arith, h)

lift-eq-inl : {A : Type 0} (x : A ⊎ Text) (a : A) → lift x ≡ inl a → x ≡ inl a
lift-eq-inl (inl b) a h = ground (arith, h)
lift-eq-inl (inr e) a h = absurd (ground (arith, h))

module _ {T : Type 0} (g : Engine T) where
  -- A set as it is after the parsing of some files into it, none for no files.
  abbrev pub Parsed : List Text → T → T → Type 0
  Parsed [] t t' = t' ≡ t
  Parsed (f ∷ fs) t t' = g.parse_fs t (f ∷ fs) ≡ inl t'

  -- How a page comes about: onto a copy of the base, or by itself with the partials before it.
  abbrev pub IsPageOf : Option T → List Text → Text → T → Type 0
  IsPageOf (some b) partials name page =
      (copy : T) × (g.clone b ≡ inl copy) × (g.parse_fs copy (name ∷ []) ≡ inl page)
  IsPageOf none partials name page = g.parse_fs (g.new name) (partials ++ name ∷ []) ≡ inl page

  -- A page as it is parsed and kept.
  abbrev pub Kept : Option T → List Text → Text → Dict Text T → Type 0
  Kept base partials name pages =
      (page : T) × IsPageOf base partials name page × (lookup name pages ≡ some page)

  with_partials-Parsed :
      (files : List Text) (t t' : T) → with_partials g files t ≡ inl t' → Parsed files t t'
  unfolding with_partials
  with_partials-Parsed [] t t' h = sym (inl_inj t t' h)
  with_partials-Parsed (f ∷ fs) t t' h = lift-eq-inl (g.parse_fs t (f ∷ fs)) t' h

  in_page-eq-inl :
      (name : Text) (x : T ⊎ Text) (page : T)
      → ◌≡◌ {A = T ⊎ ParseError}
          (elim x [ inl page ↦ inl page | inr e ↦ inr (in_page name e) ])
          (inl page)
      → x ≡ inl page
  in_page-eq-inl name (inl p) page h = ap inl (inl_inj p page h)
  in_page-eq-inl name (inr e) page h = absurd (ground (arith, h))

  parse_page-IsPageOf :
      (base : Option T) (partials : List Text) (name : Text) (page : T)
      → parse_page g base partials name ≡ inl page
      → IsPageOf base partials name page
  unfolding parse_page
  parse_page-IsPageOf (some b) partials name page h =
      let (copy, e, q) = and_then-eq-inl (lift (g.clone b)) _ page h in
      (
        copy,
        lift-eq-inl (g.clone b) copy e,
        in_page-eq-inl name (g.parse_fs copy (name ∷ [])) page q,
      )
  parse_page-IsPageOf none partials name page h =
      in_page-eq-inl name (g.parse_fs (g.new name) (partials ++ name ∷ [])) page h

  parse_pages_lem :
      (base : Option T) (partials names : List Text) (before pages : Dict Text T)
      → parse_pages g base partials names before ≡ inl pages
      → (name : Text)
      → ((listed name names ≡ true) × Kept base partials name pages)
        ⊎ ((listed name names ≡ false) × (lookup name pages ≡ lookup name before))
  unfolding parse_pages
  parse_pages_lem base partials [] before pages h name =
      inr (refl, ap (lookup name) (sym (inl_inj before pages h)))
  parse_pages_lem base partials (n ∷ names) before pages h name =
      let (page, made, rest) = and_then-eq-inl (parse_page g base partials n) _ pages h in
      elim (parse_pages_lem base partials names (insert n page before) pages rest name) [
        | inl (l, kept) ↦ inl (ground (arith, l), kept)
        | inr (l, same) ↦ elim (Bool-cases (text_beq n name)) [
          | inl e ↦
              let same_name = (text_beq_iff n name).0 e in
              let found = same ∙ lookup-insert n name page before in
              inl (
                ground (arith, e),
                (
                  page,
                  subst (λ m. IsPageOf base partials m page) same_name
                      (parse_page-IsPageOf base partials n page made),
                  ground (arith, e, found),
                ),
              )
          | inr e ↦
              inr (ground (arith, e, l), ground (arith, e, same, lookup-insert n name page before))
        ]
      ]

  -- The set that pages are cloned from, if the directory has a base.
  abbrev pub IsBaseOf : List Text → Option T → Type 0
  IsBaseOf partials base =
      ((g.stat (codes "base.html") ≡ false) × (base ≡ none))
      ⊎ ((g.stat (codes "base.html") ≡ true)
          × ((b b' : T) × (g.parse_fs (g.new (codes "base.html")) (codes "base.html" ∷ []) ≡ inl b)
              × Parsed partials b b'
              × (base ≡ some b')))

  -- The test for a base, and what is parsed if there is one.
  base_of_test :
      (test : Bool) (parsed : T ⊎ Text) (base : Option T)
      → (if test then and_then (lift parsed) (λ b. inl (some b)) else inl none) ≡ inl base
      → ((test ≡ false) × (base ≡ none))
        ⊎ ((test ≡ true) × ((b : T) × (parsed ≡ inl b) × (base ≡ some b)))
  base_of_test false parsed base h = inl (refl, sym (inl_inj none base h))
  base_of_test true parsed base h =
      let (b, e, q) = and_then-eq-inl (lift parsed) (λ b. inl (some b)) base h in
      inr (refl, (b, lift-eq-inl parsed b e, sym (inl_inj (some b) base q)))

  base_with_partials_cases :
      (partials : List Text) (base base' : Option T)
      → base_with_partials g partials base ≡ inl base'
      → ((base ≡ none) × (base' ≡ none))
        ⊎ ((b b' : T) × (base ≡ some b) × Parsed partials b b' × (base' ≡ some b'))
  unfolding base_with_partials
  base_with_partials_cases partials none base' h = inl (refl, sym (inl_inj none base' h))
  base_with_partials_cases partials (some b) base' h =
      let (b', e, q) = and_then-eq-inl (with_partials g partials b) (λ b. inl (some b)) base' h in
      inr (b, b', refl, with_partials-Parsed partials b b' e, sym (inl_inj (some b') base' q))

  base_with_partials_lem :
      (partials : List Text) (base base' : Option T)
      → parse_base g ≡ inl base
      → base_with_partials g partials base ≡ inl base'
      → IsBaseOf partials base'
  unfolding parse_base
  base_with_partials_lem partials base base' h k =
      elim (base_of_test (g.stat (codes "base.html")) _ base h) [
        | inl (e, absent) ↦ elim (base_with_partials_cases partials base base' k) [
          | inl (q, absent') ↦ inl (e, absent')
          | inr (b, b', q, w, same) ↦ absurd (ground (arith, absent, q))
        ]
        | inr (e, (c, parsed, there)) ↦ elim (base_with_partials_cases partials base base' k) [
          | inl (q, absent') ↦ absurd (ground (arith, there, q))
          | inr (b, b', q, w, same) ↦
              let eq : b ≡ c = ground (arith, q, there) in
              inr (e, (b, b', parsed ∙ ap inl (sym eq), w, same))
        ]
      ]

  finish-eq-inl :
      (partials : T) (base : Option T) (pages : Dict Text T) (t : Templates T)
      → finish g partials base pages ≡ inl t
      → (t.pages ≡ pages) × (t.partials ≡ partials) × (t.layout ≡ has_base g base) × (pages ≢ [])
  finish-eq-inl partials base [] t h = absurd (ground (arith, h))
  finish-eq-inl partials base (p ∷ pages) t h =
      let e = inl_inj _ t h in
      (
        sym (ap (λ t. t.pages) e),
        sym (ap (λ t. t.partials) e),
        sym (ap (λ t. t.layout) e),
        ground arith,
      )

  has_base-IsBaseOf :
      (partials : List Text) (base : Option T)
      → IsBaseOf partials base
      → has_base g base ≡ g.stat (codes "base.html")
  has_base-IsBaseOf partials base (inl (e, absent)) = ap (has_base g) absent ∙ sym e
  has_base-IsBaseOf partials base (inr (e, (b, b', p, w, there))) = ap (has_base g) there ∙ sym e

  -- What follows the sorting of the files, the pages and the partials.
  abbrev parse_files : Option T → List Text × List Text → Templates T ⊎ ParseError
  parse_files base files =
      and_then (with_partials g files.1 (g.new (codes "partials"))) (λ partials.
        and_then (base_with_partials g files.1 base) (λ base'.
          and_then (parse_pages g base' files.1 files.0 [])
            (λ pages. finish g partials base' pages)))

  parse_files_lem :
      (base : Option T) (files : List Text × List Text) (t : Templates T)
      → parse_files base files ≡ inl t
      → (base' : Option T) × (with_partials g files.1 (g.new (codes "partials")) ≡ inl t.partials)
        × (base_with_partials g files.1 base ≡ inl base')
        × (t.layout ≡ has_base g base')
        × (parse_pages g base' files.1 files.0 [] ≡ inl t.pages)
        × (t.pages ≢ [])
  parse_files_lem base files t h =
      let (partials, made, h1) =
        and_then-eq-inl (with_partials g files.1 (g.new (codes "partials"))) _ t h in
      let (base', based, h2) = and_then-eq-inl (base_with_partials g files.1 base) _ t h1 in
      let (pages, parsed, h3) = and_then-eq-inl (parse_pages g base' files.1 files.0 []) _ t h2 in
      let (same, parts, layout, full) = finish-eq-inl partials base' pages t h3 in
      (
        base',
        made ∙ ap inl (sym parts),
        based,
        layout,
        parsed ∙ ap inl (sym same),
        λ e. full (sym same ∙ e),
      )

  page_of_listed :
      (base : Option T) (partials names : List Text) (pages : Dict Text T)
      → parse_pages g base partials (keep is_page names) [] ≡ inl pages
      → (name : Text)
      → ((is_page name && listed name names ≡ true) × Kept base partials name pages)
        ⊎ ((is_page name && listed name names ≡ false) × (lookup name pages ≡ none))
  unfolding lookup
  page_of_listed base partials names pages h name =
      let files = listed-keep is_page name names in
      elim (parse_pages_lem base partials (keep is_page names) [] pages h name) [
        | inl (l, kept) ↦ inl (sym files ∙ l, kept)
        | inr (l, same) ↦ inr (sym files ∙ l, same)
      ]

  -- If ParseTemplates succeeds, then it has listed the directory; its partials are parsed from the
  -- files whose names begin with _; there is a layout exactly if base.html is there, the set of pages'
  -- base being parsed from base.html and then the partials; every other file of the listing is a page,
  -- parsed onto a copy of that base, or after the partials if there is none; no other name is a page;
  -- and there is at least one.
  pub parse_templates_lem :
      (t : Templates T)
      → parse_templates g ≡ inl t
      → (names : List Text) × (base : Option T) × (g.glob ≡ inl names)
        × Parsed (keep is_partial names) (g.new (codes "partials")) t.partials
        × IsBaseOf (keep is_partial names) base
        × (t.layout ≡ g.stat (codes "base.html"))
        × ((name : Text)
            → ((is_page name && listed name names ≡ true)
                × Kept base (keep is_partial names) name t.pages)
              ⊎ ((is_page name && listed name names ≡ false) × (lookup name t.pages ≡ none)))
        × (t.pages ≢ [])
  unfolding parse_templates
  parse_templates_lem t h =
      let (base, eb, h1) = and_then-eq-inl (parse_base g) _ t h in
      let (names, en, h2) = and_then-eq-inl (lift g.glob) _ t h1 in
      let (base', made, based, layout, parsed, full) =
        parse_files_lem base (keep is_page names, keep is_partial names) t
          (subst (λ files. parse_files base files ≡ inl t) (sort_files_lem names) h2) in
      let is_base_of = base_with_partials_lem (keep is_partial names) base base' eb based in
      (
        names,
        base',
        lift-eq-inl g.glob names en,
        with_partials-Parsed (keep is_partial names) (g.new (codes "partials")) t.partials made,
        is_base_of,
        layout ∙ has_base-IsBaseOf (keep is_partial names) base' is_base_of,
        page_of_listed base' (keep is_partial names) names t.pages parsed,
        full,
      )
