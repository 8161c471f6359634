-- ===== src/Render/ParseTests.antt =====
-- ParseTemplates on concrete directories.
use nitrokit.Prelude.{
  ◌≡◌, ◌≢◌, ◌⊎◌, ◌&&◌, none, Option, refl, Bool, true, false, List, [], ◌∷◌, ◌++◌, inl, inr,
}
use nitrokit.Dict.{lookup, insert, delete}
use nitrokit.Text.{Text, text_eq, codes, has_prefix}
use nitrokit.Render.{Templates}
use nitrokit.Render.Listing.{is_page, is_partial, keep, listed}
use nitrokit.Render.Pages.{Parsed, Kept, IsBaseOf, parse_templates_lem}
use nitrokit.Render.Parse.{
  Engine, library, no_pages, sort_files, parse_base, with_partials, base_with_partials, parse_page,
  parse_pages, parse_templates,
}

code : Unit {0}
unfolding sort_files parse_base with_partials base_with_partials parse_page parse_pages
    parse_templates insert delete has_prefix
code = tt

-- A template set is the list of the files that it has been parsed from, after its name.
abbrev engine : Bool → List Text → Engine (List Text)
engine base files = record {
  stat = λ name. base;
  glob = inl files;
  new = λ name. name ∷ [];
  parse_fs = λ t names. inl (t ++ names);
  clone = λ t. inl t;
}

parse_templates_tests :
    (parse_templates (engine true (codes "_p.html" ∷ codes "base.html" ∷ codes "home.html" ∷ []))
      ≡ inl (record {
        pages =
            (
              codes "home.html",
              codes "base.html" ∷ codes "base.html" ∷ codes "_p.html" ∷ codes "home.html" ∷ [],
            )
            ∷ [];
        partials = codes "partials" ∷ codes "_p.html" ∷ [];
        layout = true;
      }))
    × (parse_templates (engine false (codes "_p.html" ∷ codes "home.html" ∷ []))
        ≡ inl (record {
          pages =
              (codes "home.html", codes "home.html" ∷ codes "_p.html" ∷ codes "home.html" ∷ [])
              ∷ [];
          partials = codes "partials" ∷ codes "_p.html" ∷ [];
          layout = false;
        }))
    × (parse_templates (engine false (codes "_p.html" ∷ [])) ≡ inr no_pages)
    × (parse_templates (record (engine false []) { glob = inr (codes "io") })
        ≡ inr (library (codes "io")))
unfolding code
parse_templates_tests = (refl, refl, refl, refl)

abbrev small_engine : Engine (List Text)
small_engine = engine true (codes "_p.html" ∷ codes "base.html" ∷ codes "home.html" ∷ [])

abbrev small_templates : Templates (List Text)
small_templates = record {
  pages =
      (
        codes "home.html",
        codes "base.html" ∷ codes "base.html" ∷ codes "_p.html" ∷ codes "home.html" ∷ [],
      )
      ∷ [];
  partials = codes "partials" ∷ codes "_p.html" ∷ [];
  layout = true;
}

parse_templates_lem_example :
    (names : List Text) × (base : Option (List Text)) × (small_engine.glob ≡ inl names)
    × Parsed small_engine
        (keep is_partial names)
        (small_engine.new (codes "partials"))
        small_templates.partials
    × IsBaseOf small_engine (keep is_partial names) base
    × (small_templates.layout ≡ small_engine.stat (codes "base.html"))
    × ((name : Text)
        → ((is_page name && listed name names ≡ true)
            × Kept small_engine base (keep is_partial names) name small_templates.pages)
          ⊎ ((is_page name && listed name names ≡ false)
              × (lookup name small_templates.pages ≡ none)))
    × (small_templates.pages ≢ [])
parse_templates_lem_example =
    parse_templates_lem small_engine small_templates (parse_templates_tests.0)
