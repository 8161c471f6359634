-- ===== src/Render/Tests.antt =====
-- A site of one page and one partial, and the theorems at inputs that meet their hypotheses.
use nitrokit.Prelude.{suc, ℕ, ◌≡◌, refl, true, none, some, [], ◌∷◌, ◌++◌, ◌⊎◌, inl, inr}
use nitrokit.Dict.{lookup, insert}
use nitrokit.Text.{Text, hex, codes, text_eq, contains, has_prefix, split, trim_space, trim_prefix}
use nitrokit.Http.{Response, get, set, set_header, write_header, write, final_status, string_eq}
use nitrokit.Cache.{no_cache, no_cache_private, etag_match}
use nitrokit.Render.{
  Templates, Request, no_template, failed, etag_of, page_header, send_page, revalidates, reply,
  render, render_partial,
}
use nitrokit.Render.Reply.{render_page, render_error}
use nitrokit.Render.Revalidate.{render_again, render-head}

code : Unit {0}
unfolding lookup insert get set set_header write_header write has_prefix contains split trim_space
    trim_prefix no_cache no_cache_private etag_match hex etag_of page_header send_page revalidates
    reply render render_partial
code = tt

-- A stand-in for the hash, and one for the decimal form.
abbrev hash : Text → Text
hash s = 18 ∷ 171 ∷ s

abbrev one_digit : ℕ → Text
one_digit = elim [ ℕ.zero ↦ codes "0" | suc n ↦ codes "+" ]

-- A template writes its own text and the data, under its own name or the layout's; data that starts
-- with a NUL make it fail.
abbrev exec : Text → Text → Text → Text ⊎ Text
exec tmpl name [] = inl tmpl
exec tmpl name (c ∷ d) = elim c [ ℕ.zero ↦ inr (codes "bad") | suc n ↦ inl (tmpl ++ suc n ∷ d) ]

abbrev site : Templates Text
site = record {
  pages = (codes "home.html", codes "hi ") ∷ [];
  partials = codes "part ";
  layout = true;
}

abbrev fresh : Response
fresh = record { header = []; sent = none; body = [] }

abbrev secret : Response
secret = record fresh { header = ("Cache-Control", codes "no-store" ∷ []) ∷ [] }

abbrev plain : Request
plain = record { method = codes "GET"; header = [] }

abbrev head : Request
head = record plain { method = codes "HEAD" }

abbrev tag : Text
tag = codes "\"12ab686920\""

abbrev again : Request
again = record plain { header = ("If-None-Match", tag ∷ []) ∷ [] }

tag_test : etag_of hash (codes "hi ") ≡ tag
unfolding code
tag_test = refl

render_tests :
    ((render hash one_digit exec site fresh plain (codes "home.html") 200 []).1.body ≡ codes "hi ")
    × (get "Cache-Control"
          (render hash one_digit exec site secret plain (codes "home.html") 200 []).1.header
        ≡ codes "no-store")
    × (get "ETag" (render hash one_digit exec site secret plain (codes "home.html") 200 []).1.header
        ≡ [])
    × (render hash one_digit exec site fresh plain (codes "away.html") 200 []
        ≡ (some (no_template (codes "away.html")), fresh))
    × ((render_partial hash one_digit exec site fresh (codes "_row.html") (codes "x")).1.body
        ≡ codes "part x")
    × (render_partial hash one_digit exec site fresh (codes "_row.html") (0 ∷ [])
        ≡ (some (failed (codes "_row.html") (codes "bad")), fresh))
unfolding code
render_tests = (refl, refl, refl, refl, refl, refl)

render_page_test :
    ((render hash one_digit exec site fresh plain (codes "home.html") 404 []).0 ≡ none)
    × (final_status (render hash one_digit exec site fresh plain (codes "home.html") 404 []).1
        ≡ 404)
    × ((render hash one_digit exec site fresh plain (codes "home.html") 404 []).1.body
        ≡ codes "hi ")
unfolding code
render_page_test =
    render_page hash one_digit exec site fresh plain (codes "home.html") 404 [] (codes "hi ")
      (codes "hi ") (refl, refl) refl refl refl

render_error_test :
    ((render hash one_digit exec site fresh plain (codes "home.html") 200 (0 ∷ [])).1 ≡ fresh)
    × (((lookup (codes "home.html") site.pages ≡ none)
          × (failed (codes "home.html") (codes "bad") ≡ no_template (codes "home.html")))
        ⊎ ((tmpl : Text) × (err : Text) × (lookup (codes "home.html") site.pages ≡ some tmpl)
            × (exec tmpl (codes "base.html") (0 ∷ []) ≡ inr err)
            × (failed (codes "home.html") (codes "bad") ≡ failed (codes "home.html") err)))
unfolding code
render_error_test =
    render_error hash one_digit exec site fresh plain (codes "home.html") 200 (0 ∷ [])
      (failed (codes "home.html") (codes "bad")) refl

render_again_example :
    (final_status (render hash one_digit exec site fresh again (codes "home.html") 200 []).1 ≡ 304)
    × ((render hash one_digit exec site fresh again (codes "home.html") 200 []).1.body ≡ [])
unfolding code
render_again_example =
    render_again hash one_digit exec site fresh plain again (codes "home.html") [] (codes "hi ")
      (codes "hi ") (refl, refl) refl refl refl refl

render-head_test :
    ((render hash one_digit exec site fresh head (codes "home.html") 200 []).1.sent
      ≡ (render hash one_digit exec site fresh plain (codes "home.html") 200 []).1.sent)
    × ((render hash one_digit exec site fresh head (codes "home.html") 200 []).1.body ≡ [])
render-head_test =
    render-head hash one_digit exec site fresh head plain (codes "home.html") 200 [] refl
      (refl, refl) refl refl
