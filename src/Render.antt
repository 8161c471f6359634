-- ===== src/Render.antt =====
-- render.go: Render and RenderPartial. The templates are the Go library's: `execute` gives what a
-- set writes to a buffer for a name and the data, or the text of its error. `sha256` and `itoa` are
-- the Go library's too. ParseTemplates stands in Render/Parse.antt.
pub mod Tag
pub mod Parse
pub mod Listing
pub mod Pages
pub mod Reply
pub mod Revalidate
mod Tests
mod ParseTests
use nitrokit.Prelude.{
  ℕ, ◌+◌, ◌/◌, ◌%◌, Bool, true, false, not, ◌&&◌, Option, none, some, List, [], ◌∷◌, ◌++◌, ◌⊎◌, inl,
  inr, ◌==◌, ltb, if◌then◌else◌, length, take,
}
use nitrokit.Dict.{Dict, lookup}
use nitrokit.Text.{Text, hex, codes, text_beq, text_eq, contains}
use nitrokit.Http.{
  Header, Response, get, set_header, write_header, write, status_ok, status_not_modified,
}
use nitrokit.Cache.{no_cache, no_cache_private, etag_match}

pub record Templates (T : Type 0) : Type 0 where
  pub pages : Dict Text T
  pub partials : T
  pub layout : Bool

pub record Request : Type 0 where
  pub method : Text
  pub header : Header

pub data RenderError : Type 0 where
  no_template : Text → RenderError
  failed : Text → Text → RenderError

unfoldable pub etag_of : (Text → Text) → Text → Text
unfolding hex
etag_of sha256 buf = 34 ∷ hex (take 16 (sha256 buf)) ++ 34 ∷ []

-- The header that every page gets.
unfoldable pub page_header : Response → Response
page_header w =
    let w1 = set_header "Content-Type" (codes "text/html; charset=utf-8") w in
    let w2 = if text_beq (get "Cache-Control" w1.header) [] then no_cache w1 else w1 in
    set_header "Vary" (codes "Cookie") w2

-- The page itself, without its body for HEAD.
unfoldable pub send_page : (ℕ → Text) → Request → ℕ → Text → Response → Response
send_page itoa r status buf w =
    let w1 = set_header "Content-Length" (itoa (length buf)) w in
    let w2 = write_header status w1 in if text_beq r.method (codes "HEAD") then w2 else write buf w2

-- A match that the request has, and that the tag meets.
unfoldable pub revalidates : Request → Text → Bool
revalidates r etag =
    let match = get "If-None-Match" r.header in not (text_beq match []) && etag_match match etag

module _ (sha256 : Text → Text) (itoa : ℕ → Text) where
  -- What is done with a page once it is in the buffer.
  unfoldable pub reply : Request → ℕ → Text → Response → Response
  unfolding etag_of page_header send_page revalidates
  reply r status buf w =
      let w1 = page_header w in
      if status == status_ok && not (contains (get "Cache-Control" w1.header) (codes "no-store"))
      then (let w2 = set_header "ETag" (etag_of sha256 buf) w1 in
          if revalidates r (etag_of sha256 buf)
          then write_header status_not_modified w2
          else send_page itoa r status buf w2)
      else send_page itoa r status buf w1

  module _ {T D : Type 0} (execute : T → Text → D → Text ⊎ Text) (t : Templates T) where
    -- The error, if there is one, and the response.
    unfoldable pub render : Response → Request → Text → ℕ → D → Option RenderError × Response
    render w r page status data_ = elim (lookup page t.pages) [
      | none ↦ (some (no_template page), w)
      | some tmpl ↦ elim (execute tmpl (if t.layout then codes "base.html" else page) data_) [
        | inr err ↦ (some (failed page err), w)
        | inl buf ↦ (none, reply r status buf w)
      ]
    ]

    unfoldable pub render_partial : Response → Text → D → Option RenderError × Response
    render_partial w name data_ = elim (execute t.partials name data_) [
      | inr err ↦ (some (failed name err), w)
      | inl buf ↦
          let w1 = set_header "Content-Type" (codes "text/html; charset=utf-8") w in
          let w2 =
            if text_beq (get "Cache-Control" w1.header) [] then no_cache_private w1 else w1 in
          (none, write buf w2)
    ]
