-- ===== src/Assets/Tests.antt =====
-- Tests of the assets at a tree of two files, and at a directory of one.
use mathlib.Core.List.{Memᴰ}
use nitrokit.Prelude.{
  ℕ, ◌≡◌, ◌≤◌, ◌↔◌, ◌⊎◌, refl, arith, ap, sym, ◌∙◌, false, none, some, List, [], ◌∷◌, ◌++◌,
}
use nitrokit.Dict.{lookup, insert}
use nitrokit.Text.{Text, codes, text_eq, has_prefix, cut_prefix, hex}
use nitrokit.Clock.{Time}
use nitrokit.Http.{Response, get, write}
use nitrokit.Result.{Result, ok, err}
use nitrokit.Assets.{
  AssetFile, Assets, Visit, directory, file, Request, not_found, immutable, short_hash, asset_file,
  new_assets, url, serve_http,
}
use nitrokit.Assets.Serving.{serve_http_cases, url_served}
use nitrokit.Assets.Dir.{FileInfo, Root, DirAssets, hash}
use nitrokit.Assets.Hashing.{IsVersioned, IsCoherent, hash-IsCoherent}
use nitrokit.Assets.Interleaving.{
  HashPc, idle, called, stated, missed, opened, hashed, answered, Disk, replace, move, entry, calls,
  stats, misses, opens, reads, keeps, replaces, runs, Reached, here, next,
}
use nitrokit.Assets.Freshness.{IsStamped, hash_linearizable}

abbrev sha256 : Text → Text
sha256 body = body ++ codes "0123456789"

abbrev quote : Text → Text
quote s = s

abbrev mime : Text → Text
mime name = []

abbrev serve_content : Text → Time → Text → Response → Response
serve_content name mtime body w = write body w

abbrev visits : List (Text × Visit)
visits = (codes ".", directory) ∷ (codes "app.css", file (ok (codes "body"))) ∷ []

abbrev style : AssetFile
style = asset_file sha256 quote mime serve_content (codes "app.css") (codes "body")

abbrev tree : Assets
tree = record { prefix = codes "/static/"; files = (codes "app.css", style) ∷ [] }

code : Unit {0}
unfolding new_assets lookup insert has_prefix hex cut_prefix serve_http
code = tt

tree_test : new_assets sha256 quote mime serve_content visits (codes "/static") ≡ ok tree
unfolding code
tree_test = refl

style_test : lookup (codes "app.css") tree.files ≡ some style
unfolding code
style_test = refl

abbrev response : Response
response = record { header = []; sent = none; body = [] }

abbrev request : Request
request = record { path = codes "/static/app.css"; v = codes "old" }

serve_http_cases_example :
    ((name body : Text) × (w1 : Response) × (codes "/static/app.css" ≡ codes "/static/" ++ name)
      × Memᴰ (name, file (ok body)) visits
      × (serve_http sha256 quote mime serve_content tree request response ≡ write body w1)
      × ((get "Cache-Control" w1.header ≡ immutable)
          ↔ (codes "old" ≡ short_hash sha256 quote mime serve_content body)))
    ⊎ (((name body : Text)
          → codes "/static/app.css" ≡ codes "/static/" ++ name
          → ¬ Memᴰ (name, file (ok body)) visits)
        × (serve_http sha256 quote mime serve_content tree request response ≡ not_found response))
serve_http_cases_example =
    serve_http_cases sha256 quote mime serve_content visits (codes "/static") tree tree_test request
      response

url_served_example :
    let v = short_hash sha256 quote mime serve_content (codes "body") in
    (url sha256 quote mime serve_content tree (codes "app.css") ≡ codes "/static/app.css?v=" ++ v)
    × ((w1 : Response) × (serve_http sha256 quote mime serve_content tree
            (record { path = codes "/static/app.css"; v = v })
            response
          ≡ write (codes "body") w1)
        × (get "Cache-Control" w1.header ≡ immutable)
        × (get "ETag" w1.header ≡ b'"' ∷ v ++ b'"' ∷ []))
unfolding asset_file
url_served_example =
    url_served sha256 quote mime serve_content visits (codes "/static") tree (codes "app.css") style
      tree_test style_test response

-- A directory whose world is the number of edits of its one file: the size is that number.
abbrev info_at : ℕ → FileInfo
info_at w = record { size = w; mtime = 0; is_dir = false }

abbrev root : Root ℕ (Unit {0})
root = record {
  stat = λ name w. (ok (info_at w), w);
  open_file = λ name w. (ok tt, w);
  stat_file = λ f w. (ok (info_at w), w);
  read_all = λ f w. (ok (w ∷ []), w);
  close = λ f w. w;
}

abbrev contents : Text → ℕ → Time → Text
contents name size mtime = size ∷ []

abbrev size_of : Result FileInfo → ℕ
size_of (ok info) = info.size
size_of (err e) = 0

abbrev bytes_of : Result Text → Text
bytes_of (ok b) = b
bytes_of (err e) = []

root-IsVersioned : IsVersioned root contents
root-IsVersioned = record {
  reads = λ name w info f body h k q. sym (ap bytes_of q) ∙ ap (λ n. n ∷ []) (ap size_of h);
}

abbrev empty_cache : DirAssets
empty_cache = record { prefix = codes "/"; cache = [] }

empty-IsCoherent : IsCoherent sha256 quote mime serve_content root contents []
unfolding lookup
empty-IsCoherent name c h = ground arith

hash-IsCoherent_example :
    let y = hash sha256 quote mime serve_content root empty_cache (codes "f") 3 in
    IsCoherent sha256 quote mime serve_content root contents y.1.cache
    × ((h : Text)
        → y.0 ≡ ok h
        → (info : FileInfo) × (ok (info_at 3) ≡ ok info)
          × (h
              ≡ short_hash sha256 quote mime serve_content
                  (contents (codes "f") info.size info.mtime)))
hash-IsCoherent_example =
    hash-IsCoherent sha256 quote mime serve_content root contents root-IsVersioned empty_cache
      (codes "f") 3 empty-IsCoherent

-- A call that finds no kept hash, of a file that is replaced between its Stat and its Open.
abbrev f : Text
f = codes "f"

abbrev info_of : Text → ℕ → FileInfo
info_of name v = info_at v

abbrev body_of : Text → ℕ → Text
body_of name v = v ∷ []

info_of-IsStamped : IsStamped info_of
info_of-IsStamped = record { distinct = λ name a b size mtime. size }

abbrev hash_1 : Text
hash_1 = short_hash sha256 quote mime serve_content (1 ∷ [])

abbrev initial : Text → ℕ
initial name = 0

abbrev idle_all : ℕ → HashPc
idle_all i = idle

abbrev replaced : Disk
replaced = record {
  versions = replace f initial;
  cache = insert f (entry sha256 quote mime serve_content info_of body_of (info_at 0) hash_1) [];
  pcs = move 0 (answered f 0 (ok hash_1)) (
      move 0 (hashed f 0 (info_at 0) hash_1) (
        move 0 (opened f 0 (info_at 0) 1) (
          move 0 (missed f 0 (info_at 0))
            (move 0 (stated f 0 (info_at 0)) (move 0 (called f 0) idle_all)))));
}

replaced-Reached : Reached sha256 quote mime serve_content info_of body_of initial replaced
unfolding code
replaced-Reached =
    next
      (next
        (next
          (next
            (next (next (next here (runs 0 (calls f))) (runs 0 (stats f 0)))
              (runs 0 (misses f 0 (info_at 0) refl)))
            (replaces f))
          (runs 0 (opens f 0 (info_at 0))))
        (runs 0 (reads f 0 (info_at 0) 1)))
      (runs 0 (keeps f 0 (info_at 0) hash_1))

hash_linearizable_example :
    (v : ℕ) × (0 ≤ v)
    × (v ≤ replaced.versions f)
    × (hash_1 ≡ short_hash sha256 quote mime serve_content (body_of f v))
hash_linearizable_example =
    hash_linearizable sha256 quote mime serve_content info_of body_of info_of-IsStamped
      replaced-Reached 0 f 0 hash_1 refl
