-- ===== src/Assets.antt =====
-- assets.go: files with their hash in the URL, read once (Assets) or looked at on every request
-- (DirAssets). SHA-256, the mime types, the quoting of fmt, fs.WalkDir and http.ServeContent are
-- arguments, and so is the directory on disk, whose state is a world `W`.
pub mod Tree
pub mod Serving
pub mod Dir
pub mod Hashing
pub mod Interleaving
pub mod Freshness
mod Tests
use nitrokit.Prelude.{
  ℕ, ◌≡◌, Bool, true, false, ◌&&◌, ◌==◌, Option, none, some, List, [], ◌∷◌, ◌++◌, take, reverse,
  if◌then◌else◌,
}
use nitrokit.Dict.{Dict, lookup, insert}
use nitrokit.Text.{Text, codes, text_beq, text_eq, has_prefix, cut_prefix, hex}
use nitrokit.Clock.{Time, zero_time}
use nitrokit.Http.{Response, set_header, http_error}
use nitrokit.Result.{Result, ok, err, Io}

pub record AssetFile : Type 0 where
  pub body : Text
  pub hash : Text
  pub ctype : Text

pub record Assets : Type 0 where
  pub prefix : Text
  pub files : Dict Text AssetFile

-- One call of the function that WalkDir is given: with an error, for a directory, or for a file with
-- what fs.ReadFile gives.
pub data Visit : Type 0 where
  failure : Text → Visit
  directory : Visit
  file : Result Text → Visit

-- A request's path, and r.URL.Query().Get("v").
pub record Request : Type 0 where
  pub path : Text
  pub v : Text

-- http.NotFound
abbrev pub not_found : Response → Response
not_found w = http_error (codes "404 page not found") 404 w

abbrev pub immutable : Text
immutable = codes "public, max-age=31536000, immutable"

abbrev pub one_hour : Text
one_hour = codes "public, max-age=3600"

abbrev pub has_suffix : Text → Text → Bool
has_suffix s suffix = has_prefix (reverse s) (reverse suffix)

-- The checks of a prefix.
unfoldable pub mounted : (Text → Text) → Text → Result Text
mounted quote prefix =
    if has_prefix prefix (codes "/")
    then ok (if has_suffix prefix (codes "/") then prefix else prefix ++ codes "/")
    else err (codes "assets: prefix " ++ quote prefix ++ codes " must start with /")

-- The headers on the entity tag, the type and the caching.
unfoldable pub asset_header : Text → Text → Response → Response
asset_header hash v w =
    let w1 = set_header "ETag" (b'"' ∷ hash ++ b'"' ∷ []) w in
    let w2 = set_header "X-Content-Type-Options" (codes "nosniff") w1 in
    set_header "Cache-Control" (if text_beq v hash then immutable else one_hour) w2

unfoldable pub versioned : Text → Text → Text → Text
versioned prefix name hash = prefix ++ name ++ codes "?v=" ++ hash

-- mime.TypeByExtension(path.Ext(name)), and http.ServeContent on a name, a time and the bytes.
module _ (sha256 quote mime : Text → Text)
    (serve_content : Text → Time → Text → Response → Response) where
  unfoldable pub short_hash : Text → Text
  short_hash body = take 12 (hex (sha256 body))

  unfoldable pub asset_file : Text → Text → AssetFile
  unfolding short_hash
  asset_file name body = record {
    body = body;
    hash = short_hash body;
    ctype = if text_beq (mime name) [] then codes "application/octet-stream" else mime name;
  }

  unfoldable pub read_tree :
      List (Text × Visit) → Dict Text AssetFile → Result (Dict Text AssetFile)
  unfolding asset_file
  read_tree [] files = ok files
  read_tree ((name, failure e) ∷ visits) files = err e
  read_tree ((name, directory) ∷ visits) files = read_tree visits files
  read_tree ((name, file (err e)) ∷ visits) files = err e
  read_tree ((name, file (ok body)) ∷ visits) files =
      read_tree visits (insert name (asset_file name body) files)

  unfoldable pub new_assets : List (Text × Visit) → Text → Result Assets
  unfolding mounted read_tree
  new_assets visits prefix = elim (mounted quote prefix) [
    | err e ↦ err e
    | ok p ↦ elim (read_tree visits []) [
      | err e ↦ err e
      | ok files ↦ ok (record { prefix = p; files = files })
    ]
  ]

  unfoldable pub url : Assets → Text → Text
  unfolding versioned
  url a name = elim (lookup name a.files) [
    | none ↦ a.prefix ++ name
    | some f ↦ versioned a.prefix name f.hash
  ]

  unfoldable pub serve_http : Assets → Request → Response → Response
  unfolding asset_header
  serve_http a r w = elim (cut_prefix r.path a.prefix) [
    | none ↦ not_found w
    | some name ↦ elim (lookup name a.files) [
      | none ↦ not_found w
      | some f ↦
          let w1 = set_header "Content-Type" f.ctype w in
          serve_content name zero_time f.body (asset_header f.hash r.v w1)
    ]
  ]
