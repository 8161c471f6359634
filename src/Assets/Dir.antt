-- ===== src/Assets/Dir.antt =====
-- DirAssets: a directory on disk whose hashes are kept while size and time of a file stay the same.
-- A file that is open is a value of `F`.
use nitrokit.Prelude.{Bool, true, false, ◌&&◌, ◌==◌, Option, none, some, [], ◌++◌, ℕ, if◌then◌else◌}
use nitrokit.Dict.{Dict, lookup, insert}
use nitrokit.Text.{Text, text_beq, text_eq, cut_prefix}
use nitrokit.Clock.{Time}
use nitrokit.Http.{Response, set_header}
use nitrokit.Result.{Result, ok, err, Io}
use nitrokit.Assets.{Request, not_found, mounted, asset_header, versioned, short_hash}

-- What is used of fs.FileInfo.
pub record FileInfo : Type 0 where
  pub size : ℕ
  pub mtime : Time
  pub is_dir : Bool

-- The calls of os.Root and of an open file; `read_all` is io.Copy.
pub record Root (W F : Type 0) : Type 0 where
  pub stat : Text → Io W FileInfo
  pub open_file : Text → Io W F
  pub stat_file : F → Io W FileInfo
  pub read_all : F → Io W Text
  pub close : F → W → W

pub record DirHash : Type 0 where
  pub size : ℕ
  pub mtime : Time
  pub hash : Text

pub record DirAssets : Type 0 where
  pub prefix : Text
  pub cache : Dict Text DirHash

-- With what os.OpenRoot gives for the directory.
unfoldable pub new_dir_assets : (Text → Text) → Result (Unit {0}) → Text → Result DirAssets
new_dir_assets quote root prefix = elim (mounted quote prefix) [
  | err e ↦ err e
  | ok p ↦ elim root [ err e ↦ err e | ok u ↦ ok (record { prefix = p; cache = [] }) ]
]

-- Whether a kept hash is for a file of that size and time.
abbrev pub is_current : FileInfo → Option DirHash → Option Text
is_current info none = none
is_current info (some c) =
    if (c.size == info.size) && (c.mtime == info.mtime) then some c.hash else none

module _ (sha256 quote mime : Text → Text)
    (serve_content : Text → Time → Text → Response → Response) {W F : Type 0}
    (root : Root W F) where
  -- A hash that was computed is kept.
  abbrev pub keep : DirAssets → Text → FileInfo → F → Result Text × W → Result Text × DirAssets × W
  keep a name info f (err e, w) = (err e, a, root.close f w)
  keep a name info f (ok body, w) =
      let h = short_hash sha256 quote mime serve_content body in
      let entry : DirHash = record { size = info.size; mtime = info.mtime; hash = h } in
      (ok h, record a { cache = insert name entry a.cache }, root.close f w)

  abbrev pub rehash : DirAssets → Text → FileInfo → Result F × W → Result Text × DirAssets × W
  rehash a name info (err e, w) = (err e, a, w)
  rehash a name info (ok f, w) = keep a name info f (root.read_all f w)

  abbrev pub look_up : DirAssets → Text → Result FileInfo × W → Result Text × DirAssets × W
  look_up a name (err e, w) = (err e, a, w)
  look_up a name (ok info, w) = elim (is_current info (lookup name a.cache)) [
    | some h ↦ (ok h, a, w)
    | none ↦ rehash a name info (root.open_file name w)
  ]

  unfoldable pub hash : DirAssets → Text → W → Result Text × DirAssets × W
  hash a name w = look_up a name (root.stat name w)

  abbrev pub dir_url_of : DirAssets → Text → Result Text → Text
  dir_url_of a name (err e) = a.prefix ++ name
  dir_url_of a name (ok h) = versioned a.prefix name h

  unfoldable pub dir_url : DirAssets → Text → W → Text × DirAssets × W
  unfolding hash
  dir_url a name w = let (h, a', w') = hash a name w in (dir_url_of a name h, a', w')

  -- `serve_file` is http.ServeContent on a name, a time and an open file.
  module _ (serve_file : Text → Time → F → Response → W → Response × W) where
    -- From the hash on.
    abbrev pub serve_hashed :
        Text
        → Text
        → FileInfo
        → F
        → Response
        → Result Text × DirAssets × W
        → Response × DirAssets × W
    serve_hashed name v info f resp (err e, a, w) = (not_found resp, a, root.close f w)
    serve_hashed name v info f resp (ok h, a, w) =
        let r1 =
          if text_beq (mime name) [] then resp else set_header "Content-Type" (mime name) resp in
        let (r2, w') = serve_file name info.mtime f (asset_header h v r1) w in
        (r2, a, root.close f w')

    abbrev pub serve_stated :
        DirAssets → Text → Text → F → Response → Result FileInfo × W → Response × DirAssets × W
    serve_stated a name v f resp (err e, w) = (not_found resp, a, root.close f w)
    serve_stated a name v f resp (ok info, w) = elim info.is_dir [
      | true ↦ (not_found resp, a, root.close f w)
      | false ↦ serve_hashed name v info f resp (hash a name w)
    ]

    abbrev pub serve_opened :
        DirAssets → Text → Text → Response → Result F × W → Response × DirAssets × W
    serve_opened a name v resp (err e, w) = (not_found resp, a, w)
    serve_opened a name v resp (ok f, w) = serve_stated a name v f resp (root.stat_file f w)

    unfoldable pub dir_serve_http : DirAssets → Request → Response → W → Response × DirAssets × W
    unfolding hash
    dir_serve_http a r resp w = elim (cut_prefix r.path a.prefix) [
      | none ↦ (not_found resp, a, w)
      | some name ↦ elim (text_beq name []) [
        | true ↦ (not_found resp, a, w)
        | false ↦ serve_opened a name r.v resp (root.open_file name w)
      ]
    ]
