-- ===== src/Assets/Interleaving.antt =====
-- DirAssets.hash as many goroutines run it at once, while files are replaced on disk: one step for
-- each call of the directory and for each stretch under the mutex. A file is replaced, never
-- rewritten in place, so that an open file keeps the version that was opened.
use nitrokit.Prelude.{ℕ, suc, ◌≡◌, none, some, [], if◌then◌else◌, ◌==◌}
use nitrokit.Dict.{Dict, lookup, insert}
use nitrokit.Text.{Text, text_beq, text_eq}
use nitrokit.Clock.{Time}
use nitrokit.Http.{Response}
use nitrokit.Result.{Result, ok, err}
use nitrokit.Assets.{short_hash}
use nitrokit.Assets.Dir.{FileInfo, DirHash, is_current}

-- Where a goroutine stands in a call of `hash` on a name. `since` is the version of the file when
-- the call began, which the code does not keep.
pub data HashPc : Type 0 where
  idle : HashPc
  called : (name : Text) (since : ℕ) → HashPc
  stated : (name : Text) (since : ℕ) (info : FileInfo) → HashPc
  missed : (name : Text) (since : ℕ) (info : FileInfo) → HashPc
  opened : (name : Text) (since : ℕ) (info : FileInfo) (version : ℕ) → HashPc
  hashed : (name : Text) (since : ℕ) (info : FileInfo) (h : Text) → HashPc
  answered : (name : Text) (since : ℕ) (r : Result Text) → HashPc

-- The version of each file on disk, the cache, and the goroutines.
pub record Disk : Type 0 where
  pub versions : Text → ℕ
  pub cache : Dict Text DirHash
  pub pcs : ℕ → HashPc

abbrev pub replace : Text → (Text → ℕ) → Text → ℕ
replace name versions n = if text_beq n name then suc (versions n) else versions n

abbrev pub move : ℕ → HashPc → (ℕ → HashPc) → ℕ → HashPc
move i pc pcs j = if j == i then pc else pcs j

module _ (sha256 quote mime : Text → Text)
    (serve_content : Text → Time → Text → Response → Response)
    -- What Stat gives for a version of a file, and its bytes.
    (info_of : Text → ℕ → FileInfo) (body_of : Text → ℕ → Text) where
  abbrev pub entry : FileInfo → Text → DirHash
  entry info h = record { size = info.size; mtime = info.mtime; hash = h }

  -- A step of a goroutine: the cache after it, and where the goroutine then stands.
  pub data HashStep (versions : Text → ℕ) (cache : Dict Text DirHash)
      : HashPc → Dict Text DirHash → HashPc → Type 0 where
    calls : (name : Text) → HashStep versions cache idle cache (called name (versions name))
    stats :
        (name : Text) (since : ℕ)
        → HashStep versions cache
            (called name since)
            cache
            (stated name since (info_of name (versions name)))
    stat_fails :
        (name : Text) (since : ℕ) (e : Text)
        → HashStep versions cache (called name since) cache (answered name since (err e))
    hits :
        (name : Text) (since : ℕ) (info : FileInfo) (h : Text)
        → is_current info (lookup name cache) ≡ some h
        → HashStep versions cache (stated name since info) cache (answered name since (ok h))
    misses :
        (name : Text) (since : ℕ) (info : FileInfo)
        → is_current info (lookup name cache) ≡ none
        → HashStep versions cache (stated name since info) cache (missed name since info)
    opens :
        (name : Text) (since : ℕ) (info : FileInfo)
        → HashStep versions cache
            (missed name since info)
            cache
            (opened name since info (versions name))
    open_fails :
        (name : Text) (since : ℕ) (info : FileInfo) (e : Text)
        → HashStep versions cache (missed name since info) cache (answered name since (err e))
    reads :
        (name : Text) (since : ℕ) (info : FileInfo) (v : ℕ)
        → HashStep versions cache
            (opened name since info v)
            cache
            (hashed name since info (short_hash sha256 quote mime serve_content (body_of name v)))
    read_fails :
        (name : Text) (since : ℕ) (info : FileInfo) (v : ℕ) (e : Text)
        → HashStep versions cache (opened name since info v) cache (answered name since (err e))
    keeps :
        (name : Text) (since : ℕ) (info : FileInfo) (h : Text)
        → HashStep versions cache
            (hashed name since info h)
            (insert name (entry info h) cache)
            (answered name since (ok h))
    leaves :
        (name : Text) (since : ℕ) (r : Result Text)
        → HashStep versions cache (answered name since r) cache idle

  -- A file is replaced, or some goroutine takes a step.
  pub data DiskStep (s : Disk) : Disk → Type 0 where
    replaces : (name : Text) → DiskStep s (record s { versions = replace name s.versions })
    runs :
        (i : ℕ) {cache : Dict Text DirHash} {pc : HashPc}
        → HashStep s.versions s.cache (s.pcs i) cache pc
        → DiskStep s (record s { cache = cache; pcs = move i pc s.pcs })

  abbrev pub start : (Text → ℕ) → Disk
  start versions = record { versions = versions; cache = []; pcs = λ i. idle }

  -- What is reached from an empty cache.
  pub data Reached (versions : Text → ℕ) : Disk → Type 0 where
    here : Reached versions (start versions)
    next : {s t : Disk} → Reached versions s → DiskStep s t → Reached versions t
