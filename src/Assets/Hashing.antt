-- ===== src/Assets/Hashing.antt =====
-- The hashes that DirAssets keeps are those of the files on disk.
use nitrokit.Prelude.{
  ℕ, ◌≡◌, refl, subst, sym, ap, ◌∙◌, arith, ◌&&◌, ◌==◌, Option, none, some, Bool-cases, inl, inr,
}
use nitrokit.Dict.{Dict, lookup, insert, lookup-insert}
use nitrokit.Text.{Text, text_beq, text_beq_iff, text_eq}
use nitrokit.Clock.{Time}
use nitrokit.Http.{Response}
use nitrokit.Result.{Result, ok, err}
use nitrokit.Assets.{short_hash}
use nitrokit.Assets.Dir.{
  FileInfo, Root, DirHash, DirAssets, is_current, keep, rehash, look_up, hash,
}

-- `contents name size mtime` is what a file holds while it has that size and that time: an edit that
-- leaves both as they are is not seen. A file that is opened and read directly after it was looked
-- at is not edited in between.
pub record IsVersioned {W F : Type 0} (root : Root W F) (contents : Text → ℕ → Time → Text)
    : Type 0 where
  pub reads :
      (name : Text) (w : W) (info : FileInfo) (f : F) (body : Text)
      → (root.stat name w).0 ≡ ok info
      → (root.open_file name (root.stat name w).1).0 ≡ ok f
      → (root.read_all f (root.open_file name (root.stat name w).1).1).0 ≡ ok body
      → body ≡ contents name info.size info.mtime

module _ (sha256 quote mime : Text → Text)
    (serve_content : Text → Time → Text → Response → Response) {W F : Type 0} (root : Root W F)
    (contents : Text → ℕ → Time → Text) where
  abbrev hash_of : Text → Text
  hash_of = short_hash sha256 quote mime serve_content

  -- A hash that is kept is that of the contents at its size and time.
  abbrev pub IsCoherent : Dict Text DirHash → Type 0
  IsCoherent cache =
      (name : Text) (c : DirHash)
      → lookup name cache ≡ some c
      → c.hash ≡ hash_of (contents name c.size c.mtime)

  -- What a look at a file gives: a cache that is still coherent, and if there is a hash, that of the
  -- contents.
  abbrev Good : Text → FileInfo → Result Text × DirAssets × W → Type 0
  Good name info (ok h, a, w) =
      (h ≡ hash_of (contents name info.size info.mtime)) × IsCoherent a.cache
  Good name info (err e, a, w) = IsCoherent a.cache

  is_current_ok :
      (name : Text) (info : FileInfo) (c : Option DirHash) (h : Text)
      → ((d : DirHash) → c ≡ some d → d.hash ≡ hash_of (contents name d.size d.mtime))
      → is_current info c ≡ some h
      → h ≡ hash_of (contents name info.size info.mtime)
  is_current_ok name info none h k e = absurd (ground (arith, e))
  is_current_ok name info (some d) h k e =
      elim (Bool-cases ((d.size == info.size) && (d.mtime == info.mtime))) [
        | inl b ↦
            let s : d.size ≡ info.size = ground (arith, b) in
            let t : d.mtime ≡ info.mtime = ground (arith, b) in
            let q : d.hash ≡ h = ground (arith, e, b) in
            sym q
            ∙ k d refl
            ∙ ap (λ n. hash_of (contents name n d.mtime)) s
            ∙ ap (λ m. hash_of (contents name info.size m)) t
        | inr b ↦ absurd (ground (arith, e, b))
      ]

  insert-IsCoherent :
      (cache : Dict Text DirHash) (name : Text) (d : DirHash)
      → IsCoherent cache
      → d.hash ≡ hash_of (contents name d.size d.mtime)
      → IsCoherent (insert name d cache)
  insert-IsCoherent cache name d h good j c e =
      let at = sym (lookup-insert name j d cache) ∙ e in
      elim (Bool-cases (text_beq name j)) [
        | inl same ↦
            let eq : d ≡ c = ground (arith, at, same) in
            let eq' = (text_beq_iff name j).0 same in
            subst (λ x. x.hash ≡ hash_of (contents j x.size x.mtime)) eq
              (subst (λ n. d.hash ≡ hash_of (contents n d.size d.mtime)) eq' good)
        | inr other ↦ h j c (ground (arith, at, other))
      ]

  keep-Good :
      (a : DirAssets) (name : Text) (info : FileInfo) (f : F) (x : Result Text × W)
      → IsCoherent a.cache
      → ((body : Text) → x.0 ≡ ok body → body ≡ contents name info.size info.mtime)
      → Good name info (keep sha256 quote mime serve_content root a name info f x)
  keep-Good a name info f (err e, w) h k = h
  keep-Good a name info f (ok body, w) h k =
      let eq = ap hash_of (k body refl) in (eq, insert-IsCoherent a.cache name _ h eq)

  rehash-Good :
      (a : DirAssets) (name : Text) (info : FileInfo) (x : Result F × W)
      → IsCoherent a.cache
      → ((f : F) (body : Text)
          → x.0 ≡ ok f
          → (root.read_all f x.1).0 ≡ ok body
          → body ≡ contents name info.size info.mtime)
      → Good name info (rehash sha256 quote mime serve_content root a name info x)
  rehash-Good a name info (err e, w) h k = h
  rehash-Good a name info (ok f, w) h k =
      keep-Good a name info f (root.read_all f w) h (λ body. k f body refl)

  -- The same, in terms of what the look at the file gave.
  abbrev Sound : Text → Result FileInfo → Result Text × DirAssets × W → Type 0
  Sound name found (r, a, w) =
      IsCoherent a.cache
      × ((h : Text)
          → r ≡ ok h
          → (info : FileInfo) × (found ≡ ok info)
            × (h ≡ hash_of (contents name info.size info.mtime)))

  Good-Sound :
      (name : Text) (info : FileInfo) (y : Result Text × DirAssets × W)
      → Good name info y
      → Sound name (ok info) y
  Good-Sound name info (ok g, a, w) (e, h) =
      (h, λ x q. let eq : g ≡ x = ground (arith, q) in (info, refl, sym eq ∙ e))
  Good-Sound name info (err x, a, w) h = (h, λ g q. absurd (ground (arith, q)))

  look_up-Sound :
      (a : DirAssets) (name : Text) (x : Result FileInfo × W)
      → IsCoherent a.cache
      → ((info : FileInfo) (f : F) (body : Text)
          → x.0 ≡ ok info
          → (root.open_file name x.1).0 ≡ ok f
          → (root.read_all f (root.open_file name x.1).1).0 ≡ ok body
          → body ≡ contents name info.size info.mtime)
      → Sound name x.0 (look_up sha256 quote mime serve_content root a name x)
  look_up-Sound a name (err e, w) h k = (h, λ g q. absurd (ground (arith, q)))
  look_up-Sound a name (ok info, w) h k =
      Good-Sound name info (look_up sha256 quote mime serve_content root a name (ok info, w)) (
        go (is_current info (lookup name a.cache))
          (λ g e. is_current_ok name info (lookup name a.cache) g (h name) e))
    where
      go :
          (kept : Option Text)
          → ((g : Text) → kept ≡ some g → g ≡ hash_of (contents name info.size info.mtime))
          → Good name info (elim kept [
            | some g ↦ (ok g, a, w)
            | none ↦ rehash sha256 quote mime serve_content root a name info (root.open_file name w)
          ])
      go none kept_ok =
          rehash-Good a name info (root.open_file name w) h (λ f body. k info f body refl)
      go (some g) kept_ok = (kept_ok g refl, h)

  -- A cache of hashes that are those of the files stays so through every look at a file, and the hash
  -- that a look gives, kept or computed anew, is that of what the file holds at the size and the time
  -- that the file has then.
  pub hash-IsCoherent :
      IsVersioned root contents
      → (a : DirAssets) (name : Text) (w : W) → IsCoherent a.cache
      → let y = hash sha256 quote mime serve_content root a name w in
        IsCoherent y.1.cache
        × ((h : Text)
            → y.0 ≡ ok h
            → (info : FileInfo) × ((root.stat name w).0 ≡ ok info)
              × (h ≡ hash_of (contents name info.size info.mtime)))
  unfolding hash
  hash-IsCoherent versions a name w h =
      look_up-Sound a name (root.stat name w) h (λ info f body. versions.reads name w info f body)
