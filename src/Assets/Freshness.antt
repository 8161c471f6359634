-- ===== src/Assets/Freshness.antt =====
-- Of which version of a file the hash is that a goroutine is given.
use nitrokit.Prelude.{
  ℕ, ◌≤◌, ◌≡◌, refl, subst, sym, ap, ◌∙◌, arith, ◌&&◌, ◌==◌, Option, none, some, Bool-cases, inl,
  inr,
}
use nitrokit.Dict.{Dict, lookup, insert, lookup-insert}
use nitrokit.Text.{Text, text_beq, text_beq_iff, text_eq}
use nitrokit.Clock.{Time}
use nitrokit.Http.{Response}
use nitrokit.Result.{ok, err}
use nitrokit.Assets.{short_hash}
use nitrokit.Assets.Dir.{FileInfo, DirHash, is_current}
use nitrokit.Assets.Interleaving.{
  HashPc, idle, called, stated, missed, opened, hashed, answered, Disk, replace, move, entry,
  HashStep, calls, stats, stat_fails, hits, misses, opens, open_fails, reads, read_fails, keeps,
  leaves, DiskStep, replaces, runs, start, Reached, here, next,
}

pub is_current-eq-some :
    (info : FileInfo) (o : Option DirHash) (h : Text)
    → is_current info o ≡ some h
    → (c : DirHash) × (o ≡ some c) × (c.size ≡ info.size) × (c.mtime ≡ info.mtime) × (c.hash ≡ h)
is_current-eq-some info none h e = absurd (ground (arith, e))
is_current-eq-some info (some c) h e =
    elim (Bool-cases ((c.size == info.size) && (c.mtime == info.mtime))) [
      | inl b ↦ (c, refl, ground (arith, b), ground (arith, b), ground (arith, e, b))
      | inr b ↦ absurd (ground (arith, e, b))
    ]

-- Two versions of a file never have both the same size and the same time.
pub record IsStamped (info_of : Text → ℕ → FileInfo) : Type 0 where
  pub distinct :
      (name : Text) (a b : ℕ)
      → (info_of name a).size ≡ (info_of name b).size
      → (info_of name a).mtime ≡ (info_of name b).mtime
      → a ≡ b

replace-grows : (name n : Text) (versions : Text → ℕ) → versions n ≤ replace name versions n
replace-grows name n versions = ground arith

module _ (sha256 quote mime : Text → Text)
    (serve_content : Text → Time → Text → Response → Response) (info_of : Text → ℕ → FileInfo)
    (body_of : Text → ℕ → Text) where
  abbrev hash_of : Text → ℕ → Text
  hash_of name v = short_hash sha256 quote mime serve_content (body_of name v)

  -- A kept hash is of a version no older than the one whose size and time it stands under.
  abbrev Kept : (Text → ℕ) → Text → DirHash → Type 0
  Kept versions name c =
      (a b : ℕ) × (a ≤ b)
      × (b ≤ versions name)
      × (c.size ≡ (info_of name a).size)
      × (c.mtime ≡ (info_of name a).mtime)
      × (c.hash ≡ hash_of name b)

  abbrev Stated : (Text → ℕ) → Text → ℕ → FileInfo → Type 0
  Stated versions name since info =
      (a : ℕ) × (since ≤ a) × (a ≤ versions name) × (info ≡ info_of name a)

  -- What a goroutine knows.
  abbrev Knows : (Text → ℕ) → HashPc → Type 0
  Knows versions idle = Unit
  Knows versions (called name since) = since ≤ versions name
  Knows versions (stated name since info) = Stated versions name since info
  Knows versions (missed name since info) = Stated versions name since info
  Knows versions (opened name since info v) =
      (a : ℕ) × (since ≤ a) × (a ≤ v) × (v ≤ versions name) × (info ≡ info_of name a)
  Knows versions (hashed name since info h) =
      (a v : ℕ) × (since ≤ a)
      × (a ≤ v)
      × (v ≤ versions name)
      × (info ≡ info_of name a)
      × (h ≡ hash_of name v)
  Knows versions (answered name since (ok h)) =
      (v : ℕ) × (since ≤ v) × (v ≤ versions name) × (h ≡ hash_of name v)
  Knows versions (answered name since (err e)) = Unit

  abbrev AllKept : (Text → ℕ) → Dict Text DirHash → Type 0
  AllKept versions cache =
      (name : Text) (c : DirHash) → lookup name cache ≡ some c → Kept versions name c

  record IsFaithful (s : Disk) : Type 0 where
    pub kept : AllKept s.versions s.cache
    pub known : (i : ℕ) → Knows s.versions (s.pcs i)

  Kept-grows :
      (vs vs' : Text → ℕ) (name : Text) (c : DirHash)
      → vs name ≤ vs' name
      → Kept vs name c
      → Kept vs' name c
  Kept-grows vs vs' name c le (a, b, p, q, r, t, e) = (a, b, p, omega arith, r, t, e)

  Knows-grows :
      (vs vs' : Text → ℕ) (pc : HashPc) → ((n : Text) → vs n ≤ vs' n) → Knows vs pc → Knows vs' pc
  Knows-grows vs vs' idle le k = tt
  Knows-grows vs vs' (called name since) le k = omega (arith, le name)
  Knows-grows vs vs' (stated name since info) le (a, p, q, e) = (a, p, omega (arith, le name), e)
  Knows-grows vs vs' (missed name since info) le (a, p, q, e) = (a, p, omega (arith, le name), e)
  Knows-grows vs vs' (opened name since info v) le (a, p, q, r, e) =
      (a, p, q, omega (arith, le name), e)
  Knows-grows vs vs' (hashed name since info h) le (a, v, p, q, r, e, h') =
      (a, v, p, q, omega (arith, le name), e, h')
  Knows-grows vs vs' (answered name since (ok h)) le (v, p, q, e) =
      (v, p, omega (arith, le name), e)
  Knows-grows vs vs' (answered name since (err e)) le k = tt

  module _ (stamped : IsStamped info_of) (vs : Text → ℕ) where
    -- A hash that is kept under the size and time of a version is of one no older.
    hit_known :
        (name : Text) (since : ℕ) (info : FileInfo) (c : DirHash) (h : Text)
        → Stated vs name since info
        → Kept vs name c
        → c.size ≡ info.size
        → c.mtime ≡ info.mtime
        → c.hash ≡ h
        → Knows vs (answered name since (ok h))
    hit_known name since info c h (a, p, q, e) (a', b, p', q', s, t, k) size mtime same =
        let eq : a' ≡ a =
          stamped.distinct name a' a (sym s ∙ size ∙ ap (λ i. i.size) e)
            (sym t ∙ mtime ∙ ap (λ i. i.mtime) e) in
        (b, omega (arith, eq), q', sym same ∙ k)

    keep-Kept :
        (cache : Dict Text DirHash) (name : Text) (c : DirHash)
        → AllKept vs cache
        → Kept vs name c
        → AllKept vs (insert name c cache)
    keep-Kept cache name c all k n d e =
        let at = sym (lookup-insert name n c cache) ∙ e in
        elim (Bool-cases (text_beq name n)) [
          | inl same ↦
              let eq : c ≡ d = ground (arith, at, same) in
              subst (λ m. Kept vs m d) ((text_beq_iff name n).0 same) (subst (Kept vs name) eq k)
          | inr other ↦ all n d (ground (arith, at, other))
        ]

    HashStep-Knows :
        {cache cache' : Dict Text DirHash} {pc pc' : HashPc}
        → HashStep sha256 quote mime serve_content info_of body_of vs cache pc cache' pc'
        → AllKept vs cache
        → Knows vs pc
        → AllKept vs cache' × Knows vs pc'
    HashStep-Knows (calls name) all k = (all, omega arith)
    HashStep-Knows (stats name since) all k = (all, (vs name, k, omega arith, refl))
    HashStep-Knows (stat_fails name since e) all k = (all, tt)
    HashStep-Knows {cache} (hits name since info h e) all k =
        let (c, at, size, mtime, same) = is_current-eq-some info (lookup name cache) h e in
        (all, hit_known name since info c h k (all name c at) size mtime same)
    HashStep-Knows (misses name since info e) all k = (all, k)
    HashStep-Knows (opens name since info) all (a, p, q, e) = (all, (a, p, q, omega arith, e))
    HashStep-Knows (open_fails name since info e) all k = (all, tt)
    HashStep-Knows (reads name since info v) all (a, p, q, r, e) = (all, (a, v, p, q, r, e, refl))
    HashStep-Knows (read_fails name since info v e) all k = (all, tt)
    HashStep-Knows {cache} (keeps name since info h) all (a, v, p, q, r, e, g) = (
      keep-Kept cache name (entry sha256 quote mime serve_content info_of body_of info h) all
          (a, v, q, r, ap (λ i. i.size) e, ap (λ i. i.mtime) e, g),
      (v, omega arith, r, g),
    )
    HashStep-Knows (leaves name since r) all k = (all, tt)

  moved :
      (vs : Text → ℕ) (pcs : ℕ → HashPc) (i : ℕ) (pc : HashPc)
      → Knows vs pc
      → ((j : ℕ) → Knows vs (pcs j))
      → (j : ℕ) → Knows vs (move i pc pcs j)
  moved vs pcs i pc k known j = elim (Bool-cases (j == i)) [
    | inl e ↦ rw e k
    | inr e ↦ rw e (known j)
  ]

  DiskStep-IsFaithful :
      IsStamped info_of
      → {s t : Disk} → DiskStep sha256 quote mime serve_content info_of body_of s t
      → IsFaithful s
      → IsFaithful t
  DiskStep-IsFaithful stamped {s} (replaces name) f =
      let vs' = replace name s.versions in
      record {
        kept =
            λ n c e. Kept-grows s.versions vs' n c (replace-grows name n s.versions) (f.kept n c e);
        known = λ i.
            Knows-grows s.versions vs' (s.pcs i) (λ n. replace-grows name n s.versions) (f.known i);
      }
  DiskStep-IsFaithful stamped {s} (runs i {cache} {pc} step) f =
      let (kept, known) = HashStep-Knows stamped s.versions step f.kept (f.known i) in
      record { kept = kept; known = moved s.versions s.pcs i pc known f.known }

  start-IsFaithful :
      (versions : Text → ℕ)
      → IsFaithful (start sha256 quote mime serve_content info_of body_of versions)
  unfolding lookup
  start-IsFaithful versions = record { kept = λ n c e. absurd (ground (arith, e)); known = λ i. tt }

  Reached-IsFaithful :
      IsStamped info_of
      → {versions : Text → ℕ} {s : Disk}
      → Reached sha256 quote mime serve_content info_of body_of versions s
      → IsFaithful s
  Reached-IsFaithful stamped {versions} here = start-IsFaithful versions
  Reached-IsFaithful stamped (next r step) =
      DiskStep-IsFaithful stamped step (Reached-IsFaithful stamped r)

  -- However any number of goroutines run `hash` at once and however files are replaced meanwhile: if
  -- no two versions of a file have both the same size and the same time, then a hash that a call has
  -- answered is that of a version which was on disk at some moment since the call began, kept hash or
  -- not.
  pub hash_linearizable :
      IsStamped info_of
      → {versions : Text → ℕ} {s : Disk}
      → Reached sha256 quote mime serve_content info_of body_of versions s
      → (i : ℕ) (name : Text) (since : ℕ) (h : Text) → s.pcs i ≡ answered name since (ok h)
      → (v : ℕ) × (since ≤ v)
        × (v ≤ s.versions name)
        × (h ≡ short_hash sha256 quote mime serve_content (body_of name v))
  hash_linearizable stamped {versions} {s} r i name since h e =
      subst (Knows s.versions) e ((Reached-IsFaithful stamped r).known i)
