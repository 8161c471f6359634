-- ===== src/Assets/Tree.antt =====
-- The files of a tree that was read without an error, beside what the walk has come by.
use mathlib.Core.List.{Memᴰ}
use nitrokit.Prelude.{
  ◌≡◌, ◌≢◌, ◌⊎◌, inl, inr, refl, subst, sym, ap, ◌∙◌, arith, none, some, List, [], ◌∷◌, Bool-cases,
}
use nitrokit.Dict.{Dict, lookup, insert, lookup-insert}
use nitrokit.Text.{Text, text_beq, text_beq_iff, text_eq}
use nitrokit.Clock.{Time}
use nitrokit.Http.{Response}
use nitrokit.Result.{Result, ok, err, Result-cases}
use nitrokit.Assets.{
  AssetFile, Assets, Visit, failure, directory, file, mounted, asset_file, read_tree, new_assets,
}

module _ (sha256 quote mime : Text → Text)
    (serve_content : Text → Time → Text → Response → Response) where
  abbrev made_of : Text → Text → AssetFile
  made_of = asset_file sha256 quote mime serve_content

  abbrev tree : List (Text × Visit) → Dict Text AssetFile → Result (Dict Text AssetFile)
  tree = read_tree sha256 quote mime serve_content

  -- A file of the walk with its bytes, of which an entry is made.
  abbrev pub Read : List (Text × Visit) → Text → AssetFile → Type 0
  Read visits name f = (body : Text) × Memᴰ (name, file (ok body)) visits × (f ≡ made_of name body)

  later :
      (v : Text × Visit) (visits : List (Text × Visit)) (name : Text) (f : AssetFile)
      → Read visits name f
      → Read (v ∷ visits) name f
  later v visits name f (body, m, e) = (body, Memᴰ.tail m, e)

  later_or :
      {B : Type 0} (v : Text × Visit) (visits : List (Text × Visit)) (name : Text) (f : AssetFile)
      → Read visits name f ⊎ B
      → Read (v ∷ visits) name f ⊎ B
  later_or v visits name f (inl r) = inl (later v visits name f r)
  later_or v visits name f (inr b) = inr b

  tree-eq-ok : (files files' : Dict Text AssetFile) → ok files ≡ ok files' → files ≡ files'
  tree-eq-ok files files' h = ground (arith, h)

  read_tree-Read :
      (visits : List (Text × Visit)) (files files' : Dict Text AssetFile) (name : Text)
      (f : AssetFile)
      → tree visits files ≡ ok files'
      → lookup name files' ≡ some f
      → Read visits name f ⊎ (lookup name files ≡ some f)
  unfolding read_tree
  read_tree-Read [] files files' name f h e = inr (ap (lookup name) (tree-eq-ok files files' h) ∙ e)
  read_tree-Read ((n, failure x) ∷ visits) files files' name f h e = absurd (ground (arith, h))
  read_tree-Read ((n, directory) ∷ visits) files files' name f h e =
      later_or (n, directory) visits name f (read_tree-Read visits files files' name f h e)
  read_tree-Read ((n, file (err x)) ∷ visits) files files' name f h e = absurd (ground (arith, h))
  read_tree-Read ((n, file (ok body)) ∷ visits) files files' name f h e =
      elim (read_tree-Read visits (insert n (made_of n body) files) files' name f h e) [
        | inl r ↦ inl (later (n, file (ok body)) visits name f r)
        | inr k ↦ elim (Bool-cases (text_beq n name)) [
          | inl same ↦
              let at = sym (lookup-insert n name (made_of n body) files) ∙ k in
              let eq = (text_beq_iff n name).0 same in
              let here : made_of n body ≡ f = ground (arith, at, same) in
              inl (
                body,
                Memᴰ.head (ap (λ x. (x, file (ok body))) (sym eq)),
                sym here ∙ ap (λ x. made_of x body) eq,
              )
          | inr other ↦ inr (ground (arith, k, other, lookup-insert n name (made_of n body) files))
        ]
      ]

  -- What is in a tree stays in it, and every file that the walk comes by gets into it.
  read_tree-stays :
      (visits : List (Text × Visit)) (files files' : Dict Text AssetFile) (name : Text)
      → tree visits files ≡ ok files'
      → lookup name files ≢ none
      → lookup name files' ≢ none
  unfolding read_tree
  read_tree-stays [] files files' name h e =
      subst (λ m. lookup name m ≢ none) (tree-eq-ok files files' h) e
  read_tree-stays ((n, failure x) ∷ visits) files files' name h e = absurd (ground (arith, h))
  read_tree-stays ((n, directory) ∷ visits) files files' name h e =
      read_tree-stays visits files files' name h e
  read_tree-stays ((n, file (err x)) ∷ visits) files files' name h e = absurd (ground (arith, h))
  read_tree-stays ((n, file (ok body)) ∷ visits) files files' name h e =
      read_tree-stays visits (insert n (made_of n body) files) files' name h (λ q.
        elim (Bool-cases (text_beq n name)) [
          | inl same ↦ ground (arith, q, same, lookup-insert n name (made_of n body) files)
          | inr other ↦ e (ground (arith, q, other, lookup-insert n name (made_of n body) files))
        ])

  read_tree-first :
      (visits : List (Text × Visit)) (files files' : Dict Text AssetFile) (name body : Text)
      → tree ((name, file (ok body)) ∷ visits) files ≡ ok files'
      → lookup name files' ≢ none
  unfolding read_tree
  read_tree-first visits files files' name body h =
      read_tree-stays visits (insert name (made_of name body) files) files' name h (λ q. ground (
        arith,
        q,
        (text_beq_iff name name).1 refl,
        lookup-insert name name (made_of name body) files,
      ))

  read_tree-has :
      (visits : List (Text × Visit)) (files files' : Dict Text AssetFile) (name body : Text)
      → tree visits files ≡ ok files'
      → Memᴰ (name, file (ok body)) visits
      → lookup name files' ≢ none
  unfolding read_tree
  read_tree-has [] files files' name body h m = elim m [ ]
  read_tree-has (v ∷ visits) files files' name body h (Memᴰ.head e) =
      read_tree-first visits files files' name body
        (subst (λ u. tree (u ∷ visits) files ≡ ok files') (sym e) h)
  read_tree-has ((n, failure x) ∷ visits) files files' name body h (Memᴰ.tail m) =
      absurd (ground (arith, h))
  read_tree-has ((n, directory) ∷ visits) files files' name body h (Memᴰ.tail m) =
      read_tree-has visits files files' name body h m
  read_tree-has ((n, file (err x)) ∷ visits) files files' name body h (Memᴰ.tail m) =
      absurd (ground (arith, h))
  read_tree-has ((n, file (ok b)) ∷ visits) files files' name body h (Memᴰ.tail m) =
      read_tree-has visits (insert n (made_of n b) files) files' name body h m

  made_from :
      (visits : List (Text × Visit)) (prefix : Text) (a : Assets)
      → new_assets sha256 quote mime serve_content visits prefix ≡ ok a
      → tree visits [] ≡ ok a.files
  unfolding new_assets
  made_from visits prefix a h = elim (Result-cases (mounted quote prefix)) [
    | inr (x, e) ↦ absurd (ground (arith, e, h))
    | inl (p, e) ↦ elim (Result-cases (tree visits [])) [
      | inr (x, k) ↦ absurd (ground (arith, e, k, h))
      | inl (files, k) ↦
          let eq : record { prefix = p; files = files } ≡ a = ground (arith, e, k, h) in
          subst (λ b. tree visits [] ≡ ok b.files) eq k
    ]
  ]

  pub new_assets-Read :
      (visits : List (Text × Visit)) (prefix : Text) (a : Assets) (name : Text) (f : AssetFile)
      → new_assets sha256 quote mime serve_content visits prefix ≡ ok a
      → lookup name a.files ≡ some f
      → Read visits name f
  unfolding lookup
  new_assets-Read visits prefix a name f h e =
      elim (read_tree-Read visits [] a.files name f (made_from visits prefix a h) e) [
        | inl r ↦ r
        | inr k ↦ absurd (ground (arith, k))
      ]

  pub new_assets-has :
      (visits : List (Text × Visit)) (prefix : Text) (a : Assets) (name body : Text)
      → new_assets sha256 quote mime serve_content visits prefix ≡ ok a
      → Memᴰ (name, file (ok body)) visits
      → lookup name a.files ≢ none
  new_assets-has visits prefix a name body h m =
      read_tree-has visits [] a.files name body (made_from visits prefix a h) m
