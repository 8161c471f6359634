-- ===== src/Assets/Serving.antt =====
-- What Assets serves: every request by its path and version, and the URLs that it hands out itself.
use mathlib.Core.List.{Memᴰ}
use nitrokit.Prelude.{
  ◌≡◌, ◌≢◌, ◌↔◌, ◌⊎◌, inl, inr, refl, subst, sym, ap, ◌∙◌, arith, Bool, true, false, none, some,
  List, [], ◌∷◌, ◌++◌, Option-cases, Bool-cases, if◌then◌else◌,
}
use nitrokit.Dict.{Dict, lookup, insert, lookup-insert}
use nitrokit.Text.{Text, codes, text_beq, text_beq_iff, text_eq, cut_prefix}
use nitrokit.Clock.{Time, zero_time}
use nitrokit.Http.{Response, get, set_header}
use nitrokit.Http.Laws.{header_laws}
use nitrokit.Result.{ok, err, Result-cases}
use nitrokit.Assets.{
  AssetFile, Assets, Visit, failure, directory, file, Request, not_found, immutable, one_hour,
  mounted, asset_header, versioned, short_hash, asset_file, read_tree, new_assets, url, serve_http,
}
use nitrokit.Assets.Tree.{new_assets-Read, new_assets-has}

cut_prefix-eq-some : (s p rest : Text) → cut_prefix s p ≡ some rest → s ≡ p ++ rest
unfolding cut_prefix
cut_prefix-eq-some s [] rest h = ground arith
cut_prefix-eq-some [] (c ∷ p) rest h = ground arith
cut_prefix-eq-some (d ∷ s) (c ∷ p) rest h = ground (arith, cut_prefix-eq-some s p rest)

cut_prefix-append : (p rest : Text) → cut_prefix (p ++ rest) p ≡ some rest
unfolding cut_prefix
cut_prefix-append [] rest = refl
cut_prefix-append (c ∷ p) rest = ground (arith, cut_prefix-append p rest)

header_policy :
    (hash v : Text) (w : Response)
    → (get "ETag" (asset_header hash v w).header ≡ b'"' ∷ hash ++ b'"' ∷ [])
      × (get "Cache-Control" (asset_header hash v w).header
          ≡ (if text_beq v hash then immutable else one_hour))
unfolding asset_header set_header
header_policy hash v w = (simp header_laws, simp header_laws)

policy_when :
    (hash v : Text) (w : Response) (b : Bool)
    → text_beq v hash ≡ b
    → get "Cache-Control" (asset_header hash v w).header ≡ (if b then immutable else one_hour)
policy_when hash v w b e =
    (header_policy hash v w).1 ∙ ap (λ x. if x then immutable else one_hour) e

policies_differ : one_hour ≢ immutable
policies_differ h = ground arith

immutable_iff :
    (hash v : Text) (w : Response)
    → (get "Cache-Control" (asset_header hash v w).header ≡ immutable) ↔ (v ≡ hash)
immutable_iff hash v w = elim (Bool-cases (text_beq v hash)) [
  | inl e ↦ (λ h. (text_beq_iff v hash).0 e, λ q. policy_when hash v w true e)
  | inr e ↦ (
    λ h. absurd (policies_differ (sym (policy_when hash v w false e) ∙ h)),
    λ q. absurd (ground (arith, e, (text_beq_iff v hash).1 q)),
  )
]

module _ (sha256 quote mime : Text → Text)
    (serve_content : Text → Time → Text → Response → Response) where
  abbrev hash_of : Text → Text
  hash_of = short_hash sha256 quote mime serve_content

  abbrev serve : Assets → Request → Response → Response
  serve = serve_http sha256 quote mime serve_content

  -- Every file stands with the hash of its bytes.
  abbrev IsHashed : Dict Text AssetFile → Type 0
  IsHashed files =
      (name : Text) (f : AssetFile) → lookup name files ≡ some f → f.hash ≡ hash_of f.body

  IsHashed-empty : IsHashed []
  unfolding lookup
  IsHashed-empty name f h = ground arith

  insert-IsHashed :
      (name body : Text) (files : Dict Text AssetFile)
      → IsHashed files
      → IsHashed (insert name (asset_file sha256 quote mime serve_content name body) files)
  unfolding asset_file
  insert-IsHashed name body files h j f e =
      let new = asset_file sha256 quote mime serve_content name body in
      let at = sym (lookup-insert name j new files) ∙ e in
      elim (Bool-cases (text_beq name j)) [
        | inl same ↦
            let eq : new ≡ f = ground (arith, at, same) in
            subst (λ g. g.hash ≡ hash_of g.body) eq refl
        | inr other ↦ h j f (ground (arith, at, other))
      ]

  read_tree-IsHashed :
      (visits : List (Text × Visit)) (files files' : Dict Text AssetFile)
      → IsHashed files
      → read_tree sha256 quote mime serve_content visits files ≡ ok files'
      → IsHashed files'
  unfolding read_tree
  read_tree-IsHashed [] files files' h e =
      let eq : files ≡ files' = ground (arith, e) in subst IsHashed eq h
  read_tree-IsHashed ((name, failure x) ∷ visits) files files' h e = absurd (ground (arith, e))
  read_tree-IsHashed ((name, directory) ∷ visits) files files' h e =
      read_tree-IsHashed visits files files' h e
  read_tree-IsHashed ((name, file (err x)) ∷ visits) files files' h e = absurd (ground (arith, e))
  read_tree-IsHashed ((name, file (ok body)) ∷ visits) files files' h e =
      read_tree-IsHashed visits _ files' (insert-IsHashed name body files h) e

  new_assets-IsHashed :
      (visits : List (Text × Visit)) (prefix : Text) (a : Assets)
      → new_assets sha256 quote mime serve_content visits prefix ≡ ok a
      → IsHashed a.files
  unfolding new_assets
  new_assets-IsHashed visits prefix a h =
      let tree = read_tree sha256 quote mime serve_content visits [] in
      elim (Result-cases (mounted quote prefix)) [
        | inr (x, e) ↦ absurd (ground (arith, e, h))
        | inl (p, e) ↦ elim (Result-cases tree) [
          | inr (x, k) ↦ absurd (ground (arith, e, k, h))
          | inl (files, k) ↦
              let eq : record { prefix = p; files = files } ≡ a = ground (arith, e, k, h) in
              subst (λ b. IsHashed b.files) eq (read_tree-IsHashed visits [] files IsHashed-empty k)
        ]
      ]

  module _ (a : Assets) (hashed : IsHashed a.files) where
    served :
        (r : Request) (w : Response) (name : Text) (f : AssetFile)
        → r.path ≡ a.prefix ++ name
        → lookup name a.files ≡ some f
        → serve a r w
          ≡ serve_content name zero_time f.body
              (asset_header f.hash r.v (set_header "Content-Type" f.ctype w))
    unfolding serve_http
    served r w name f path e = rw (path, cut_prefix-append a.prefix name, e, serve_http) refl

    missing :
        (r : Request) (w : Response) (name : Text)
        → cut_prefix r.path a.prefix ≡ some name
        → lookup name a.files ≡ none
        → serve a r w ≡ not_found w
    unfolding serve_http
    missing r w name path e = rw (path, e, serve_http) refl

  file_body :
      (name body : Text) → (asset_file sha256 quote mime serve_content name body).body ≡ body
  unfolding asset_file
  file_body name body = refl

  served_as :
      (visits : List (Text × Visit)) (prefix : Text) (a : Assets)
      → new_assets sha256 quote mime serve_content visits prefix ≡ ok a
      → (r : Request) (w : Response) (name : Text) (f : AssetFile) → r.path ≡ a.prefix ++ name
      → lookup name a.files ≡ some f
      → (w1 : Response) × (serve a r w ≡ serve_content name zero_time f.body w1)
        × ((get "Cache-Control" w1.header ≡ immutable) ↔ (r.v ≡ hash_of f.body))
  served_as visits prefix a made r w name f path k =
      let hashed = new_assets-IsHashed visits prefix a made in
      let w0 = set_header "Content-Type" f.ctype w in
      (
        asset_header f.hash r.v w0,
        served a hashed r w name f path k,
        subst
            (λ x. (get "Cache-Control" (asset_header f.hash r.v w0).header ≡ immutable) ↔ (r.v ≡ x))
            (hashed name f k) (immutable_iff f.hash r.v w0),
      )

  -- A path that is the prefix and a name is of that name only.
  same_name : (path p n m : Text) → cut_prefix path p ≡ some n → path ≡ p ++ m → n ≡ m
  same_name path p n m e eq = ground (arith, e, ap (λ s. cut_prefix s p) eq, cut_prefix-append p m)

  -- Of a tree whose walk met no error: each request is for a file that the walk came by, and then
  -- it is served the bytes that were read of that file, to be cached for a year exactly if its
  -- version is the hash of these bytes; or its path is that of no file of the walk, and it is not
  -- found.
  pub serve_http_cases :
      (visits : List (Text × Visit)) (prefix : Text) (a : Assets)
      → new_assets sha256 quote mime serve_content visits prefix ≡ ok a
      → (r : Request) (w : Response)
      → ((name body : Text) × (w1 : Response) × (r.path ≡ a.prefix ++ name)
          × Memᴰ (name, file (ok body)) visits
          × (serve a r w ≡ serve_content name zero_time body w1)
          × ((get "Cache-Control" w1.header ≡ immutable) ↔ (r.v ≡ hash_of body)))
        ⊎ (((name body : Text) → r.path ≡ a.prefix ++ name → ¬ Memᴰ (name, file (ok body)) visits)
            × (serve a r w ≡ not_found w))
  unfolding serve_http
  serve_http_cases visits prefix a made r w =
      let hashed = new_assets-IsHashed visits prefix a made in
      elim (Option-cases (cut_prefix r.path a.prefix)) [
        | inl e ↦ inr (
          (λ n body path. absurd (
              ground
                (arith, e, ap (λ s. cut_prefix s a.prefix) path, cut_prefix-append a.prefix n))),
          rw (e, serve_http) refl,
        )
        | inr (name, e) ↦ elim (Option-cases (lookup name a.files)) [
          | inl k ↦ inr (
            (λ n body path m.
                new_assets-has sha256 quote mime serve_content visits prefix a n body made m (
                  subst (λ x. lookup x a.files ≡ none) (same_name r.path a.prefix name n e path)
                    k)),
            missing a hashed r w name e k,
          )
          | inr (f, k) ↦
              let path = cut_prefix-eq-some r.path a.prefix name e in
              let (body, m, made_so) =
                new_assets-Read sha256 quote mime serve_content visits prefix a name f made k in
              let same : f.body ≡ body = ap (λ x. x.body) made_so ∙ file_body name body in
              let (w1, content, policy) = served_as visits prefix a made r w name f path k in
              inl (
                name,
                body,
                w1,
                path,
                m,
                content ∙ ap (λ b. serve_content name zero_time b w1) same,
                subst (λ b. (get "Cache-Control" w1.header ≡ immutable) ↔ (r.v ≡ hash_of b)) same
                    policy,
              )
        ]
      ]

  -- A page that names a file by the URL that Assets gives for it: a request for its path with its
  -- version is served that very file, with a year's caching and the hash as its entity tag.
  pub url_served :
      (visits : List (Text × Visit)) (prefix : Text) (a : Assets) (name : Text) (f : AssetFile)
      → new_assets sha256 quote mime serve_content visits prefix ≡ ok a
      → lookup name a.files ≡ some f
      → (w : Response)
      → let v = hash_of f.body in
        (url sha256 quote mime serve_content a name ≡ a.prefix ++ name ++ codes "?v=" ++ v)
        × ((w1 : Response) × (serve a (record { path = a.prefix ++ name; v = v }) w
              ≡ serve_content name zero_time f.body w1)
            × (get "Cache-Control" w1.header ≡ immutable)
            × (get "ETag" w1.header ≡ b'"' ∷ v ++ b'"' ∷ []))
  unfolding url versioned
  url_served visits prefix a name f made e w =
      let hashed = new_assets-IsHashed visits prefix a made in
      let r : Request = record { path = a.prefix ++ name; v = hash_of f.body } in
      let w0 = set_header "Content-Type" f.ctype w in
      let same = hashed name f e in
      (
        rw (e, url) (ap (λ h. a.prefix ++ name ++ codes "?v=" ++ h) same),
        (
          asset_header f.hash r.v w0,
          served a hashed r w name f refl e,
          (immutable_iff f.hash r.v w0).1 (sym same),
          (header_policy f.hash r.v w0).0 ∙ ap (λ h. b'"' ∷ h ++ b'"' ∷ []) same,
        ),
      )
