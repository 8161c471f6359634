-- ===== src/DnsCert/Store.antt =====
-- The files of a manager: the certificate with its key, and the account key.
use nitrokit.Prelude.{ℕ, zero, suc, Option, none, some, List, [], ◌∷◌, ◌++◌, length, if◌then◌else◌}
use nitrokit.Text.{Text, codes, text_beq, replace_all, trim_prefix}
use nitrokit.Result.{Result, ok, err, Io, ◌>>=◌, ◌>>◌, return, pure, deferred}
use nitrokit.DnsCert.{Chain, Certificate, DnsCert, Keys, FileSystem}

abbrev pub key_kind : Text
key_kind = codes "EC PRIVATE KEY"

abbrev pub certificate_kind : Text
certificate_kind = codes "CERTIFICATE"

-- What the loop does with a block.
pub data Kind : Type 0 where
  private_key chain_part other : Kind

abbrev pub kind_of : Text → Kind
kind_of t =
    if text_beq t key_kind
    then private_key
    else if text_beq t certificate_kind
    then chain_part
    else other

module _ {W K : Type 0} (keys : Keys W K) (fs : FileSystem W) where
  unfoldable pub cert_path : DnsCert K → Text
  cert_path m = fs.join m.cache_dir (replace_all m.domain b'*' (codes "_wildcard") ++ codes ".pem")

  unfoldable pub encode_chain : List Text → Text
  encode_chain [] = []
  encode_chain (d ∷ ds) =
      keys.pem_encode (record { kind = certificate_kind; bytes = d }) ++ encode_chain ds

  -- The one file: the key, then the chain.
  unfoldable pub cert_data : Text → Chain → Text
  unfolding encode_chain
  cert_data key_der chain =
      keys.pem_encode (record { kind = key_kind; bytes = key_der })
      ++ encode_chain (chain.first ∷ chain.rest)

  -- A failure closes the temporary file first.
  abbrev pub close_on_error : Text → Result (Unit {0}) × W → Result (Unit {0}) × W
  close_on_error tmp (ok u, w) = (ok u, w)
  close_on_error tmp (err e, w) = (err e, (fs.close tmp w).1)

  unfoldable pub write_and_rename : Text → Text → Text → Io W (Unit {0})
  write_and_rename path contents tmp = do
    λ w. close_on_error tmp (fs.chmod tmp w)
    λ w. close_on_error tmp (fs.write tmp contents w)
    fs.close tmp
    fs.rename tmp path

  unfoldable pub store : DnsCert K → K → Chain → Io W (Unit {0})
  unfolding cert_path cert_data write_and_rename
  store m key chain = do
    fs.mkdir_all m.cache_dir
    key_der ← pure (keys.marshal_key key)
    tmp ← fs.create_temp m.cache_dir (codes "tmp-cert-")
    deferred (λ w. (fs.remove tmp w).1)
        (write_and_rename (cert_path m) (cert_data key_der chain) tmp)

  -- The loop over the blocks; `none` if the fuel runs out.
  unfoldable pub read_blocks :
      ℕ → Text → Option K → List Text → Option (Result (Option K × List Text))
  read_blocks zero contents key der = none
  read_blocks (suc fuel) contents key der = elim (keys.pem_decode contents) [
    | none ↦ some (ok (key, der))
    | some (block, rest) ↦ elim (kind_of block.kind) [
      | private_key ↦ elim (keys.parse_key block.bytes) [
        | ok k ↦ read_blocks fuel rest (some k) der
        | err e ↦ some (err e)
      ]
      | chain_part ↦ read_blocks fuel rest key (der ++ block.bytes ∷ [])
      | other ↦ read_blocks fuel rest key der
    ]
  ]

  unfoldable pub assemble : Option K × List Text → Result (Certificate K)
  assemble (none, der) = err (codes "cached certificate file is incomplete")
  assemble (some key, []) = err (codes "cached certificate file is incomplete")
  assemble (some key, d ∷ ds) = elim (keys.parse_certificate d) [
    | err e ↦ err e
    | ok not_after ↦
        ok (record { chain = record { first = d; rest = ds }; key = key; not_after = not_after })
  ]

  -- What a file holds; `none` if the fuel, a round for each byte, runs out.
  unfoldable pub certificate_of : Text → Option (Result (Certificate K))
  unfolding read_blocks assemble
  certificate_of contents = elim (read_blocks (suc (length contents)) contents none []) [
    | none ↦ none
    | some (err e) ↦ some (err e)
    | some (ok parts) ↦ some (assemble parts)
  ]

  abbrev pub of_file : Result Text × W → Option (Result (Certificate K)) × W
  of_file (err e, w) = (some (err e), w)
  of_file (ok contents, w) = (certificate_of contents, w)

  unfoldable pub load : DnsCert K → W → Option (Result (Certificate K)) × W
  unfolding cert_path
  load m w = of_file (fs.read_file (cert_path m) w)

  abbrev pub with_loaded : DnsCert K → Option (Result (Certificate K)) × W → DnsCert K × W
  with_loaded m (some (ok c), w) = (record m { cert = some c }, w)
  with_loaded m (some (err e), w) = (m, w)
  with_loaded m (none, w) = (m, w)

  -- A manager before its file is looked at.
  abbrev pub empty_manager : Text → Text → Text → Text → DnsCert K
  empty_manager domain cache_dir email directory_url = record {
    domain = domain;
    base = trim_prefix domain (codes "*.");
    cache_dir = cache_dir;
    email = email;
    directory_url = directory_url;
    cert = none;
  }

  -- A manager starts with the certificate of its file, if that loads.
  unfoldable pub new_dns_cert : Text → Text → Text → Text → W → DnsCert K × W
  unfolding load
  new_dns_cert domain cache_dir email directory_url w =
      let m = empty_manager domain cache_dir email directory_url in with_loaded m (load m w)

  abbrev account_key_file : DnsCert K → Text
  account_key_file m = fs.join m.cache_dir (codes "acme_account+key")

  unfoldable pub create_account_key : DnsCert K → Io W K
  create_account_key m = do
    key ← keys.generate_key
    der ← pure (keys.marshal_key key)
    fs.mkdir_all m.cache_dir
    fs.write_file (account_key_file m) (keys.pem_encode (record { kind = key_kind; bytes = der }))
    return key

  -- A file that can be read is decisive, even if it holds no key.
  abbrev pub account_key_of : DnsCert K → Result Text × W → Result K × W
  account_key_of m (err e, w) = create_account_key m w
  account_key_of m (ok contents, w) = elim (keys.pem_decode contents) [
    | none ↦ (err (account_key_file m ++ codes ": not PEM"), w)
    | some (block, rest) ↦ (keys.parse_key block.bytes, w)
  ]

  unfoldable pub account_key : DnsCert K → Io W K
  unfolding create_account_key
  account_key m w = account_key_of m (fs.read_file (account_key_file m) w)
