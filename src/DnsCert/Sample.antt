-- ===== src/DnsCert/Sample.antt =====
-- A small world for the tests: files by name, an authority that issues, a solver whose removals fail.
use nitrokit.Prelude.{
  ℕ, zero, suc, ◌≡◌, ◌≢◌, ◌⊎◌, ◌≤◌, ◌<◌, refl, ap, sym, arith, inl, inr, false, Option, none, some,
  [], ◌∷◌, ◌++◌, length, if◌then◌else◌, ◌∙◌,
}
use nitrokit.Text.{Text, codes, text_beq, text_beq_iff}
use nitrokit.Result.{Result, ok, err, fail, return, pure}
use nitrokit.DnsCert.{DnsCert, Block, Keys, FileSystem, Authority, Solver, Host, registered}
use nitrokit.DnsCert.Store.{key_kind, certificate_kind}
use nitrokit.DnsCert.Laws.{IsFileSystem, IsPem}

abbrev pub Files : Type 0
Files = Text → Option Text

unfoldable pub set_file : Text → Option Text → Files → Files
set_file f c w p = if text_beq p f then c else w p

abbrev read_result : Option Text → Result Text
read_result none = err (codes "no such file")
read_result (some c) = ok c

abbrev pub file_system : FileSystem Files
file_system = record {
  join = λ d name. name;
  read_file = λ p w. (read_result (w p), w);
  mkdir_all = λ d w. (ok tt, w);
  write_file = λ p c w. (ok tt, set_file p (some c) w);
  create_temp = λ d pattern w. (ok (codes "t"), set_file (codes "t") (some []) w);
  chmod = λ f w. (ok tt, w);
  write = λ f c w. (ok tt, set_file f (some c) w);
  close = λ f w. (ok tt, w);
  remove = λ f w. (ok tt, set_file f none w);
  rename = λ from to w. (ok tt, set_file to (w from) w);
}

abbrev pub content : Files → Text → Option Text
content w p = w p

set_file_other : (f p : Text) (c : Option Text) (w : Files) → p ≢ f → set_file f c w p ≡ w p
unfolding set_file
set_file_other f p c w h = ground (arith, text_beq_iff p f)

set_file_same : (f : Text) (c : Option Text) (w : Files) → set_file f c w f ≡ c
unfolding set_file
set_file_same f c w = ground (arith, text_beq_iff f f)

short_name : (name : Text) → codes "t" ≢ name ++ codes ".pem"
short_name [] h = ground arith
short_name (c ∷ []) h = ground arith
short_name (c ∷ d ∷ name) h = ground arith

ok_inj : (a b : Text) → ok a ≡ ok b → a ≡ b
ok_inj a b h = ground arith

pub file_system-IsFileSystem : IsFileSystem file_system content
file_system-IsFileSystem = record {
  mkdir_keeps = λ d w p. refl;
  temp_keeps = λ d pattern w p h. set_file_other (codes "t") p (some []) w (λ q. h (ap ok (sym q)));
  temp_empty = λ d pattern w tmp h.
      let e = ok_inj (codes "t") tmp h in
      ap (set_file (codes "t") (some []) w) (sym e) ∙ set_file_same (codes "t") (some []) w;
  temp_name = λ d pattern w name h. short_name name (ok_inj _ _ h);
  chmod_keeps = λ f w p. refl;
  close_keeps = λ f w p. refl;
  write_keeps = λ f c w p h. set_file_other f p (some c) w h;
  write_whole = λ f c w o h. set_file_same f (some c) w;
  remove_keeps = λ f w p h. set_file_other f p none w h;
  rename_moves = λ from to w h. set_file_same to (w from) w;
  rename_fails = λ from to w e h. ground arith;
}

-- The first `n` bytes and the rest.
unfoldable pub cut_at : ℕ → Text → Text × Text
cut_at zero s = ([], s)
cut_at (suc n) [] = ([], [])
cut_at (suc n) (c ∷ s) = let (a, b) = cut_at n s in (c ∷ a, b)

cut_at-append : (a b : Text) → cut_at (length a) (a ++ b) ≡ (a, b)
unfolding cut_at
cut_at-append [] b = refl
cut_at-append (c ∷ a) b = rw (cut_at-append a b) refl

length-cut_at : (n : ℕ) (s : Text) → length (cut_at n s).1 ≤ length s
unfolding cut_at
length-cut_at zero s = ground arith
length-cut_at (suc n) [] = ground arith
length-cut_at (suc n) (c ∷ s) = ground (arith, length-cut_at n s)

-- A tag, the number of bytes, the bytes.
abbrev encode : Block → Text
encode b = (if text_beq b.kind key_kind then 0 else 1) ∷ length b.bytes ∷ b.bytes

abbrev kind_of_tag : ℕ → Text
kind_of_tag zero = key_kind
kind_of_tag (suc n) = certificate_kind

unfoldable pub decode : Text → Option (Block × Text)
decode [] = none
decode (t ∷ []) = none
decode (t ∷ n ∷ s) =
    let (bytes, rest) = cut_at n s in some (record { kind = kind_of_tag t; bytes = bytes }, rest)

abbrev key_of : Text → Result ℕ
key_of [] = err (codes "no key")
key_of (k ∷ s) = ok k

abbrev pub sample_keys : {W : Type 0} → Keys W ℕ
sample_keys = record {
  generate_key = return 7;
  create_request = λ domain key. return domain;
  marshal_key = λ key. ok (key ∷ []);
  parse_key = key_of;
  parse_certificate = λ d. ok (length d);
  pem_encode = encode;
  pem_decode = decode;
}

decode-encode :
    (b : Block) (rest : Text)
    → (b.kind ≡ key_kind) ⊎ (b.kind ≡ certificate_kind)
    → decode (encode b ++ rest) ≡ some (b, rest)
unfolding decode
decode-encode b rest (inl h) = rw (h, cut_at-append b.bytes rest) refl
decode-encode b rest (inr h) = rw (h, cut_at-append b.bytes rest) refl

decode_shorter :
    (s : Text) (b : Block) (rest : Text) → decode s ≡ some (b, rest) → length rest < length s
unfolding decode
decode_shorter [] b rest h = ground arith
decode_shorter (t ∷ []) b rest h = ground arith
decode_shorter (t ∷ n ∷ s) b rest h =
    let e : (cut_at n s).1 ≡ rest = ground arith in rw (← e) (ground (arith, length-cut_at n s))

pub sample_keys-IsPem : {W : Type 0} → IsPem (sample_keys {W = W})
unfolding decode
sample_keys-IsPem = record {
  decode_encode = decode-encode;
  decode_empty = refl;
  decode_shorter = decode_shorter;
  parse_marshal = λ k der h. let e : (k ∷ []) ≡ der = ground arith in ap key_of (sym e);
}

abbrev pub sample_authority : {W : Type 0} → Authority W ℕ
sample_authority = record {
  register = λ client contact w. (registered, w);
  authorize_order =
      λ client domain. return (record { authz_urls = codes "u" ∷ []; finalize_url = codes "f" });
  get_authorization = λ client zurl. return (record {
    status_valid = false;
    identifier = codes "a.b";
    challenges =
        record { kind = codes "http-01"; token = codes "x" }
        ∷ record { kind = codes "dns-01"; token = codes "y" }
        ∷ [];
  });
  dns01_record = λ client token. ok token;
  accept = λ client chal. return tt;
  wait_authorization = λ client zurl. return tt;
  create_order_cert =
      λ client url csr. return (record { first = codes "cert"; rest = codes "ca" ∷ [] });
}

abbrev pub sample_solver : Solver Files
sample_solver = record {
  set_txt = λ fqdn value. return tt;
  cleanup_txt = λ fqdn value. pure (err (codes "throttled"));
}

abbrev pub sample_host : {W : Type 0} → Host W
sample_host = record {
  now = λ w. 0;
  logf = λ what w. w;
  cancelled = λ w. false;
  wait = λ d w. (false, w);
}

abbrev pub sample_manager : DnsCert ℕ
sample_manager = record {
  domain = codes "*.a.b";
  base = codes "a.b";
  cache_dir = codes "c";
  email = codes "m@a.b";
  directory_url = codes "d";
  cert = none;
}

pub read_found :
    (w : Files) (p c : Text) → content w p ≡ some c → (file_system.read_file p w).0 ≡ ok c
read_found w p c h = ap read_result h

abbrev pub no_files : Files
no_files p = none

-- A disk without files, which takes writes.
abbrev pub no_disk : {W : Type 0} → FileSystem W
no_disk = record {
  join = λ d name. name;
  read_file = λ p. fail (codes "no such file");
  mkdir_all = λ d. return tt;
  write_file = λ p c. return tt;
  create_temp = λ d pattern. return (codes "t");
  chmod = λ f. return tt;
  write = λ f c. return tt;
  close = λ f. return tt;
  remove = λ f. return tt;
  rename = λ from to. return tt;
}
