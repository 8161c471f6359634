-- ===== src/DnsCert/Laws.antt =====
-- What the store and its reading rely on of the file system, of the PEM encoding and of the keys.
use nitrokit.Prelude.{◌≡◌, ◌≢◌, ◌⊎◌, Option, none, some, [], ◌++◌, ◌<◌, length}
use nitrokit.Text.{Text, codes}
use nitrokit.Result.{ok, err}
use nitrokit.DnsCert.{Block, Keys, FileSystem}
use nitrokit.DnsCert.Store.{key_kind, certificate_kind}

-- `content w p` is what a reader finds at `p`. A temporary file is new, empty and not named like a
-- .pem file; only write, remove and rename change a file, the first two no other than their own; a
-- write that succeeds has written all; a rename is atomic.
pub record IsFileSystem {W : Type 0} (fs : FileSystem W) (content : W → Text → Option Text)
    : Type 0 where
  pub mkdir_keeps : (d : Text) (w : W) (p : Text) → content (fs.mkdir_all d w).1 p ≡ content w p
  pub temp_keeps :
      (d pattern : Text) (w : W) (p : Text)
      → (fs.create_temp d pattern w).0 ≢ ok p
      → content (fs.create_temp d pattern w).1 p ≡ content w p
  pub temp_empty :
      (d pattern : Text) (w : W) (tmp : Text)
      → (fs.create_temp d pattern w).0 ≡ ok tmp
      → content (fs.create_temp d pattern w).1 tmp ≡ some []
  pub temp_name :
      (d pattern : Text) (w : W) (name : Text)
      → (fs.create_temp d pattern w).0 ≢ ok (fs.join d (name ++ codes ".pem"))
  pub chmod_keeps : (f : Text) (w : W) (p : Text) → content (fs.chmod f w).1 p ≡ content w p
  pub close_keeps : (f : Text) (w : W) (p : Text) → content (fs.close f w).1 p ≡ content w p
  pub write_keeps :
      (f c : Text) (w : W) (p : Text) → p ≢ f → content (fs.write f c w).1 p ≡ content w p
  pub write_whole :
      (f c : Text) (w : W)
      → content w f ≡ some []
      → (fs.write f c w).0 ≡ ok tt
      → content (fs.write f c w).1 f ≡ some c
  pub remove_keeps :
      (f : Text) (w : W) (p : Text) → p ≢ f → content (fs.remove f w).1 p ≡ content w p
  pub rename_moves :
      (from to : Text) (w : W)
      → (fs.rename from to w).0 ≡ ok tt
      → content (fs.rename from to w).1 to ≡ content w from
  pub rename_fails :
      (from to : Text) (w : W) (e : Text)
      → (fs.rename from to w).0 ≡ err e
      → content (fs.rename from to w).1 to ≡ content w to

-- Decoding takes the first block off; what is left is shorter.
pub record IsPem {W K : Type 0} (keys : Keys W K) : Type 0 where
  pub decode_encode :
      (b : Block) (rest : Text)
      → (b.kind ≡ key_kind) ⊎ (b.kind ≡ certificate_kind)
      → keys.pem_decode (keys.pem_encode b ++ rest) ≡ some (b, rest)
  pub decode_empty : keys.pem_decode [] ≡ none
  pub decode_shorter :
      (s : Text) (b : Block) (rest : Text)
      → keys.pem_decode s ≡ some (b, rest)
      → length rest < length s
  pub parse_marshal : (k : K) (der : Text) → keys.marshal_key k ≡ ok der → keys.parse_key der ≡ ok k
