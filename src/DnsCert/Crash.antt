-- ===== src/DnsCert/Crash.antt =====
-- The store under a recorder of the worlds between its calls of the file system, where the program
-- may be killed.
use nitrokit.Prelude.{◌≡◌, ◌⊎◌, refl, Option, some, List, [], ◌∷◌, ◌++◌, All, All-append}
use nitrokit.Text.{Text}
use nitrokit.Result.{Result, ok, err}
use nitrokit.Result.Triple.{Outcome}
use nitrokit.DnsCert.{Chain, DnsCert, Keys, FileSystem}
use nitrokit.DnsCert.Store.{cert_path, cert_data, store}
use nitrokit.DnsCert.Laws.{IsFileSystem}
use nitrokit.DnsCert.Saving.{Safe, Saved, AllKeep, store_ends}

-- A world with the worlds after each call so far.
abbrev pub Logged : Type 0 → Type 0
Logged W = W × List W

module _ {W : Type 0} where
  abbrev pub logged : {A : Type 0} → (W → A × W) → Logged W → A × Logged W
  logged m (w, log) = let (r, w') = m w in (r, (w', log ++ w' ∷ []))

  abbrev pub logged_files : FileSystem W → FileSystem (Logged W)
  logged_files fs = record {
    join = fs.join;
    read_file = λ path. logged (fs.read_file path);
    mkdir_all = λ path. logged (fs.mkdir_all path);
    write_file = λ path contents. logged (fs.write_file path contents);
    create_temp = λ dir pattern. logged (fs.create_temp dir pattern);
    chmod = λ path. logged (fs.chmod path);
    write = λ path contents. logged (fs.write path contents);
    close = λ path. logged (fs.close path);
    remove = λ path. logged (fs.remove path);
    rename = λ from to. logged (fs.rename from to);
  }

module _ {W K : Type 0} (keys : Keys (Logged W) K) (fs : FileSystem W)
    {content : W → Text → Option Text} (laws : IsFileSystem fs content) where
  abbrev fs' : FileSystem (Logged W)
  fs' = logged_files fs

  abbrev content' : Logged W → Text → Option Text
  content' (w, log) p = content w p

  logged-IsFileSystem : IsFileSystem fs' content'
  logged-IsFileSystem = record {
    mkdir_keeps = λ d (w, log) p. laws.mkdir_keeps d w p;
    temp_keeps = λ d pattern (w, log) p h. laws.temp_keeps d pattern w p h;
    temp_empty = λ d pattern (w, log) tmp h. laws.temp_empty d pattern w tmp h;
    temp_name = λ d pattern (w, log) name. laws.temp_name d pattern w name;
    chmod_keeps = λ f (w, log) p. laws.chmod_keeps f w p;
    close_keeps = λ f (w, log) p. laws.close_keeps f w p;
    write_keeps = λ f c (w, log) p h. laws.write_keeps f c w p h;
    write_whole = λ f c (w, log) o h. laws.write_whole f c w o h;
    remove_keeps = λ f (w, log) p h. laws.remove_keeps f w p h;
    rename_moves = λ from to (w, log) h. laws.rename_moves from to w h;
    rename_fails = λ from to (w, log) e h. laws.rename_fails from to w e h;
  }

  module _ (m : DnsCert K) (key : K) (chain : Chain) (old : Option Text) where
    abbrev SafeAt : W → Type 0
    SafeAt v = Safe keys fs' logged-IsFileSystem m key chain old (v, [])

    abbrev SafeLog : Logged W → Type 0
    SafeLog (w, log) = All SafeAt log

    log_keeps : AllKeep keys fs' logged-IsFileSystem m key chain old SafeLog
    log_keeps = record {
      mkdir = λ d (w, log) k s. All-append SafeAt log _ k (s, tt);
      temp = λ d pattern (w, log) k s. All-append SafeAt log _ k (s, tt);
      chmod = λ f (w, log) k s. All-append SafeAt log _ k (s, tt);
      write = λ f c (w, log) k s. All-append SafeAt log _ k (s, tt);
      close = λ f (w, log) k s. All-append SafeAt log _ k (s, tt);
      remove = λ f (w, log) k s. All-append SafeAt log _ k (s, tt);
      rename = λ from to (w, log) k s. All-append SafeAt log _ k (s, tt);
    }

  logged_ends :
      (m : DnsCert K) (key : K) (chain : Chain) (old : Option Text)
      (x : Result (Unit {0}) × Logged W)
      → Outcome
          (λ u w. Saved keys fs' logged-IsFileSystem m key chain old w × SafeLog m key chain old w)
          (λ w. Safe keys fs' logged-IsFileSystem m key chain old w × SafeLog m key chain old w)
          x
      → SafeLog m key chain old x.1
  logged_ends m key chain old (ok u, w) (s, k) = k
  logged_ends m key chain old (err e, w) (s, k) = k

  -- After every call of the file system that the store makes, whether it goes on or fails, the file
  -- at the manager's path is what it was before the store, or the whole of the new key and chain: a
  -- program that is killed between two calls leaves no part of a file there.
  pub store_survives_crash :
      (m : DnsCert K) (key : K) (chain : Chain) (w : W)
      → let path = cert_path keys fs' m in
        All
          (λ v.
            (content v path ≡ content w path)
            ⊎ ((der : Text) × (keys.marshal_key key ≡ ok der)
                × (content v path ≡ some (cert_data keys fs' der chain))))
          (store keys fs' m key chain (w, [])).1.1
  store_survives_crash m key chain w =
      let old = content w (cert_path keys fs' m) in
      let ends =
        store_ends keys fs' logged-IsFileSystem m key chain old (SafeLog m key chain old)
          (log_keeps m key chain old) in
      logged_ends m key chain old (store keys fs' m key chain (w, []))
        (ends.ends (w, []) (refl, tt))
