-- ===== src/DnsCert/Saving.antt =====
-- The writing of the one file of a manager: what a reader finds at its path after each call, and at
-- the end.
use nitrokit.Prelude.{◌≡◌, ◌≢◌, ◌⊎◌, sym, ap, ◌∙◌, inl, inr, Option, some, []}
use nitrokit.Text.{Text, codes, replace_all}
use nitrokit.Result.{Result, ok, err, Io}
use nitrokit.Result.Triple.{
  Outcome, Triple, Triple-pure, Triple->>=, Triple-call, Triple-given, Triple-deferred,
}
use nitrokit.DnsCert.{Chain, DnsCert, Keys, FileSystem}
use nitrokit.DnsCert.Store.{cert_path, cert_data, close_on_error, write_and_rename, store}
use nitrokit.DnsCert.Laws.{IsFileSystem}

module _ {W K : Type 0} (keys : Keys W K) (fs : FileSystem W) {content : W → Text → Option Text}
    (laws : IsFileSystem fs content) (m : DnsCert K) (key : K) (chain : Chain)
    (old : Option Text) where
  abbrev path : Text
  path = cert_path keys fs m

  -- The whole new file is at the path.
  abbrev pub Saved : W → Type 0
  Saved w =
      (der : Text) × (keys.marshal_key key ≡ ok der)
      × (content w path ≡ some (cert_data keys fs der chain))

  -- A reader finds the old file or the whole new one.
  abbrev pub Safe : W → Type 0
  Safe w = (content w path ≡ old) ⊎ Saved w

  module _ (Kept : W → Type 0) where
    abbrev Keep : {A : Type 0} → Io W A → Type 0
    Keep call = (w : W) → Kept w → Safe (call w).1 → Kept (call w).1

    -- A property that every call of the store keeps if it ends safely.
    pub record AllKeep : Type 0 where
      pub mkdir : (d : Text) → Keep (fs.mkdir_all d)
      pub temp : (d pattern : Text) → Keep (fs.create_temp d pattern)
      pub chmod : (f : Text) → Keep (fs.chmod f)
      pub write : (f c : Text) → Keep (fs.write f c)
      pub close : (f : Text) → Keep (fs.close f)
      pub remove : (f : Text) → Keep (fs.remove f)
      pub rename : (from to : Text) → Keep (fs.rename from to)

    module _ (keep : AllKeep) where
      abbrev Good : W → Type 0
      Good w = Safe w × Kept w

      abbrev Before : W → Type 0
      Before w = (content w path ≡ old) × Kept w

      -- The temporary file is open and holds `c`.
      abbrev Open : Text → Text → W → Type 0
      Open tmp c w = (content w tmp ≡ some c) × Before w

      still-Safe : (w w' : W) → content w' path ≡ content w path → Safe w → Safe w'
      still-Safe w w' e (inl q) = inl (e ∙ q)
      still-Safe w w' e (inr (der, marshalled, q)) = inr (der, marshalled, e ∙ q)

      close-Good : (f : Text) (w : W) → Good w → Good (fs.close f w).1
      close-Good f w (s, k) =
          let s' = still-Safe w _ (laws.close_keeps f w path) s in (s', keep.close f w k s')

      remove-Good : (f : Text) (w : W) → f ≢ path → Good w → Good (fs.remove f w).1
      remove-Good f w ne (s, k) =
          let s' = still-Safe w _ (laws.remove_keeps f w path (λ q. ne (sym q))) s in
          (s', keep.remove f w k s')

      -- A call that leaves the path as it is.
      same :
          {A : Type 0} (call : Io W A) (w : W)
          → Keep call
          → content (call w).1 path ≡ content w path
          → Before w
          → Before (call w).1
      same call w keeps e (p, k) = (e ∙ p, keeps w k (inl (e ∙ p)))

      Before-Good : (w : W) → Before w → Good w
      Before-Good w (p, k) = (inl p, k)

      mkdir_step : (d : Text) → Triple Before (fs.mkdir_all d) (λ u. Before) Good
      mkdir_step d =
          let next : (w : W) → Before w → Before (fs.mkdir_all d w).1 =
            λ w. same (fs.mkdir_all d) w (keep.mkdir d) (laws.mkdir_keeps d w path) in
          Triple-call (λ w u p e. next w p) (λ w x p e. Before-Good _ (next w p))

      temp_step :
          (pattern : Text)
          → Triple Before
              (fs.create_temp m.cache_dir pattern)
              (λ tmp w. (tmp ≢ path) × Open tmp [] w)
              Good
      unfolding cert_path
      temp_step pattern =
          let name = replace_all m.domain b'*' (codes "_wildcard") in
          let other : (w : W) → (fs.create_temp m.cache_dir pattern w).0 ≢ ok path =
            λ w. laws.temp_name m.cache_dir pattern w name in
          let next : (w : W) → Before w → Before (fs.create_temp m.cache_dir pattern w).1 = λ w.
            same (fs.create_temp m.cache_dir pattern) w (keep.temp m.cache_dir pattern)
              (laws.temp_keeps _ _ w path (other w)) in
          Triple-call
            (λ w tmp p e. ((λ q. other w (e ∙ ap ok q)), (laws.temp_empty _ _ w tmp e, next w p)))
            (λ w x p e. Before-Good _ (next w p))

      module _ (tmp : Text) (ne : tmp ≢ path) where
        close-Outcome :
            (Q : W → Type 0) (x : Result (Unit {0}) × W)
            → Outcome (λ u. Q) Good x
            → Outcome (λ u. Q) Good (close_on_error keys fs tmp x)
        close-Outcome Q (ok u, w) q = q
        close-Outcome Q (err e, w) q = close-Good tmp w q

        Triple-close_on_error :
            {P Q : W → Type 0} {call : Io W (Unit {0})}
            → Triple P call (λ u. Q) Good
            → Triple P (λ w. close_on_error keys fs tmp (call w)) (λ u. Q) Good
        Triple-close_on_error {Q} {call} h = record {
          ends = λ w p. close-Outcome Q (call w) (h.ends w p);
        }

        chmod_step : (c : Text) → Triple (Open tmp c) (fs.chmod tmp) (λ u. Open tmp c) Good
        chmod_step c =
            let next : (w : W) → Before w → Before (fs.chmod tmp w).1 =
              λ w. same (fs.chmod tmp) w (keep.chmod tmp) (laws.chmod_keeps tmp w path) in
            Triple-call (λ w u (o, p) e. (laws.chmod_keeps tmp w tmp ∙ o, next w p))
              (λ w x (o, p) e. Before-Good _ (next w p))

        write_step : (c : Text) → Triple (Open tmp []) (fs.write tmp c) (λ u. Open tmp c) Good
        write_step c =
            let next : (w : W) → Before w → Before (fs.write tmp c w).1 = λ w.
              same (fs.write tmp c) w (keep.write tmp c)
                (laws.write_keeps tmp c w path (λ q. ne (sym q))) in
            Triple-call (λ w u (o, p) e. (laws.write_whole tmp c w o e, next w p))
              (λ w x (o, p) e. Before-Good _ (next w p))

        close_step : (c : Text) → Triple (Open tmp c) (fs.close tmp) (λ u. Open tmp c) Good
        close_step c =
            let next : (w : W) → Before w → Before (fs.close tmp w).1 =
              λ w. same (fs.close tmp) w (keep.close tmp) (laws.close_keeps tmp w path) in
            Triple-call (λ w u (o, p) e. (laws.close_keeps tmp w tmp ∙ o, next w p))
              (λ w x (o, p) e. Before-Good _ (next w p))

        module _ (der : Text) (marshalled : keys.marshal_key key ≡ ok der) where
          rename_step :
              Triple
                (Open tmp (cert_data keys fs der chain))
                (fs.rename tmp path)
                (λ u w. Saved w × Kept w)
                Good
          rename_step =
              Triple-call
                (λ w u (o, (p, k)) e.
                  let s : Saved (fs.rename tmp path w).1 =
                    (der, marshalled, laws.rename_moves tmp path w e ∙ o) in
                  (s, keep.rename tmp path w k (inr s)))
                (λ w x (o, (p, k)) e.
                  let q = laws.rename_fails tmp path w x e ∙ p in
                  (inl q, keep.rename tmp path w k (inl q)))

          write_and_rename_ends :
              Triple
                (Open tmp [])
                (write_and_rename keys fs path (cert_data keys fs der chain) tmp)
                (λ u w. Saved w × Kept w)
                Good
          unfolding write_and_rename
          write_and_rename_ends = Triple->>= (Triple-close_on_error (chmod_step [])) (λ u1.
              Triple->>= (Triple-close_on_error (write_step _))
                (λ u2. Triple->>= (close_step _) (λ u3. rename_step)))

          after_remove :
              (w : W) → Saved w × Kept w → Saved (fs.remove tmp w).1 × Kept (fs.remove tmp w).1
          after_remove w ((d, md, q), k) =
              let s : Saved (fs.remove tmp w).1 =
                (d, md, laws.remove_keeps tmp w path (λ r. ne (sym r)) ∙ q) in
              (s, keep.remove tmp w k (inr s))

      -- All of the store.
      pub store_ends : Triple Before (store keys fs m key chain) (λ u w. Saved w × Kept w) Good
      unfolding store
      store_ends = Triple->>= (mkdir_step m.cache_dir) (λ u.
          Triple->>= (Triple-pure (keys.marshal_key key) Before-Good) (λ der.
            Triple-given (λ marshalled. Triple->>= (temp_step _) (λ tmp. Triple-given (λ ne.
              Triple-deferred _ (λ w u. after_remove tmp ne der marshalled w)
                (λ w. remove-Good tmp w ne) (write_and_rename_ends tmp ne der marshalled))))))
