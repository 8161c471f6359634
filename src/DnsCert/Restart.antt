-- ===== src/DnsCert/Restart.antt =====
-- A program that starts again after a certificate was obtained.
use nitrokit.Prelude.{◌≡◌, refl, subst, arith, ap, ◌∙◌, Option, none, some}
use nitrokit.Text.{Text, codes, trim_prefix}
use nitrokit.Clock.{Time}
use nitrokit.Result.{Result, ok, err}
use nitrokit.Result.Triple.{
  Outcome, Triple, Triple-pure, Triple->>=, Triple-any, Triple-given, Triple-map, Triple-return,
}
use nitrokit.DnsCert.{Certificate, Chain, DnsCert, Keys, FileSystem, Authority, Solver, Host}
use nitrokit.DnsCert.Store.{
  cert_path, cert_data, store, certificate_of, of_file, with_loaded, load, new_dns_cert,
}
use nitrokit.DnsCert.Obtain.{acme_client, solve_all, obtain}
use nitrokit.DnsCert.Laws.{IsFileSystem, IsPem}
use nitrokit.DnsCert.Reading.{certificate_of-cert_data}
use nitrokit.DnsCert.Saving.{AllKeep, Saved, store_ends}

module _ {W K : Type 0} (keys : Keys W K) (fs : FileSystem W) {content : W → Text → Option Text}
    (pem : IsPem keys) (laws : IsFileSystem fs content)
    (reads : (w : W) (p c : Text) → content w p ≡ some c → (fs.read_file p w).0 ≡ ok c) where
  -- The manager that a program starts with in a world.
  abbrev restarted : DnsCert K → W → DnsCert K
  restarted m w = (new_dns_cert keys fs m.domain m.cache_dir m.email m.directory_url w).0

  abbrev with_cert : DnsCert K → K → Chain → Time → DnsCert K
  with_cert m key chain not_after = record m {
    cert = some (record { chain = chain; key = key; not_after = not_after });
  }

  module _ (m : DnsCert K) (base : m.base ≡ trim_prefix m.domain (codes "*.")) where
    of_file_ok :
        (x : Result Text × W) (c : Text)
        → x.0 ≡ ok c
        → (of_file keys fs x).0 ≡ certificate_of keys fs c
    of_file_ok (ok d, w) c h = let e : d ≡ c = ground arith in ap (certificate_of keys fs) e
    of_file_ok (err e, w) c h = ground arith

    with_loaded_ok :
        (x : Option (Result (Certificate K)) × W) (c : Certificate K)
        → x.0 ≡ some (ok c)
        → (with_loaded keys fs
            (record m { base = trim_prefix m.domain (codes "*."); cert = none })
            x).0
          ≡ record m { cert = some c }
    with_loaded_ok (some (ok d), w) c h = let e : d ≡ c = ground arith in rw (e, base) refl
    with_loaded_ok (some (err e), w) c h = ground arith
    with_loaded_ok (none, w) c h = ground arith

    free :
        (key : K) (chain : Chain) (old : Option Text)
        → AllKeep keys fs laws m key chain old (λ w. Unit {0})
    free key chain old = record {
      mkdir = λ d w k s. tt;
      temp = λ d pattern w k s. tt;
      chmod = λ f w k s. tt;
      write = λ f c w k s. tt;
      close = λ f w k s. tt;
      remove = λ f w k s. tt;
      rename = λ from to w k s. tt;
    }

    module _ (key : K) (chain : Chain) (not_after : Time)
        (parsed : keys.parse_certificate chain.first ≡ ok not_after) where
      load-Saved :
          (old : Option Text) (w : W)
          → Saved keys fs laws m key chain old w
          → restarted m w ≡ with_cert m key chain not_after
      unfolding new_dns_cert load
      load-Saved old w (der, marshalled, e) =
          let read : (load keys fs m w).0 ≡ certificate_of keys fs (cert_data keys fs der chain) =
            of_file_ok (fs.read_file _ w) _ (reads w _ _ e) in
          let back =
            read ∙ certificate_of-cert_data keys fs pem key der chain not_after marshalled parsed in
          with_loaded_ok (load keys fs m w) _ back

      store_restart :
          Triple
            (λ w. Unit {0})
            (store keys fs m key chain)
            (λ u w. restarted m w ≡ with_cert m key chain not_after)
            (λ w. Unit {0})
      store_restart = record {
        ends = λ w u.
            let ends =
              store_ends keys fs laws m key chain (content w (cert_path keys fs m)) (λ v. Unit {0})
                (free key chain _) in
            (Triple-map (λ v p. p) (λ u v (s, k). load-Saved (content w (cert_path keys fs m)) v s)
                (λ v g. tt) ends).ends
              w (refl, tt);
      }

    obtain_restart :
        (ca : Authority W K) (solver : Solver W) (host : Host W)
        → Triple
            (λ w. Unit {0})
            (obtain ca solver host keys fs m)
            (λ m' w. restarted m w ≡ m')
            (λ w. Unit {0})
    unfolding obtain
    obtain_restart ca solver host =
        Triple->>= (Triple-any (acme_client ca solver host keys fs m)) (λ client.
          Triple->>= (Triple-any _) (λ order.
            Triple->>= (Triple-any (solve_all ca solver host client m.domain order.authz_urls))
              (λ u. Triple->>= (Triple-any keys.generate_key) (λ key.
                Triple->>= (Triple-any (keys.create_request m.domain key)) (λ csr.
                  Triple->>= (Triple-any _) (λ chain.
                    Triple->>= (Triple-pure (keys.parse_certificate chain.first) (λ w p. tt))
                      (λ not_after. Triple-given (λ parsed.
                        Triple->>= (store_restart key chain not_after parsed)
                          (λ v. Triple-return (with_cert m key chain not_after))))))))))

  outcome_ok :
      (Q : DnsCert K → W → Type 0) (x : Result (DnsCert K) × W) (m' : DnsCert K) (w' : W)
      → x ≡ (ok m', w')
      → Outcome Q (λ w. Unit {0}) x
      → Q m' w'
  outcome_ok Q x m' w' e q = subst (Outcome Q (λ w. Unit {0})) e q

  -- If an order has succeeded, then a program that starts again in the world that it left, with the
  -- same configuration, has at once the very manager that the order left: the key, the chain and the
  -- expiry that it stored are what the next start loads.
  pub obtain-restart :
      (ca : Authority W K) (solver : Solver W) (host : Host W) (m m' : DnsCert K) (w w' : W)
      → m.base ≡ trim_prefix m.domain (codes "*.")
      → obtain ca solver host keys fs m w ≡ (ok m', w')
      → (new_dns_cert keys fs m.domain m.cache_dir m.email m.directory_url w').0 ≡ m'
  obtain-restart ca solver host m m' w w' base e =
      outcome_ok (λ n v. restarted m v ≡ n) (obtain ca solver host keys fs m w) m' w' e
        ((obtain_restart m base ca solver host).ends w tt)
