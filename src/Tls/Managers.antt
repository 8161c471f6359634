-- ===== src/Tls/Managers.antt =====
-- RunTLS after its checks: the managers of the wildcards, the choice of a certificate in a handshake,
-- and the two servers that are run. What autocert answers to a handshake is of the type `A`, and its
-- handler of the challenges is an argument; each manager then runs its renewLoop.
use nitrokit.Prelude.{true, false, ◌⊎◌, inl, inr, List, [], ◌∷◌}
use nitrokit.Text.{Text}
use nitrokit.Clock.{Time}
use nitrokit.Lifecycle.{HttpServer, new_server, ServerEntry, run}
use nitrokit.DnsCert.{DnsCert, Handshake, Keys, FileSystem, matches, certificate}
use nitrokit.DnsCert.Store.{new_dns_cert}
use nitrokit.Tls.{Acme, ConfigError, check_config}

-- The callback GetCertificate.
unfoldable pub get_certificate :
    {K A : Type 0} → List (DnsCert K) → (Text → A) → Time → Text → Handshake K ⊎ A
get_certificate [] fall_through now name = inr (fall_through name)
get_certificate (m ∷ mgrs) fall_through now name = elim (matches m name) [
  | true ↦ inl (certificate m now)
  | false ↦ get_certificate mgrs fall_through now name
]

module _ {W K : Type 0} (keys : Keys W K) (fs : FileSystem W) where
  -- The loop over the wildcards.
  unfoldable pub new_managers : List Text → Text → Text → Text → W → List (DnsCert K) × W
  new_managers [] cache_dir email directory_url w = ([], w)
  new_managers (d ∷ wildcards) cache_dir email directory_url w =
      let (m, w1) = new_dns_cert keys fs d cache_dir email directory_url w in
      let (mgrs, w2) = new_managers wildcards cache_dir email directory_url w1 in (m ∷ mgrs, w2)

  -- What is set up: the hosts that autocert is allowed, the managers, and what Run does with the two
  -- servers.
  pub record Setup (H : Type 0) : Type 0 where
    pub whitelist : List Text
    pub managers : List (DnsCert K)
    pub servers : Text ⊎ List (ServerEntry H)

  -- From the sorted hosts on; the second server answers at `acme_http_addr`.
  unfoldable pub set_up :
      {H : Type 0}
      → H
      → Text
      → Text
      → HttpServer H
      → Acme
      → Text
      → List Text × List Text
      → W
      → Setup H × W
  unfolding new_managers
  set_up acme_handler acme_http_addr directory_url srv a email (exact, wildcards) w =
      let (mgrs, w') = new_managers wildcards a.cache_dir email directory_url w in
      (
        record {
          whitelist = exact;
          managers = mgrs;
          servers =
              run (record srv { tls_config = true } ∷ new_server acme_http_addr acme_handler ∷ []);
        },
        w',
      )

  unfoldable pub run_tls :
      {H : Type 0} → H → Text → Text → HttpServer H → Acme → Text → W → ConfigError ⊎ (Setup H × W)
  unfolding set_up
  run_tls acme_handler acme_http_addr directory_url srv a email w = elim (check_config a) [
    | inl e ↦ inl e
    | inr hosts ↦ inr (set_up acme_handler acme_http_addr directory_url srv a email hosts w)
  ]
