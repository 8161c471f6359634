-- ===== src/Tls/Tests.antt =====
-- Concrete configurations, and the theorem at one of them.
use nitrokit.Prelude.{ℕ, ◌⊎◌, arith, ◌≡◌, ◌≢◌, ◌↔◌, inl, inr, refl, true, false, [], ◌∷◌}
use nitrokit.Text.{Text, codes, has_prefix, has_byte, contains, to_lower, trim_suffix}
use nitrokit.Lifecycle.{HttpServer, new_server}
use nitrokit.DnsCert.{DnsCert, matches, certificate}
use nitrokit.DnsCert.Sample.{Files, file_system, sample_keys, no_files}
use nitrokit.Tls.Managers.{Setup, get_certificate, set_up, run_tls}
use nitrokit.Tls.Routing.{wildcard_answered}
use nitrokit.Tls.{
  ConfigError, Acme, no_hosts, no_cache_dir, no_dns, bad_host, count, is_wildcard, dns_check,
  sort_hosts, check_config,
}
use nitrokit.Tls.Hosts.{Sorts, check_config_iff}

code : Unit {0}
unfolding count is_wildcard dns_check sort_hosts check_config has_prefix has_byte contains
code = tt

abbrev config : Acme
config = record {
  hosts = codes "*.a.org" ∷ codes "a.org" ∷ [];
  cache_dir = codes "/certs";
  dns = true;
}

check_config_tests :
    (check_config config ≡ inr (codes "a.org" ∷ [], codes "*.a.org" ∷ []))
    × (check_config (record config { dns = false }) ≡ inl no_dns)
    × (check_config (record config { hosts = [] }) ≡ inl no_hosts)
    × (check_config (record config { cache_dir = [] }) ≡ inl no_cache_dir)
    × (check_config (record config { hosts = codes "*.org" ∷ [] }) ≡ inl (bad_host (codes "*.org")))
    × (check_config (record config { hosts = codes "w*.a.org" ∷ [] })
        ≡ inl (bad_host (codes "w*.a.org")))
unfolding code
check_config_tests = (refl, refl, refl, refl, refl, refl)

check_config_iff_example :
    (check_config config ≡ inr (codes "a.org" ∷ [], codes "*.a.org" ∷ [])) ↔ (
      (config.hosts ≢ [])
      × (config.cache_dir ≢ [])
      × Sorts config.hosts (codes "a.org" ∷ []) (codes "*.a.org" ∷ [])
      × (((codes "*.a.org" ∷ []) ≡ []) ⊎ (config.dns ≡ true)))
check_config_iff_example = check_config_iff config (codes "a.org" ∷ []) (codes "*.a.org" ∷ [])

abbrev two_hosts : Acme
two_hosts = record { hosts = codes "x.y" ∷ codes "*.a.b" ∷ []; cache_dir = codes "c"; dns = true }

abbrev server : HttpServer (Unit {0})
unfolding new_server
server = new_server (codes ":443") tt

abbrev set_up_result : ConfigError ⊎ (Setup sample_keys file_system (Unit {0}) × Files)
set_up_result =
    run_tls sample_keys file_system tt (codes ":80") (codes "d") server two_hosts (codes "m")
      no_files

abbrev two_hosts_setup : Setup sample_keys file_system (Unit {0}) × Files
two_hosts_setup =
    set_up sample_keys file_system tt (codes ":80") (codes "d") server two_hosts (codes "m")
      (codes "x.y" ∷ [], codes "*.a.b" ∷ []) no_files

set_up_test : set_up_result ≡ inr two_hosts_setup
unfolding run_tls check_config sort_hosts is_wildcard count has_prefix has_byte contains dns_check
set_up_test = refl

wildcard_answered_example :
    (m : DnsCert ℕ) × (matches m (codes "w.a.b") ≡ true)
    × (get_certificate two_hosts_setup.0.managers (λ (name : Text). name) 0 (codes "w.a.b")
        ≡ inl (certificate m 0))
unfolding is_wildcard count has_prefix contains to_lower trim_suffix
wildcard_answered_example =
    wildcard_answered sample_keys file_system tt (codes ":80") (codes "d") (codes "m") server
      two_hosts no_files two_hosts_setup set_up_test (codes "x.y" ∷ []) [] (codes "a.b") (codes "w")
      refl refl (ground arith) (ground arith) refl (λ name. name) 0
