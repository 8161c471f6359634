-- ===== src/Health/Tests.antt =====
-- The probe on concrete clients, and the theorem at one.
use nitrokit.Prelude.{◌≡◌, ◌↔◌, inl, inr, refl, none, some, [], arith, if◌then◌else◌}
use nitrokit.Text.{codes, text_beq, cut, cut_last, has_byte}
use nitrokit.HostPort.{split_host_port}
use nitrokit.Http.{Response, final_status}
use nitrokit.Health.{healthz, bad_address, request_failed, bad_status, Client, health_probe}
use nitrokit.Health.Probe.{health_probe_lem}

code : Unit {0}
unfolding health_probe split_host_port cut cut_last has_byte
code = tt

-- A server on port 8080 of loopback.
abbrev client : Client
client url =
    if text_beq url (codes "http://127.0.0.1:8080/healthz") then inr 200 else inl (codes "refused")

health_probe_tests :
    (health_probe client (codes "0.0.0.0:8080") ≡ none)
    × (health_probe client (codes "[::]:8080") ≡ none)
    × (health_probe client (codes ":80") ≡ some (request_failed (codes "refused")))
    × (health_probe (λ url. inr 503) (codes ":80") ≡ some (bad_status 503))
    × (health_probe client (codes "8080") ≡ some bad_address)
unfolding code
health_probe_tests = (refl, refl, refl, refl, refl)

abbrev fresh : Response
fresh = record { header = []; sent = none; body = [] }

health_probe_lem_test :
    (health_probe client (codes ":8080") ≡ none)
    ↔ (client (codes "http://127.0.0.1:8080/healthz") ≡ inr (final_status (healthz fresh)))
health_probe_lem_test =
    health_probe_lem client [] (codes "8080") fresh tt (ground arith) (refl, refl)
