-- ===== src/Health.antt =====
-- health.go: the liveness handler and the probe that dials it.
pub mod Probe
mod Tests
use nitrokit.Prelude.{
  ℕ, Bool, true, false, Option, none, some, List, [], ◌∷◌, ◌++◌, if◌then◌else◌, ◌⊎◌, inl, inr, ◌==◌,
}
use nitrokit.Text.{Text, codes}
use nitrokit.HostPort.{split_host_port}
use nitrokit.Http.{Response, set_header, write, status_ok}

unfoldable pub healthz : Response → Response
healthz w = write (codes "ok\n") (set_header "Cache-Control" (codes "no-store") w)

pub data ProbeError : Type 0 where
  bad_address : ProbeError
  request_failed : Text → ProbeError
  bad_status : ℕ → ProbeError

-- The client's Get: the text of its error, or the status of the response.
abbrev pub Client : Type 0
Client = Text → Text ⊎ ℕ

-- `none` is the probe's success.
unfoldable pub health_probe : Client → Text → Option ProbeError
health_probe get addr = elim (split_host_port addr) [
  | none ↦ some bad_address
  | some (host, port) ↦ elim (get (codes "http://127.0.0.1:" ++ port ++ codes "/healthz")) [
    | inl err ↦ some (request_failed err)
    | inr status ↦ if status == status_ok then none else some (bad_status status)
  ]
]
