-- ===== src/Health/Probe.antt =====
-- What the probe asks for, and what it makes of the answer.
use nitrokit.Prelude.{
  ℕ, ◌≡◌, ◌≢◌, refl, ◌↔◌, false, ◌||◌, none, some, [], ◌∷◌, ◌++◌, if◌then◌else◌, ◌⊎◌, inl, inr,
  ◌==◌, arith, All,
}
use nitrokit.Text.{Text, codes, cut_last, has_byte}
use nitrokit.HostPort.{split_host_port}
use nitrokit.Http.{Response, status_ok, final_status, IsFresh, set_header, write, write_header}
use nitrokit.Health.{healthz, Client, health_probe, request_failed, bad_status}

-- A host or a port without the bytes that net.SplitHostPort reads.
abbrev pub IsPlain : Text → Type 0
IsPlain = All (λ c. (c ≢ b':') × (c ≢ b'[') × (c ≢ b']'))

cut_last-plain : (s : Text) → IsPlain s → cut_last b':' s ≡ none
unfolding cut_last
cut_last-plain [] h = refl
cut_last-plain (c ∷ s) ((p, q, r), h) = rw (cut_last-plain s h) (ground arith)

cut_last-colon :
    (host port : Text) → IsPlain port → cut_last b':' (host ++ b':' ∷ port) ≡ some (host, port)
unfolding cut_last
cut_last-colon [] port h = rw (cut_last-plain port h) refl
cut_last-colon (c ∷ host) port h = rw (cut_last-colon host port h) refl

has_byte-append : (c : ℕ) (s t : Text) → has_byte c (s ++ t) ≡ (has_byte c s || has_byte c t)
unfolding has_byte
has_byte-append c [] t = refl
has_byte-append c (d ∷ s) t = ground (arith, has_byte-append c s t)

-- None of the three bytes is in a plain text.
has_byte-plain :
    (s : Text)
    → IsPlain s
    → (has_byte b':' s ≡ false) × (has_byte b'[' s ≡ false) × (has_byte b']' s ≡ false)
unfolding has_byte
has_byte-plain [] h = (refl, refl, refl)
has_byte-plain (c ∷ s) ((p, q, r), h) = ground (arith, has_byte-plain s h)

-- Neither bracket is in a host and a port around a colon.
no_bracket :
    (host port : Text)
    → IsPlain host
    → IsPlain port
    → (has_byte b'[' (host ++ b':' ∷ port) ≡ false) × (has_byte b']' (host ++ b':' ∷ port) ≡ false)
unfolding has_byte
no_bracket host port h k =
    let (a, b, c) = has_byte-plain host h in
    let (d, e, f) = has_byte-plain port k in
    (
      ground (arith, has_byte-append b'[' host (b':' ∷ port)),
      ground (arith, has_byte-append b']' host (b':' ∷ port)),
    )

-- The status that Healthz sends.
healthz-status : (w : Response) → IsFresh w → final_status (healthz w) ≡ status_ok
unfolding healthz write set_header write_header
healthz-status w (fresh, empty) = ground arith

-- The probe's reading of an answer.
answer_lem :
    (x : Text ⊎ ℕ) (s : ℕ)
    → s ≡ status_ok
    → ((elim x [
      | inl err ↦ some (request_failed err)
      | inr status ↦ if status == status_ok then none else some (bad_status status)
    ])
        ≡ none)
      ↔ (x ≡ inr s)
answer_lem (inl err) s e = ground arith
answer_lem (inr status) s e = ground arith

-- A host, which may be empty, and a port are split at the colon between them.
split_host_port-plain :
    (host port : Text)
    → IsPlain host
    → IsPlain port
    → split_host_port (host ++ b':' ∷ port) ≡ some (host, port)
unfolding split_host_port
split_host_port-plain [] port h k =
    let (a, b) = no_bracket [] port h k in
    let at : cut_last b':' (b':' ∷ port) ≡ some ([], port) = cut_last-colon [] port k in
    let (d, e, f) = has_byte-plain [] h in ground (arith, at, a, b, d)
split_host_port-plain (c ∷ host) port ((p, q, r), h) k =
    let (a, b) = no_bracket (c ∷ host) port ((p, q, r), h) k in
    let (d, e, f) = has_byte-plain (c ∷ host) ((p, q, r), h) in
    let no : (c == b'[') ≡ false = ground arith in
    let at : cut_last b':' (c ∷ host ++ b':' ∷ port) ≡ some (c ∷ host, port) =
      cut_last-colon (c ∷ host) port k in
    ground (arith, no, at, a, b, d)

-- For a listen address of a host, which may be empty, and a port, neither with a colon or bracket,
-- the probe succeeds exactly if loopback's /healthz on that port answers with the status of
-- `Healthz` on a fresh response.
pub health_probe_lem :
    (get : Client) (host port : Text) (w : Response)
    → IsPlain host
    → IsPlain port
    → IsFresh w
    → (health_probe get (host ++ b':' ∷ port) ≡ none) ↔ (
        get (codes "http://127.0.0.1:" ++ port ++ codes "/healthz")
        ≡ inr (final_status (healthz w)))
unfolding health_probe
health_probe_lem get host port w h k fresh =
    rw (health_probe, split_host_port-plain host port h k)
      (answer_lem (get (codes "http://127.0.0.1:" ++ port ++ codes "/healthz"))
        (final_status (healthz w)) (healthz-status w fresh))
