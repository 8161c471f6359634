-- ===== src/DnsCert/Obtain.antt =====
-- One ACME order from the account to the certificate, and the loop that keeps it renewed.
use nitrokit.Prelude.{
  ℕ, zero, suc, Bool, true, false, Option, none, some, List, [], ◌∷◌, ◌++◌, if◌then◌else◌, ltb_ℤ,
}
use nitrokit.Text.{Text, codes, text_beq}
use nitrokit.Clock.{sub, Time}
use nitrokit.Result.{Result, ok, err, Io, ◌>>=◌, ◌>>◌, return, fail, pure, wrapped, deferred}
use nitrokit.DnsCert.{
  DnsCert, renew_before, renew_interval, retry_interval, Solver, Registered, registered,
  account_exists, refused, Challenge, Authorization, Client, Authority, Keys, FileSystem, Host,
}
use nitrokit.DnsCert.Store.{store, account_key}

-- The first challenge of type dns-01.
unfoldable pub find_dns01 : List Challenge → Option Challenge
find_dns01 [] = none
find_dns01 (c ∷ cs) = if text_beq c.kind (codes "dns-01") then some c else find_dns01 cs

module _ {W K : Type 0} (ca : Authority W K) (solver : Solver W) (host : Host W) where
  abbrev pub log_failure : Text → Result (Unit {0}) × W → W
  log_failure what (ok u, w) = w
  log_failure what (err e, w) = host.logf (what ++ e) w

  -- The deferred removal of a record; its failure is only logged.
  unfoldable pub cleanup : Text → Text → W → W
  cleanup fqdn value w =
      log_failure (codes "nitrokit: cleanup TXT " ++ fqdn ++ codes ": ")
        (solver.cleanup_txt fqdn value w)

  -- From the record's placing on.
  unfoldable pub answer_challenge : Client K → Text → Challenge → Text → Text → Io W (Unit {0})
  unfolding cleanup
  answer_challenge client zurl chal fqdn value = do
    wrapped (codes "set TXT " ++ fqdn) (solver.set_txt fqdn value)
    deferred (cleanup fqdn value) (do
      wrapped (codes "accept challenge") (ca.accept client chal)
      wrapped (codes "validate " ++ fqdn) (ca.wait_authorization client zurl))

  -- With the challenge that was found, if any.
  unfoldable pub solve_with :
      Client K → Text → Text → Authorization → Option Challenge → Io W (Unit {0})
  unfolding answer_challenge
  solve_with client domain zurl authz none =
      fail (domain ++ codes ": certificate authority offered no dns-01 challenge")
  solve_with client domain zurl authz (some chal) = do
    value ← pure (ca.dns01_record client chal.token)
    answer_challenge client zurl chal (codes "_acme-challenge." ++ authz.identifier) value

  unfoldable pub solve_authorization : Client K → Text → Text → Io W (Unit {0})
  unfolding solve_with find_dns01
  solve_authorization client domain zurl = do
    authz ← wrapped (codes "authorization") (ca.get_authorization client zurl)
    (if authz.status_valid
        then return tt
        else solve_with client domain zurl authz (find_dns01 authz.challenges))

  -- The loop over the authorizations, one at a time.
  unfoldable pub solve_all : Client K → Text → List Text → Io W (Unit {0})
  unfolding solve_authorization
  solve_all client domain [] = return tt
  solve_all client domain (zurl ∷ zurls) = do
    solve_authorization client domain zurl
    solve_all client domain zurls

  module _ (keys : Keys W K) (fs : FileSystem W) where
    abbrev pub registration : Client K → Registered × W → Result (Client K) × W
    registration client (registered, w) = (ok client, w)
    registration client (account_exists, w) = (ok client, w)
    registration client (refused e, w) = (err (codes "register: " ++ e), w)

    unfoldable pub acme_client : DnsCert K → Io W (Client K)
    acme_client m = do
      key ← account_key keys fs m
      let client : Client K = record { key = key; directory_url = m.directory_url }
      let contact = if text_beq m.email [] then [] else (codes "mailto:" ++ m.email) ∷ []
      λ w. registration client (ca.register client contact w)

    -- The manager with its new certificate; on an error it stays as it is.
    unfoldable pub obtain : DnsCert K → Io W (DnsCert K)
    unfolding acme_client solve_all
    obtain m = do
      client ← acme_client m
      order ← wrapped (codes "order") (ca.authorize_order client m.domain)
      solve_all client m.domain order.authz_urls
      cert_key ← keys.generate_key
      csr ← keys.create_request m.domain cert_key
      chain ← wrapped (codes "finalize") (ca.create_order_cert client order.finalize_url csr)
      not_after ← pure (keys.parse_certificate chain.first)
      store keys fs m cert_key chain
      return (record m {
        cert = some (record { chain = chain; key = cert_key; not_after = not_after });
      })

    -- Whether the certificate has more than the last third of its life before it.
    unfoldable pub is_fresh : DnsCert K → Time → Bool
    is_fresh m now = elim m.cert [
      | none ↦ false
      | some c ↦ ltb_ℤ renew_before (sub c.not_after now)
    ]

    unfoldable pub ensure : DnsCert K → Io W (DnsCert K)
    unfolding is_fresh obtain
    ensure m w = if is_fresh m (host.now w) then (ok m, w) else obtain m w

    -- What a round of the loop leaves: the manager, whether the loop ends, and the wait before the
    -- next round.
    unfoldable pub settle : DnsCert K → Result (DnsCert K) × W → DnsCert K × Bool × W
    settle m (ok m', w) = let (done, w') = host.wait renew_interval w in (m', done, w')
    settle m (err e, w) =
        let logged =
          host.logf (codes "nitrokit: certificate for " ++ m.domain ++ codes ": " ++ e) w in
        let (done, w') = host.wait retry_interval logged in
        if host.cancelled w then (m, true, w) else (m, done, w')

    -- renewLoop for a number of rounds at most: true if it has returned.
    unfoldable pub renew_loop : ℕ → DnsCert K → W → DnsCert K × Bool × W
    unfolding ensure settle
    renew_loop zero m w = (m, false, w)
    renew_loop (suc rounds) m w =
        let (m', done, w') = settle m (ensure m w) in
        elim done [ true ↦ (m', true, w') | false ↦ renew_loop rounds m' w' ]
