-- ===== src/DnsCert/Propagation.antt =====
-- The manager with the Route 53 solver: when the authority is asked to look for the record.
use nitrokit.Prelude.{
  Bool, ℕ, zero, suc, ◌≡◌, ◌≢◌, refl, sym, ap, Bool-cases, Option-cases, ◌∙◌, arith, true, false,
  Option, none, some, List, [], ◌∷◌, ◌++◌, inl, inr, if◌then◌else◌,
}
use mathlib.Core.List.{Memᴰ}
use nitrokit.Text.{Text, codes, text_beq, text_beq_iff}
use nitrokit.Result.{
  Result, ok, err, Io, and_then, ◌>>=◌, ◌>>◌, return, pure, wrapped, wrap, deferred, Result-cases,
}
use nitrokit.SigV4.Sign.{Primitives}
use nitrokit.Dns.{Aws, Context, Route53, ChangeInfo, change, poll, set_txt, cleanup_txt}
use nitrokit.Dns.Sync.{Waits, set_txt-Waits}
use nitrokit.Dns.Timing.{IsTimed, set_txt_returns}
use nitrokit.DnsCert.{
  DnsCert, Solver, Challenge, Authorization, Client, Authority, Keys, FileSystem, Host,
}
use nitrokit.DnsCert.Store.{store}
use nitrokit.DnsCert.Obtain.{
  find_dns01, cleanup, answer_challenge, solve_with, solve_authorization, solve_all, acme_client,
  obtain, ensure, is_fresh, settle, renew_loop,
}

-- Only what is done after a success matters.
after_ok :
    {W : Type 0} (what : Text) (x : Result (Unit {0}) × W) (k k' : Io W (Unit {0}))
    → ((w : W) → x ≡ (ok tt, w) → k' w ≡ k w)
    → and_then (wrap what x.0, x.1) (λ u. k') ≡ and_then (wrap what x.0, x.1) (λ u. k)
after_ok what (ok u, w) k k' h = h w refl
after_ok what (err e, w) k k' h = refl

if_same :
    {W : Type 0} (b : Bool) (m k k' : Io W (Unit {0})) (w : W)
    → k' w ≡ k w
    → (if b then m else k') w ≡ (if b then m else k) w
if_same true m k k' w h = refl
if_same false m k k' w h = h

-- The challenge that is found is offered, and of type dns-01.
find_dns01_lem :
    (cs : List Challenge) (chal : Challenge)
    → find_dns01 cs ≡ some chal
    → Memᴰ chal cs × (chal.kind ≡ codes "dns-01")
unfolding find_dns01
find_dns01_lem [] chal h = absurd (ground (arith, h))
find_dns01_lem (c ∷ cs) chal h = elim (Bool-cases (text_beq c.kind (codes "dns-01"))) [
  | inl e ↦
      let eq : c ≡ chal = ground (arith, e, h) in
      (Memᴰ.head (sym eq), ap (λ x. x.kind) (sym eq) ∙ (text_beq_iff c.kind (codes "dns-01")).0 e)
  | inr e ↦ let (m, k) = find_dns01_lem cs chal (ground (arith, e, h)) in (Memᴰ.tail m, k)
]

-- From the acceptance on.
module _ {W K : Type 0} (ca : Authority W K) (solver : Solver W) (host : Host W) where
  abbrev accepted : Client K → Text → Challenge → Text → Text → Io W (Unit {0})
  accepted client zurl chal fqdn value = deferred (cleanup ca solver host fqdn value) (do
    wrapped (codes "accept challenge") (ca.accept client chal)
    wrapped (codes "validate " ++ fqdn) (ca.wait_authorization client zurl))

module _ {W : Type 0} (aws : Aws W) (context : Context W) (p : Primitives) (r : Route53) where
  -- Route53 as a DNSSolver whose calls return.
  pub record IsRoute53 (solver : Solver W) : Type 0 where
    pub sets :
        (fqdn value : Text) (w : W)
        → (polls : ℕ) × (set_txt aws context p r polls fqdn value w
            ≡ (some (solver.set_txt fqdn value w).0, (solver.set_txt fqdn value w).1))
    pub cleans :
        (fqdn value : Text) (w : W)
        → solver.cleanup_txt fqdn value w ≡ cleanup_txt aws context p r fqdn value w

  -- How a world has come about from an earlier one: Route 53 was given a record of this name and value
  -- at once, as a change; this change was polled and waited for; and the last answer, with which the
  -- later world begins, is that it is in sync.
  abbrev pub InSync : Text → Text → W → W → Type 0
  InSync fqdn value before w =
      (id : Text) × (w1 v : W) × (info : ChangeInfo) × (change aws context p r (codes "UPSERT") fqdn
          value before
        ≡ (ok id, w1))
      × Waits aws context p r id w1 v
      × (poll aws context p r id v ≡ (ok info, w))
      × (info.status ≡ codes "INSYNC")

  IsRoute53-InSync :
      (solver : Solver W)
      → IsRoute53 solver
      → (fqdn value : Text) (w w' : W) → solver.set_txt fqdn value w ≡ (ok tt, w')
      → InSync fqdn value w w'
  IsRoute53-InSync solver is_route53 fqdn value w w' h =
      let (polls, e) = is_route53.sets fqdn value w in
      set_txt-Waits aws context p r polls fqdn value w w' (e ∙ ap (λ x. (some x.0, x.1)) h)

  -- A moment for the acceptance of a challenge: the authority has given an authorization that offers
  -- it, as a dns-01 challenge, and from there on the record of that challenge, under the identifier of
  -- that authorization, has been brought in sync.
  abbrev pub Propagated : {K : Type 0} → Authority W K → Client K → Challenge → W → Type 0
  Propagated ca client chal w =
      (zurl : Text) × (w0 before : W) × (authz : Authorization) × (value : Text)
      × (ca.get_authorization client zurl w0 ≡ (ok authz, before))
      × Memᴰ chal authz.challenges
      × (chal.kind ≡ codes "dns-01")
      × (ca.dns01_record client chal.token ≡ ok value)
      × InSync (codes "_acme-challenge." ++ authz.identifier) value before w

  module _ {K : Type 0} (solver : Solver W) (is_route53 : IsRoute53 solver) (ca : Authority W K)
      (accept' : Client K → Challenge → Io W (Unit {0})) (host : Host W) (keys : Keys W K)
      (fs : FileSystem W)
      (agree : (client : Client K) (chal : Challenge) (w : W)
        → Propagated ca client chal w
        → accept' client chal w ≡ ca.accept client chal w) where
    abbrev ca' : Authority W K
    ca' = record ca { accept = accept' }

    answer_challenge_same :
        (client : Client K) (zurl : Text) (chal : Challenge) (fqdn value : Text) (w : W)
        → ((v : W) → InSync fqdn value w v → Propagated ca client chal v)
        → answer_challenge ca' solver host client zurl chal fqdn value w
          ≡ answer_challenge ca solver host client zurl chal fqdn value w
    unfolding answer_challenge ◌>>=◌ wrapped deferred cleanup
    answer_challenge_same client zurl chal fqdn value w due =
        after_ok (codes "set TXT " ++ fqdn) (solver.set_txt fqdn value w)
          (accepted ca solver host client zurl chal fqdn value)
          (accepted ca' solver host client zurl chal fqdn value)
          (λ v h.
            rw (agree client chal v (due v (IsRoute53-InSync solver is_route53 fqdn value w v h)))
              refl)

    no_challenge_same :
        (client : Client K) (domain zurl : Text) (authz : Authorization) (w : W)
        → solve_with ca' solver host client domain zurl authz none w
          ≡ solve_with ca solver host client domain zurl authz none w
    unfolding solve_with
    no_challenge_same client domain zurl authz w = refl

    with_challenge_same :
        (client : Client K) (domain zurl : Text) (authz : Authorization) (chal : Challenge) (w : W)
        → ((value : Text)
            → ca.dns01_record client chal.token ≡ ok value
            → (v : W) → InSync (codes "_acme-challenge." ++ authz.identifier) value w v
            → Propagated ca client chal v)
        → solve_with ca' solver host client domain zurl authz (some chal) w
          ≡ solve_with ca solver host client domain zurl authz (some chal) w
    unfolding solve_with ◌>>=◌ pure
    with_challenge_same client domain zurl authz chal w due =
        elim (Result-cases (ca.dns01_record client chal.token)) [
          | inl (value, e) ↦ rw e (
              answer_challenge_same client zurl chal (codes "_acme-challenge." ++ authz.identifier)
                value w (due value e))
          | inr (f, e) ↦ rw e refl
        ]

    solve_with_same :
        (client : Client K) (domain zurl : Text) (authz : Authorization) (w0 w : W)
        → ca.get_authorization client zurl w0 ≡ (ok authz, w)
        → solve_with ca' solver host client domain zurl authz (find_dns01 authz.challenges) w
          ≡ solve_with ca solver host client domain zurl authz (find_dns01 authz.challenges) w
    solve_with_same client domain zurl authz w0 w got =
        elim (Option-cases (find_dns01 authz.challenges)) [
          | inl e ↦ rw e (no_challenge_same client domain zurl authz w)
          | inr (chal, e) ↦
              let (there, kind) = find_dns01_lem authz.challenges chal e in
              rw e (
                with_challenge_same client domain zurl authz chal w
                  (λ value q v in_sync. (zurl, w0, w, authz, value, got, there, kind, q, in_sync)))
        ]

    -- With what the authority has answered.
    authorized_same :
        (client : Client K) (domain zurl : Text) (w0 : W) (x : Result Authorization × W)
        → ca.get_authorization client zurl w0 ≡ x
        → and_then
            (wrap (codes "authorization") x.0, x.1)
            (λ authz.
              if authz.status_valid
              then return tt
              else solve_with ca' solver host client domain zurl authz
                  (find_dns01 authz.challenges))
          ≡ and_then
              (wrap (codes "authorization") x.0, x.1)
              (λ authz.
                if authz.status_valid
                then return tt
                else solve_with ca solver host client domain zurl authz
                    (find_dns01 authz.challenges))
    authorized_same client domain zurl w0 (err e, w) got = refl
    authorized_same client domain zurl w0 (ok authz, w) got =
        if_same authz.status_valid (return tt)
          (solve_with ca solver host client domain zurl authz (find_dns01 authz.challenges))
          (solve_with ca' solver host client domain zurl authz (find_dns01 authz.challenges)) w
          (solve_with_same client domain zurl authz w0 w got)

    solve_authorization_same :
        (client : Client K) (domain zurl : Text) (w : W)
        → solve_authorization ca' solver host client domain zurl w
          ≡ solve_authorization ca solver host client domain zurl w
    unfolding solve_authorization ◌>>=◌ wrapped
    solve_authorization_same client domain zurl w =
        authorized_same client domain zurl w (ca.get_authorization client zurl w) refl

    solve_all_same :
        (client : Client K) (domain : Text) (zurls : List Text)
        → solve_all ca' solver host client domain zurls
          ≡ solve_all ca solver host client domain zurls
    unfolding solve_all
    solve_all_same client domain [] = refl
    solve_all_same client domain (zurl ∷ zurls) = λ i.
        ((λ w. solve_authorization_same client domain zurl w i) >>= λ u.
        solve_all_same client domain zurls i)

    obtain_same :
        (m : DnsCert K) → obtain ca' solver host keys fs m ≡ obtain ca solver host keys fs m
    unfolding obtain acme_client
    obtain_same m i = do
      client ← acme_client ca solver host keys fs m
      order ← wrapped (codes "order") (ca.authorize_order client m.domain)
      solve_all_same client m.domain order.authz_urls i
      cert_key ← keys.generate_key
      csr ← keys.create_request m.domain cert_key
      chain ← wrapped (codes "finalize") (ca.create_order_cert client order.finalize_url csr)
      not_after ← pure (keys.parse_certificate chain.first)
      store keys fs m cert_key chain
      return (record m {
        cert = some (record { chain = chain; key = cert_key; not_after = not_after });
      })

    ensure_same :
        (m : DnsCert K) (w : W)
        → ensure ca' solver host keys fs m w ≡ ensure ca solver host keys fs m w
    unfolding ensure is_fresh
    ensure_same m w i =
        if is_fresh ca solver host keys fs m (host.now w) then (ok m, w) else obtain_same m i w

    -- With the Route 53 solver, each of whose calls returns, the loop accepts a challenge only at such a
    -- moment: the authority has given an authorization that offers this challenge for dns-01; the loop
    -- has then, as the next thing, given Route 53 the record of this challenge, under the identifier of
    -- this authorization; and Route 53, asked for this change from then on, has just answered that it
    -- is on all its servers. For an authority whose acceptance differs at any other moment makes no
    -- difference to what the loop does.
    pub renew_loop_in_sync :
        (rounds : ℕ) (m : DnsCert K) (w : W)
        → renew_loop ca' solver host keys fs rounds m w
          ≡ renew_loop ca solver host keys fs rounds m w
    unfolding renew_loop settle
    renew_loop_in_sync zero m w i = (m, false, w)
    renew_loop_in_sync (suc rounds) m w i =
        let (m', done, w') = settle ca solver host keys fs m (ensure_same m w i) in
        elim done [ true ↦ (m', true, w') | false ↦ renew_loop_in_sync rounds m' w' i ]

-- With polls enough for the waits that the context allows.
module _ {W : Type 0} (aws : Aws W) (context : Context W) (p : Primitives) (r : Route53)
    (left : W → ℕ) where
  abbrev returned : Option (Result (Unit {0})) × W → Result (Unit {0}) × W
  returned (some res, w) = (res, w)
  returned (none, w) = (err [], w)

  abbrev pub route53_solver : Solver W
  route53_solver = record {
    set_txt = λ fqdn value w. returned (set_txt aws context p r (suc (left w)) fqdn value w);
    cleanup_txt = cleanup_txt aws context p r;
  }

  returned-some :
      (o : Option (Result (Unit {0})) × W) → o.0 ≢ none → o ≡ (some (returned o).0, (returned o).1)
  returned-some (none, w) h = absurd (h refl)
  returned-some (some res, w) h = refl

  pub route53_solver-IsRoute53 : IsTimed aws context left → IsRoute53 aws context p r route53_solver
  route53_solver-IsRoute53 timed = record {
    sets = λ fqdn value w. (
      suc (left w),
      returned-some (set_txt aws context p r (suc (left w)) fqdn value w)
          (set_txt_returns aws context p r left timed (suc (left w)) fqdn value w (omega arith)),
    );
    cleans = λ fqdn value w. refl;
  }
