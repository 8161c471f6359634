-- ===== src/DnsCert/Issuing.antt =====
-- How long a certificate lasts that an attempt has obtained.
use nitrokit.Prelude.{ℕ, ◌+◌, ◌≤◌, ◌≡◌, refl, arith, some}
use nitrokit.Text.{Text, codes}
use nitrokit.Clock.{Time}
use nitrokit.Result.{Result, ok, err, Io, ◌>>=◌, ◌>>◌, pure, return, wrapped, wrap}
use nitrokit.Result.Triple.{
  Triple, Triple-pure, Triple->>=, Triple-call, Triple-given, Triple-map, Triple-return,
}
use nitrokit.DnsCert.{
  Chain, Certificate, DnsCert, Authority, Solver, Host, Keys, FileSystem, Client,
}
use nitrokit.DnsCert.Store.{store}
use nitrokit.DnsCert.Obtain.{obtain}
use nitrokit.Result.Forward.{IsForward, IsForward-wrapped}
use nitrokit.DnsCert.Forward.{IsClock, solve_all-IsForward, acme_client-IsForward, store-IsForward}

wrap-eq-ok : {A : Type 0} (what : Text) (r : Result A) (a : A) → wrap what r ≡ ok a → r ≡ ok a
wrap-eq-ok what (ok b) a h = h
wrap-eq-ok what (err e) a h = absurd (ground (arith, h))

abbrev pub Since : {W : Type 0} → Host W → Time → W → Type 0
Since host t w = t ≤ host.now w

-- The manager has a certificate that lasts.
abbrev pub Lasting : {K : Type 0} → ℕ → Time → DnsCert K → Type 0
Lasting {K} life t m = (c : Certificate K) × (m.cert ≡ some c) × (t + life ≤ c.not_after)

module _ {W K : Type 0} (ca : Authority W K) (solver : Solver W) (host : Host W) (keys : Keys W K)
    (fs : FileSystem W) (life : ℕ) where
  -- A certificate that is issued is valid for `life` from when it was asked for.
  pub record IsIssuing : Type 0 where
    pub lasts :
        (client : Client K) (url csr : Text) (w : W) (chain : Chain) (not_after : Time)
        → (ca.create_order_cert client url csr w).0 ≡ ok chain
        → keys.parse_certificate chain.first ≡ ok not_after
        → host.now w + life ≤ not_after

  module _ (clock : IsClock ca solver host keys fs) (issuing : IsIssuing) where
    module _ (t : Time) where
      since_trans : {a b : Time} → t ≤ a → a ≤ b → t ≤ b
      since_trans h k = ground arith

      moves-Triple :
          {A : Type 0} {m : Io W A}
          → IsForward host.now m
          → Triple (Since host t) m (λ a. (Since host t)) (Since host t)
      moves-Triple h =
          Triple-call (λ w a p e. since_trans p (h.grows w)) (λ w a p e. since_trans p (h.grows w))

      issue-Triple :
          (client : Client K) (url csr : Text)
          → Triple
              (Since host t)
              (wrapped (codes "finalize") (ca.create_order_cert client url csr))
              (λ chain w.
                ((n : Time) → keys.parse_certificate chain.first ≡ ok n → t + life ≤ n)
                × Since host t w)
              (Since host t)
      unfolding wrapped
      issue-Triple client url csr =
          let moves = clock.create_order_cert client url csr in
          Triple-call
            (λ w chain p e.
              let issued =
                wrap-eq-ok (codes "finalize") (ca.create_order_cert client url csr w).0 chain e in
              (
                λ n q. ground (arith, p, issuing.lasts client url csr w chain n issued q),
                since_trans p (moves.grows w),
              ))
            (λ w e p q. since_trans p (moves.grows w))

      -- From the parsing of the certificate on.
      finished-Triple :
          (m : DnsCert K) (cert_key : K) (chain : Chain)
          → ((n : Time) → keys.parse_certificate chain.first ≡ ok n → t + life ≤ n)
          → Triple
              (Since host t)
              (do
                not_after ← pure (keys.parse_certificate chain.first)
                store keys fs m cert_key chain
                return (record m {
                  cert = some (record { chain = chain; key = cert_key; not_after = not_after });
                }))
              (λ m' w. Lasting life t m' × Since host t w)
              (Since host t)
      finished-Triple m cert_key chain lasts =
          Triple->>= (Triple-pure (keys.parse_certificate chain.first) (λ w p. p)) (λ not_after.
            Triple-given (λ e.
              Triple->>=
                (moves-Triple (store-IsForward ca solver host keys fs clock m cert_key chain))
                (λ u.
                  Triple-map (λ w p. ((_, refl, lasts not_after e), p)) (λ a w q. q) (λ w q. q)
                    (Triple-return _))))

      pub obtain-Triple :
          (m : DnsCert K)
          → Triple
              (Since host t)
              (obtain ca solver host keys fs m)
              (λ m' w. Lasting life t m' × Since host t w)
              (Since host t)
      unfolding obtain
      obtain-Triple m =
          Triple->>= (moves-Triple (acme_client-IsForward ca solver host keys fs clock m))
            (λ client.
              Triple->>=
                (moves-Triple (
                  IsForward-wrapped host.now (codes "order")
                    (clock.authorize_order client m.domain)))
                (λ order.
                  Triple->>=
                    (moves-Triple (
                      solve_all-IsForward ca solver host keys fs clock client m.domain
                        order.authz_urls))
                    (λ u. Triple->>= (moves-Triple clock.generate_key) (λ cert_key.
                      Triple->>= (moves-Triple (clock.create_request m.domain cert_key)) (λ csr.
                        Triple->>= (issue-Triple client order.finalize_url csr)
                          (λ chain. Triple-given (finished-Triple m cert_key chain)))))))
