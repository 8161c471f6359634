-- ===== src/Dns/Sync.antt =====
-- What SetTXT promises: a record that Route 53 has applied on all its servers, within the time of the
-- context.
use nitrokit.Prelude.{
  Bool-cases, [], ℕ, zero, suc, ◌≡◌, ◌≢◌, ◌⊎◌, inl, inr, refl, ap, arith, Bool, true, false, Option,
  none, some,
}
use nitrokit.Text.{Text, codes, text_beq, text_beq_iff, to_lower, has_prefix}
use nitrokit.Result.{Result, ok, err}
use nitrokit.SigV4.Sign.{
  Request, Primitives, sign_v4, authorization, authorize, signed_headers, collect, is_signed,
}
use nitrokit.Clock.{Time}
use nitrokit.Dict.{insert}
use nitrokit.Dns.{
  typed, Aws, Context, Route53, ChangeInfo, change, poll, polled, submitted, wait_in_sync, set_txt,
  route53_poll_interval,
}

module _ {W : Type 0} (aws : Aws W) (context : Context W) (p : Primitives) (r : Route53) where
  -- The two tests of a round.
  decided :
      (again : W → Option (Result (Unit {0})) × W) (synced ended : Bool) (w v w' : W) (e : Text)
      → (let out : Option (Result (Unit {0})) × W = elim synced [
        | true ↦ (some (ok tt), w)
        | false ↦ elim ended [ true ↦ (some (err e), v) | false ↦ again v ]
      ] in
          out ≡ (some (ok tt), w'))
      → ((synced ≡ true) × (w ≡ w')) ⊎ (again v ≡ (some (ok tt), w'))
  decided again true ended w v w' e h = inl (refl, ap (λ y. y.1) h)
  decided again false true w v w' e h = absurd (ground (arith, ap (λ y. y.0) h))
  decided again false false w v w' e h = inr h

  -- A success comes from this poll or from a later round.
  polled_ok :
      (id : Text) (again : W → Option (Result (Unit {0})) × W) (x : Result ChangeInfo × W) (w' : W)
      → polled aws context p r id again x ≡ (some (ok tt), w')
      → ((info : ChangeInfo) × (x ≡ (ok info, w')) × (info.status ≡ codes "INSYNC"))
        ⊎ ((info : ChangeInfo) × (v : W) × (x ≡ (ok info, v))
            × (again (context.wait route53_poll_interval v).1 ≡ (some (ok tt), w')))
  polled_ok id again (err e, w) w' h = absurd (ground (arith, ap (λ y. y.0) h))
  polled_ok id again (ok info, w) w' h =
      let (ended, v) = context.wait route53_poll_interval w in
      elim (decided again (text_beq info.status (codes "INSYNC")) ended w v w' _ h) [
        | inl (s, q) ↦ inl (info, ap (λ u. (ok info, u)) q, (text_beq_iff info.status _).0 s)
        | inr e ↦ inr (info, w, refl, e)
      ]

  -- From one poll to a later one: each answers, and a wait comes after it.
  pub data Waits (id : Text) : W → W → Type 0 where
    no_wait : (w : W) → Waits id w w
    wait :
        (w v w' : W) (info : ChangeInfo)
        → poll aws context p r id w ≡ (ok info, v)
        → Waits id (context.wait route53_poll_interval v).1 w'
        → Waits id w w'

  -- The last poll of waitInSync, and what comes before it.
  wait_in_sync_ok :
      (polls : ℕ) (id : Text) (w w' : W)
      → wait_in_sync aws context p r polls id w ≡ (some (ok tt), w')
      → (v : W) × (info : ChangeInfo) × Waits id w v
        × (poll aws context p r id v ≡ (ok info, w'))
        × (info.status ≡ codes "INSYNC")
  unfolding wait_in_sync
  wait_in_sync_ok zero id w w' h = absurd (ground (arith, ap (λ y. y.0) h))
  wait_in_sync_ok (suc polls) id w w' h =
      elim (polled_ok id (wait_in_sync aws context p r polls id) (poll aws context p r id w) w' h) [
        | inl (info, e, s) ↦ (w, info, no_wait w, e, s)
        | inr (info, u, polled, e) ↦
            let (v, last, waits, q, s) = wait_in_sync_ok polls id _ w' e in
            (v, last, wait w u v info polled waits, q, s)
      ]

  submitted_ok :
      (polls : ℕ) (x : Result Text × W) (w' : W)
      → submitted aws context p r polls x ≡ (some (ok tt), w')
      → (id : Text) × (w : W) × (x ≡ (ok id, w))
        × (wait_in_sync aws context p r polls id w ≡ (some (ok tt), w'))
  submitted_ok polls (err e, w) w' h = absurd (ground (arith, ap (λ y. y.0) h))
  submitted_ok polls (ok id, w) w' h = (id, w, refl, h)

  -- The whole course of a SetTXT that succeeds.
  pub set_txt-Waits :
      (polls : ℕ) (fqdn value : Text) (w w' : W)
      → set_txt aws context p r polls fqdn value w ≡ (some (ok tt), w')
      → (id : Text) × (w1 v : W) × (info : ChangeInfo) × (change aws context p r
            (codes "UPSERT")
            fqdn
            value
            w
          ≡ (ok id, w1))
        × Waits id w1 v
        × (poll aws context p r id v ≡ (ok info, w'))
        × (info.status ≡ codes "INSYNC")
  unfolding set_txt
  set_txt-Waits polls fqdn value w w' h =
      let (id, w1, e, q) = submitted_ok polls _ w' h in
      let (v, info, waits, e', s) = wait_in_sync_ok polls id w1 w' q in
      (id, w1, v, info, e, waits, e', s)

  -- SetTXT succeeds only after Route 53 has accepted the UPSERT of the record, and then has answered
  -- a poll of that very change, the last call that is made, with the status INSYNC.
  pub set_txt_in_sync :
      (polls : ℕ) (fqdn value : Text) (w w' : W)
      → set_txt aws context p r polls fqdn value w ≡ (some (ok tt), w')
      → (id : Text) × (w1 v : W) × (info : ChangeInfo) × (change aws context p r
            (codes "UPSERT")
            fqdn
            value
            w
          ≡ (ok id, w1))
        × (poll aws context p r id v ≡ (ok info, w'))
        × (info.status ≡ codes "INSYNC")
  set_txt_in_sync polls fqdn value w w' h =
      let (id, w1, v, info, e, waits, e', s) = set_txt-Waits polls fqdn value w w' h in
      (id, w1, v, info, e, e', s)

  -- A poll that fails makes SetTXT fail although Route 53 has accepted the record, and no call comes
  -- after it: the record stays.
  pub set_txt_leaves_record :
      (polls : ℕ) (fqdn value id e : Text) (w w1 w2 : W)
      → change aws context p r (codes "UPSERT") fqdn value w ≡ (ok id, w1)
      → poll aws context p r id w1 ≡ (err e, w2)
      → set_txt aws context p r (suc polls) fqdn value w ≡ (some (err e), w2)
  unfolding set_txt wait_in_sync
  set_txt_leaves_record polls fqdn value id e w w1 w2 h k = rw (h, k) refl

-- The requests of the solver are all signed: none of their headers is without a value.
module _ {W : Type 0} (aws : Aws W) (context : Context W) (p : Primitives) (r : Route53) where
  sign_v4-typed :
      (payload : Option Text) (req : Request) (now : Time) (body : Text)
      → sign_v4 p r.credentials
          (codes "us-east-1")
          (codes "route53")
          now
          (typed aws context p r payload req)
          body
        ≢ none
  unfolding sign_v4 authorization authorize signed_headers collect is_signed insert to_lower
      has_prefix
  sign_v4-typed none req now body = elim (Bool-cases (text_beq r.credentials.session_token [])) [
    | inl e ↦ rw (e, sign_v4) (ground arith)
    | inr e ↦ rw (e, sign_v4) (ground arith)
  ]
  sign_v4-typed (some c) req now body =
      elim (Bool-cases (text_beq r.credentials.session_token [])) [
        | inl e ↦ rw (e, sign_v4) (ground arith)
        | inr e ↦ rw (e, sign_v4) (ground arith)
      ]
