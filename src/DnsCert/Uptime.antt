-- ===== src/DnsCert/Uptime.antt =====
-- The certificate that a manager serves through an outage of the authority.
use nitrokit.Prelude.{
  ℕ, zero, suc, ◌+◌, ◌*◌, ◌≤◌, ◌<◌, ◌≡◌, refl, sym, ap, arith, Bool, true, false, Option, none,
  some, Bool-cases, ◌++◌, inl, inr, if◌then◌else◌, ltb, ltb_ℤ, pos,
}
use nitrokit.Text.{Text, codes}
use nitrokit.Clock.{Time, sub}
use nitrokit.Result.{Result, ok, err}
use nitrokit.Result.Triple.{Outcome}
use nitrokit.DnsCert.{
  Certificate, DnsCert, Authority, Solver, Host, Keys, FileSystem, hour, renew_before,
  retry_interval, certificate, serves,
}
use nitrokit.DnsCert.Obtain.{obtain, is_fresh, ensure, settle, renew_loop}
use nitrokit.DnsCert.Renewal.{later_than_renewal, not_later}
use nitrokit.DnsCert.Forward.{IsClock}
use nitrokit.DnsCert.Issuing.{IsIssuing, Since, Lasting, obtain-Triple}

no_later_than_renewal :
    (not_after now : Time)
    → ltb_ℤ renew_before (sub not_after now) ≡ false
    → not_after ≤ now + 30 * 24 * hour
unfolding sub
no_later_than_renewal not_after now h = ground arith

certificate_serves :
    {K : Type 0} (m : DnsCert K) (c : Certificate K) (t until : Time)
    → m.cert ≡ some c
    → t ≤ until
    → until ≤ c.not_after
    → certificate m t ≡ serves c
unfolding certificate
certificate_serves m c t until has h valid = rw (has, not_later h valid) refl

module _ {W K : Type 0} (ca : Authority W K) (solver : Solver W) (host : Host W) (keys : Keys W K)
    (fs : FileSystem W) (life : ℕ) where
  -- The pace of the loop: an attempt takes at most `attempt`, as its context has it, a wait what it is
  -- asked for and at most `slack` more, as has the log; and from `recovery` on each attempt succeeds.
  pub record IsPaced (attempt slack : ℕ) (recovery : Time) : Type 0 where
    pub attempts :
        (m : DnsCert K) (w : W)
        → host.now (obtain ca solver host keys fs m w).1 ≤ host.now w + attempt
    pub waits : (n : ℕ) (w : W) → host.now (host.wait (pos n) w).1 ≤ host.now w + n + slack
    pub logs : (what : Text) (w : W) → host.now (host.logf what w) ≤ host.now w + slack
    pub recovers :
        (m : DnsCert K) (w : W)
        → recovery ≤ host.now w
        → (m' : DnsCert K) × ((obtain ca solver host keys fs m w).0 ≡ ok m')

  module _ (clock : IsClock ca solver host keys fs)
      (issuing : IsIssuing ca solver host keys fs life) (attempt slack : ℕ) (recovery : Time)
      (paced : IsPaced attempt slack recovery) (long : 30 * 24 * hour ≤ life)
      (short : 2 * attempt + 12 * hour + 2 * slack ≤ 30 * 24 * hour) where
    -- The manager has a certificate that is valid through the next attempt and the outage.
    abbrev pub Covers : Certificate K → Time → Type 0
    Covers c now =
        (now + attempt ≤ c.not_after) × (recovery + 2 * attempt + hour + 2 * slack ≤ c.not_after)

    abbrev Covered : DnsCert K → W → Type 0
    Covered m w = (c : Certificate K) × (m.cert ≡ some c) × Covers c (host.now w)

    -- After a round that has the loop end or not.
    settled_ok :
        (m m' : DnsCert K) (c : Certificate K) (w : W)
        → m'.cert ≡ some c
        → host.now w + 12 * hour + slack + attempt ≤ c.not_after
        → recovery + 2 * attempt + hour + 2 * slack ≤ c.not_after
        → (let (n, done, w') = settle ca solver host keys fs m (ok m', w) in Covered n w')
    unfolding settle
    settled_ok m m' c w has next enough =
        (c, has, (ground (arith, paced.waits (12 * hour) w, next), enough))

    -- The loop ends at once or waits.
    choice-Covered :
        (m : DnsCert K) (cancelled : Bool) (w : W) (waited : Bool × W)
        → Covered m w
        → Covered m waited.1
        → (let r : DnsCert K × Bool × W =
              if cancelled then (m, true, w) else (m, waited.0, waited.1) in
            Covered r.0 r.2)
    choice-Covered m true w waited now later = now
    choice-Covered m false w waited now later = later

    settled_err :
        (m : DnsCert K) (c : Certificate K) (e : Text) (w : W)
        → m.cert ≡ some c
        → host.now w < recovery + attempt
        → recovery + 2 * attempt + hour + 2 * slack ≤ c.not_after
        → (let (n, done, w') = settle ca solver host keys fs m (err e, w) in Covered n w')
    unfolding settle
    settled_err m c e w has early enough =
        let what = codes "nitrokit: certificate for " ++ m.domain ++ codes ": " ++ e in
        let logged = host.logf what w in
        let at_once : Covered m w = (c, has, (omega arith, enough)) in
        let later : Covered m (host.wait retry_interval logged).1 =
          (c, has, (omega (arith, paced.logs what w, paced.waits hour logged), enough)) in
        choice-Covered m (host.cancelled w) w (host.wait retry_interval logged) at_once later

    -- A round with an attempt.
    attempted :
        (m : DnsCert K) (c : Certificate K) (w : W) (x : Result (DnsCert K) × W)
        → m.cert ≡ some c
        → recovery + 2 * attempt + hour + 2 * slack ≤ c.not_after
        → c.not_after ≤ host.now w + 30 * 24 * hour
        → Outcome
            (λ m' w'. Lasting life (host.now w) m' × Since host (host.now w) w')
            (Since host (host.now w))
            x
        → host.now x.1 ≤ host.now w + attempt
        → (recovery ≤ host.now w → (m' : DnsCert K) × (x.0 ≡ ok m'))
        → (let (n, done, w') = settle ca solver host keys fs m x in Covered n w')
    attempted m c w (ok m', w') has enough stale ((c', has', lasts), since) quick recovers =
        settled_ok m m' c' w' has' (omega arith) (omega arith)
    attempted m c w (err e, w') has enough stale since quick recovers =
        elim (Bool-cases (ltb (host.now w) recovery)) [
          | inl early ↦ settled_err m c e w' has (ground (arith, early)) enough
          | inr late ↦ let (m', q) = recovers (ground (arith, late)) in absurd (ground (arith, q))
        ]

    -- A round, by whether the certificate is fresh.
    either-Covered :
        (m : DnsCert K) (c : Certificate K) (w : W)
        → m.cert ≡ some c
        → Covers c (host.now w)
        → (fresh : Bool) → ltb_ℤ renew_before (sub c.not_after (host.now w)) ≡ fresh
        → (let (n, done, w') =
              settle ca solver host keys fs m
                (if fresh then (ok m, w) else obtain ca solver host keys fs m w) in
            Covered n w')
    either-Covered m c w has (next, enough) true e =
        settled_ok m m c w has (omega (arith, later_than_renewal c.not_after (host.now w) e)) enough
    either-Covered m c w has (next, enough) false e =
        attempted m c w (obtain ca solver host keys fs m w) has enough
          (no_later_than_renewal c.not_after (host.now w) e)
          ((obtain-Triple ca solver host keys fs life clock issuing (host.now w) m).ends w
            (omega arith))
          (paced.attempts m w) (paced.recovers m w)

    is_fresh-eq :
        (m : DnsCert K) (c : Certificate K) (now : Time)
        → m.cert ≡ some c
        → ltb_ℤ renew_before (sub c.not_after now) ≡ is_fresh ca solver host keys fs m now
    unfolding is_fresh
    is_fresh-eq m c now has =
        let served : Option (Certificate K) → Bool =
          λ o. elim o [ none ↦ false | some d ↦ ltb_ℤ renew_before (sub d.not_after now) ] in
        sym (ap served has)

    round-Covered :
        (m : DnsCert K) (w : W)
        → Covered m w
        → (let (n, done, w') =
              settle ca solver host keys fs m (ensure ca solver host keys fs m w) in
            Covered n w')
    unfolding ensure
    round-Covered m w (c, has, covers) =
        either-Covered m c w has covers (is_fresh ca solver host keys fs m (host.now w))
          (is_fresh-eq m c (host.now w) has)

    -- The rounds after the first, if it has not ended the loop.
    rest-Covered :
        (rounds : ℕ) (r : DnsCert K × Bool × W)
        → Covered r.0 r.2
        → ((m : DnsCert K) (w : W)
            → Covered m w
            → (let (n, done, w') = renew_loop ca solver host keys fs rounds m w in Covered n w'))
        → (let n : DnsCert K × Bool × W = elim r.1 [
          | true ↦ (r.0, true, r.2)
          | false ↦ renew_loop ca solver host keys fs rounds r.0 r.2
        ] in
            Covered n.0 n.2)
    rest-Covered rounds (m, true, w) h again = h
    rest-Covered rounds (m, false, w) h again = again m w h

    renew_loop-Covered :
        (rounds : ℕ) (m : DnsCert K) (w : W)
        → Covered m w
        → (let (n, done, w') = renew_loop ca solver host keys fs rounds m w in Covered n w')
    unfolding renew_loop
    renew_loop-Covered zero m w h = h
    renew_loop-Covered (suc rounds) m w h =
        rest-Covered rounds (settle ca solver host keys fs m (ensure ca solver host keys fs m w))
          (round-Covered m w h) (renew_loop-Covered rounds)

    -- A manager that starts with a certificate which outlasts the outage of the authority, by an hour
    -- and two attempts with their delays, serves a certificate that has not expired for ever after:
    -- after any number of rounds it has one, and a handshake at any time until the end of the attempt
    -- that may come next is served it. It is supposed that the calls do not turn the clock back, that
    -- certificates last 30 days and longer from when they are asked for, that attempts and delays are
    -- short against that, and that attempts succeed once the outage has ended.
    pub renew_loop_serves :
        (m : DnsCert K) (c : Certificate K) (w : W)
        → m.cert ≡ some c
        → Covers c (host.now w)
        → (rounds : ℕ)
        → (let (n, done, w') = renew_loop ca solver host keys fs rounds m w in
            (d : Certificate K) × (n.cert ≡ some d)
            × ((t : Time) → t ≤ host.now w' + attempt → certificate n t ≡ serves d))
    renew_loop_serves m c w has covers rounds =
        let (d, has', (valid, enough)) = renew_loop-Covered rounds m w (c, has, covers) in
        (d, has', λ t h. certificate_serves _ d t _ has' h valid)
