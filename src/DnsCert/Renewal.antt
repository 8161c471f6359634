-- ===== src/DnsCert/Renewal.antt =====
-- When a manager renews, and what it serves until then.
use nitrokit.Prelude.{
  ℕ, ◌+◌, ◌*◌, ◌≤◌, ◌≡◌, refl, sym, ap, ◌∙◌, Bool, true, false, Option, none, some, arith, ltb,
  ltb_ℤ,
}
use nitrokit.Clock.{Time, sub}
use nitrokit.Result.{ok}
use nitrokit.DnsCert.{
  Certificate, DnsCert, Authority, Solver, Host, Keys, FileSystem, hour, renew_before, certificate,
  serves,
}
use nitrokit.DnsCert.Obtain.{is_fresh, ensure}

pub later_than_renewal :
    (not_after now : Time)
    → ltb_ℤ renew_before (sub not_after now) ≡ true
    → now + 30 * 24 * hour ≤ not_after
unfolding sub
later_than_renewal not_after now h = ground arith

pub not_later : {t d not_after : ℕ} → t ≤ d → d ≤ not_after → ltb not_after t ≡ false
not_later h k = ground arith

module _ {W K : Type 0} (ca : Authority W K) (solver : Solver W) (host : Host W) (keys : Keys W K)
    (fs : FileSystem W) where
  -- A manager with a certificate that ensure leaves alone asks nobody and changes nothing; and every
  -- handshake of the 30 days from then on is served that certificate.
  pub ensure_fresh :
      (m : DnsCert K) (c : Certificate K) (w : W)
      → m.cert ≡ some c
      → is_fresh ca solver host keys fs m (host.now w) ≡ true
      → (ensure ca solver host keys fs m w ≡ (ok m, w))
        × ((t : Time) → t ≤ host.now w + 30 * 24 * hour → certificate m t ≡ serves c)
  unfolding ensure is_fresh certificate
  ensure_fresh m c w has fresh =
      let served : Option (Certificate K) → Bool =
        λ o. elim o [ none ↦ false | some d ↦ ltb_ℤ renew_before (sub d.not_after (host.now w)) ] in
      let enough : host.now w + 30 * 24 * hour ≤ c.not_after =
        later_than_renewal c.not_after (host.now w) (sym (ap served has) ∙ fresh) in
      (rw fresh refl, λ t h. rw (has, not_later h enough) refl)
