-- ===== src/DnsCert/Tests.antt =====
-- Tests of the manager and its theorems at concrete worlds.
use nitrokit.Prelude.{
  ℕ, zero, suc, sym, ap, ◌∙◌, subst, arith, ◌+◌, ◌*◌, ◌≡◌, ◌≢◌, ◌≤◌, ◌↔◌, ◌⊎◌, refl, All, true,
  none, some, [], ◌∷◌, ◌++◌,
}
use nitrokit.Text.{cut, Text, codes, to_lower, trim_suffix, trim_prefix, replace_all}
use nitrokit.Text.Split.{NoByte}
use nitrokit.Clock.{Time, sub}
use nitrokit.Result.{Io, fail, err, Result, ok, return, ◌>>=◌, pure, wrapped, deferred}
use nitrokit.DnsCert.{DnsCert, Certificate, hour, certificate, serves, matches, Keys}
use nitrokit.DnsCert.Store.{account_key, cert_path, cert_data, store, certificate_of, new_dns_cert}
use nitrokit.DnsCert.Obtain.{obtain, is_fresh, ensure, renew_loop}
use nitrokit.DnsCert.Recorded.{
  Paired, recording, beside_authority, beside_keys, beside_files, beside_host,
}
use nitrokit.DnsCert.Names.{matches_lower_case, matches_iff}
use nitrokit.DnsCert.Removal.{renew_loop-Paired}
use nitrokit.DnsCert.Reading.{certificate_of_ends}
use nitrokit.DnsCert.Crash.{Logged, logged_files, store_survives_crash}
use nitrokit.DnsCert.Restart.{obtain-restart}
use nitrokit.DnsCert.Renewal.{ensure_fresh}
use nitrokit.Dns.{ChangeInfo}
use nitrokit.Dns.Sample.{
  answering, context, primitives, zone, answering-IsTimed, status_at, poll-answering,
}
use nitrokit.DnsCert.Propagation.{
  Propagated, route53_solver, route53_solver-IsRoute53, renew_loop_in_sync,
}
use nitrokit.DnsCert.{Authority, Client, Challenge}
use nitrokit.DnsCert.Sample.{
  Files, file_system, file_system-IsFileSystem, sample_keys, sample_keys-IsPem, sample_authority,
  sample_solver, sample_host, sample_manager, no_disk, no_files, read_found,
}

matches_iff_test : (matches sample_manager (codes "WWW.a.b.") ≡ true) ↔ (
    (label : Text) × (label ≢ [])
    × NoByte b'.' label
    × (to_lower (trim_suffix (codes "WWW.a.b.") (codes ".")) ≡ label ++ b'.' ∷ codes "a.b"))
matches_iff_test = matches_iff sample_manager (codes "WWW.a.b.")

matches_lower_case_example : to_lower (codes "a.b") ≡ codes "a.b"
unfolding matches to_lower trim_suffix cut
matches_lower_case_example = matches_lower_case sample_manager (codes "WWW.a.b.") refl

renew_loop-Paired_example :
    Paired
      (renew_loop
        (beside_authority sample_authority)
        (recording sample_solver)
        (beside_host sample_host)
        (beside_keys sample_keys)
        (beside_files file_system)
        2
        sample_manager
        (no_files, [])).2.1
renew_loop-Paired_example =
    renew_loop-Paired sample_keys file_system sample_authority sample_solver sample_host 2
      sample_manager no_files

certificate_of_ends_example : certificate_of sample_keys file_system (codes "some bytes") ≢ none
certificate_of_ends_example =
    certificate_of_ends sample_keys file_system sample_keys-IsPem (codes "some bytes")

abbrev sample_obtained : Result (DnsCert ℕ) × Files
sample_obtained =
    obtain sample_authority sample_solver sample_host sample_keys file_system sample_manager
      no_files

abbrev sample_certificate : Certificate ℕ
sample_certificate = record {
  chain = record { first = codes "cert"; rest = codes "ca" ∷ [] };
  key = 7;
  not_after = 4;
}

sample_obtained_test :
    sample_obtained
    ≡ (ok (record sample_manager { cert = some sample_certificate }), sample_obtained.1)
unfolding obtain ◌>>=◌ account_key return pure wrapped deferred store
sample_obtained_test = refl

obtain-restart_example :
    (new_dns_cert sample_keys file_system
      (codes "*.a.b")
      (codes "c")
      (codes "m@a.b")
      (codes "d")
      sample_obtained.1).0
    ≡ record sample_manager { cert = some sample_certificate }
unfolding trim_prefix
obtain-restart_example =
    obtain-restart sample_keys file_system sample_keys-IsPem file_system-IsFileSystem read_found
      sample_authority sample_solver sample_host sample_manager _ no_files _ refl
      sample_obtained_test

abbrev logged_keys : Keys (Logged Files) ℕ
logged_keys = sample_keys

store_survives_crash_example :
    All
      (λ v.
        (v (codes "_wildcard.a.b.pem") ≡ none)
        ⊎ ((der : Text) × (logged_keys.marshal_key 7 ≡ ok der)
            × (v (codes "_wildcard.a.b.pem")
                ≡ some (
                    cert_data logged_keys
                      (logged_files file_system)
                      der
                      sample_certificate.chain))))
      (store logged_keys
        (logged_files file_system)
        sample_manager
        7
        sample_certificate.chain
        (no_files, [])).1.1
unfolding cert_path replace_all
store_survives_crash_example =
    store_survives_crash logged_keys file_system file_system-IsFileSystem sample_manager 7
      sample_certificate.chain no_files

abbrev long_lived : Certificate ℕ
long_lived = record sample_certificate { not_after = 100 * 24 * hour }

abbrev fresh_manager : DnsCert ℕ
fresh_manager = record sample_manager { cert = some long_lived }

ensure_fresh_test :
    (ensure sample_authority sample_solver sample_host sample_keys file_system fresh_manager
        no_files
      ≡ (ok fresh_manager, no_files))
    × ((t : Time) → t ≤ 0 + 30 * 24 * hour → certificate fresh_manager t ≡ serves long_lived)
unfolding is_fresh sub
ensure_fresh_test =
    ensure_fresh sample_authority sample_solver sample_host sample_keys file_system fresh_manager
      long_lived no_files refl refl

-- An authority that takes an acceptance only when the change is in sync, and otherwise fails.
abbrev authority_at : Authority ℕ ℕ
authority_at = sample_authority

abbrev accept_at : ℕ → Client ℕ → Challenge → Io ℕ (Unit {0})
accept_at zero client chal = return tt
accept_at (suc n) client chal = fail (codes "too early")

abbrev accept_in_sync : Client ℕ → Challenge → Io ℕ (Unit {0})
accept_in_sync client chal w = accept_at w client chal w

abbrev status_of : Result ChangeInfo × ℕ → Text
status_of (ok info, w) = info.status
status_of (err e, w) = []

in_sync_zero : (w : ℕ) → status_at w ≡ codes "INSYNC" → w ≡ 0
in_sync_zero zero h = refl
in_sync_zero (suc w) h = ground (arith, h)

accept_in_sync_agrees :
    (client : Client ℕ) (chal : Challenge) (w : ℕ)
    → Propagated answering context primitives zone authority_at client chal w
    → accept_in_sync client chal w ≡ authority_at.accept client chal w
accept_in_sync_agrees client chal w (zurl, w0, before, authz, value, got, there, kind, q, in_sync) =
    let (id, w1, v, info, made, waits, polled, s) = in_sync in
    let same = sym (poll-answering id v) ∙ polled in
    let zero_w = in_sync_zero w (ap status_at (sym (ap (λ x. x.1) same)) ∙ ap status_of same ∙ s) in
    subst (λ n. accept_at n client chal n ≡ return tt n) (sym zero_w) refl

renew_loop_in_sync_example :
    renew_loop
      (record authority_at { accept = accept_in_sync })
      (route53_solver answering context primitives zone (λ w. w))
      sample_host
      sample_keys
      no_disk
      2
      sample_manager
      1
    ≡ renew_loop authority_at
        (route53_solver answering context primitives zone (λ w. w))
        sample_host
        sample_keys
        no_disk
        2
        sample_manager
        1
renew_loop_in_sync_example =
    renew_loop_in_sync answering context primitives zone
      (route53_solver answering context primitives zone (λ w. w))
      (route53_solver-IsRoute53 answering context primitives zone (λ w. w) answering-IsTimed)
      authority_at accept_in_sync sample_host sample_keys no_disk accept_in_sync_agrees 2
      sample_manager 1
