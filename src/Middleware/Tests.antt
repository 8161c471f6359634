-- ===== src/Middleware/Tests.antt =====
-- Handlers on a concrete response, and the theorems at inputs that meet their hypotheses.
use nitrokit.Prelude.{
  ◌≡◌, refl, inr, arith, none, List, [], ◌∷◌, pos, negsuc, String, if◌then◌else◌,
}
use nitrokit.Dict.{◌≟◌, lookup, insert}
use nitrokit.Clock.{sub}
use nitrokit.Text.{codes}
use nitrokit.Http.{Response, Header, get, set, write, final_status, set_header, string_eq}
use nitrokit.Middleware.{secure_headers, hsts, default_csp, secure_headers_lem}
use nitrokit.Middleware.Recorder.{
  Call, setting, status, bytes, serve, call, round, access_log, access_log-serve,
  access_log-StatusFirst, access_log_of_late_status, access_log_of_informational,
}

code : Unit {0}
unfolding serve access_log round secure_headers hsts sub call write get lookup set_header set insert
code = tt

abbrev fresh : Response
fresh = record { header = []; sent = none; body = [] }

abbrev page : List Call
page = setting "Content-Type" (codes "text/html") ∷ status 404 ∷ bytes (codes "gone") ∷ []

abbrev late : List Call
late = bytes (codes "partial") ∷ status 500 ∷ bytes (codes "!") ∷ []

round_tests :
    (round (pos 1_499) ≡ pos 1_000)
    × (round (pos 1_500) ≡ pos 2_000)
    × (round (negsuc 1_499) ≡ negsuc 1_999)
    × (round (negsuc 3) ≡ pos 0)
unfolding code
round_tests = (refl, refl, refl, refl)

log_tests :
    ((access_log (codes "GET") (codes "/") 5_000 1_007_600 page fresh).1.dur ≡ pos 1_003_000)
    × ((access_log (codes "GET") (codes "/") 0 0 [] fresh).1.status ≡ 200)
    × ((serve late fresh).body ≡ codes "partial!")
unfolding code
log_tests = (refl, refl, refl)

hsts_test : get "Strict-Transport-Security" (hsts (λ w. w) fresh).header ≡ codes "max-age=31536000"
unfolding code
hsts_test = refl

secure_headers_lem_test :
    (h : Header) × (secure_headers []
        (codes "none")
        (set_header "Referrer-Policy" (codes "origin"))
        fresh
      ≡ set_header "Referrer-Policy" (codes "origin") (record fresh { header = h }))
    × ((name : String)
        → get name h ≡ (
            if "Permissions-Policy" ≟ name
            then codes "none"
            else if "Referrer-Policy" ≟ name
            then codes "same-origin"
            else if "X-Content-Type-Options" ≟ name
            then codes "nosniff"
            else if "Content-Security-Policy" ≟ name
            then default_csp
            else get name []))
secure_headers_lem_test =
    secure_headers_lem [] (codes "none") (set_header "Referrer-Policy" (codes "origin")) fresh

access_log-serve_test : (access_log (codes "GET") (codes "/") 1 2 page fresh).0 ≡ serve page fresh
access_log-serve_test = access_log-serve (codes "GET") (codes "/") 1 2 page fresh

access_log-StatusFirst_example :
    (access_log (codes "GET") (codes "/") 1 2 page fresh).1.status ≡ final_status (serve page fresh)
access_log-StatusFirst_example =
    access_log-StatusFirst (codes "GET") (codes "/") 1 2 page fresh
      ((inr (ground arith), ground arith), tt) refl

access_log_of_late_status_example :
    ((access_log (codes "GET") (codes "/") 1 2 late fresh).1.status ≡ 500)
    × (final_status (access_log (codes "GET") (codes "/") 1 2 late fresh).0 ≡ 200)
access_log_of_late_status_example =
    access_log_of_late_status (codes "GET") (codes "/") 1 2 (codes "partial") [] 500
      (bytes (codes "!") ∷ []) fresh tt refl

access_log_of_informational_example :
    ((access_log
        (codes "GET")
        (codes "/")
        1
        2
        (status 103 ∷ bytes (codes "hi") ∷ [])
        fresh).1.status
      ≡ 103)
    × (final_status
          (access_log (codes "GET") (codes "/") 1 2 (status 103 ∷ bytes (codes "hi") ∷ []) fresh).0
        ≡ 200)
access_log_of_informational_example =
    access_log_of_informational (codes "GET") (codes "/") 1 2 103 (bytes (codes "hi") ∷ []) fresh
      refl tt refl
