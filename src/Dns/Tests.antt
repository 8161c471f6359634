-- ===== src/Dns/Tests.antt =====
-- Tests of the solver: a Route 53 that needs two polls, and one that does not answer polls.
use nitrokit.Prelude.{ℕ, ◌≡◌, ◌≢◌, refl, arith, none, some}
use nitrokit.Text.{Text, codes, trim_prefix, has_prefix, to_lower, join, hex}
use nitrokit.Result.{ok, err, ◌>>=◌, return, pure, wrapped}
use nitrokit.SigV4.Sign.{sign_v4}
use nitrokit.Dict.{lookup, insert}
use nitrokit.Dns.{ChangeInfo, change, poll, set_txt}
use nitrokit.Dns.Sync.{set_txt_in_sync, set_txt_leaves_record}
use nitrokit.Dns.Timing.{set_txt_returns}
use nitrokit.Dns.Sample.{primitives, zone, answering, failing, context, answering-IsTimed}

set_txt_returns_example :
    (set_txt answering context primitives zone 2 (codes "f") (codes "v") 1).0 ≢ none
set_txt_returns_example =
    set_txt_returns answering context primitives zone (λ w. w) answering-IsTimed 2 (codes "f")
      (codes "v") 1 (ground arith)

code : Unit {0}
unfolding set_txt change poll lookup insert ◌>>=◌ return pure wrapped sign_v4 to_lower has_prefix
    trim_prefix join hex
code = tt

set_txt_test :
    set_txt answering context primitives zone 2 (codes "f") (codes "v") 1 ≡ (some (ok tt), 0)
unfolding code
set_txt_test = refl

set_txt_in_sync_example :
    (id : Text) × (w1 v : ℕ) × (info : ChangeInfo) × (change answering context primitives zone
        (codes "UPSERT")
        (codes "f")
        (codes "v")
        1
      ≡ (ok id, w1))
    × (poll answering context primitives zone id v ≡ (ok info, 0))
    × (info.status ≡ codes "INSYNC")
set_txt_in_sync_example =
    set_txt_in_sync answering context primitives zone 2 (codes "f") (codes "v") 1 0 set_txt_test

set_txt_leaves_record_test :
    set_txt failing context primitives zone 2 (codes "f") (codes "v") 1
    ≡ (some (err (codes "route53 GetChange: EOF")), 1)
unfolding code
set_txt_leaves_record_test =
    set_txt_leaves_record failing context primitives zone 1 (codes "f") (codes "v") (codes "C") _ 1
      1 1 refl refl
