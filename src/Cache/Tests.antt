-- ===== src/Cache/Tests.antt =====
-- The match on concrete headers, and the theorems at concrete inputs.
use mathlib.Core.List.{Memᴰ}
use nitrokit.Prelude.{◌≡◌, refl, true, false, [], ◌↔◌, none, arith}
use nitrokit.Text.{Text, codes, split, trim_space, trim_prefix}
use nitrokit.Text.Split.{NoByte}
use nitrokit.Dict.{lookup, insert}
use nitrokit.Http.{Response, get, set, set_header}
use nitrokit.Cache.{no_cache, no_cache_private, no_store, etag_match}
use nitrokit.Cache.Matching.{Names, etag_match_iff, etag_match_self}

code : Unit {0}
unfolding etag_match split trim_space trim_prefix no_cache no_cache_private no_store get lookup
    insert set set_header
code = tt

abbrev tag : Text
tag = codes "\"abc\""

etag_match_tests :
    (etag_match (codes "\"x\", W/\"abc\"") tag ≡ true)
    × (etag_match (codes " * ") tag ≡ true)
    × (etag_match (codes "\"abc\",") tag ≡ true)
    × (etag_match (codes "abc") tag ≡ false)
    × (etag_match [] tag ≡ false)
unfolding code
etag_match_tests = (refl, refl, refl, refl, refl)

abbrev fresh : Response
fresh = record { header = []; sent = none; body = [] }

policy_tests :
    (get "Cache-Control" (no_cache fresh).header ≡ codes "no-cache")
    × (get "Cache-Control" (no_cache_private (no_cache fresh)).header ≡ codes "no-cache, private")
    × (get "Cache-Control" (no_store (no_cache fresh)).header ≡ codes "no-store, private")
unfolding code
policy_tests = (refl, refl, refl)

etag_match_iff_example :
    (etag_match (codes "\"x\", W/\"abc\"") tag ≡ true)
    ↔ ((c : Text) × Memᴰ c (split b',' (codes "\"x\", W/\"abc\"")) × Names tag (trim_space c))
etag_match_iff_example = etag_match_iff (codes "\"x\", W/\"abc\"") tag

no_comma : NoByte b',' tag
no_comma = ground arith

own_tag_test : etag_match tag tag ≡ true
unfolding code
own_tag_test = etag_match_self tag no_comma refl
