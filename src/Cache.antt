-- ===== src/Cache.antt =====
-- cache.go: one helper for each policy, and the match of an If-None-Match header.
pub mod Matching
mod Tests
use nitrokit.Prelude.{ℕ, Bool, true, false, ◌||◌, List, [], ◌∷◌, if◌then◌else◌}
use nitrokit.Text.{Text, codes, text_beq, split, trim_space, trim_prefix}
use nitrokit.Http.{Response, set_header}

unfoldable pub no_cache : Response → Response
no_cache w = set_header "Cache-Control" (codes "no-cache") w

unfoldable pub no_cache_private : Response → Response
no_cache_private w = set_header "Cache-Control" (codes "no-cache, private") w

unfoldable pub no_store : Response → Response
no_store w = set_header "Cache-Control" (codes "no-store, private") w

-- One turn of the loop: whether the candidate matches.
pub candidate_match : Text → Text → Bool
candidate_match candidate etag =
    if text_beq candidate (codes "*") || text_beq candidate etag
    then true
    else text_beq (trim_prefix candidate (codes "W/")) etag

pub any_match : List Text → Text → Bool
any_match [] etag = false
any_match (c ∷ cs) etag = if candidate_match (trim_space c) etag then true else any_match cs etag

unfoldable pub etag_match : Text → Text → Bool
unfolding any_match candidate_match
etag_match header etag = any_match (split b',' header) etag
