-- ===== src/Tls.antt =====
-- tls.go: the checks that RunTLS makes on its configuration before anything is started, and the
-- hosts that go to the two certificate managers.
pub mod Wildcards
pub mod Hosts
pub mod Managers
pub mod Routing
mod Tests
use nitrokit.Prelude.{
  ℕ, ◌+◌, Bool, true, false, not, ◌&&◌, ◌||◌, List, [], ◌∷◌, ◌++◌, ◌⊎◌, inl, inr, if◌then◌else◌,
  ◌==◌, length, drop,
}
use nitrokit.Text.{Text, codes, text_beq, has_prefix, has_byte, contains}

-- What the checks read of an ACME value: `dns` is whether there is a solver.
pub record Acme : Type 0 where
  pub hosts : List Text
  pub cache_dir : Text
  pub dns : Bool

pub data ConfigError : Type 0 where
  no_hosts no_cache_dir no_dns : ConfigError
  bad_host : Text → ConfigError

-- strings.Count(s, c) for a byte
unfoldable pub count : ℕ → Text → ℕ
count c [] = 0
count c (d ∷ s) = let rest = count c s in if d == c then rest + 1 else rest

unfoldable pub is_wildcard : Text → Bool
is_wildcard h = has_prefix h (codes "*.") && count b'*' h == 1 && contains (drop 2 h) (codes ".")

-- The loop over the hosts.
unfoldable pub sort_hosts :
    List Text → List Text → List Text → ConfigError ⊎ (List Text × List Text)
sort_hosts exact wildcards [] = inr (exact, wildcards)
sort_hosts exact wildcards (h ∷ hs) =
    let wild = sort_hosts exact (wildcards ++ h ∷ []) hs in
    let plain = sort_hosts (exact ++ h ∷ []) wildcards hs in
    if is_wildcard h then wild else if has_byte b'*' h then inl (bad_host h) else plain

-- The check of the solver, once the hosts are sorted.
unfoldable pub dns_check : Bool → List Text × List Text → ConfigError ⊎ (List Text × List Text)
dns_check dns (exact, []) = inr (exact, [])
dns_check dns (exact, w ∷ ws) = if not dns then inl no_dns else inr (exact, w ∷ ws)

unfoldable pub check_config : Acme → ConfigError ⊎ (List Text × List Text)
unfolding sort_hosts is_wildcard dns_check
check_config a =
    if length a.hosts == 0
    then inl no_hosts
    else if text_beq a.cache_dir []
    then inl no_cache_dir
    else (elim (sort_hosts [] [] a.hosts) [ inl e ↦ inl e | inr r ↦ dns_check a.dns r ])
