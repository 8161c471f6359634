-- ===== src/Tls/Routing.antt =====
-- Which certificate a handshake gets, from the configuration on: the checks of RunTLS, the managers
-- that it sets up, and their matching of names.
use nitrokit.Prelude.{
  ◌≡◌, ◌≢◌, refl, sym, subst, ap, ◌∙◌, arith, Bool, true, ◌⊎◌, inl, inr, Option, none, some, List,
  [], ◌∷◌, ◌++◌, Bool-cases,
}
use nitrokit.Text.{Text, codes, trim_prefix, trim_suffix, to_lower}
use nitrokit.Text.Split.{NoByte}
use nitrokit.Clock.{Time}
use nitrokit.Result.{Result, ok, err}
use nitrokit.Lifecycle.{HttpServer}
use nitrokit.DnsCert.{DnsCert, Certificate, Keys, FileSystem, matches, certificate}
use nitrokit.DnsCert.Names.{matches_iff}
use nitrokit.DnsCert.Store.{empty_manager, new_dns_cert, with_loaded, load}
use nitrokit.Tls.{Acme, ConfigError, is_wildcard, check_config}
use nitrokit.Tls.Hosts.{inr_inj, only, exact_of, wildcards_of, check_config_lem}
use nitrokit.Tls.Managers.{Setup, get_certificate, new_managers, set_up, run_tls}

only_split :
    (f : Text → Bool) (l r : List Text) (h : Text)
    → f h ≡ true
    → only f (l ++ h ∷ r) ≡ only f l ++ h ∷ only f r
only_split f [] r h e = rw e refl
only_split f (x ∷ l) r h e = elim (Bool-cases (f x)) [
  | inl t ↦ rw t (ap (◌∷◌ x) (only_split f l r h e))
  | inr t ↦ rw t (only_split f l r h e)
]

trim_star : (base : Text) → trim_prefix (codes "*." ++ base) (codes "*.") ≡ base
unfolding trim_prefix
trim_star base = refl

module _ {W K : Type 0} (keys : Keys W K) (fs : FileSystem W) where
  with_loaded-base :
      (m : DnsCert K) (x : Option (Result (Certificate K)) × W)
      → (with_loaded keys fs m x).0.base ≡ m.base
  with_loaded-base m (some (ok c), w) = refl
  with_loaded-base m (some (err e), w) = refl
  with_loaded-base m (none, w) = refl

  module _ {A : Type 0} (fall_through : Text → A) (now : Time) where
    -- A manager that covers the name answers for it.
    abbrev Answered : Text → List (DnsCert K) → Type 0
    Answered name mgrs =
        (m : DnsCert K) × (matches m name ≡ true)
        × (get_certificate mgrs fall_through now name ≡ inl (certificate m now))

  module _ {A : Type 0} (fall_through : Text → A) (now : Time)
      (cache_dir email directory_url : Text) where
    abbrev made : Text → W → DnsCert K
    made d w = (new_dns_cert keys fs d cache_dir email directory_url w).0

    new_dns_cert-base : (d : Text) (w : W) → (made d w).base ≡ trim_prefix d (codes "*.")
    unfolding new_dns_cert
    new_dns_cert-base d w =
        let m = empty_manager keys fs d cache_dir email directory_url in
        with_loaded-base m (load keys fs m w)

    managers_answer :
        (name h : Text)
        → ((w : W) → matches (made h w) name ≡ true)
        → (l r : List Text) (w : W)
        → Answered fall_through now name
            (new_managers keys fs (l ++ h ∷ r) cache_dir email directory_url w).0
    unfolding new_managers get_certificate
    managers_answer name h covers [] r w = (made h w, covers w, rw (covers w, get_certificate) refl)
    managers_answer name h covers (d ∷ l) r w =
        let (m, w1) = new_dns_cert keys fs d cache_dir email directory_url w in
        let (m', c, e) = managers_answer name h covers l r w1 in
        elim (Bool-cases (matches m name)) [
          | inl here ↦ (m, here, rw (here, get_certificate) refl)
          | inr there ↦ (m', c, rw (there, get_certificate) e)
        ]

  accepted :
      {H : Type 0} (x : ConfigError ⊎ (List Text × List Text))
      (f : List Text × List Text → Setup keys fs H × W) (s : Setup keys fs H × W)
      → (let out : ConfigError ⊎ (Setup keys fs H × W) = elim x [
        | inl e ↦ inl e
        | inr hosts ↦ inr (f hosts)
      ] in
          out ≡ inr s)
      → (hosts : List Text × List Text) × (x ≡ inr hosts) × (f hosts ≡ s)
  accepted (inl e) f s h = absurd (ground (arith, h))
  accepted (inr hosts) f s h = (hosts, refl, inr_inj h)

  -- A manager of a wildcard covers the names under it.
  covers_name :
      (m : DnsCert K) (base label : Text)
      → m.base ≡ base
      → label ≢ []
      → NoByte b'.' label
      → to_lower (trim_suffix (label ++ b'.' ∷ base) (codes ".")) ≡ label ++ b'.' ∷ base
      → matches m (label ++ b'.' ∷ base) ≡ true
  covers_name m base label e ne plain lower =
      (matches_iff m _).1 (label, ne, plain, lower ∙ ap (λ b. label ++ b'.' ∷ b) (sym e))

  -- If RunTLS accepts its configuration, then a handshake for a name of one more label under a
  -- wildcard of the hosts, all in lower case and without a final dot, is answered by a manager that
  -- covers the name, and never handed to autocert.
  pub wildcard_answered :
      {H A : Type 0} (acme_handler : H) (acme_http_addr directory_url email : Text)
      (srv : HttpServer H) (a : Acme) (w : W) (s : Setup keys fs H × W)
      → run_tls keys fs acme_handler acme_http_addr directory_url srv a email w ≡ inr s
      → (l r : List Text) (base label : Text) → a.hosts ≡ l ++ (codes "*." ++ base) ∷ r
      → is_wildcard (codes "*." ++ base) ≡ true
      → label ≢ []
      → NoByte b'.' label
      → let name = label ++ b'.' ∷ base in
        to_lower (trim_suffix name (codes ".")) ≡ name
        → (fall_through : Text → A) (now : Time)
        → (m : DnsCert K) × (matches m name ≡ true)
          × (get_certificate s.0.managers fall_through now name ≡ inl (certificate m now))
  unfolding run_tls set_up
  wildcard_answered acme_handler acme_http_addr directory_url email srv a w s made_ok l r base label
        hosts wild ne plain lower fall_through now =
      let name = label ++ b'.' ∷ base in
      let h = codes "*." ++ base in
      let f = set_up keys fs acme_handler acme_http_addr directory_url srv a email in
      let (hosts', e, q) = accepted (check_config a) (λ p. f p w) s made_ok in
      let same : hosts' ≡ (exact_of a.hosts, wildcards_of a.hosts) =
        ((check_config_lem a hosts').0 e).1 in
      let there : wildcards_of a.hosts ≡ only is_wildcard l ++ h ∷ only is_wildcard r =
        ap wildcards_of hosts ∙ only_split is_wildcard l r h wild in
      let covers : (v : W)
          → matches (made fall_through now a.cache_dir email directory_url h v) name ≡ true =
        λ v.
          covers_name _ base label
            (new_dns_cert-base fall_through now a.cache_dir email directory_url h v
              ∙ trim_star base)
            ne plain lower in
      let answer =
        managers_answer fall_through now a.cache_dir email directory_url name h covers
          (only is_wildcard l) (only is_wildcard r) w in
      let of_wildcards =
        subst
          (λ ws.
            Answered fall_through now name
              (new_managers keys fs ws a.cache_dir email directory_url w).0)
          (sym there) answer in
      let of_hosts =
        subst (λ p. Answered fall_through now name (f p w).0.managers) (sym same) of_wildcards in
      subst (λ z. Answered fall_through now name z.0.managers) q of_hosts
