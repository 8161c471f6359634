-- ===== src/Tls/Hosts.antt =====
-- Which hosts each certificate manager gets.
use nitrokit.Prelude.{
  ◌↔◌, subst, ◌≡◌, ◌≢◌, refl, sym, ap, ◌∙◌, Bool, true, false, not, ◌||◌, List, [], ◌∷◌, ◌++◌, ◌⊎◌,
  inl, inr, if◌then◌else◌, ◌==◌, length, arith, Bool-cases, append_assoc, append-nil, All,
}
use nitrokit.Text.{Text, text_beq, text_beq_iff, has_byte}
use nitrokit.Tls.Wildcards.{
  IsPlain, IsWildcard, has_byte-NoByte, NoByte-has_byte, is_wildcard-IsWildcard,
  IsWildcard-is_wildcard, is_wildcard-IsPlain,
}
use nitrokit.Tls.{Acme, ConfigError, is_wildcard, sort_hosts, dns_check, check_config}

-- The hosts on which a test holds, in their order.
abbrev pub only : (Text → Bool) → List Text → List Text
only f [] = []
only f (h ∷ hs) = if f h then h ∷ only f hs else only f hs

-- A wildcard or a name without a star.
abbrev pub IsServed : Text → Type 0
IsServed h = (is_wildcard h || not (has_byte b'*' h)) ≡ true

-- The hosts for HTTP-01, and the wildcards for DNS-01.
abbrev pub exact_of : List Text → List Text
exact_of hs = only (λ h. not (is_wildcard h)) hs

abbrev pub wildcards_of : List Text → List Text
wildcards_of hs = only is_wildcard hs

append_one : (xs : List Text) (x : Text) (ys : List Text) → (xs ++ x ∷ []) ++ ys ≡ xs ++ x ∷ ys
append_one xs x ys = append_assoc xs (x ∷ []) ys

sort_hosts-All :
    (exact wildcards hs : List Text)
    → All IsServed hs
    → sort_hosts exact wildcards hs ≡ inr (exact ++ exact_of hs, wildcards ++ wildcards_of hs)
unfolding sort_hosts
sort_hosts-All exact wildcards [] h = rw (append-nil exact, append-nil wildcards) refl
sort_hosts-All exact wildcards (x ∷ hs) (p, h) =
    let wild = sort_hosts-All exact (wildcards ++ x ∷ []) hs h in
    let plain = sort_hosts-All (exact ++ x ∷ []) wildcards hs h in
    ground (
      arith,
      p,
      wild,
      plain,
      append_one wildcards x (wildcards_of hs),
      append_one exact x (exact_of hs),
    )

sort_hosts-inr :
    (exact wildcards hs : List Text) (r : List Text × List Text)
    → sort_hosts exact wildcards hs ≡ inr r
    → All IsServed hs
unfolding sort_hosts
sort_hosts-inr exact wildcards [] r h = tt
sort_hosts-inr exact wildcards (x ∷ hs) r h = elim (Bool-cases (is_wildcard x)) [
  | inl wild ↦
      (ground (arith, wild), sort_hosts-inr exact (wildcards ++ x ∷ []) hs r (ground arith))
  | inr tame ↦ elim (Bool-cases (has_byte b'*' x)) [
    | inl star ↦ absurd (ground arith)
    | inr none_star ↦ (
      ground (arith, tame, none_star),
      sort_hosts-inr (exact ++ x ∷ []) wildcards hs r (ground arith),
    )
  ]
]

-- What an accepted configuration satisfies.
abbrev pub IsAccepted : Acme → Type 0
IsAccepted a =
    (a.hosts ≢ [])
    × (a.cache_dir ≢ [])
    × All IsServed a.hosts
    × ((wildcards_of a.hosts ≡ []) ⊎ (a.dns ≡ true))

dns_check_lem :
    (dns : Bool) (e w : List Text) → (w ≡ []) ⊎ (dns ≡ true) → dns_check dns (e, w) ≡ inr (e, w)
unfolding dns_check
dns_check_lem dns e [] h = refl
dns_check_lem dns e (x ∷ w) h = ground (arith, h)

dns_needed :
    (dns : Bool) (e w : List Text) (r : List Text × List Text)
    → dns_check dns (e, w) ≡ inr r
    → (w ≡ []) ⊎ (dns ≡ true)
unfolding dns_check
dns_needed dns e [] r h = inl refl
dns_needed true e (x ∷ w) r h = inr refl
dns_needed false e (x ∷ w) r h = absurd (ground arith)

pub inr_inj : {A B : Type 0} {x y : B} → ◌≡◌ {A = A ⊎ B} (inr x) (inr y) → x ≡ y
inr_inj h = cc

length_ne : (hs : List Text) → hs ≢ [] → (length hs == 0) ≡ false
length_ne [] h = absurd (h refl)
length_ne (x ∷ hs) h = ground arith

ne_of_length : (hs : List Text) → (length hs == 0) ≡ false → hs ≢ []
ne_of_length [] h = absurd (ground arith)
ne_of_length (x ∷ hs) h = ground arith

ne_of_text : (t : Text) → text_beq t [] ≡ false → t ≢ []
ne_of_text [] h = absurd (ground arith)
ne_of_text (c ∷ t) h = ground arith

-- A configuration with hosts and a cache directory, with no host but names without a star and
-- wildcards of one leading star, and with a solver if there are wildcards, passes the checks: the
-- names without a star go to HTTP-01 and the wildcards to DNS-01, each in the order given.
check_config-IsAccepted :
    (a : Acme) → IsAccepted a → check_config a ≡ inr (exact_of a.hosts, wildcards_of a.hosts)
unfolding check_config
check_config-IsAccepted a (h, d, s, n) =
    let some_host = length_ne a.hosts h in
    let some_dir : text_beq a.cache_dir [] ≡ false = ground (arith, text_beq_iff a.cache_dir []) in
    rw (check_config, some_host, some_dir, sort_hosts-All [] [] a.hosts s)
      (dns_check_lem a.dns (exact_of a.hosts) (wildcards_of a.hosts) n)

-- The stage of the checks after the first two.
after_hosts :
    (a : Acme) (x : ConfigError ⊎ (List Text × List Text)) (r : List Text × List Text)
    → sort_hosts [] [] a.hosts ≡ x
    → ◌≡◌ {A = ConfigError ⊎ (List Text × List Text)}
        (elim x [ inl e ↦ inl e | inr q ↦ dns_check a.dns q ])
        (inr r)
    → All IsServed a.hosts × ((wildcards_of a.hosts ≡ []) ⊎ (a.dns ≡ true))
after_hosts a (inl e) r at h = absurd (ground arith)
after_hosts a (inr (e, w)) r at h =
    let served = sort_hosts-inr [] [] a.hosts (e, w) at in
    let same = inr_inj (sym (sort_hosts-All [] [] a.hosts served) ∙ at) in
    (
      served,
      subst (λ (v : List Text). (v ≡ []) ⊎ (a.dns ≡ true)) (sym (ap (λ p. p.1) same))
          (dns_needed a.dns e w r h),
    )

-- Only such a configuration passes.
check_config-inr : (a : Acme) (r : List Text × List Text) → check_config a ≡ inr r → IsAccepted a
unfolding check_config
check_config-inr a r h = elim (Bool-cases (length a.hosts == 0)) [
  | inl none_given ↦ absurd (ground arith)
  | inr given ↦ elim (Bool-cases (text_beq a.cache_dir [])) [
    | inl no_dir ↦ absurd (ground arith)
    | inr dir ↦
        let x : ◌≡◌ {A = ConfigError ⊎ (List Text × List Text)}
            (elim (sort_hosts [] [] a.hosts) [ inl e ↦ inl e | inr q ↦ dns_check a.dns q ])
            (inr r) =
          ground arith in
        let (served, solver) = after_hosts a (sort_hosts [] [] a.hosts) r refl x in
        (ne_of_length a.hosts given, ne_of_text a.cache_dir dir, served, solver)
  ]
]

-- The same, in both directions.
pub check_config_lem :
    (a : Acme) (r : List Text × List Text)
    → (check_config a ≡ inr r) ↔ (IsAccepted a × (r ≡ (exact_of a.hosts, wildcards_of a.hosts)))
check_config_lem a r = (
  λ h.
      let accepted = check_config-inr a r h in
      (accepted, inr_inj (sym h ∙ check_config-IsAccepted a accepted)),
  λ (accepted, e). rw e (check_config-IsAccepted a accepted),
)

-- How hosts go to the two managers, each in the order given.
pub data Sorts : List Text → List Text → List Text → Type 0 where
  no_host : Sorts [] [] []
  to_exact :
      {h : Text} {hs exact wildcards : List Text}
      → IsPlain h
      → Sorts hs exact wildcards
      → Sorts (h ∷ hs) (h ∷ exact) wildcards
  to_wildcards :
      {h : Text} {hs exact wildcards : List Text}
      → IsWildcard h
      → Sorts hs exact wildcards
      → Sorts (h ∷ hs) exact (h ∷ wildcards)

Sorts-IsServed : (hs : List Text) → All IsServed hs → Sorts hs (exact_of hs) (wildcards_of hs)
Sorts-IsServed [] h = no_host
Sorts-IsServed (x ∷ hs) (p, h) = elim (Bool-cases (is_wildcard x)) [
  | inl e ↦ rw e (to_wildcards (is_wildcard-IsWildcard x e) (Sorts-IsServed hs h))
  | inr e ↦
      let plain = NoByte-has_byte b'*' x (ground (arith, e, p)) in
      rw e (to_exact plain (Sorts-IsServed hs h))
]

-- A host of either kind, to its manager.
IsServed-Sorts :
    {hs exact wildcards : List Text}
    → Sorts hs exact wildcards
    → All IsServed hs × (exact ≡ exact_of hs) × (wildcards ≡ wildcards_of hs)
IsServed-Sorts no_host = (tt, refl, refl)
IsServed-Sorts (to_exact {h} p s) =
    let (served, e, w) = IsServed-Sorts s in
    let tame = is_wildcard-IsPlain h p in
    let no_star = has_byte-NoByte b'*' h p in
    ((ground (arith, no_star), served), rw tame (ap (◌∷◌ h) e), rw tame w)
IsServed-Sorts (to_wildcards {h} p s) =
    let (served, e, w) = IsServed-Sorts s in
    let wild = IsWildcard-is_wildcard h p in
    ((ground (arith, wild), served), rw wild e, rw wild (ap (◌∷◌ h) w))

-- The checks pass exactly for a configuration with hosts and a cache directory, with no host but
-- names without a star and wildcards of one star, the first label, over a name with a dot in it, and
-- with a solver if there are wildcards; the names without a star then go to HTTP-01 and the wildcards
-- to DNS-01, each in the order given.
pub check_config_iff :
    (a : Acme) (exact wildcards : List Text)
    → (check_config a ≡ inr (exact, wildcards)) ↔ (
        (a.hosts ≢ [])
        × (a.cache_dir ≢ [])
        × Sorts a.hosts exact wildcards
        × ((wildcards ≡ []) ⊎ (a.dns ≡ true)))
check_config_iff a exact wildcards = (
  λ h.
      let ((hosts, dir, served, solver), same) = (check_config_lem a (exact, wildcards)).0 h in
      let (sorted, needed) =
        subst (λ r. Sorts a.hosts r.0 r.1 × ((r.1 ≡ []) ⊎ (a.dns ≡ true))) (sym same)
          (Sorts-IsServed a.hosts served, solver) in
      (hosts, dir, sorted, needed),
  λ (hosts, dir, sorted, solver).
      let (served, e, w) = IsServed-Sorts sorted in
      let solver' = subst (λ x. (x ≡ []) ⊎ (a.dns ≡ true)) w solver in
      (check_config_lem a (exact, wildcards)).1 ((hosts, dir, served, solver'), λ i. (e i, w i)),
)
