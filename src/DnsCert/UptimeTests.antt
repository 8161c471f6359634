-- ===== src/DnsCert/UptimeTests.antt =====
-- An outage of the authority, at a world that is the time.
use nitrokit.Prelude.{
  ℕ, negsuc, ◌+◌, ◌*◌, ◌≤◌, ◌≡◌, ap, ◌∙◌, refl, arith, Bool, true, false, some, [], ◌∷◌, pos,
  Bool-cases, inl, inr, ltb, if◌then◌else◌,
}
use nitrokit.Text.{Text, codes}
use nitrokit.Clock.{Time, Duration}
use nitrokit.Result.{Result, ok, err, ◌>>=◌, return, fail, pure, wrapped, deferred}
use nitrokit.DnsCert.{
  Chain, Certificate, DnsCert, Authority, Solver, Host, Keys, hour, certificate, serves,
}
use nitrokit.DnsCert.Store.{account_key, store}
use nitrokit.DnsCert.Obtain.{obtain, renew_loop}
use nitrokit.DnsCert.Sample.{sample_keys, sample_authority, sample_host, sample_manager, no_disk}
use nitrokit.Result.Forward.{IsForward-return, IsForward-fail}
use nitrokit.DnsCert.Forward.{IsClock}
use nitrokit.DnsCert.Issuing.{IsIssuing}
use nitrokit.DnsCert.Uptime.{IsPaced, renew_loop_serves}

abbrev life : ℕ
life = 90 * 24 * hour

-- The authority is down for the first ten days.
abbrev recovery : Time
recovery = 10 * 24 * hour

abbrev issue : Bool → ℕ → Result Chain × ℕ
issue true w = (err (codes "down"), w)
issue false w = (ok (record { first = (w + life) ∷ []; rest = [] }), w)

abbrev authority : Authority ℕ ℕ
authority = record sample_authority {
  create_order_cert = λ client url csr w. issue (ltb w recovery) w;
}

abbrev expiry_of : Text → Result Time
expiry_of [] = err (codes "no time")
expiry_of (n ∷ s) = ok n

abbrev keys : Keys ℕ ℕ
keys = record sample_keys { parse_certificate = expiry_of }

abbrev length_of : Duration → ℕ
length_of (pos n) = n
length_of (negsuc n) = 0

abbrev host : Host ℕ
host = record sample_host { now = λ w. w; wait = λ d w. (false, w + length_of d) }

abbrev solver : Solver ℕ
solver = record { set_txt = λ fqdn value. return tt; cleanup_txt = λ fqdn value. return tt }

abbrev old_certificate : Certificate ℕ
old_certificate = record {
  chain = record { first = codes "old"; rest = [] };
  key = 1;
  not_after = 20 * 24 * hour;
}

abbrev manager : DnsCert ℕ
manager = record sample_manager { cert = some old_certificate }

code : Unit {0}
unfolding obtain account_key store ◌>>=◌ return fail pure wrapped deferred
code = tt

abbrev or_down : Bool → Result (DnsCert ℕ) → DnsCert ℕ → ℕ → Result (DnsCert ℕ) × ℕ
or_down down e m w = if down then (e, w) else (ok m, w)

abbrev renewed : DnsCert ℕ → ℕ → DnsCert ℕ
renewed m w = record m {
  cert = some (record {
    chain = record { first = (w + life) ∷ []; rest = [] };
    key = 7;
    not_after = w + life;
  });
}

abbrev failure : Result (DnsCert ℕ)
failure = err (codes "finalize: down")

-- What an attempt comes to.
attempted_from :
    (m : DnsCert ℕ) (w : ℕ)
    → obtain authority solver host keys no_disk m w
      ≡ or_down (ltb w recovery) failure (renewed m w) w
unfolding code
attempted_from m w = elim (Bool-cases (ltb w recovery)) [
  | inl e ↦ rw (e, issue) refl
  | inr e ↦ rw (e, issue) refl
]

same_time : (w : ℕ) → w ≤ w
same_time w = omega arith

issue-grows : (down : Bool) (w : ℕ) → w ≤ (issue down w).1
issue-grows true w = omega arith
issue-grows false w = omega arith

clock : IsClock authority solver host keys no_disk
clock = record {
  register = λ client contact w. same_time w;
  authorize_order = λ client domain. IsForward-return host.now _;
  get_authorization = λ client zurl. IsForward-return host.now _;
  accept = λ client chal. IsForward-return host.now _;
  wait_authorization = λ client zurl. IsForward-return host.now _;
  create_order_cert = λ client url csr. record { grows = λ w. issue-grows (ltb w recovery) w };
  set_txt = λ fqdn value. IsForward-return host.now _;
  cleanup_txt = λ fqdn value. IsForward-return host.now _;
  logf = λ what w. same_time w;
  generate_key = IsForward-return host.now _;
  create_request = λ domain key. IsForward-return host.now _;
  read_file = λ path. IsForward-fail host.now _;
  mkdir_all = λ path. IsForward-return host.now _;
  write_file = λ path contents. IsForward-return host.now _;
  create_temp = λ dir pattern. IsForward-return host.now _;
  chmod = λ path. IsForward-return host.now _;
  write = λ path contents. IsForward-return host.now _;
  close = λ path. IsForward-return host.now _;
  remove = λ path. IsForward-return host.now _;
  rename = λ from to. IsForward-return host.now _;
}

abbrev first_of : Result Chain → Text
first_of (ok chain) = chain.first
first_of (err e) = []

abbrev time_of : Result Time → Time
time_of (ok t) = t
time_of (err e) = 0

issue-lasts :
    (down : Bool) (w : ℕ) (chain : Chain) (not_after : Time)
    → (issue down w).0 ≡ ok chain
    → expiry_of chain.first ≡ ok not_after
    → w + life ≤ not_after
issue-lasts true w chain not_after h k = absurd (ground (arith, h))
issue-lasts false w chain not_after h k =
    let e : w + life ≡ not_after = ap time_of (ap expiry_of (ap first_of h) ∙ k) in omega arith

issuing : IsIssuing authority solver host keys no_disk life
issuing = record { lasts = λ client url csr w. issue-lasts (ltb w recovery) w }

attempt_ends :
    (down : Bool) (e : Result (DnsCert ℕ)) (m : DnsCert ℕ) (w : ℕ) → (or_down down e m w).1 ≤ w + 0
attempt_ends true e m w = omega arith
attempt_ends false e m w = omega arith

or_down_ok :
    (down : Bool) (e : Result (DnsCert ℕ)) (m : DnsCert ℕ) (w : ℕ)
    → down ≡ false
    → (m' : DnsCert ℕ) × ((or_down down e m w).0 ≡ ok m')
or_down_ok true e m w h = absurd (ground (arith, h))
or_down_ok false e m w h = (m, refl)

paced : IsPaced authority solver host keys no_disk life 0 0 recovery
paced = record {
  attempts = λ m w. rw (attempted_from m w) (attempt_ends (ltb w recovery) failure (renewed m w) w);
  waits = λ n w. omega arith;
  logs = λ what w. omega arith;
  recovers = λ m w late.
      let up : ltb w recovery ≡ false = ground (arith, late) in
      let (m', q) = or_down_ok (ltb w recovery) failure (renewed m w) w up in
      (m', ap (λ x. x.0) (attempted_from m w) ∙ q);
}

renew_loop_serves_example :
    let (n, done, w) = renew_loop authority solver host keys no_disk 100 manager 0 in
    (d : Certificate ℕ) × (n.cert ≡ some d)
    × ((t : Time) → t ≤ host.now w + 0 → certificate n t ≡ serves d)
renew_loop_serves_example =
    renew_loop_serves authority solver host keys no_disk life clock issuing 0 0 recovery paced
      (omega arith) (omega arith) manager old_certificate 0 refl (omega arith, omega arith) 100
