-- ===== src/DnsCert/Recorded.antt =====
-- The calls that a manager makes of its solver, recorded by running it in a world that has a list of
-- them beside it, and rules for code that only adds to that list.
use nitrokit.Prelude.{
  ◌≡◌, refl, sym, ap, ◌∙◌, subst, Bool, true, false, List, [], ◌∷◌, ◌++◌, if◌then◌else◌,
  append_assoc, append-nil,
}
use nitrokit.Text.{Text}
use nitrokit.Result.{Result, ok, err, Io, ◌>>=◌, return, fail, pure, wrapped, and_then}
use nitrokit.DnsCert.{Solver, Authority, Keys, FileSystem, Host}

-- A call of SetTXT or of CleanupTXT, each with whether it has succeeded. One that has failed may have
-- changed the zone or not.
pub data TxtCall : Type 0 where
  set_ok set_failed cleanup_ok cleanup_failed : (fqdn value : Text) → TxtCall

abbrev pub cleanup_call : Text → Text → Result (Unit {0}) → TxtCall
cleanup_call fqdn value (ok u) = cleanup_ok fqdn value
cleanup_call fqdn value (err e) = cleanup_failed fqdn value

-- Each SetTXT that succeeds is followed at once by one CleanupTXT of the same name and value,
-- whatever that returns, and there are no other calls of CleanupTXT.
pub data Paired : List TxtCall → Type 0 where
  done : Paired []
  refusal : (fqdn value : Text) {t : List TxtCall} → Paired t → Paired (set_failed fqdn value ∷ t)
  round :
      (fqdn value : Text) (r : Result (Unit {0})) {t : List TxtCall}
      → Paired t
      → Paired (set_ok fqdn value ∷ cleanup_call fqdn value r ∷ t)

Paired-append : {t u : List TxtCall} → Paired t → Paired u → Paired (t ++ u)
Paired-append done q = q
Paired-append (refusal f v p) q = refusal f v (Paired-append p q)
Paired-append (round f v r p) q = round f v r (Paired-append p q)

-- A world with the calls so far.
abbrev pub Traced : Type 0 → Type 0
Traced W = W × List TxtCall

abbrev pub set_call : Text → Text → Result (Unit {0}) → TxtCall
set_call fqdn value (ok u) = set_ok fqdn value
set_call fqdn value (err e) = set_failed fqdn value

module _ {W : Type 0} where
  -- The solver that records its calls.
  abbrev pub recording : Solver W → Solver (Traced W)
  recording solver = record {
    set_txt = λ fqdn value (w, t).
        let (r, w') = solver.set_txt fqdn value w in (r, (w', t ++ set_call fqdn value r ∷ []));
    cleanup_txt = λ fqdn value (w, t).
        let (r, w') = solver.cleanup_txt fqdn value w in
        (r, (w', t ++ cleanup_call fqdn value r ∷ []));
  }

  -- A call of anything else leaves the record of the calls as it is.
  unfoldable pub beside : {A : Type 0} → (W → A × W) → Traced W → A × Traced W
  beside m (w, t) = let (r, w') = m w in (r, (w', t))

  abbrev pub beside_authority : {K : Type 0} → Authority W K → Authority (Traced W) K
  beside_authority ca = record {
    register = λ c contact. beside (ca.register c contact);
    authorize_order = λ c domain. beside (ca.authorize_order c domain);
    get_authorization = λ c zurl. beside (ca.get_authorization c zurl);
    dns01_record = ca.dns01_record;
    accept = λ c chal. beside (ca.accept c chal);
    wait_authorization = λ c zurl. beside (ca.wait_authorization c zurl);
    create_order_cert = λ c url csr. beside (ca.create_order_cert c url csr);
  }

  abbrev pub beside_keys : {K : Type 0} → Keys W K → Keys (Traced W) K
  beside_keys keys = record {
    generate_key = beside keys.generate_key;
    create_request = λ domain key. beside (keys.create_request domain key);
    marshal_key = keys.marshal_key;
    parse_key = keys.parse_key;
    parse_certificate = keys.parse_certificate;
    pem_encode = keys.pem_encode;
    pem_decode = keys.pem_decode;
  }

  abbrev pub beside_files : FileSystem W → FileSystem (Traced W)
  beside_files fs = record {
    join = fs.join;
    read_file = λ path. beside (fs.read_file path);
    mkdir_all = λ path. beside (fs.mkdir_all path);
    write_file = λ path contents. beside (fs.write_file path contents);
    create_temp = λ dir pattern. beside (fs.create_temp dir pattern);
    chmod = λ path. beside (fs.chmod path);
    write = λ path contents. beside (fs.write path contents);
    close = λ path. beside (fs.close path);
    remove = λ path. beside (fs.remove path);
    rename = λ from to. beside (fs.rename from to);
  }

  abbrev pub beside_host : Host W → Host (Traced W)
  beside_host host = record {
    now = λ (w, t). host.now w;
    logf = λ what (w, t). (host.logf what w, t);
    cancelled = λ (w, t). host.cancelled w;
    wait = λ d. beside (host.wait d);
  }

-- What some code adds to the calls is paired.
abbrev pub Adds : List TxtCall → List TxtCall → Type 0
Adds t t' = (u : List TxtCall) × (t' ≡ t ++ u) × Paired u

pub Adds-refl : (t : List TxtCall) → Adds t t
Adds-refl t = ([], sym (append-nil t), done)

pub Adds-trans : (t t' t'' : List TxtCall) → Adds t t' → Adds t' t'' → Adds t t''
Adds-trans t t' t'' (u, e, p) (v, f, q) =
    (u ++ v, f ∙ ap (λ x. x ++ v) e ∙ append_assoc t u v, Paired-append p q)

module _ {W : Type 0} where
  pub record IsPaired {A : Type 0} (m : Io (Traced W) A) : Type 0 where
    pub adds : (w : W) (t : List TxtCall) → Adds t (m (w, t)).1.1

  -- Code that makes no such call.
  pub record IsQuiet {A : Type 0} (m : Io (Traced W) A) : Type 0 where
    pub keeps : (w : W) (t : List TxtCall) → (m (w, t)).1.1 ≡ t

  module _ {A B : Type 0} {f : A → Io (Traced W) B} where
    and_then-Adds :
        ((a : A) → IsPaired (f a))
        → (t : List TxtCall) (r : Result A × Traced W) → Adds t r.1.1
        → Adds t (and_then r f).1.1
    and_then-Adds k t (ok a, (w', t')) x = Adds-trans t t' _ x ((k a).adds w' t')
    and_then-Adds k t (err e, (w', t')) x = x

    pub IsPaired->>= :
        {m : Io (Traced W) A} → IsPaired m → ((a : A) → IsPaired (f a)) → IsPaired (m >>= f)
    unfolding ◌>>=◌
    IsPaired->>= {m} h k = record { adds = λ w t. and_then-Adds k t (m (w, t)) (h.adds w t) }

    and_then-quiet :
        ((a : A) → IsQuiet (f a))
        → (t : List TxtCall) (r : Result A × Traced W) → r.1.1 ≡ t
        → (and_then r f).1.1 ≡ t
    and_then-quiet k t (ok a, (w', t')) x = (k a).keeps w' t' ∙ x
    and_then-quiet k t (err e, (w', t')) x = x

    pub IsQuiet->>= :
        {m : Io (Traced W) A} → IsQuiet m → ((a : A) → IsQuiet (f a)) → IsQuiet (m >>= f)
    unfolding ◌>>=◌
    IsQuiet->>= {m} h k = record { keeps = λ w t. and_then-quiet k t (m (w, t)) (h.keeps w t) }

  module _ {A : Type 0} where
    pub IsPaired-IsQuiet : {m : Io (Traced W) A} → IsQuiet m → IsPaired m
    IsPaired-IsQuiet h = record { adds = λ w t. subst (Adds t) (sym (h.keeps w t)) (Adds-refl t) }

    pub IsQuiet-beside : (m : Io W A) → IsQuiet (beside m)
    unfolding beside
    IsQuiet-beside m = record { keeps = λ w t. refl }

    pub IsQuiet-pure : (r : Result A) → IsQuiet (pure r)
    unfolding pure
    IsQuiet-pure r = record { keeps = λ w t. refl }

    pub IsQuiet-return : (a : A) → IsQuiet (return a)
    unfolding return
    IsQuiet-return a = record { keeps = λ w t. refl }

    pub IsQuiet-fail : (e : Text) → IsQuiet (fail {A = A} e)
    unfolding fail
    IsQuiet-fail e = record { keeps = λ w t. refl }

    pub IsQuiet-wrapped : (what : Text) {m : Io (Traced W) A} → IsQuiet m → IsQuiet (wrapped what m)
    unfolding wrapped
    IsQuiet-wrapped what h = record { keeps = λ w t. h.keeps w t }

    pub IsPaired-if :
        (b : Bool) {m n : Io (Traced W) A} → IsPaired m → IsPaired n → IsPaired (if b then m else n)
    IsPaired-if true h k = h
    IsPaired-if false h k = k

pub ruleset quiet_rules =
    (IsQuiet->>=, IsQuiet-beside, IsQuiet-pure, IsQuiet-return, IsQuiet-fail, IsQuiet-wrapped)

pub ruleset paired_rules = (IsPaired->>=, IsPaired-IsQuiet, IsPaired-if)
