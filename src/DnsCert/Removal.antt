-- ===== src/DnsCert/Removal.antt =====
-- The calls that the whole loop of a manager makes of its solver: obtain, ensure and renewLoop under
-- the recorder of the TXT calls.
use nitrokit.Prelude.{
  ℕ, zero, suc, ◌≡◌, refl, sym, subst, arith, Bool, true, false, List, [], if◌then◌else◌,
  Option-cases, inl, inr,
}
use nitrokit.Text.{Text}
use nitrokit.Result.{Result, ok, err, Io, deferred}
use nitrokit.DnsCert.{
  Chain, DnsCert, Solver, Registered, registered, account_exists, refused, Client, Authority, Keys,
  FileSystem, Host, retry_interval,
}
use nitrokit.DnsCert.Store.{
  store, account_key, create_account_key, write_and_rename, close_on_error, account_key_of,
}
use nitrokit.DnsCert.Obtain.{
  acme_client, registration, obtain, is_fresh, ensure, settle, renew_loop,
}
use nitrokit.DnsCert.Recorded.{
  beside, Paired, Traced, TxtCall, recording, beside_authority, beside_keys, beside_files,
  beside_host, Adds, Adds-refl, Adds-trans, IsPaired, IsQuiet, paired_rules, quiet_rules,
}
use nitrokit.DnsCert.Challenges.{solve_all-IsPaired}

module _ {W K : Type 0} (keys : Keys W K) (fs : FileSystem W) where
  abbrev keys' : Keys (Traced W) K
  keys' = beside_keys keys

  abbrev fs' : FileSystem (Traced W)
  fs' = beside_files fs

  quiet_close :
      (tmp : Text) (r : Result (Unit {0})) (w : W) (t : List TxtCall)
      → (close_on_error keys' fs' tmp (r, (w, t))).1.1 ≡ t
  unfolding beside
  quiet_close tmp (ok u) w t = refl
  quiet_close tmp (err e) w t = refl

  IsQuiet-close_on_error :
      (tmp : Text) (m : Io W (Unit {0})) → IsQuiet (λ w. close_on_error keys' fs' tmp (beside m w))
  unfolding beside
  IsQuiet-close_on_error tmp m = record {
    keeps = λ w t. let (r, w') = m w in quiet_close tmp r w' t;
  }

  IsQuiet-deferred_remove :
      {A : Type 0} (tmp : Text) {m : Io (Traced W) A}
      → IsQuiet m
      → IsQuiet (deferred (λ w. (fs'.remove tmp w).1) m)
  unfolding beside deferred
  IsQuiet-deferred_remove tmp {m} h = record { keeps = λ w t. h.keeps w t }

  IsQuiet-write_and_rename :
      (path contents tmp : Text) → IsQuiet (write_and_rename keys' fs' path contents tmp)
  unfolding write_and_rename
  IsQuiet-write_and_rename path contents tmp = search (quiet_rules, IsQuiet-close_on_error)

  IsQuiet-store : (m : DnsCert K) (key : K) (chain : Chain) → IsQuiet (store keys' fs' m key chain)
  unfolding store
  IsQuiet-store m key chain =
      search (quiet_rules, IsQuiet-deferred_remove, IsQuiet-write_and_rename)

  IsQuiet-create_account_key : (m : DnsCert K) → IsQuiet (create_account_key keys' fs' m)
  unfolding create_account_key
  IsQuiet-create_account_key m = search quiet_rules

  account_key_of-quiet :
      (m : DnsCert K) (r : Result Text) (w : W) (t : List TxtCall)
      → (account_key_of keys' fs' m (r, (w, t))).1.1 ≡ t
  account_key_of-quiet m (err e) w t = (IsQuiet-create_account_key m).keeps w t
  account_key_of-quiet m (ok contents) w t = elim (Option-cases (keys.pem_decode contents)) [
    | inl e ↦ ground (arith, e)
    | inr (b, e) ↦ ground (arith, e)
  ]

  IsQuiet-account_key : (m : DnsCert K) → IsQuiet (account_key keys' fs' m)
  unfolding account_key beside
  IsQuiet-account_key m = record {
    keeps = λ w t. let (r, w') = fs.read_file _ w in account_key_of-quiet m r w' t;
  }

  module _ (ca : Authority W K) (solver : Solver W) (host : Host W) where
    abbrev ca' : Authority (Traced W) K
    ca' = beside_authority ca

    abbrev solver' : Solver (Traced W)
    solver' = recording solver

    abbrev host' : Host (Traced W)
    host' = beside_host host

    registration-quiet :
        (c : Client K) (r : Registered) (w : W) (t : List TxtCall)
        → (registration ca' solver' host' keys' fs' c (r, (w, t))).1.1 ≡ t
    registration-quiet c registered w t = refl
    registration-quiet c account_exists w t = refl
    registration-quiet c (refused e) w t = refl

    IsQuiet-registration :
        (c : Client K) (contact : List Text)
        → IsQuiet (λ w. registration ca' solver' host' keys' fs' c (ca'.register c contact w))
    unfolding beside
    IsQuiet-registration c contact = record {
      keeps = λ w t. let (r, w') = ca.register c contact w in registration-quiet c r w' t;
    }

    IsQuiet-acme_client : (m : DnsCert K) → IsQuiet (acme_client ca' solver' host' keys' fs' m)
    unfolding acme_client
    IsQuiet-acme_client m = search (quiet_rules, IsQuiet-account_key, IsQuiet-registration)

    obtain-IsPaired : (m : DnsCert K) → IsPaired (obtain ca' solver' host' keys' fs' m)
    unfolding obtain
    obtain-IsPaired m =
        search (paired_rules, quiet_rules, IsQuiet-acme_client, solve_all-IsPaired, IsQuiet-store)
          depth 20

    -- One case for each way that `ensure` can go.
    ensure-Adds :
        (m : DnsCert K) (w : W) (t : List TxtCall) (fresh : Bool)
        → Adds t (if fresh then (ok m, (w, t)) else obtain ca' solver' host' keys' fs' m (w, t)).1.1
    ensure-Adds m w t true = Adds-refl t
    ensure-Adds m w t false = (obtain-IsPaired m).adds w t

    -- After a failure.
    failure-Adds :
        (m : DnsCert K) (cancelled : Bool) (w : W) (waited : Bool × W) (t t' : List TxtCall)
        → Adds t t'
        → Adds t (
            let r : DnsCert K × Bool × Traced W =
              if cancelled then (m, true, (w, t')) else (m, waited.0, (waited.1, t')) in
            r.2.1)
    failure-Adds m true w waited t t' x = x
    failure-Adds m false w waited t t' x = x

    settle-Adds :
        (m : DnsCert K) (r : Result (DnsCert K) × Traced W) (t : List TxtCall)
        → Adds t r.1.1
        → Adds t (settle ca' solver' host' keys' fs' m r).2.1
    unfolding settle beside
    settle-Adds m (ok m', w) t x = x
    settle-Adds m (err e, (w, t')) t x =
        failure-Adds m (host.cancelled w) w (host.wait retry_interval (host.logf _ w)) t t' x

    -- The rounds after the first, if it has not ended the loop.
    rest-Adds :
        (rounds : ℕ) (r : DnsCert K × Bool × Traced W) (t : List TxtCall)
        → Adds t r.2.1
        → ((m : DnsCert K) (w : W) (t' : List TxtCall)
            → Adds t' (renew_loop ca' solver' host' keys' fs' rounds m (w, t')).2.1)
        → Adds t (
            let n : DnsCert K × Bool × Traced W = elim r.1 [
              | true ↦ (r.0, true, r.2)
              | false ↦ renew_loop ca' solver' host' keys' fs' rounds r.0 r.2
            ] in
            n.2.1)
    rest-Adds rounds (m, true, (w, t')) t x again = x
    rest-Adds rounds (m, false, (w, t')) t x again = Adds-trans t t' _ x (again m w t')

    renew_loop-Adds :
        (rounds : ℕ) (m : DnsCert K) (w : W) (t : List TxtCall)
        → Adds t (renew_loop ca' solver' host' keys' fs' rounds m (w, t)).2.1
    unfolding renew_loop ensure
    renew_loop-Adds zero m w t = Adds-refl t
    renew_loop-Adds (suc rounds) m w t =
        let r = ensure ca' solver' host' keys' fs' m (w, t) in
        let fresh = is_fresh ca' solver' host' keys' fs' m (host.now w) in
        rest-Adds rounds (settle ca' solver' host' keys' fs' m r) t
          (settle-Adds m r t (ensure-Adds m w t fresh)) (renew_loop-Adds rounds)

    -- Whatever the authority, the solver, the files and the host answer, and however many rounds the
    -- loop has run: of the calls that it has made of its solver, each SetTXT that succeeded was followed
    -- at once, before any other of these calls, by one CleanupTXT of the same name and value, whether
    -- that succeeded or not; after a SetTXT that failed there was none, nor at any other point.
    pub renew_loop-Paired :
        (rounds : ℕ) (m : DnsCert K) (w : W)
        → Paired (renew_loop ca' solver' host' keys' fs' rounds m (w, [])).2.1
    renew_loop-Paired rounds m w =
        let (u, e, p) = renew_loop-Adds rounds m w [] in subst Paired (sym e) p
