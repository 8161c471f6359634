-- ===== src/DnsCert/Forward.antt =====
-- The clock under the calls of a manager, and under its code up to and after the issue of a
-- certificate.
use nitrokit.Prelude.{◌≤◌, Option, none, some, List, [], ◌∷◌, ◌++◌, Option-cases, inl, inr}
use nitrokit.Text.{Text, codes}
use nitrokit.Clock.{Time}
use nitrokit.Result.{Result, ok, err, Io}
use nitrokit.Result.Forward.{IsForward, le_trans, IsForward->>=, IsForward-deferred, forward_rules}
use nitrokit.DnsCert.{
  Chain, DnsCert, Solver, Registered, registered, account_exists, refused, Challenge, Authorization,
  Client, Authority, Keys, FileSystem, Host,
}
use nitrokit.DnsCert.Store.{
  store, account_key, create_account_key, write_and_rename, close_on_error, account_key_of,
}
use nitrokit.DnsCert.Obtain.{
  acme_client, registration, log_failure, cleanup, answer_challenge, solve_with,
  solve_authorization, solve_all,
}

module _ {W K : Type 0} (ca : Authority W K) (solver : Solver W) (host : Host W) (keys : Keys W K)
    (fs : FileSystem W) where
  abbrev Moves : {A : Type 0} → Io W A → Type 0
  Moves m = IsForward host.now m

  -- No call turns the clock back.
  pub record IsClock : Type 0 where
    pub register :
        (client : Client K) (contact : List Text) (w : W)
        → host.now w ≤ host.now (ca.register client contact w).1
    pub authorize_order :
        (client : Client K) (domain : Text) → Moves (ca.authorize_order client domain)
    pub get_authorization :
        (client : Client K) (zurl : Text) → Moves (ca.get_authorization client zurl)
    pub accept : (client : Client K) (chal : Challenge) → Moves (ca.accept client chal)
    pub wait_authorization :
        (client : Client K) (zurl : Text) → Moves (ca.wait_authorization client zurl)
    pub create_order_cert :
        (client : Client K) (url csr : Text) → Moves (ca.create_order_cert client url csr)
    pub set_txt : (fqdn value : Text) → Moves (solver.set_txt fqdn value)
    pub cleanup_txt : (fqdn value : Text) → Moves (solver.cleanup_txt fqdn value)
    pub logf : (what : Text) (w : W) → host.now w ≤ host.now (host.logf what w)
    pub generate_key : Moves keys.generate_key
    pub create_request : (domain : Text) (key : K) → Moves (keys.create_request domain key)
    pub read_file : (path : Text) → Moves (fs.read_file path)
    pub mkdir_all : (path : Text) → Moves (fs.mkdir_all path)
    pub write_file : (path contents : Text) → Moves (fs.write_file path contents)
    pub create_temp : (dir pattern : Text) → Moves (fs.create_temp dir pattern)
    pub chmod : (path : Text) → Moves (fs.chmod path)
    pub write : (path contents : Text) → Moves (fs.write path contents)
    pub close : (path : Text) → Moves (fs.close path)
    pub remove : (path : Text) → Moves (fs.remove path)
    pub rename : (from to : Text) → Moves (fs.rename from to)

  module _ (clock : IsClock) where
    log_failure_grows :
        (what : Text) (t : Time) (r : Result (Unit {0}) × W)
        → t ≤ host.now r.1
        → t ≤ host.now (log_failure ca solver host what r)
    log_failure_grows what t (ok u, w) h = h
    log_failure_grows what t (err e, w) h = le_trans host.now h (clock.logf (what ++ e) w)

    cleanup_grows :
        (fqdn value : Text) (w : W) → host.now w ≤ host.now (cleanup ca solver host fqdn value w)
    unfolding cleanup
    cleanup_grows fqdn value w =
        log_failure_grows (codes "nitrokit: cleanup TXT " ++ fqdn ++ codes ": ") (host.now w)
          (solver.cleanup_txt fqdn value w) ((clock.cleanup_txt fqdn value).grows w)

    answer_challenge-IsForward :
        (client : Client K) (zurl : Text) (chal : Challenge) (fqdn value : Text)
        → Moves (answer_challenge ca solver host client zurl chal fqdn value)
    unfolding answer_challenge
    answer_challenge-IsForward client zurl chal fqdn value =
        search
          (
            forward_rules, IsForward-deferred, cleanup_grows, clock.set_txt, clock.accept,
            clock.wait_authorization,
          )
          depth 20

    solve_with-IsForward :
        (client : Client K) (domain zurl : Text) (authz : Authorization) (found : Option Challenge)
        → Moves (solve_with ca solver host client domain zurl authz found)
    unfolding solve_with
    solve_with-IsForward client domain zurl authz none = search forward_rules
    solve_with-IsForward client domain zurl authz (some chal) =
        search (forward_rules, answer_challenge-IsForward)

    solve_authorization-IsForward :
        (client : Client K) (domain zurl : Text)
        → Moves (solve_authorization ca solver host client domain zurl)
    unfolding solve_authorization
    solve_authorization-IsForward client domain zurl =
        search (forward_rules, clock.get_authorization, solve_with-IsForward)

    pub solve_all-IsForward :
        (client : Client K) (domain : Text) (zurls : List Text)
        → Moves (solve_all ca solver host client domain zurls)
    unfolding solve_all
    solve_all-IsForward client domain [] = search forward_rules
    solve_all-IsForward client domain (zurl ∷ zurls) =
        IsForward->>= host.now (solve_authorization-IsForward client domain zurl)
          (λ u. solve_all-IsForward client domain zurls)

    create_account_key-IsForward : (m : DnsCert K) → Moves (create_account_key keys fs m)
    unfolding create_account_key
    create_account_key-IsForward m =
        IsForward->>= host.now clock.generate_key
          (λ key. search (forward_rules, clock.mkdir_all, clock.write_file) depth 20)

    account_key_of-grows :
        (m : DnsCert K) (t : Time) (r : Result Text × W)
        → t ≤ host.now r.1
        → t ≤ host.now (account_key_of keys fs m r).1
    account_key_of-grows m t (err e, w) h =
        le_trans host.now h ((create_account_key-IsForward m).grows w)
    account_key_of-grows m t (ok contents, w) h = elim (Option-cases (keys.pem_decode contents)) [
      | inl e ↦ rw (e, account_key_of) h
      | inr (b, e) ↦ rw (e, account_key_of) h
    ]

    account_key-IsForward : (m : DnsCert K) → Moves (account_key keys fs m)
    unfolding account_key
    account_key-IsForward m = record {
      grows =
          λ w. account_key_of-grows m (host.now w) (fs.read_file _ w) ((clock.read_file _).grows w);
    }

    registration-grows :
        (client : Client K) (t : Time) (r : Registered × W)
        → t ≤ host.now r.1
        → t ≤ host.now (registration ca solver host keys fs client r).1
    registration-grows client t (registered, w) h = h
    registration-grows client t (account_exists, w) h = h
    registration-grows client t (refused e, w) h = h

    registering-IsForward :
        (client : Client K) (contact : List Text)
        → Moves (λ w. registration ca solver host keys fs client (ca.register client contact w))
    registering-IsForward client contact = record {
      grows = λ w.
          registration-grows client (host.now w) (ca.register client contact w)
            (clock.register client contact w);
    }

    pub acme_client-IsForward : (m : DnsCert K) → Moves (acme_client ca solver host keys fs m)
    unfolding acme_client
    acme_client-IsForward m = search (forward_rules, account_key-IsForward, registering-IsForward)

    close_on_error-grows :
        (tmp : Text) (t : Time) (r : Result (Unit {0}) × W)
        → t ≤ host.now r.1
        → t ≤ host.now (close_on_error keys fs tmp r).1
    close_on_error-grows tmp t (ok u, w) h = h
    close_on_error-grows tmp t (err e, w) h = le_trans host.now h ((clock.close tmp).grows w)

    closing-IsForward :
        (tmp : Text) {m : Io W (Unit {0})} → Moves m → Moves (λ w. close_on_error keys fs tmp (m w))
    closing-IsForward tmp {m} h = record {
      grows = λ w. close_on_error-grows tmp (host.now w) (m w) (h.grows w);
    }

    write_and_rename-IsForward :
        (path contents tmp : Text) → Moves (write_and_rename keys fs path contents tmp)
    unfolding write_and_rename
    write_and_rename-IsForward path contents tmp =
        search
          (forward_rules, closing-IsForward, clock.chmod, clock.write, clock.close, clock.rename)
          depth 20

    remove_grows : (tmp : Text) (w : W) → host.now w ≤ host.now (fs.remove tmp w).1
    remove_grows tmp w = (clock.remove tmp).grows w

    pub store-IsForward :
        (m : DnsCert K) (key : K) (chain : Chain) → Moves (store keys fs m key chain)
    unfolding store
    store-IsForward m key chain =
        search
          (
            forward_rules, IsForward-deferred, remove_grows, clock.mkdir_all, clock.create_temp,
            write_and_rename-IsForward,
          )
          depth 20
