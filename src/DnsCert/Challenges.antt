-- ===== src/DnsCert/Challenges.antt =====
-- The calls that a manager makes of its solver while it answers challenges.
use nitrokit.Prelude.{◌≡◌, refl, ap, ◌∙◌, Option, none, some, List, [], ◌∷◌, ◌++◌, append_assoc}
use nitrokit.Text.{Text, codes}
use nitrokit.Result.{Result, ok, err, Io, ◌>>=◌, ◌>>◌, wrap, wrapped, deferred, and_then}
use nitrokit.DnsCert.{Solver, Authorization, Challenge, Client, Authority, Host}
use nitrokit.DnsCert.Obtain.{
  log_failure, cleanup, answer_challenge, solve_with, solve_authorization, solve_all,
}
use nitrokit.DnsCert.Recorded.{
  TxtCall, set_ok, set_failed, cleanup_call, done, refusal, round, Traced, set_call, recording,
  beside_authority, beside_host, Adds, IsPaired, IsQuiet, IsPaired->>=, paired_rules, quiet_rules,
}

module _ {W K : Type 0} (ca : Authority W K) (solver : Solver W) (host : Host W) where
  -- The model under the recorder.
  abbrev ca' : Authority (Traced W) K
  ca' = beside_authority ca

  abbrev solver' : Solver (Traced W)
  solver' = recording solver

  abbrev host' : Host (Traced W)
  host' = beside_host host

  log_failure-quiet :
      (what : Text) (t : List TxtCall) (x : Result (Unit {0}) × W)
      → (log_failure ca' solver' host' what (x.0, (x.1, t))).1 ≡ t
  log_failure-quiet what t (ok u, w) = refl
  log_failure-quiet what t (err e, w) = refl

  cleanup-call :
      (fqdn value : Text) (w : W) (t : List TxtCall)
      → (cleanup ca' solver' host' fqdn value (w, t)).1
        ≡ t ++ cleanup_call fqdn value (solver.cleanup_txt fqdn value w).0 ∷ []
  unfolding cleanup
  cleanup-call fqdn value w t =
      log_failure-quiet (codes "nitrokit: cleanup TXT " ++ fqdn ++ codes ": ")
        (t ++ cleanup_call fqdn value (solver.cleanup_txt fqdn value w).0 ∷ [])
        (solver.cleanup_txt fqdn value w)

  module _ (client : Client K) (zurl : Text) (chal : Challenge) (fqdn value : Text) where
    -- Between the two calls.
    abbrev validation : Io (Traced W) (Unit {0})
    validation = do
      wrapped (codes "accept challenge") (ca'.accept client chal)
      wrapped (codes "validate " ++ fqdn) (ca'.wait_authorization client zurl)

    validation-IsQuiet : IsQuiet validation
    validation-IsQuiet = search quiet_rules

    after_set :
        (t : List TxtCall) (x : Result (Unit {0}) × W)
        → Adds t
            (and_then
              (wrap (codes "set TXT " ++ fqdn) x.0, (x.1, t ++ set_call fqdn value x.0 ∷ []))
              (λ _. deferred (cleanup ca' solver' host' fqdn value) validation)).1.1
    unfolding deferred
    after_set t (err e, w) = (set_failed fqdn value ∷ [], refl, refusal fqdn value done)
    after_set t (ok u, w) =
        let set = t ++ set_ok fqdn value ∷ [] in
        let (r, (w', t')) = validation (w, set) in
        let cleaned = (solver.cleanup_txt fqdn value w').0 in
        (
          set_ok fqdn value ∷ cleanup_call fqdn value cleaned ∷ [],
          cleanup-call fqdn value w' t'
              ∙ ap (λ x. x ++ cleanup_call fqdn value cleaned ∷ []) (validation-IsQuiet.keeps w set)
              ∙ append_assoc t (set_ok fqdn value ∷ []) (cleanup_call fqdn value cleaned ∷ []),
          round fqdn value cleaned done,
        )

    pub answer_challenge-IsPaired :
        IsPaired (answer_challenge ca' solver' host' client zurl chal fqdn value)
    unfolding answer_challenge ◌>>=◌ wrapped
    answer_challenge-IsPaired = record { adds = λ w t. after_set t (solver.set_txt fqdn value w) }

  solve_with-IsPaired :
      (client : Client K) (domain zurl : Text) (authz : Authorization) (chal : Option Challenge)
      → IsPaired (solve_with ca' solver' host' client domain zurl authz chal)
  unfolding solve_with
  solve_with-IsPaired client domain zurl authz none = search (paired_rules, quiet_rules)
  solve_with-IsPaired client domain zurl authz (some chal) =
      search (paired_rules, quiet_rules, answer_challenge-IsPaired)

  solve_authorization-IsPaired :
      (client : Client K) (domain zurl : Text)
      → IsPaired (solve_authorization ca' solver' host' client domain zurl)
  unfolding solve_authorization
  solve_authorization-IsPaired client domain zurl =
      search (paired_rules, quiet_rules, solve_with-IsPaired)

  pub solve_all-IsPaired :
      (client : Client K) (domain : Text) (zurls : List Text)
      → IsPaired (solve_all ca' solver' host' client domain zurls)
  unfolding solve_all
  solve_all-IsPaired client domain [] = search (paired_rules, quiet_rules)
  solve_all-IsPaired client domain (zurl ∷ zurls) =
      IsPaired->>= (solve_authorization-IsPaired client domain zurl)
        (λ _. solve_all-IsPaired client domain zurls)
