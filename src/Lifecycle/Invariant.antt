-- ===== src/Lifecycle/Invariant.antt =====
-- What holds at every point of a run of runAll, and what it returns.
use nitrokit.Prelude.{
  ℕ, zero, suc, ◌+◌, ◌≤◌, ◌≡◌, refl, sym, ap, ◌∙◌, subst, true, false, Option, List, [], ◌∷◌, ◌++◌,
  arith, length, length-append, take, take-append, take-length, take-suc, All, map,
}
use nitrokit.Text.{Text}
use nitrokit.Lifecycle.{
  Stopped, sent_error, or_else, shutdown_error, Server, Pc, selecting, draining, collecting,
  returned, System, IsDown, Step, stops, cancelled, first_stop, shuts_down, drained, receives,
  returns, run_all, Steps, here, next,
}
use nitrokit.Lifecycle.Counts.{
  first_error, first_failure, first_late, first_error-sent, first_error-shutdown,
  first_error-append, map-snoc, serving_count, up_count, stopped, shut_down, serving_count-stopped,
  up_count-stopped, serving_count-shut_down, up_count-shut_down, length-same,
}

-- What runAll has gathered where it stands.
abbrev pub AtPc : System → Pc → Type 0
AtPc s selecting = s.shutdowns ≡ []
AtPc s (draining e k) = (e ≡ first_error (take k s.errc)) × (k ≤ length s.errc)
AtPc s (collecting e k) =
    (e ≡ first_error (take k s.errc)) × (k ≤ length s.errc) × All IsDown s.servers
AtPc s (returned r) =
    (r ≡ or_else (first_error s.errc) s.shutdown_err)
    × (serving_count s.servers ≡ 0)
    × All IsDown s.servers

pub record IsSound (n : ℕ) (s : System) : Type 0 where
  pub total : length s.servers ≡ n
  pub sends : length s.errc + serving_count s.servers ≡ n
  pub filtered : s.errc ≡ map sent_error s.exits
  pub kept : s.shutdown_err ≡ first_error (map shutdown_error s.shutdowns)
  pub shut : length s.shutdowns + up_count s.servers ≡ n
  pub at : AtPc s s.pc

All-IsDown-stopped :
    (left : List Server) (v : Server) (right : List Server)
    → All IsDown (left ++ v ∷ right)
    → All IsDown (stopped left v right)
All-IsDown-stopped [] v right h = h
All-IsDown-stopped (w ∷ left) v right (p, h) = (p, All-IsDown-stopped left v right h)

-- Another arrival changes nothing of what has been received.
AtPc-stops :
    (s : System) (exits : List Stopped) (left : List Server) (v : Server) (right : List Server)
    (e : Option Text) (p : Pc)
    → s.servers ≡ left ++ v ∷ right
    → v.serving ≡ true
    → AtPc s p
    → AtPc (record s { servers = stopped left v right; errc = s.errc ++ e ∷ []; exits = exits }) p
AtPc-stops s exits left v right e selecting h u a = a
AtPc-stops s exits left v right e (draining se k) h u (a, b) = (
  a ∙ sym (ap first_error (take-append k s.errc (e ∷ []) b)),
  omega (arith, b, length-append s.errc (e ∷ [])),
)
AtPc-stops s exits left v right e (collecting se k) h u (a, b, c) = (
  a ∙ sym (ap first_error (take-append k s.errc (e ∷ []) b)),
  omega (arith, b, length-append s.errc (e ∷ [])),
  All-IsDown-stopped left v right (subst (All IsDown) h c),
)
AtPc-stops s exits left v right e (returned r) h u (a, b, c) =
    absurd (omega (arith, b, ap serving_count h, serving_count-stopped left v right u))

serving-le : (vs : List Server) → serving_count vs ≤ length vs
serving-le [] = omega arith
serving-le (v ∷ vs) = ground (arith, serving-le vs)

pub Step-IsSound : {n : ℕ} {s t : System} → Step s t → IsSound n s → IsSound n t
Step-IsSound {s = s} (stops left v right e h u) i = record {
  total = length-same left v right (record v { serving = false }) ∙ sym (ap length h) ∙ i.total;
  sends = omega (
    arith,
    i.sends,
    ap serving_count h,
    serving_count-stopped left v right u,
    length-append s.errc (sent_error e ∷ []),
  );
  filtered = ap (λ x. x ++ sent_error e ∷ []) i.filtered ∙ sym (map-snoc sent_error s.exits e);
  kept = i.kept;
  shut = omega (arith, i.shut, ap up_count h, up_count-stopped left v right);
  at = AtPc-stops s (s.exits ++ e ∷ []) left v right (sent_error e) s.pc h u i.at;
}
Step-IsSound {s = s} (cancelled p) i = record {
  total = i.total;
  sends = i.sends;
  filtered = i.filtered;
  kept = i.kept;
  shut = i.shut;
  at = (refl, omega arith);
}
Step-IsSound {s = s} (first_stop e p g) i = record {
  total = i.total;
  sends = i.sends;
  filtered = i.filtered;
  kept = i.kept;
  shut = i.shut;
  at = let (q, l) = take-suc 0 s.errc g in (sym (ap first_error q ∙ first_error-append [] e), l);
}
Step-IsSound {s = s} (shuts_down se k left v right e p h u) i = record {
  total = length-same left v right (record v { up = false }) ∙ sym (ap length h) ∙ i.total;
  sends = omega (arith, i.sends, ap serving_count h, serving_count-shut_down left v right);
  filtered = i.filtered;
  kept =
      ap (λ x. or_else x (shutdown_error e)) i.kept
      ∙ sym (first_error-append (map shutdown_error s.shutdowns) (shutdown_error e))
      ∙ sym (ap first_error (map-snoc shutdown_error s.shutdowns e));
  shut = omega (
    arith,
    i.shut,
    ap up_count h,
    up_count-shut_down left v right u,
    length-append s.shutdowns (e ∷ []),
  );
  at =
      subst
        (AtPc (record s {
          servers = shut_down left v right;
          shutdown_err = or_else s.shutdown_err (shutdown_error e);
          shutdowns = s.shutdowns ++ e ∷ [];
        }))
        (sym p) (subst (AtPc s) p i.at);
}
Step-IsSound {s = s} (drained se k p h) i = record {
  total = i.total;
  sends = i.sends;
  filtered = i.filtered;
  kept = i.kept;
  shut = i.shut;
  at = let (a, b) = subst (AtPc s) p i.at in (a, b, h);
}
Step-IsSound {s = s} (receives se k e p h g) i = record {
  total = i.total;
  sends = i.sends;
  filtered = i.filtered;
  kept = i.kept;
  shut = i.shut;
  at =
      let (a, b, c) = subst (AtPc s) p i.at in
      let (q, l) = take-suc k s.errc g in
      (
        ap (λ x. or_else x e) a ∙ sym (ap first_error q ∙ first_error-append (take k s.errc) e),
        l,
        c,
      );
}
Step-IsSound {s = s} (returns se k p h) i = record {
  total = i.total;
  sends = i.sends;
  filtered = i.filtered;
  kept = i.kept;
  shut = i.shut;
  at =
      let (a, b, c) = subst (AtPc s) p i.at in
      let full : k ≡ length s.errc = omega (arith, b, h, i.sends, i.total) in
      (
        ap (λ x. or_else x s.shutdown_err)
            (a ∙ ap (λ j. first_error (take j s.errc)) full ∙ ap first_error (take-length s.errc)),
        omega (arith, full, h, i.sends, i.total),
        c,
      );
}

pub serving_count-fresh : (n : ℕ) → serving_count (run_all n).servers ≡ n
serving_count-fresh zero = refl
serving_count-fresh (suc n) = ap suc (serving_count-fresh n)

pub up_count-fresh : (n : ℕ) → up_count (run_all n).servers ≡ n
up_count-fresh zero = refl
up_count-fresh (suc n) = ap suc (up_count-fresh n)

pub length-fresh : (n : ℕ) → length (run_all n).servers ≡ n
length-fresh zero = refl
length-fresh (suc n) = ap suc (length-fresh n)

run_all-IsSound : (n : ℕ) → IsSound n (run_all n)
run_all-IsSound n = record {
  total = length-fresh n;
  sends = omega (arith, serving_count-fresh n);
  filtered = refl;
  kept = refl;
  shut = omega (arith, up_count-fresh n);
  at = refl;
}

pub Steps-IsSound : {n k : ℕ} {s : System} → Steps (run_all n) k s → IsSound n s
Steps-IsSound {n} here = run_all-IsSound n
Steps-IsSound (next r st) = Step-IsSound st (Steps-IsSound r)

length-map : {A B : Type 0} (f : A → B) (xs : List A) → length (map f xs) ≡ length xs
length-map f [] = refl
length-map f (x ∷ xs) = ap suc (length-map f xs)

up_count-IsDown : (vs : List Server) → All IsDown vs → up_count vs ≡ 0
up_count-IsDown [] h = refl
up_count-IsDown (v ∷ vs) (p, h) = ground (arith, p, up_count-IsDown vs h)

-- However the goroutines interleave and whatever the servers return: when runAll has returned, no
-- server is serving any more, serving and Shutdown have returned once for every one; the result is
-- the first error that a server stopped with, other than ErrServerClosed, in the order in which they
-- stopped, and if there is none the first one that Shutdown returned, said to be one of shutdown.
pub run_all_result :
    {n k : ℕ} {s : System} {r : Option Text}
    → Steps (run_all n) k s
    → s.pc ≡ returned r
    → (serving_count s.servers ≡ 0)
      × All IsDown s.servers
      × (length s.exits ≡ n)
      × (length s.shutdowns ≡ n)
      × (r ≡ or_else (first_failure s.exits) (first_late s.shutdowns))
run_all_result {s = s} steps p =
    let i = Steps-IsSound steps in
    let (a, b, c) = subst (AtPc s) p i.at in
    (
      b,
      c,
      omega (arith, b, i.sends, ap length i.filtered, length-map sent_error s.exits),
      omega (arith, i.shut, up_count-IsDown s.servers c),
      a
          ∙ ap (λ x. or_else (first_error x) s.shutdown_err) i.filtered
          ∙ ap (λ x. or_else x s.shutdown_err) (first_error-sent s.exits)
          ∙ ap (or_else (first_failure s.exits)) (i.kept ∙ first_error-shutdown s.shutdowns),
    )
