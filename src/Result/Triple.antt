-- ===== src/Result/Triple.antt =====
-- Code on a world by what holds before it, after its result, and after its failure.
use nitrokit.Prelude.{◌≡◌, refl}
use nitrokit.Text.{Text}
use nitrokit.Result.{Result, ok, err, Io, ◌>>=◌, deferred, pure, return, and_then}

module _ {W : Type 0} where
  abbrev pub Outcome : {A : Type 0} → (A → W → Type 0) → (W → Type 0) → Result A × W → Type 0
  Outcome Q E (ok a, w) = Q a w
  Outcome Q E (err e, w) = E w

  module _ {A : Type 0} where
    pub record Triple (P : W → Type 0) (m : Io W A) (Q : A → W → Type 0) (E : W → Type 0)
        : Type 0 where
      pub ends : (w : W) → P w → Outcome Q E (m w)

    module _ {P E : W → Type 0} where
      pub Triple-pure :
          (r : Result A) → ((w : W) → P w → E w) → Triple P (pure r) (λ a w. (r ≡ ok a) × P w) E
      unfolding pure
      Triple-pure (ok a) on_error = record { ends = λ w p. (refl, p) }
      Triple-pure (err e) on_error = record { ends = λ w p. on_error w p }

    pub Triple-return :
        {Q : A → W → Type 0} {E : W → Type 0} (a : A) → Triple (λ w. Q a w) (return a) Q E
    unfolding return
    Triple-return a = record { ends = λ w p. p }

    always_ends : (x : Result A × W) → Outcome (λ a w. Unit {0}) (λ w. Unit {0}) x
    always_ends (ok a, w) = tt
    always_ends (err e, w) = tt

    -- Of code that does not matter nothing is said.
    pub Triple-any : (m : Io W A) → Triple (λ w. Unit {0}) m (λ a w. Unit {0}) (λ w. Unit {0})
    Triple-any m = record { ends = λ w p. always_ends (m w) }

  module _ {A B : Type 0} {E : W → Type 0} {Q : A → W → Type 0} {R : B → W → Type 0} where
    then_ends :
        {f : A → Io W B}
        → ((a : A) → Triple (Q a) (f a) R E)
        → (x : Result A × W) → Outcome Q E x
        → Outcome R E (and_then x f)
    then_ends k (ok a, w) q = (k a).ends w q
    then_ends k (err e, w) q = q

    pub Triple->>= :
        {P : W → Type 0} {m : Io W A} {f : A → Io W B}
        → Triple P m Q E
        → ((a : A) → Triple (Q a) (f a) R E)
        → Triple P (m >>= f) R E
    unfolding ◌>>=◌
    Triple->>= {m} h k = record { ends = λ w p. then_ends k (m w) (h.ends w p) }

module _ {W A : Type 0} where
  call_ends :
      (E : W → Type 0) (Q : A → W → Type 0) (x : Result A × W)
      → ((a : A) → x.0 ≡ ok a → Q a x.1)
      → ((e : Text) → x.0 ≡ err e → E x.1)
      → Outcome Q E x
  call_ends E Q (ok a, w) on_ok on_error = on_ok a refl
  call_ends E Q (err e, w) on_ok on_error = on_error e refl

  deferred_ends :
      (E : W → Type 0) (Q : A → W → Type 0) (last : W → W)
      → ((w : W) (a : A) → Q a w → Q a (last w))
      → ((w : W) → E w → E (last w))
      → (x : Result A × W) → Outcome Q E x
      → Outcome Q E (x.0, last x.1)
  deferred_ends E Q last on_ok on_error (ok a, w) q = on_ok w a q
  deferred_ends E Q last on_ok on_error (err e, w) q = on_error w q

  module _ {P E : W → Type 0} {Q : A → W → Type 0} where
    pub Triple-call :
        {m : Io W A}
        → ((w : W) (a : A) → P w → (m w).0 ≡ ok a → Q a (m w).1)
        → ((w : W) (e : Text) → P w → (m w).0 ≡ err e → E (m w).1)
        → Triple P m Q E
    Triple-call {m} on_ok on_error = record {
      ends = λ w p. call_ends E Q (m w) (λ a. on_ok w a p) (λ e. on_error w e p);
    }

    -- A fact that does not speak of the world.
    pub Triple-given :
        {F : Type 0} {m : Io W A} → (F → Triple P m Q E) → Triple (λ w. F × P w) m Q E
    Triple-given h = record { ends = λ w (f, p). (h f).ends w p }

    pub Triple-deferred :
        (last : W → W) {m : Io W A}
        → ((w : W) (a : A) → Q a w → Q a (last w))
        → ((w : W) → E w → E (last w))
        → Triple P m Q E
        → Triple P (deferred last m) Q E
    unfolding deferred
    Triple-deferred last {m} on_ok on_error h = record {
      ends = λ w p. deferred_ends E Q last on_ok on_error (m w) (h.ends w p);
    }

module _ {W A : Type 0} where
  Outcome-map :
      (Q Q' : A → W → Type 0) (E E' : W → Type 0) (x : Result A × W)
      → ((a : A) (w : W) → Q a w → Q' a w)
      → ((w : W) → E w → E' w)
      → Outcome Q E x
      → Outcome Q' E' x
  Outcome-map Q Q' E E' (ok a, w) on_ok on_error q = on_ok a w q
  Outcome-map Q Q' E E' (err e, w) on_ok on_error q = on_error w q

  pub Triple-map :
      {P P' E E' : W → Type 0} {Q Q' : A → W → Type 0} {m : Io W A}
      → ((w : W) → P' w → P w)
      → ((a : A) (w : W) → Q a w → Q' a w)
      → ((w : W) → E w → E' w)
      → Triple P m Q E
      → Triple P' m Q' E'
  Triple-map {m} before on_ok on_error h = record {
    ends = λ w p. Outcome-map _ _ _ _ (m w) on_ok on_error (h.ends w (before w p));
  }
