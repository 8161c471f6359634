-- ===== src/Result/Forward.antt =====
-- Code that does not turn a clock of the world back.
use nitrokit.Prelude.{◌≤◌, arith, Bool, true, false, if◌then◌else◌}
use nitrokit.Text.{Text}
use nitrokit.Clock.{Time}
use nitrokit.Result.{Result, ok, err, Io, and_then, ◌>>=◌, return, fail, pure, wrapped, deferred}

module _ {W : Type 0} (now : W → Time) where
  pub record IsForward {A : Type 0} (m : Io W A) : Type 0 where
    pub grows : (w : W) → now w ≤ now (m w).1

  pub le_trans : {a b c : Time} → a ≤ b → b ≤ c → a ≤ c
  le_trans h k = ground arith

  le_refl : (a : Time) → a ≤ a
  le_refl a = ground arith

  module _ {A B : Type 0} {f : A → Io W B} where
    and_then_grows :
        ((a : A) → IsForward (f a))
        → (t : Time) (r : Result A × W) → t ≤ now r.1
        → t ≤ now (and_then r f).1
    and_then_grows k t (ok a, w) x = le_trans x ((k a).grows w)
    and_then_grows k t (err e, w) x = x

    pub IsForward->>= :
        {m : Io W A} → IsForward m → ((a : A) → IsForward (f a)) → IsForward (m >>= f)
    unfolding ◌>>=◌
    IsForward->>= {m} h k = record { grows = λ w. and_then_grows k (now w) (m w) (h.grows w) }

  module _ {A : Type 0} where
    pub IsForward-pure : (r : Result A) → IsForward (pure r)
    unfolding pure
    IsForward-pure r = record { grows = λ w. le_refl (now w) }

    pub IsForward-return : (a : A) → IsForward (return a)
    unfolding return
    IsForward-return a = record { grows = λ w. le_refl (now w) }

    pub IsForward-fail : (e : Text) → IsForward (fail {A = A} e)
    unfolding fail
    IsForward-fail e = record { grows = λ w. le_refl (now w) }

    pub IsForward-wrapped : (what : Text) {m : Io W A} → IsForward m → IsForward (wrapped what m)
    unfolding wrapped
    IsForward-wrapped what h = record { grows = λ w. h.grows w }

    pub IsForward-deferred :
        (last : W → W) {m : Io W A}
        → ((w : W) → now w ≤ now (last w))
        → IsForward m
        → IsForward (deferred last m)
    unfolding deferred
    IsForward-deferred last {m} l h = record { grows = λ w. le_trans (h.grows w) (l (m w).1) }

    pub IsForward-if :
        (b : Bool) {m n : Io W A} → IsForward m → IsForward n → IsForward (if b then m else n)
    IsForward-if true h k = h
    IsForward-if false h k = k

pub ruleset forward_rules = (
  IsForward->>=, IsForward-pure, IsForward-return, IsForward-fail, IsForward-wrapped, IsForward-if,
)
