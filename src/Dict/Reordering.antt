-- ===== src/Dict/Reordering.antt =====
-- The order of the entries of an association list, which a Go map does not have.
use mathlib.Core.Logic.{∥∥₁_elim}
use mathlib.Core.List.{Perm, Permᴰ}
use nitrokit.Prelude.{◌≡◌, refl, subst, sym, ◌∙◌, none, [], ◌∷◌, ◌++◌, arith}
use nitrokit.Dict.{Eq, Dict, lookup, insert, Distinct}

module _ {ℓ κ} {K : Type ℓ} {V : Type κ} ⦃e : Eq K⦄ where
  -- Setting a key that is not there adds it at the end.
  pub insert_of_absent :
      (k : K) (v : V) (m : Dict K V) → lookup k m ≡ none → insert k v m ≡ m ++ (k, v) ∷ []
  unfolding lookup insert
  insert_of_absent k v [] h = refl
  insert_of_absent k v ((i, w) ∷ m) h = ground (arith, insert_of_absent k v m)

  abbrev Alike : Dict K V → Dict K V → Type (ℓ ⊔ κ)
  Alike m n = ((k : K) → lookup k m ≡ lookup k n) × Distinct n

  Alike-cons :
      (i : K) (v : V) (m n : Dict K V)
      → lookup i m ≡ none
      → Alike m n
      → Alike ((i, v) ∷ m) ((i, v) ∷ n)
  unfolding lookup
  Alike-cons i v m n absent (same, h) = (λ k. ground (arith, same k), (sym (same i) ∙ absent, h))

  Alike-swap :
      (i j : K) (v w : V) (m : Dict K V)
      → Distinct ((i, v) ∷ (j, w) ∷ m)
      → Alike ((i, v) ∷ (j, w) ∷ m) ((j, w) ∷ (i, v) ∷ m)
  unfolding lookup
  Alike-swap i j v w m (absent, (absent₂, h)) = (
    λ k. ground (arith, absent, e.beq_iff i k, e.beq_iff j k, e.beq_iff j i),
    (
      ground (arith, absent, absent₂, e.beq_iff i j, e.beq_iff j i),
      (ground (arith, absent, absent₂), h),
    ),
  )

  Permᴰ-Alike : {m n : Dict K V} → Permᴰ m n → Distinct m → Alike m n
  Permᴰ-Alike Permᴰ.nil h = (λ k. refl, tt)
  Permᴰ-Alike (Permᴰ.cons {a = (i, v)} {b = b} {l₁} {l₂} p d) (absent, h) =
      subst (λ b. Alike ((i, v) ∷ l₁) (b ∷ l₂)) p (Alike-cons i v l₁ l₂ absent (Permᴰ-Alike d h))
  Permᴰ-Alike (Permᴰ.swap {a = (i, v)} {b = (j, w)} {b' = b} {l = l} p q) h =
      subst (λ a. Alike ((i, v) ∷ (j, w) ∷ l) (a ∷ b ∷ l)) q
        (subst (λ c. Alike ((i, v) ∷ (j, w) ∷ l) ((j, w) ∷ c ∷ l)) p (Alike-swap i j v w l h))
  Permᴰ-Alike (Permᴰ.trans d₁ d₂) h =
      let (same, h₁) = Permᴰ-Alike d₁ h in
      let (same₂, h₂) = Permᴰ-Alike d₂ h₁ in (λ k. same k ∙ same₂ k, h₂)

  pub lookup-Perm :
      IsSet V → {m n : Dict K V} → Perm m n → Distinct m → (k : K) → lookup k m ≡ lookup k n
  lookup-Perm set {m} {n} p h k = ∥∥₁_elim p (hlevel) (λ d. (Permᴰ-Alike d h).0 k)

  Distinct-prop : IsSet V → (m : Dict K V) → IsProp (Distinct m)
  Distinct-prop set [] = hlevel
  Distinct-prop set ((i, v) ∷ m) = let rest = Distinct-prop set m in hlevel

  pub Distinct-Perm : IsSet V → {m n : Dict K V} → Perm m n → Distinct m → Distinct n
  Distinct-Perm set {m} {n} p h = ∥∥₁_elim p (Distinct-prop set n) (λ d. (Permᴰ-Alike d h).1)
