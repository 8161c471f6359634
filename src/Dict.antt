-- ===== src/Dict.antt =====
-- Go's maps with comparable keys: ratelimit.go, faillimit.go and assets.go keep one each. The
-- order of a Go map is unspecified; where a loop over one depends on it the order is an argument.
use nitrokit.Prelude.{
  ◌+◌, ◌≤◌, ◌≡◌, refl, ◌↔◌, Bool, true, Option, none, some, List, [], ◌∷◌, arith, length,
  if◌then◌else◌,
}
pub mod Reordering

-- Decidable equality of keys.
pub record Eq {ℓ} (A : Type ℓ) : Type ℓ where
  pub beq : A → A → Bool
  pub beq_iff : (a b : A) → (beq a b ≡ true) ↔ (a ≡ b)

infix 50 ◌≟◌
abbrev pub ◌≟◌ {ℓ} : {A : Type ℓ} ⦃e : Eq A⦄ → A → A → Bool
◌≟◌ ⦃e⦄ = e.beq

pub beq_refl {ℓ} : {A : Type ℓ} ⦃e : Eq A⦄ (a : A) → (a ≟ a) ≡ true
beq_refl ⦃e⦄ a = (e.beq_iff a a).1 refl

abbrev pub Dict {ℓ κ} : Type ℓ → Type κ → Type (ℓ ⊔ κ)
Dict K V = List (K × V)

-- What `delete_if` leaves of an entry.
abbrev pub keep_unless {κ} : {V : Type κ} → (V → Bool) → Option V → Option V
keep_unless drop none = none
keep_unless drop (some v) = if drop v then none else some v

module _ {ℓ κ} {K : Type ℓ} {V : Type κ} ⦃e : Eq K⦄ where
  -- v, ok := m[k]
  unfoldable pub lookup : K → Dict K V → Option V
  lookup k [] = none
  lookup k ((j, v) ∷ m) = if j ≟ k then some v else lookup k m

  -- delete(m, k)
  unfoldable pub delete : K → Dict K V → Dict K V
  delete k [] = []
  delete k ((j, v) ∷ m) = let rest = delete k m in if j ≟ k then rest else (j, v) ∷ rest

  -- m[k] = v
  unfoldable pub insert : K → V → Dict K V → Dict K V
  insert k v [] = (k, v) ∷ []
  insert k v ((j, w) ∷ m) = if j ≟ k then (j, v) ∷ m else (j, w) ∷ insert k v m

  -- for k, v := range m { if drop(v) { delete(m, k) } }: every entry is visited once, and what is
  -- deleted does not depend on the order.
  unfoldable pub delete_if : (V → Bool) → Dict K V → Dict K V
  delete_if drop [] = []
  delete_if drop ((j, v) ∷ m) =
      let rest = delete_if drop m in if drop v then rest else (j, v) ∷ rest

  pub lookup-insert :
      (k j : K) (v : V) (m : Dict K V)
      → lookup j (insert k v m) ≡ (if k ≟ j then some v else lookup j m)
  unfolding lookup insert
  lookup-insert k j v [] = ground arith
  lookup-insert k j v ((i, w) ∷ m) =
      ground (arith, e.beq_iff k j, e.beq_iff i k, e.beq_iff i j, lookup-insert k j v m)

  pub lookup-delete :
      (k j : K) (m : Dict K V) → lookup j (delete k m) ≡ (if k ≟ j then none else lookup j m)
  unfolding lookup delete
  lookup-delete k j [] = ground arith
  lookup-delete k j ((i, w) ∷ m) =
      ground (arith, e.beq_iff k j, e.beq_iff i k, e.beq_iff i j, lookup-delete k j m)

  pub length-insert : (k : K) (v : V) (m : Dict K V) → length (insert k v m) ≤ length m + 1
  unfolding insert
  length-insert k v [] = omega arith
  length-insert k v ((i, w) ∷ m) = ground (arith, length-insert k v m)

  -- Writing to a key that is there leaves the size alone.
  pub length-insert_of_found :
      (k : K) (v w : V) (m : Dict K V) → lookup k m ≡ some w → length (insert k v m) ≡ length m
  unfolding insert lookup
  length-insert_of_found k v w [] h = cc
  length-insert_of_found k v w ((i, x) ∷ m) h = ground (arith, length-insert_of_found k v w m)

  pub length-delete : (k : K) (m : Dict K V) → length (delete k m) ≤ length m
  unfolding delete
  length-delete k [] = omega arith
  length-delete k ((i, w) ∷ m) = ground (arith, length-delete k m)

  pub length-delete_if : (drop : V → Bool) (m : Dict K V) → length (delete_if drop m) ≤ length m
  unfolding delete_if
  length-delete_if drop [] = omega arith
  length-delete_if drop ((i, w) ∷ m) = ground (arith, length-delete_if drop m)

  -- A dictionary that answers no key is empty.
  pub nil_of_lookup : (m : Dict K V) → ((k : K) → lookup k m ≡ none) → length m ≡ 0
  unfolding lookup
  nil_of_lookup [] h = refl
  nil_of_lookup ((i, w) ∷ m) h = let k = h i in ground (arith, e.beq_iff i i)

  -- No key twice: what makes an association list a Go map.
  abbrev pub Distinct : Dict K V → Type (ℓ ⊔ κ)
  Distinct [] = Unit
  Distinct ((j, v) ∷ m) = (lookup j m ≡ none) × Distinct m

  lookup-delete_if_of_absent :
      (drop : V → Bool) (k : K) (m : Dict K V)
      → lookup k m ≡ none
      → lookup k (delete_if drop m) ≡ none
  unfolding lookup delete_if
  lookup-delete_if_of_absent drop k [] h = refl
  lookup-delete_if_of_absent drop k ((i, w) ∷ m) h =
      ground (arith, lookup-delete_if_of_absent drop k m)

  pub delete_if-Distinct :
      (drop : V → Bool) (m : Dict K V) → Distinct m → Distinct (delete_if drop m)
  unfolding delete_if
  delete_if-Distinct drop [] h = tt
  delete_if-Distinct drop ((i, w) ∷ m) (absent, h) =
      ground (arith, delete_if-Distinct drop m h, lookup-delete_if_of_absent drop i m absent)

  pub insert-Distinct : (k : K) (v : V) (m : Dict K V) → Distinct m → Distinct (insert k v m)
  unfolding insert lookup
  insert-Distinct k v [] h = (refl, tt)
  insert-Distinct k v ((i, w) ∷ m) (absent, h) =
      ground (arith, insert-Distinct k v m h, lookup-insert k i v m, e.beq_iff k i, e.beq_iff i k)

  pub delete-Distinct : (k : K) (m : Dict K V) → Distinct m → Distinct (delete k m)
  unfolding delete lookup
  delete-Distinct k [] h = tt
  delete-Distinct k ((i, w) ∷ m) (absent, h) =
      ground (arith, delete-Distinct k m h, lookup-delete k i m)

  pub lookup-delete_if :
      (drop : V → Bool) (k : K) (m : Dict K V)
      → Distinct m
      → lookup k (delete_if drop m) ≡ keep_unless drop (lookup k m)
  unfolding lookup delete_if
  lookup-delete_if drop k [] h = refl
  lookup-delete_if drop k ((i, w) ∷ m) (absent, h) =
      ground
        (arith, lookup-delete_if drop k m h, lookup-delete_if_of_absent drop k m, e.beq_iff i k)
