-- ===== src/Prelude/Map.antt =====
-- A Go map with string keys, as an association list without repeated keys.
use mathlib.Core.Path.{◌≡◌, refl, ap}
use mathlib.Core.Logic.{inl, inr}
use mathlib.Core.List.{List, [], ◌∷◌}
use mathlib.Core.Option.{Option, none, some}
use Prim.Native.Nat.{ℕ, zero, suc, ◌+◌, ◌≤◌}
use native.Mathlib.Omega.{arith}
use fireactions.Prelude.Tests.{if◌then◌else◌, Bool-cases}
use fireactions.Prelude.Lists.{length}
use fireactions.Prelude.Strings.{Text, text_eq, text_eq_iff, text_eq→eq}

module _ {ℓ} {V : Type ℓ} where
  -- `v, ok := m[k]`
  unfoldable pub lookup : Text → List (Text × V) → Option V
  lookup k [] = none
  lookup k ((j, v) ∷ m) = if text_eq j k then some v else lookup k m

  -- `m[k] = v`
  unfoldable pub insert : Text → V → List (Text × V) → List (Text × V)
  insert k v [] = (k, v) ∷ []
  insert k v ((j, w) ∷ m) = if text_eq j k then (k, v) ∷ m else (j, w) ∷ insert k v m

  -- `delete(m, k)`
  unfoldable pub delete : Text → List (Text × V) → List (Text × V)
  delete k [] = []
  delete k ((j, w) ∷ m) = if text_eq j k then m else (j, w) ∷ delete k m

  abbrev pub keys : List (Text × V) → List Text
  keys [] = []
  keys ((k, v) ∷ m) = k ∷ keys m

  -- Every key occurs once.
  abbrev pub Distinct : List (Text × V) → Type ℓ
  Distinct [] = Unit
  Distinct ((k, v) ∷ m) = (lookup k m ≡ none) × Distinct m

  pub lookup-insert :
      (k j : Text) (v : V) (m : List (Text × V))
      → lookup j (insert k v m) ≡ (if text_eq k j then some v else lookup j m)
  unfolding lookup insert
  lookup-insert k j v [] = refl
  lookup-insert k j v ((i, w) ∷ m) =
      ground (arith, text_eq_iff k j, text_eq_iff i k, text_eq_iff i j, lookup-insert k j v m)

  pub lookup-delete :
      (k j : Text) (m : List (Text × V))
      → Distinct m
      → lookup j (delete k m) ≡ (if text_eq k j then none else lookup j m)
  unfolding lookup delete
  lookup-delete k j [] d = ground arith
  lookup-delete k j ((i, w) ∷ m) d =
      ground (arith, text_eq_iff k j, text_eq_iff i k, text_eq_iff i j, lookup-delete k j m)

  pub insert-Distinct :
      (k : Text) (v : V) (m : List (Text × V)) → Distinct m → Distinct (insert k v m)
  unfolding insert lookup
  insert-Distinct k v [] d = (refl, tt)
  insert-Distinct k v ((j, w) ∷ m) d =
      ground (arith, text_eq_iff j k, text_eq_iff k j, lookup-insert k j v m, insert-Distinct k v m)

  pub delete-Distinct : (k : Text) (m : List (Text × V)) → Distinct m → Distinct (delete k m)
  unfolding delete
  delete-Distinct k [] d = tt
  delete-Distinct k ((j, w) ∷ m) d =
      ground (arith, text_eq_iff k j, lookup-delete k j m, delete-Distinct k m)

  -- The size of the map after an operation.
  pub length-insert_new :
      (k : Text) (v : V) (m : List (Text × V))
      → lookup k m ≡ none
      → length (insert k v m) ≡ length m + 1
  unfolding lookup insert
  length-insert_new k v [] h = omega arith
  length-insert_new k v ((j, w) ∷ m) h = ground (arith, length-insert_new k v m)

  pub length-delete :
      (k : Text) (v : V) (m : List (Text × V))
      → lookup k m ≡ some v
      → length (delete k m) + 1 ≡ length m
  unfolding lookup delete
  length-delete k v [] h = cc
  length-delete k v ((j, w) ∷ m) h = ground (arith, length-delete k v m)

-- A key that a map does not have: longer than each of its keys.
pad : ℕ → Text
pad zero = []
pad (suc n) = 0 ∷ pad n

key_bound {ℓ} : {V : Type ℓ} → List (Text × V) → ℕ
key_bound [] = 0
key_bound ((k, v) ∷ m) = suc (length k) + key_bound m

length-pad : (n : ℕ) → length (pad n) ≡ n
unfolding pad
length-pad zero = refl
length-pad (suc n) = ap suc (length-pad n)

lookup-pad {ℓ} :
    {V : Type ℓ} (n : ℕ) (m : List (Text × V)) → key_bound m ≤ n → lookup (pad n) m ≡ none
unfolding lookup key_bound
lookup-pad n [] h = refl
lookup-pad n ((k, v) ∷ m) h = elim (Bool-cases (text_eq k (pad n))) [
  | inl e ↦ let same = ap length (text_eq→eq k (pad n) e) in absurd (omega (arith, length-pad n))
  | inr e ↦ rw (e, lookup) (lookup-pad n m (omega arith))
]

pub fresh_key {ℓ} : {V : Type ℓ} (m : List (Text × V)) → (k : Text) × (lookup k m ≡ none)
fresh_key m = (pad (key_bound m), lookup-pad (key_bound m) m (omega arith))
