-- ===== src/Prelude/Fallible.antt =====
-- Go's pair of a value and an error, as a sum.
use Prim.Native.Nat.{ℕ}
use mathlib.Core.Path.{◌≡◌, refl}
use mathlib.Core.Logic.{◌⊎◌, inl, inr}
use mathlib.Core.Bool.{Bool, true, false}

pub data Result {ℓ} (E : Type 0) (A : Type ℓ) : Type ℓ where
  ok : A → Result E A
  err : E → Result E A

abbrev pub map_err {ℓ} : {E F : Type 0} {A : Type ℓ} → (E → F) → Result E A → Result F A
map_err f (ok a) = ok a
map_err f (err e) = err (f e)

-- An error value from code that is not the program's own: of the program's questions about it only
-- errdefs.IsNotFound is kept.
pub data Fault : Type 0 where
  not_found : Fault
  fault : ℕ → Fault

abbrev pub is_not_found : Fault → Bool
is_not_found not_found = true
is_not_found (fault n) = false

pub Result-cases {ℓ} :
    {E : Type 0} {A : Type ℓ} (r : Result E A) → ((a : A) × (r ≡ ok a)) ⊎ ((e : E) × (r ≡ err e))
Result-cases (ok a) = inl (a, refl)
Result-cases (err e) = inr (e, refl)
