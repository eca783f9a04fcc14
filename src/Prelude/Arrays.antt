-- ===== src/Prelude/Arrays.antt =====
-- Arrays of pointers: reading after a write, and the number of places that are not NULL.
use fapolicyd.Prelude.Tests.{◌==◌, if◌then◌else◌}
use fapolicyd.Prelude.Lists.{length, get_or, set, replicate}
use Prim.Native.Nat.{ℕ, zero, suc, ◌+◌, ◌<◌}
use mathlib.Core.Path.{◌≡◌, refl}
use mathlib.Core.Option.{Option, none, some}
use mathlib.Core.List.{List, [], ◌∷◌}
use native.Mathlib.Omega.{arith}

module _ {ℓ} {A : Type ℓ} where
  pub get_or-set :
      (xs : List A) (i j : ℕ) (v d : A)
      → i < length xs
      → get_or (set xs i v) j d ≡ (if i == j then v else get_or xs j d)
  get_or-set [] i j v d h = absurd (omega arith)
  get_or-set (x ∷ xs) zero zero v d h = refl
  get_or-set (x ∷ xs) zero (suc j) v d h = ground arith
  get_or-set (x ∷ xs) (suc i) zero v d h = ground arith
  get_or-set (x ∷ xs) (suc i) (suc j) v d h = ground (arith, get_or-set xs i j v d)

  pub get_or-set_same :
      (xs : List A) (i : ℕ) (v d : A) → i < length xs → get_or (set xs i v) i d ≡ v
  get_or-set_same xs i v d h = rw (get_or-set xs i i v d h) (ground arith)

  abbrev pub weight : Option A → ℕ
  weight none = 0
  weight (some x) = 1

  abbrev pub used : List (Option A) → ℕ
  used [] = 0
  used (x ∷ xs) = weight x + used xs

  pub used-set :
      (xs : List (Option A)) (i : ℕ) (v : Option A)
      → i < length xs
      → used (set xs i v) + weight (get_or xs i none) ≡ used xs + weight v
  used-set [] i v h = absurd (omega arith)
  used-set (x ∷ xs) zero v h = omega arith
  used-set (x ∷ xs) (suc i) v h = omega (arith, used-set xs i v (omega arith))

pub used-replicate {ℓ} : (A : Type ℓ) (n : ℕ) → used (replicate {A = Option A} n none) ≡ 0
used-replicate A zero = refl
used-replicate A (suc n) = omega (arith, used-replicate A n)
