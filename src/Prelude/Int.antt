-- ===== src/Prelude/Int.antt =====
-- Signed integers over the native numbers, under the library's names (its ℤ stands on the unary
-- ℕ): the `int64_t` values of the sets and the balance factors of the trees.
use fapolicyd.Prelude.Tests.{◌==◌}
use Prim.Native.Nat.{ℕ, zero, suc, compare, Ordering}
use mathlib.Core.Bool.{Bool, false}

-- `negsuc n` is -(n + 1).
pub data ℤ : Type 0 where
  pos : ℕ → ℤ
  negsuc : ℕ → ℤ

-- `x + 1` and `x - 1`
abbrev pub suc_ℤ : ℤ → ℤ
suc_ℤ (pos n) = pos (suc n)
suc_ℤ (negsuc zero) = pos 0
suc_ℤ (negsuc (suc n)) = negsuc n

abbrev pub pred_ℤ : ℤ → ℤ
pred_ℤ (pos zero) = negsuc 0
pred_ℤ (pos (suc n)) = pos n
pred_ℤ (negsuc n) = negsuc (suc n)

-- The outcome of a comparison function: negative, zero or positive.
pub data Cmp : Type 0 where
  less equal greater : Cmp

abbrev pub cmp_ℕ : ℕ → ℕ → Cmp
cmp_ℕ a b = elim (compare a b) [ Ordering.lt ↦ less | Ordering.eq ↦ equal | Ordering.gt ↦ greater ]

abbrev pub cmp_ℤ : ℤ → ℤ → Cmp
cmp_ℤ (pos a) (pos b) = cmp_ℕ a b
cmp_ℤ (pos a) (negsuc b) = greater
cmp_ℤ (negsuc a) (pos b) = less
cmp_ℤ (negsuc a) (negsuc b) = cmp_ℕ b a

abbrev pub int_eq : ℤ → ℤ → Bool
int_eq (pos a) (pos b) = a == b
int_eq (pos a) (negsuc b) = false
int_eq (negsuc a) (pos b) = false
int_eq (negsuc a) (negsuc b) = a == b
