-- ===== src/Prelude/Compare.antt =====
-- The comparison functions of the trees, and the laws by which they order their values.
use mathlib.Core.Bool.{true}
use mathlib.Core.Logic.{◌↔◌}
use fapolicyd.Prelude.Bytes.{Bytes, bytes_eq, bytes_eq_iff}
use fapolicyd.Prelude.Int.{ℤ, pos, negsuc, Cmp, less, equal, greater, cmp_ℕ, cmp_ℤ}
use mathlib.Core.Path.{◌≡◌, refl}
use mathlib.Core.List.{[], ◌∷◌}
use native.Mathlib.Omega.{arith}

-- `strcmp`, of which only the sign is used.
unfoldable pub strcmp : Bytes → Bytes → Cmp
strcmp [] [] = equal
strcmp [] (b ∷ bs) = less
strcmp (a ∷ as_) [] = greater
strcmp (a ∷ as_) (b ∷ bs) = elim (cmp_ℕ a b) [
  | less ↦ less
  | equal ↦ strcmp as_ bs
  | greater ↦ greater
]

pub record IsOrder {A : Type 0} (cmp : A → A → Cmp) : Type 0 where
  pub cmp_refl : (a : A) → cmp a a ≡ equal
  pub cmp_eq : (a b : A) → cmp a b ≡ equal → a ≡ b
  pub cmp_flip : (a b : A) → cmp a b ≡ less → cmp b a ≡ greater
  pub cmp_flip' : (a b : A) → cmp a b ≡ greater → cmp b a ≡ less
  pub cmp_trans : (a b c : A) → cmp a b ≡ less → cmp b c ≡ less → cmp a c ≡ less

strcmp_refl : (a : Bytes) → strcmp a a ≡ equal
unfolding strcmp
strcmp_refl [] = refl
strcmp_refl (a ∷ r) = ground (arith, strcmp_refl r)

strcmp_eq : (a b : Bytes) → strcmp a b ≡ equal → a ≡ b
unfolding strcmp
strcmp_eq [] [] h = refl
strcmp_eq [] (b ∷ s) h = cc
strcmp_eq (a ∷ r) [] h = cc
strcmp_eq (a ∷ r) (b ∷ s) h = ground (arith, strcmp_eq r s)

strcmp_flip : (a b : Bytes) → strcmp a b ≡ less → strcmp b a ≡ greater
unfolding strcmp
strcmp_flip [] [] h = cc
strcmp_flip [] (b ∷ s) h = refl
strcmp_flip (a ∷ r) [] h = cc
strcmp_flip (a ∷ r) (b ∷ s) h = ground (arith, strcmp_flip r s)

strcmp_flip' : (a b : Bytes) → strcmp a b ≡ greater → strcmp b a ≡ less
unfolding strcmp
strcmp_flip' [] [] h = cc
strcmp_flip' [] (b ∷ s) h = cc
strcmp_flip' (a ∷ r) [] h = refl
strcmp_flip' (a ∷ r) (b ∷ s) h = ground (arith, strcmp_flip' r s)

strcmp_trans : (a b c : Bytes) → strcmp a b ≡ less → strcmp b c ≡ less → strcmp a c ≡ less
unfolding strcmp
strcmp_trans [] [] c h k = cc
strcmp_trans [] (b ∷ s) [] h k = cc
strcmp_trans [] (b ∷ s) (c ∷ t) h k = refl
strcmp_trans (a ∷ r) [] c h k = cc
strcmp_trans (a ∷ r) (b ∷ s) [] h k = cc
strcmp_trans (a ∷ r) (b ∷ s) (c ∷ t) h k = ground (arith, strcmp_trans r s t)

pub strcmp-IsOrder : IsOrder strcmp
strcmp-IsOrder = record {
  cmp_refl = strcmp_refl;
  cmp_eq = strcmp_eq;
  cmp_flip = strcmp_flip;
  cmp_flip' = strcmp_flip';
  cmp_trans = strcmp_trans;
}

cmp_ℤ_eq : (a b : ℤ) → cmp_ℤ a b ≡ equal → a ≡ b
cmp_ℤ_eq (pos a) (pos b) h = ground arith
cmp_ℤ_eq (pos a) (negsuc b) h = cc
cmp_ℤ_eq (negsuc a) (pos b) h = cc
cmp_ℤ_eq (negsuc a) (negsuc b) h = ground arith

pub cmp_ℤ-IsOrder : IsOrder cmp_ℤ
cmp_ℤ-IsOrder = record {
  cmp_refl = λ a. ground arith;
  cmp_eq = cmp_ℤ_eq;
  cmp_flip = λ a b h. ground arith;
  cmp_flip' = λ a b h. ground arith;
  cmp_trans = λ a b c h k. ground arith;
}

pub cmp_ℕ-IsOrder : IsOrder cmp_ℕ
cmp_ℕ-IsOrder = record {
  cmp_refl = λ a. ground arith;
  cmp_eq = λ a b h. ground arith;
  cmp_flip = λ a b h. ground arith;
  cmp_flip' = λ a b h. ground arith;
  cmp_trans = λ a b c h k. ground arith;
}

-- The only string that compares equal is the same one.
pub strcmp-equal : (a b : Bytes) → (strcmp a b ≡ equal) ↔ (bytes_eq a b ≡ true)
strcmp-equal a b = (
  λ e. (bytes_eq_iff a b).1 (strcmp_eq a b e),
  λ e. ground (arith, (bytes_eq_iff a b).0 e, strcmp_refl a),
)
