-- ===== src/TrustFile/Digits.antt =====
-- The sizes that `snprintf` writes, as `strtoull` reads them.
use fapolicyd.Prelude.{
  ℕ, zero, suc, ◌+◌, ◌*◌, ◌/◌, ◌%◌, ◌≡◌, ◌≤◌, ◌<◌, refl, ap, ◌∙◌, Bool, true, false, ◌&&◌, some, [],
  ◌∷◌, ◌++◌, arith, ◌==◌, ltb, leb, length, Bool-cases, inl, inr,
}
use fapolicyd.Prelude.Words.{u64_mod}
use fapolicyd.Prelude.Bytes.{Bytes, has_prefix}
use fapolicyd.StringUtil.{isspace, trim_start}
use fapolicyd.TrustFile.{digits, digits_value, in_range, magnitude, strtoull}

-- The numbers of so many digits.
unfoldable pub pow10 : ℕ → ℕ
pow10 zero = 1
pow10 (suc n) = 10 * pow10 n

abbrev pub is_digit : ℕ → Bool
is_digit c = leb 48 c && leb c 57

unfoldable pub all_digits : Bytes → Bool
all_digits [] = true
all_digits (c ∷ s) = is_digit c && all_digits s

abbrev pub is_nonempty : Bytes → Bool
is_nonempty [] = false
is_nonempty (c ∷ s) = true

value-digit :
    (acc k : ℕ) (rest : Bytes)
    → k < 10
    → digits_value acc ((48 + k) ∷ rest) ≡ digits_value (acc * 10 + k) rest
unfolding digits_value
value-digit acc k rest h =
    let e : (leb 48 (48 + k) && leb (48 + k) 57) ≡ true = ground arith in
    simp e (ap (λ n. digits_value n rest) (omega arith))

value-digits :
    (fuel n : ℕ) (rest : Bytes)
    → n < pow10 fuel
    → all_digits rest ≡ true
    → digits_value 0 (digits fuel n rest) ≡ digits_value n rest
unfolding digits pow10 all_digits
value-digits zero n rest h d = ap (λ k. digits_value k rest) (omega arith)
value-digits (suc fuel) n rest h d = elim (Bool-cases (ltb n 10)) [
  | inl e ↦
      simp e (value-digit 0 n rest (ground arith) ∙ ap (λ k. digits_value k rest) (omega arith))
  | inr e ↦ simp e (
      value-digits fuel (n / 10) ((48 + n % 10) ∷ rest) (omega arith) (ground arith)
      ∙ value-digit (n / 10) (n % 10) rest (omega arith)
      ∙ ap (λ k. digits_value k rest) (omega arith))
]

pub one_digit : (fuel n : ℕ) (rest : Bytes) → n < 10 → digits (suc fuel) n rest ≡ (48 + n) ∷ rest
unfolding digits
one_digit fuel n rest h = let e : ltb n 10 ≡ true = ground arith in simp e refl

pub digits-append : (fuel n : ℕ) (a b : Bytes) → digits fuel n (a ++ b) ≡ digits fuel n a ++ b
unfolding digits
digits-append zero n a b = refl
digits-append (suc fuel) n a b = elim (Bool-cases (ltb n 10)) [
  | inl e ↦ simp e refl
  | inr e ↦ simp e (digits-append fuel (n / 10) ((48 + n % 10) ∷ a) b)
]

pub digits-all_digits :
    (fuel n : ℕ) (rest : Bytes) → all_digits rest ≡ true → all_digits (digits fuel n rest) ≡ true
unfolding digits all_digits
digits-all_digits zero n rest h = h
digits-all_digits (suc fuel) n rest h = elim (Bool-cases (ltb n 10)) [
  | inl e ↦ simp e (ground arith)
  | inr e ↦ simp e (digits-all_digits fuel (n / 10) ((48 + n % 10) ∷ rest) (ground arith))
]

digits-nonempty :
    (fuel n : ℕ) (rest : Bytes) → is_nonempty rest ≡ true → is_nonempty (digits fuel n rest) ≡ true
unfolding digits
digits-nonempty zero n rest h = h
digits-nonempty (suc fuel) n rest h = elim (Bool-cases (ltb n 10)) [
  | inl e ↦ simp e refl
  | inr e ↦ simp e (digits-nonempty fuel (n / 10) ((48 + n % 10) ∷ rest) refl)
]

pub digits_are_nonempty : (fuel n : ℕ) → is_nonempty (digits (suc fuel) n []) ≡ true
unfolding digits
digits_are_nonempty fuel n = elim (Bool-cases (ltb n 10)) [
  | inl e ↦ simp e refl
  | inr e ↦ simp e (digits-nonempty fuel (n / 10) ((48 + n % 10) ∷ []) refl)
]

pub length-digits : (fuel n : ℕ) (rest : Bytes) → length (digits fuel n rest) ≤ fuel + length rest
unfolding digits
length-digits zero n rest = omega arith
length-digits (suc fuel) n rest = elim (Bool-cases (ltb n 10)) [
  | inl e ↦ simp e (omega arith)
  | inr e ↦ simp e (omega (arith, length-digits fuel (n / 10) ((48 + n % 10) ∷ rest)))
]

u64-pow10 : u64_mod < pow10 20
unfolding pow10
u64-pow10 = omega arith

-- A string of digits alone has no blank and no sign.
signed_value-digits :
    (s : Bytes) → all_digits s ≡ true → is_nonempty s ≡ true → strtoull s ≡ magnitude s
unfolding strtoull all_digits trim_start isspace
signed_value-digits [] d h = cc
signed_value-digits (c ∷ s) d h =
    let no_blank : isspace c ≡ false = ground arith in
    let no_sign : (c == 45) ≡ false = ground arith in
    let no_plus : (c == 43) ≡ false = ground arith in simp (no_blank, no_sign, no_plus) refl

pub no_minus : (s : Bytes) → all_digits s ≡ true → has_prefix (45 ∷ []) s ≡ false
unfolding all_digits has_prefix
no_minus [] d = refl
no_minus (c ∷ s) d = ground arith

in_range_lt : (n : ℕ) → n < u64_mod → in_range (some n) ≡ some n
in_range_lt n h = ground arith

magnitude-digits :
    (s : Bytes) (n : ℕ)
    → is_nonempty s ≡ true
    → digits_value 0 s ≡ some n
    → n < u64_mod
    → magnitude s ≡ some n
unfolding magnitude
magnitude-digits [] n h e k = cc
magnitude-digits (c ∷ s) n h e k = ap in_range e ∙ in_range_lt n k

-- The digits of a size are read back.
pub strtoull-digits : (n : ℕ) → n < u64_mod → strtoull (digits 20 n []) ≡ some n
unfolding digits_value all_digits
strtoull-digits n h =
    let s = digits 20 n [] in
    let d = digits-all_digits 20 n [] refl in
    let e = digits_are_nonempty 19 n in
    signed_value-digits s d e
    ∙ magnitude-digits s n e (value-digits 20 n [] (omega (arith, u64-pow10)) refl ∙ refl) h
