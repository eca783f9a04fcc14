-- ===== src/Escape/RoundTrip.antt =====
-- What is escaped for the shell is read back as it was.
use fapolicyd.Prelude.{
  ℕ, ◌+◌, ◌-◌, ◌/◌, ◌%◌, ◌≡◌, ◌≢◌, ◌≤◌, ◌<◌, refl, ap, ◌∙◌, Bool, true, false, some, [], ◌∷◌, ◌++◌,
  arith, length, length-append, ◌==◌, ltb, if◌then◌else◌, Bool-cases, ◌⊎◌, inl, inr,
}
use fapolicyd.Prelude.Words.{u64_mod}
use fapolicyd.Prelude.Bytes.{Bytes}
use fapolicyd.Escape.{
  in_sh_set, escape_shell_width, size_from, check_escape_shell, encode, into_from,
  escape_shell_into, escape_shell, decode, unescape_from, unescape_shell, max_size,
}

-- The escaped string, with no buffer.
unfoldable pub escaped : Bytes → Bytes
escaped [] = []
escaped (c ∷ s) = encode c ++ escaped s

-- The bytes of a C string.
abbrev pub IsString : Bytes → Type 0
IsString [] = Unit
IsString (c ∷ s) = (0 < c) × (c < 256) × IsString s

length-encode : (c : ℕ) → length (encode c) ≡ escape_shell_width c
unfolding encode escape_shell_width
length-encode c = ground arith

width_cases :
    (c : ℕ)
    → (escape_shell_width c ≡ 4) × (c < 32)
      ⊎ ((escape_shell_width c ≡ 2) × (in_sh_set c ≡ true))
      ⊎ ((escape_shell_width c ≡ 1) × (in_sh_set c ≡ false))
unfolding escape_shell_width
width_cases c = elim (Bool-cases (ltb c 32)) [
  | inl h ↦ ground (arith, h)
  | inr h ↦ elim (Bool-cases (in_sh_set c)) [
    | inl k ↦ ground (arith, h, k)
    | inr k ↦ ground (arith, h, k)
  ]
]

decode-escaped : (c : ℕ) (s : Bytes) → (c / 8 == 6) ≡ false → decode 92 (c ∷ s) ≡ (c, 1)
unfolding decode
decode-escaped c [] h = rw (h) refl
decode-escaped c (a ∷ []) h = rw (h) refl
decode-escaped c (a ∷ b ∷ s) h = rw (h) refl

decode-plain : (c : ℕ) (s : Bytes) → (c == 92) ≡ false → decode c s ≡ (c, 0)
unfolding decode
decode-plain c [] h = refl
decode-plain c (a ∷ []) h = rw (h) refl
decode-plain c (a ∷ b ∷ []) h = rw (h) refl
decode-plain c (a ∷ b ∷ d ∷ s) h = rw (h) refl

set-not_octal : (c : ℕ) → in_sh_set c ≡ true → (c / 8 == 6) ≡ false
unfolding in_sh_set
set-not_octal c h = ground arith

not_set-plain : (c : ℕ) → in_sh_set c ≡ false → (c == 92) ≡ false
unfolding in_sh_set
not_set-plain c h = ground arith

decode-octal :
    (c : ℕ) (s : Bytes)
    → c < 256
    → decode 92 ((48 + c / 64 % 4) ∷ (48 + c / 8 % 8) ∷ (48 + c % 8) ∷ s) ≡ (c, 3)
unfolding decode
decode-octal c s h = ground arith

unescape-encode :
    (c : ℕ) (s : Bytes) → c < 256 → unescape_from 0 (encode c ++ s) ≡ c ∷ unescape_from 0 s
unfolding encode unescape_from
unescape-encode c s h = elim (width_cases c) [
  | inl (w, k) ↦ rw (encode, w, decode-octal c s h) refl
  | inr (inl (w, k)) ↦ rw (encode, w, decode-escaped c s (set-not_octal c k)) refl
  | inr (inr (w, k)) ↦ rw (encode, w, decode-plain c s (not_set-plain c k)) refl
]

unescape-escaped : (s : Bytes) → IsString s → unescape_from 0 (escaped s) ≡ s
unfolding escaped unescape_from
unescape-escaped [] h = refl
unescape-escaped (c ∷ s) (h0, h, hs) =
    unescape-encode c (escaped s) h ∙ ap (◌∷◌ c) (unescape-escaped s hs)

width-pos : (c : ℕ) → (0 < escape_shell_width c) × (escape_shell_width c ≤ 4)
unfolding escape_shell_width
width-pos c = ground (arith, width_cases c)

-- The size, if it does not overflow.
size_from-length :
    (s : Bytes) (n : ℕ) (b : Bool)
    → (size_from n b s).0 < u64_mod - 1
    → (size_from n b s).0 ≡ n + length (escaped s)
unfolding size_from escaped
size_from-length [] n b h = omega arith
size_from-length (c ∷ s) n b h =
    let width = escape_shell_width c in
    ground (
      arith,
      width-pos c,
      length-encode c,
      length-append (encode c) (escaped s),
      size_from-length s (n + width) (if ltb 1 width then true else b),
    )

into_from-escaped :
    (s : Bytes) (room : ℕ) → length (escaped s) < room → into_from room s ≡ some (escaped s)
unfolding into_from escaped
into_from-escaped [] room h = refl
into_from-escaped (c ∷ s) room h = ground (
  arith,
  width-pos c,
  length-encode c,
  length-append (encode c) (escaped s),
  into_from-escaped s (room - escape_shell_width c),
)

-- A string that is to be escaped, to fewer than MAX_SIZE bytes, is escaped to as many bytes as
-- `check_escape_shell` says, and `unescape_shell` gives it back from any buffer that holds it.
pub unescape-escape_shell :
    (s : Bytes) (capacity : ℕ)
    → IsString s
    → check_escape_shell (some s) ≢ 0
    → check_escape_shell (some s) < max_size
    → check_escape_shell (some s) < capacity
    → (out : Bytes) × (escape_shell (some s) (check_escape_shell (some s)) ≡ some out)
      × (length out ≡ check_escape_shell (some s))
      × (unescape_shell out capacity ≡ some s)
unfolding check_escape_shell escape_shell escape_shell_into unescape_shell
unescape-escape_shell s capacity h n b k = (
  escaped s,
  ground (arith, size_from-length s 0 false, into_from-escaped s (check_escape_shell (some s) + 1)),
  ground (arith, size_from-length s 0 false),
  ground (arith, size_from-length s 0 false, unescape-escaped s h),
)
