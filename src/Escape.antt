-- ===== src/Escape.antt =====
-- src/library/escape.c and escape.h: the escaping of paths for the shell, as trust files and logs
-- hold them. A buffer is the bytes before its NUL.
pub mod RoundTrip
mod Tests
use fapolicyd.Prelude.{
  ℕ, zero, suc, ◌+◌, ◌*◌, ◌-◌, ◌/◌, ◌%◌, Bool, true, false, not, ◌&&◌, ◌||◌, Option, none, some,
  List, [], ◌∷◌, ◌++◌, ◌==◌, ltb, leb, length, if◌then◌else◌,
}
use fapolicyd.Prelude.Words.{u64_mod}
use fapolicyd.Prelude.Bytes.{Bytes}

-- `strchr(sh_set, c)` for a byte that is not NUL: " ' ` $ \ ! ( ) | and the blank.
unfoldable pub in_sh_set : ℕ → Bool
in_sh_set c =
    c == 34
    || c == 39
    || c == 96
    || c == 36
    || c == 92
    || c == 33
    || c == 40
    || c == 41
    || c == 124
    || c == 32

unfoldable pub escape_shell_width : ℕ → ℕ
unfolding in_sh_set
escape_shell_width c = if ltb c 32 then 4 else if in_sh_set c then 2 else 1

-- The loop of `escape_shell_size` from the sum and the flag that it has come to.
unfoldable pub size_from : ℕ → Bool → Bytes → ℕ × Bool
unfolding escape_shell_width
size_from output_size needs_escape [] = (output_size, needs_escape)
size_from output_size needs_escape (c ∷ s) =
    let width = escape_shell_width c in
    let needs = if ltb 1 width then true else needs_escape in
    let rest = size_from (output_size + width) needs s in
    if ltb (u64_mod - 1 - width) output_size then (u64_mod - 1, needs) else rest

unfoldable pub check_escape_shell : Option Bytes → ℕ
unfolding size_from
check_escape_shell none = 0
check_escape_shell (some s) =
    let (output_size, needs_escape) = size_from 0 false s in if needs_escape then output_size else 0

-- What the loop of `escape_shell_into` writes for one byte.
unfoldable pub encode : ℕ → Bytes
unfolding escape_shell_width
encode c =
    let width = escape_shell_width c in
    if width == 4
    then 92 ∷ (48 + c / 64 % 4) ∷ (48 + c / 8 % 8) ∷ (48 + c % 8) ∷ []
    else if width == 2
    then 92 ∷ c ∷ []
    else c ∷ []

-- The loop with the room that is left, `output_capacity - output_pos`; `none` is SIZE_MAX.
unfoldable pub into_from : ℕ → Bytes → Option Bytes
unfolding encode
into_from room [] = some []
into_from room (c ∷ s) =
    let width = escape_shell_width c in
    let rest = into_from (room - width) s in
    if leb room width then none else elim rest [ none ↦ none | some out ↦ some (encode c ++ out) ]

unfoldable pub escape_shell_into : Bytes → ℕ → Option Bytes
unfolding into_from
escape_shell_into input output_capacity =
    if output_capacity == 0 then none else into_from output_capacity input

abbrev pub max_size : ℕ
max_size = 8192

unfoldable pub escape_shell : Option Bytes → ℕ → Option Bytes
unfolding escape_shell_into
escape_shell none expected_size = none
escape_shell (some input) expected_size =
    if leb max_size expected_size
    then none
    else elim (escape_shell_into input (expected_size + 1)) [
      | none ↦ none
      | some out ↦ if length out == expected_size then some out else none
    ]

abbrev pub isoctal : ℕ → Bool
isoctal a = a / 8 == 6

-- The byte that the loop of `unescape_shell` writes at a position, and how many bytes it steps over
-- besides the first.
unfoldable pub decode : ℕ → Bytes → ℕ × ℕ
decode c [] = (c, 0)
decode c (a ∷ []) = if c == 92 && not (isoctal a) then (a, 1) else (c, 0)
decode c (a ∷ b ∷ []) = if c == 92 && not (isoctal a) then (a, 1) else (c, 0)
decode c (a ∷ b ∷ d ∷ s) =
    if c == 92 && isoctal a && isoctal b && isoctal d
    then ((64 * (a % 8) + 8 * (b % 8) + d % 8) % 256, 3)
    else if c == 92 && not (isoctal a)
    then (a, 1)
    else (c, 0)

-- The loop, with the number of bytes that are still to be stepped over.
unfoldable pub unescape_from : ℕ → Bytes → Bytes
unfolding decode
unescape_from skip [] = []
unescape_from (suc skip) (c ∷ s) = unescape_from skip s
unescape_from zero (c ∷ s) = let (byte, skip) = decode c s in byte ∷ unescape_from skip s

-- The string in place of `s`, or `none` if the buffer has no room for its NUL.
unfoldable pub unescape_shell : Bytes → ℕ → Option Bytes
unfolding unescape_from
unescape_shell s capacity = if leb capacity (length s) then none else some (unescape_from 0 s)
