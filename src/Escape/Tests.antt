-- ===== src/Escape/Tests.antt =====
-- A path with a blank and a line feed, and the theorem at this input.
use fapolicyd.Prelude.{◌≡◌, refl, some, [], ◌∷◌, arith, length}
use fapolicyd.Prelude.Bytes.{Bytes}
use fapolicyd.Escape.{
  in_sh_set, escape_shell_width, size_from, check_escape_shell, encode, into_from,
  escape_shell_into, escape_shell, unescape_shell,
}
use fapolicyd.Escape.RoundTrip.{unescape-escape_shell}

abbrev name : Bytes
name = 97 ∷ 32 ∷ 10 ∷ []

size_of_name : check_escape_shell (some name) ≡ 7
unfolding check_escape_shell size_from escape_shell_width in_sh_set
size_of_name = refl

escape_name : escape_shell (some name) 7 ≡ some (97 ∷ 92 ∷ 32 ∷ 92 ∷ 48 ∷ 49 ∷ 50 ∷ [])
unfolding escape_shell escape_shell_into into_from encode escape_shell_width in_sh_set
escape_name = refl

unescape-escape_shell_example :
    (out : Bytes) × (escape_shell (some name) (check_escape_shell (some name)) ≡ some out)
    × (length out ≡ check_escape_shell (some name))
    × (unescape_shell out 100 ≡ some name)
unescape-escape_shell_example =
    unescape-escape_shell name 100 (ground arith) (ground (arith, size_of_name))
      (ground (arith, size_of_name)) (ground (arith, size_of_name))
