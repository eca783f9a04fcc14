-- ===== src/StringUtil.antt =====
-- src/library/string-util.c: the trimming of strings.
use fapolicyd.Prelude.{◌||◌, Bool, ◌&&◌, ℕ, [], ◌∷◌, ◌==◌, leb, if◌then◌else◌}
use fapolicyd.Prelude.Bytes.{Bytes}

-- `isspace` in the C locale.
unfoldable pub isspace : ℕ → Bool
isspace c = c == 32 || leb 9 c && leb c 13

unfoldable pub trim_start : Bytes → Bytes
unfolding isspace
trim_start [] = []
trim_start (c ∷ s) = if isspace c then trim_start s else c ∷ s

-- A byte before the string that is left.
unfoldable pub after_trim : ℕ → Bytes → Bytes
unfolding isspace
after_trim c [] = if isspace c then [] else c ∷ []
after_trim c (d ∷ s) = c ∷ d ∷ s

unfoldable pub trim_end : Bytes → Bytes
unfolding after_trim
trim_end [] = []
trim_end (c ∷ s) = after_trim c (trim_end s)

-- `fapolicyd_strtrim` of a string.
unfoldable pub fapolicyd_strtrim : Bytes → Bytes
unfolding trim_start trim_end
fapolicyd_strtrim s = trim_end (trim_start s)
