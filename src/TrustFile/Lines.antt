-- ===== src/TrustFile/Lines.antt =====
-- The line that `write_out_list` writes for an entry, as `parse_line_backwards` reads it.
use fapolicyd.Prelude.{
  ℕ, ◌+◌, ◌-◌, ◌≡◌, ◌≤◌, ◌<◌, refl, sym, ap, ◌∙◌, Bool, true, false, not, ◌&&◌, none, some, List,
  [], ◌∷◌, ◌++◌, arith, ◌==◌, leb, length, length-append, take,
}
use mathlib.Core.List.{append_assoc}
use fapolicyd.Prelude.Words.{u64_mod}
use fapolicyd.Prelude.Bytes.{Bytes, has_prefix}
use fapolicyd.StringUtil.{isspace, trim_end, after_trim}
use fapolicyd.TrustFile.{
  digits, buffer_size, fgets_all, split_last, check_fields, with_size, strtoull,
  parse_line_backwards, join_lines,
}
use fapolicyd.TrustFile.Digits.{
  all_digits, is_nonempty, digits-all_digits, no_minus, strtoull-digits,
}

-- No byte is white space.
unfoldable pub no_space : Bytes → Bool
unfolding isspace
no_space [] = true
no_space (c ∷ s) = not (isspace c) && no_space s

unfoldable pub no_newline : Bytes → Bool
no_newline [] = true
no_newline (c ∷ s) = not (c == 10) && no_newline s

-- A path, a size and a digest, as a file has them.
pub record Entry : Type 0 where
  pub path : Bytes
  pub size : ℕ
  pub sha : Bytes

-- The line of an entry, but for its newline.
abbrev pub text_of : Entry → Bytes
text_of e = e.path ++ (32 ∷ (digits 20 e.size [] ++ (32 ∷ e.sha)))

abbrev pub starts_entry : Bytes → Bool
starts_entry [] = false
starts_entry (c ∷ s) = leb 32 c && not (c == 127) && not (c == 35)

-- The entries that a line can hold: a path of up to PATH_MAX bytes with no newline, which does not
-- start with `#` or a control byte, a `uint64_t`, and 64 bytes that are not white space.
pub record IsWritable (e : Entry) : Type 0 where
  pub path_starts : starts_entry e.path ≡ true
  pub path_fits : length e.path ≤ 4096
  pub path_line : no_newline e.path ≡ true
  pub size_fits : e.size < u64_mod
  pub sha_length : length e.sha ≡ 64
  pub sha_text : no_space e.sha ≡ true

split_last-none : (s : Bytes) → no_space s ≡ true → split_last s ≡ none
unfolding no_space split_last isspace
split_last-none [] h = refl
split_last-none (c ∷ s) h = ground (arith, split_last-none s)

split_last-append : (a s : Bytes) → no_space s ≡ true → split_last (a ++ (32 ∷ s)) ≡ some (a, s)
unfolding split_last
split_last-append [] s h = rw (split_last-none s h) refl
split_last-append (c ∷ a) s h = rw (split_last-append a s h) refl

pub digits_no_space : (s : Bytes) → all_digits s ≡ true → no_space s ≡ true
unfolding all_digits no_space isspace
digits_no_space [] h = refl
digits_no_space (c ∷ s) h = ground (arith, digits_no_space s)

after_trim_text : (c : ℕ) (s : Bytes) → isspace c ≡ false → after_trim c s ≡ c ∷ s
unfolding after_trim
after_trim_text c [] h = simp h refl
after_trim_text c (d ∷ s) h = refl

after_trim_nonempty : (c : ℕ) (s : Bytes) → is_nonempty s ≡ true → after_trim c s ≡ c ∷ s
unfolding after_trim
after_trim_nonempty c [] h = cc
after_trim_nonempty c (d ∷ s) h = refl

trim_end-text : (s : Bytes) → no_space s ≡ true → trim_end (s ++ (10 ∷ [])) ≡ s
unfolding trim_end after_trim no_space isspace
trim_end-text [] h = refl
trim_end-text (c ∷ s) h = rw (trim_end-text s (ground arith)) (after_trim_text c s (ground arith))

nonempty-append : (a b : Bytes) → is_nonempty b ≡ true → is_nonempty (a ++ b) ≡ true
nonempty-append [] b h = h
nonempty-append (c ∷ a) b h = refl

trim_end-append :
    (a b : Bytes) → is_nonempty (trim_end b) ≡ true → trim_end (a ++ b) ≡ a ++ trim_end b
unfolding trim_end after_trim
trim_end-append [] b h = refl
trim_end-append (c ∷ a) b h =
    let ih = trim_end-append a b h in
    rw ih (after_trim_nonempty c (a ++ trim_end b) (nonempty-append a (trim_end b) h))

-- A line as two parts, up to the last blank and after it.
trim_line :
    (front sha : Bytes)
    → is_nonempty sha ≡ true
    → no_space sha ≡ true
    → trim_end ((front ++ (32 ∷ sha)) ++ (10 ∷ [])) ≡ front ++ (32 ∷ sha)
unfolding trim_end after_trim isspace no_space
trim_line front sha n h =
    let t : trim_end (32 ∷ (sha ++ (10 ∷ []))) ≡ 32 ∷ sha =
      ap (after_trim 32) (trim_end-text sha h) ∙ after_trim_nonempty 32 sha n in
    ap trim_end (append_assoc front (32 ∷ sha) (10 ∷ []))
    ∙ trim_end-append front (32 ∷ (sha ++ (10 ∷ []))) (ap is_nonempty t)
    ∙ ap (λ r. front ++ r) t

length-front :
    (front sha : Bytes)
    → length ((front ++ (32 ∷ sha)) ++ (10 ∷ [])) ≡ length front + 2 + length sha
length-front front sha =
    omega (arith, length-append (front ++ (32 ∷ sha)) (10 ∷ []), length-append front (32 ∷ sha))

nonempty_64 : (s : Bytes) → length s ≡ 64 → is_nonempty s ≡ true
nonempty_64 [] l = absurd (omega arith)
nonempty_64 (c ∷ s) l = refl

take_all : (s : Bytes) → take (length s) s ≡ s
take_all [] = refl
take_all (c ∷ s) = ap (λ r. c ∷ r) (take_all s)

take_64 : (s : Bytes) → length s ≡ 64 → take 64 s ≡ s
take_64 s l = ap (λ n. take n s) (sym l) ∙ take_all s

with_size_lem :
    (n : ℕ) (path sha : Bytes)
    → length path ≤ 4096
    → length sha ≡ 64
    → with_size (some n) path sha ≡ some (path, n, sha)
with_size_lem n path sha p l =
    let fits : leb (length path) 4096 ≡ true = ground arith in
    simp fits (ap (λ s. some (path, n, s)) (take_64 sha l))

check_fields_lem :
    (len delim : ℕ) (path size sha : Bytes) (n : ℕ)
    → (len - 1) - (delim + 1) ≡ 64
    → has_prefix (45 ∷ []) size ≡ false
    → strtoull size ≡ some n
    → length path ≤ 4096
    → length sha ≡ 64
    → check_fields len delim path size sha ≡ some (path, n, sha)
check_fields_lem len delim path size sha n w m v p l =
    simp (w, m) (ap (λ o. with_size o path sha) v ∙ with_size_lem n path sha p l)

parse-front :
    (front path size sha : Bytes) (n : ℕ)
    → front ≡ path ++ (32 ∷ size)
    → no_space size ≡ true
    → no_space sha ≡ true
    → length sha ≡ 64
    → has_prefix (45 ∷ []) size ≡ false
    → strtoull size ≡ some n
    → length path ≤ 4096
    → parse_line_backwards ((front ++ (32 ∷ sha)) ++ (10 ∷ [])) ≡ some (path, n, sha)
unfolding parse_line_backwards
parse-front front path size sha n f ns nt l m v p =
    let line = (front ++ (32 ∷ sha)) ++ (10 ∷ []) in
    rw
      (
        parse_line_backwards,
        trim_line front sha (nonempty_64 sha l) nt,
        split_last-append front sha nt,
        ap split_last f ∙ split_last-append path size ns,
      )
      (check_fields_lem (length line) (length front) path size sha n
        (omega (arith, length-front front sha)) m v p l)

-- An entry is read from its line.
pub parse-text_of :
    (e : Entry)
    → IsWritable e
    → parse_line_backwards (text_of e ++ (10 ∷ [])) ≡ some (e.path, e.size, e.sha)
unfolding all_digits
parse-text_of e w =
    let size = digits 20 e.size [] in
    let front = e.path ++ (32 ∷ size) in
    let d = digits-all_digits 20 e.size [] refl in
    ap (λ l. parse_line_backwards (l ++ (10 ∷ [])))
      (sym (append_assoc e.path (32 ∷ size) (32 ∷ e.sha)))
    ∙ parse-front front e.path size e.sha e.size refl (digits_no_space size d) w.sha_text
        w.sha_length (no_minus size d) (strtoull-digits e.size w.size_fits) w.path_fits

-- The lines that `fgets` gives whole.
abbrev pub FitsBuffer : Bytes → Type 0
FitsBuffer s = (no_newline s ≡ true) × (length s < buffer_size - 1)

fgets-line :
    (room : ℕ) (s r : Bytes)
    → no_newline s ≡ true
    → length s < room
    → fgets_all room ((s ++ (10 ∷ [])) ++ r) ≡ (s ++ (10 ∷ [])) ∷ fgets_all (buffer_size - 1) r
unfolding fgets_all no_newline
fgets-line room [] r n h = refl
fgets-line room (c ∷ s) r n h =
    let other : (c == 10) ≡ false = ground arith in
    let more : leb room 1 ≡ false = ground arith in
    let ih = fgets-line (room - 1) s r (ground arith) (omega arith) in
    simp (other, more) (rw ih refl)

-- Lines with their newlines.
unfoldable pub with_newlines : List Bytes → List Bytes
with_newlines [] = []
with_newlines (s ∷ ss) = (s ++ (10 ∷ [])) ∷ with_newlines ss

unfoldable pub AllFit : List Bytes → Type 0
AllFit [] = Unit
AllFit (s ∷ ss) = FitsBuffer s × AllFit ss

pub fgets-join :
    (ss : List Bytes)
    → AllFit ss
    → fgets_all (buffer_size - 1) (join_lines (with_newlines ss)) ≡ with_newlines ss
unfolding with_newlines AllFit join_lines fgets_all
fgets-join [] h = refl
fgets-join (s ∷ ss) (f, h) =
    fgets-line (buffer_size - 1) s (join_lines (with_newlines ss)) f.0 f.1
    ∙ ap (λ ls. (s ++ (10 ∷ [])) ∷ ls) (fgets-join ss h)
