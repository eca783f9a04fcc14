-- ===== src/TrustFile.antt =====
-- src/library/trust-file.c: the files of trusted paths, one line for each with its size and digest,
-- and the edits of the command line. `unescape` is of escape.c, the digest algorithms are of file.c.
-- A list is the items of its chain in their order, and what a file holds is its bytes.
pub mod Load
pub mod Digits
pub mod Lines
pub mod Entries
pub mod RoundTrip
pub mod Delete
pub mod Append
pub mod Update
mod Tests
use fapolicyd.Prelude.{
  ℕ, zero, suc, ◌+◌, ◌-◌, ◌*◌, ◌/◌, ◌%◌, Bool, true, false, not, ◌&&◌, ◌||◌, Option, none, some,
  List, [], ◌∷◌, ◌++◌, ◌==◌, ltb, leb, length, take, drop, if◌then◌else◌,
}
use fapolicyd.Prelude.Words.{u64_mod}
use fapolicyd.Prelude.Bytes.{Bytes, codes, bytes_eq, has_prefix}
use fapolicyd.StringUtil.{trim_start, trim_end}

-- `list_item_t`: a path, and the text "source size digest".
pub record TrustItem : Type 0 where
  pub index : Bytes
  pub payload : Bytes

-- The decimal digits of a number, in front of other bytes; a fuel of 20 does for a `uint64_t`.
unfoldable pub digits : ℕ → ℕ → Bytes → Bytes
digits zero n rest = rest
digits (suc fuel) n rest =
    let more = digits fuel (n / 10) ((48 + n % 10) ∷ rest) in
    if ltb n 10 then (48 + n) ∷ rest else more

-- DATA_FORMAT
unfoldable pub data_format : ℕ → ℕ → Bytes → Bytes
unfolding digits
data_format source size sha = digits 20 source (32 ∷ digits 20 size (32 ∷ sha))

-- HEADER0 to HEADER4, and HEADER_OLD
abbrev pub headers : List Bytes
headers =
    codes "# AUTOGENERATED FILE VERSION 3\n"
    ∷ codes "# This file contains a list of trusted files\n"
    ∷ codes "#\n"
    ∷ codes "#  FULL PATH        SIZE                             SHA256\n"
    ∷ codes
        "# /home/user/my-ls 157984 61a9960bf7d255a85811f4afcac51067b8f2e4c75e21cf4f2af95319d4ed1b87\n"
    ∷ []

abbrev pub header_old : Bytes
header_old = codes "# AUTOGENERATED FILE VERSION 2\n"

-- The lines that `write_out_list` writes for items; the source, one digit, is left out.
unfoldable pub item_lines : List TrustItem → List Bytes
item_lines [] = []
item_lines (item ∷ items) =
    (item.index ++ (32 ∷ (drop 2 item.payload ++ (10 ∷ [])))) ∷ item_lines items

unfoldable pub join_lines : List Bytes → Bytes
join_lines [] = []
join_lines (l ∷ ls) = l ++ join_lines ls

-- What `write_out_list` writes.
unfoldable pub file_text : List TrustItem → Bytes
unfolding item_lines join_lines
file_text items = join_lines (headers ++ item_lines items)

-- `write_out_list`, where `opens` is whether `fopen` opens the file for writing: what the file holds
-- afterwards, and the code. A file that cannot be opened stays as it was; the writes are not tested.
unfoldable pub write_out_list : Bool → Option Bytes → List TrustItem → Option Bytes × ℕ
unfolding file_text
write_out_list opens file items = if opens then (some (file_text items), 0) else (file, 1)

-- BUFFER_SIZE
abbrev pub buffer_size : ℕ
buffer_size = 4096 + 1 + 1 + 20 + 1 + 135 + 1

abbrev pub push_byte : ℕ → List Bytes → List Bytes
push_byte c [] = (c ∷ []) ∷ []
push_byte c (line ∷ rest) = (c ∷ line) ∷ rest

-- `fgets` until the end of the file: a line ends with its newline, or where the buffer does, which
-- has `room` bytes left.
unfoldable pub fgets_all : ℕ → Bytes → List Bytes
fgets_all room [] = []
fgets_all room (c ∷ s) =
    let next = fgets_all (buffer_size - 1) s in
    let same = fgets_all (room - 1) s in
    if c == 10 || leb room 1 then (c ∷ []) ∷ next else push_byte c same

-- The last blank of a string: the bytes before it and those after it.
unfoldable pub split_last : Bytes → Option (Bytes × Bytes)
split_last [] = none
split_last (c ∷ s) = elim (split_last s) [
  | some (before, after) ↦ some (c ∷ before, after)
  | none ↦ if c == 32 then some ([], s) else none
]

-- The value of decimal digits up to the end of the string.
unfoldable pub digits_value : ℕ → Bytes → Option ℕ
digits_value acc [] = some acc
digits_value acc (c ∷ s) =
    let rest = digits_value (acc * 10 + (c - 48)) s in if leb 48 c && leb c 57 then rest else none

-- A value with no ERANGE.
abbrev pub in_range : Option ℕ → Option ℕ
in_range none = none
in_range (some v) = if ltb v u64_mod then some v else none

-- The digits of `strtoull`, where `endptr` is the end of the string.
unfoldable pub magnitude : Bytes → Option ℕ
unfolding digits_value
magnitude [] = none
magnitude (c ∷ s) = in_range (digits_value 0 (c ∷ s))

abbrev pub signed_value : Bytes → Option ℕ
signed_value [] = none
signed_value (c ∷ s) =
    if c == 45
    then elim (magnitude s) [ none ↦ none | some v ↦ some ((u64_mod - v) % u64_mod) ]
    else magnitude (if c == 43 then s else c ∷ s)

-- `strtoull(s, &endptr, 10)` with the tests after it.
unfoldable pub strtoull : Bytes → Option ℕ
unfolding magnitude trim_start
strtoull s = signed_value (trim_start s)

abbrev pub with_size : Option ℕ → Bytes → Bytes → Option (Bytes × ℕ × Bytes)
with_size none path sha = none
with_size (some n) path sha = if leb (length path) 4096 then some (path, n, take 64 sha) else none

-- The tests on the parts of a line of `len` bytes whose last delimiter is at `delim`.
abbrev pub check_fields : ℕ → ℕ → Bytes → Bytes → Bytes → Option (Bytes × ℕ × Bytes)
check_fields len delim path size sha =
    if not ((len - 1) - (delim + 1) == 64)
    then none
    else if has_prefix (45 ∷ []) size
    then none
    else with_size (strtoull size) path sha

-- `parse_line_backwards`: the path, the size and the digest. The width of the digest is counted to
-- the last byte of the line, before the trailing blanks are taken off.
unfoldable pub parse_line_backwards : Bytes → Option (Bytes × ℕ × Bytes)
unfolding split_last strtoull has_prefix trim_end
parse_line_backwards line = elim (split_last (trim_end line)) [
  | none ↦ none
  | some (front, sha) ↦ elim (split_last front) [
    | none ↦ none
    | some (path, size) ↦ check_fields (length line) (length front) path size sha
  ]
]

-- `file_hash_alg_t`, `file_hash_length` and `file_hash_alg`
pub data HashAlg : Type 0 where
  hash_none md5 sha1 sha256 sha512 : HashAlg

abbrev pub file_hash_length : HashAlg → ℕ
file_hash_length hash_none = 0
file_hash_length md5 = 16
file_hash_length sha1 = 20
file_hash_length sha256 = 32
file_hash_length sha512 = 64

abbrev pub file_hash_alg : ℕ → HashAlg
file_hash_alg len =
    if len == 64
    then sha256
    else if len == 128
    then sha512
    else if len == 32
    then md5
    else if len == 40
    then sha1
    else hash_none

abbrev pub is_sha256 : HashAlg → Bool
is_sha256 sha256 = true
is_sha256 _ = false

-- The tests on the digest that do not end the loading.
abbrev pub length_is_accepted : ℕ → Bool
length_is_accepted digest_len =
    let alg = file_hash_alg digest_len in
    let expected_len = file_hash_length alg * 2 in
    not (expected_len == 0) && digest_len == expected_len && is_sha256 alg

abbrev pub digest_is_accepted : Bytes → Bool
digest_is_accepted sha = length_is_accepted (length sha)
