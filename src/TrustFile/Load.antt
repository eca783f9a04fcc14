-- ===== src/TrustFile/Load.antt =====
-- src/library/trust-file.c: `trust_file_load` and the edits that rewrite a file; escape.c:
-- `unescape`. Allocations succeed. The hash table of the paths seen holds those that are listed.
use fapolicyd.Prelude.{
  ℕ, suc, ◌+◌, ◌-◌, ◌*◌, ◌%◌, Bool, true, false, ◌&&◌, ◌||◌, Option, none, some, List, [], ◌∷◌,
  ◌++◌, ◌==◌, ltb, leb, length, if◌then◌else◌,
}
use fapolicyd.Prelude.Bytes.{Bytes, bytes_eq, has_prefix}
use fapolicyd.Filter.{allow, Walk, decided}
use fapolicyd.TrustFile.{
  TrustItem, data_format, header_old, write_out_list, buffer_size, fgets_all, parse_line_backwards,
  digest_is_accepted,
}

-- IS_HEX and `asciiHex2Bits`
abbrev pub is_hex : ℕ → Bool
is_hex c = leb 48 c && leb c 57 || leb 65 c && leb c 70

abbrev pub hex_bits : ℕ → ℕ
hex_bits c = if leb c 57 then c - 48 else c - 55

-- The loop of `unescape`.
unfoldable pub unescape_bytes : Bytes → Bytes
unescape_bytes [] = []
unescape_bytes (c ∷ []) = c ∷ []
unescape_bytes (c ∷ a ∷ []) = c ∷ a ∷ []
unescape_bytes (c ∷ a ∷ b ∷ s) =
    let escaped = unescape_bytes s in
    let plain = unescape_bytes (a ∷ b ∷ s) in
    if c == 37 && is_hex a && is_hex b
    then ((hex_bits a * 16 + hex_bits b) % 256) ∷ escaped
    else c ∷ plain

unfoldable pub unescape : Bytes → Option Bytes
unfolding unescape_bytes
unescape input = let out = unescape_bytes input in if ltb 4096 (length out) then none else some out

-- `iscntrl(buffer[0]) || buffer[0] == '#'`
abbrev pub is_comment : Bytes → Bool
is_comment [] = false
is_comment (c ∷ s) = ltb c 32 || c == 127 || c == 35

unfoldable pub is_listed : Bytes → List TrustItem → Bool
unfolding bytes_eq
is_listed path [] = false
is_listed path (item ∷ items) = bytes_eq path item.index || is_listed path items

-- `escaped`, `line` and `list`.
pub record Loading : Type 0 where
  pub escaped : Bool
  pub line : ℕ
  pub list : List TrustItem

-- What an entry adds; a path that cannot be unescaped or that was seen is left out.
abbrev pub add_entry : Loading → Option Bytes → ℕ → Bytes → Loading
add_entry st none size sha = st
add_entry st (some path) size sha = if is_listed path st.list then st else record st {
  list = st.list ++ (record { index = path; payload = data_format 2 size sha } ∷ []);
}

-- What a line that is no comment does, by its parts; `none` is the jump to `out` with 2.
abbrev pub add_parsed : Loading → Option (Bytes × ℕ × Bytes) → Option Loading
add_parsed st none = none
add_parsed st (some (name, size, sha)) =
    if digest_is_accepted sha
    then some (add_entry st (if st.escaped then unescape name else some name) size sha)
    else none

-- A line of the file.
unfoldable pub load_entry : Loading → Bytes → Option Loading
unfolding parse_line_backwards is_listed data_format unescape has_prefix
load_entry st_ line =
    let st = record st_ { line = suc st_.line } in
    if is_comment line
    then some record st { escaped = st.line == 1 && has_prefix header_old line || st.escaped }
    else add_parsed st (parse_line_backwards line)

unfoldable pub load_entries : List Bytes → Loading → ℕ × List TrustItem
unfolding load_entry
load_entries [] st = (0, st.list)
load_entries (line ∷ lines) st = elim (load_entry st line) [
  | none ↦ (2, st.list)
  | some st' ↦ load_entries lines st'
]

-- `trust_file_load` of what `fopen` gives into an empty list: its code, and the list.
unfoldable pub trust_file_load : Option Bytes → ℕ × List TrustItem
unfolding load_entries fgets_all
trust_file_load none = (1, [])
trust_file_load (some content) =
    load_entries (fgets_all (buffer_size - 1) content)
      record { escaped = false; line = 0; list = [] }

-- What the loading writes to a memfd in place of the list.
unfoldable pub memfd_text : List TrustItem → Bytes
memfd_text [] = []
memfd_text (item ∷ items) = item.index ++ (32 ∷ (item.payload ++ (10 ∷ memfd_text items)))

-- The list without the items whose path begins with a string, and how many those are.
unfoldable pub delete_items : Bytes → List TrustItem → ℕ × List TrustItem
unfolding has_prefix
delete_items path [] = (0, [])
delete_items path (item ∷ items) =
    let (count, rest) = delete_items path items in
    if has_prefix path item.index then (suc count, rest) else (count, item ∷ rest)

-- What an edit returns: a count, or -1 for a file that does not parse.
pub data Edited : Type 0 where
  edited : ℕ → Edited
  bad_file : Edited

-- The file is written if anything was edited; the code of `write_out_list` is dropped.
abbrev pub rewritten : Bool → Option Bytes → ℕ → List TrustItem → Edited × Option Bytes
rewritten opens file count items =
    (edited count, if count == 0 then file else (write_out_list opens file items).0)

-- `trust_file_delete_path`: what it returns, and the file. `opens` is whether `fopen` opens the file
-- for writing.
unfoldable pub trust_file_delete_path : Bool → Option Bytes → Bytes → Edited × Option Bytes
unfolding trust_file_load delete_items write_out_list
trust_file_delete_path opens file path =
    let (rc, items) = trust_file_load file in
    let (count, rest) = delete_items path items in
    if rc == 1
    then (edited 0, file)
    else if rc == 2
    then (bad_file, file)
    else rewritten opens file count rest

-- `list_remove`
unfoldable pub list_remove : List TrustItem → Bytes → List TrustItem
unfolding bytes_eq
list_remove [] str = []
list_remove (item ∷ items) str =
    let rest = list_remove items str in if bytes_eq str item.index then items else item ∷ rest

-- The loop of `trust_file_rm_duplicates`; it stops early only where the list is empty.
unfoldable pub remove_all : List TrustItem → List TrustItem → List TrustItem
unfolding list_remove
remove_all [] list = list
remove_all (item ∷ items) list = remove_all items (list_remove list item.index)

-- `trust_file_rm_duplicates`: the list, or `none` for -1.
unfoldable pub trust_file_rm_duplicates : Option Bytes → List TrustItem → Option (List TrustItem)
unfolding trust_file_load remove_all
trust_file_rm_duplicates file list =
    let (rc, items) = trust_file_load file in
    if rc == 1 || rc == 2 then none else some (remove_all items list)

-- The size, which is not negative, and the SHA256 digest that the system gives for a path, if it can
-- be measured.
module _ (measure : Bytes → Option (ℕ × Bytes)) where
  unfoldable pub make_data_string : Bytes → Option Bytes
  unfolding data_format
  make_data_string path = elim (measure path) [
    | none ↦ none
    | some (size, hash) ↦ some (data_format 0 size hash)
  ]

  -- The loop of `trust_file_append`; `none` if a path could not be measured, where the item has no
  -- data and `write_out_list` reads from address 2.
  unfoldable pub measure_items : List Bytes → Option (List TrustItem)
  unfolding make_data_string
  measure_items [] = some []
  measure_items (path ∷ paths) = elim (make_data_string path) [
    | none ↦ none
    | some text ↦ elim (measure_items paths) [
      | none ↦ none
      | some items ↦ some (record { index = path; payload = text } ∷ items)
    ]
  ]

  -- `trust_file_append`: whether it returns 0, and the file; `none` is that fault.
  unfoldable pub trust_file_append : Bool → Option Bytes → List Bytes → Option (Bool × Option Bytes)
  unfolding trust_file_load measure_items write_out_list
  trust_file_append opens file paths =
      let (rc, content) = trust_file_load file in
      if ltb 1 rc then some (false, file) else elim (measure_items paths) [
        | none ↦ none
        | some items ↦ some (true, (write_out_list opens file (content ++ items)).0)
      ]

  abbrev pub is_allowed : Option Walk → Bool
  is_allowed (some (decided allow)) = true
  is_allowed _ = false

  abbrev pub passes : Option (Bytes → Option Walk) → Bytes → Bool
  passes none path = true
  passes (some check) path = is_allowed (check path)

  -- The loop of `trust_file_update_path`, with what `filter_check` says of a path where the filter
  -- is used.
  unfoldable pub update_items :
      Bytes → Option (Bytes → Option Walk) → List TrustItem → ℕ × List TrustItem
  unfolding make_data_string has_prefix
  update_items path filter [] = (0, [])
  update_items path filter (item ∷ items) =
      let (count, rest) = update_items path filter items in
      if has_prefix path item.index && passes filter item.index
      then elim (make_data_string item.index) [
        | none ↦ (count, item ∷ rest)
        | some text ↦ (suc count, record item { payload = text } ∷ rest)
      ]
      else (count, item ∷ rest)

  -- `trust_file_update_path`
  unfoldable pub trust_file_update_path :
      Bool → Option Bytes → Bytes → Option (Bytes → Option Walk) → Edited × Option Bytes
  unfolding trust_file_load update_items write_out_list
  trust_file_update_path opens file path filter =
      let (rc, items) = trust_file_load file in
      let (count, rest) = update_items path filter items in
      if rc == 1
      then (edited 0, file)
      else if rc == 2
      then (bad_file, file)
      else rewritten opens file count rest
