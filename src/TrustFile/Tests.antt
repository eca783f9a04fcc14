-- ===== src/TrustFile/Tests.antt =====
-- A trust file of two entries, and the theorems at it.
use fapolicyd.Prelude.{
  ℕ, inl, Option, true, false, ◌≡◌, refl, none, some, List, [], ◌∷◌, ◌++◌, replicate, arith,
}
use fapolicyd.Prelude.Bytes.{Bytes, codes, bytes_eq, has_prefix}
use fapolicyd.TrustFile.{
  data_format, digits, write_out_list, parse_line_backwards, split_last, strtoull, magnitude,
  digits_value,
}
use fapolicyd.TrustFile.Load.{
  trust_file_load, edited, trust_file_delete_path, trust_file_append, unescape, unescape_bytes,
}
use fapolicyd.TrustFile.Lines.{Entry, no_space, no_newline}
use fapolicyd.TrustFile.Entries.{items_of, AreWritable, has_path, are_distinct}
use fapolicyd.TrustFile.RoundTrip.{trust_file_load-write_out_list}
use fapolicyd.TrustFile.Append.{Appends, paths_of, trust_file_append-Appends}
use fapolicyd.TrustFile.Delete.{without, trust_file_delete_path-without}

abbrev sha_text : Bytes
sha_text = replicate 64 97

abbrev my_ls : Entry
my_ls = record { path = codes "/home/my ls"; size = 157984; sha = sha_text }

abbrev tool : Entry
tool = record { path = codes "/opt/tool"; size = 0; sha = sha_text }

abbrev entries : List Entry
entries = my_ls ∷ tool ∷ []

entries-AreWritable : AreWritable entries
unfolding AreWritable no_space no_newline
entries-AreWritable = (
  record {
    path_starts = refl;
    path_fits = omega arith;
    path_line = refl;
    size_fits = omega arith;
    sha_length = refl;
    sha_text = refl;
  },
  (
    record {
      path_starts = refl;
      path_fits = omega arith;
      path_line = refl;
      size_fits = omega arith;
      sha_length = refl;
      sha_text = refl;
    },
    tt,
  ),
)

payload_read : (data_format 0 157984 []) ≡ codes "0 157984 "
unfolding data_format digits
payload_read = refl

-- A line with no newline at its end, the last of a file perhaps, is not parsed.
last_line : parse_line_backwards (codes "/opt/tool 0 " ++ sha_text) ≡ none
unfolding parse_line_backwards split_last
last_line = refl

-- A size after a tab may have a sign.
signed_size :
    parse_line_backwards (codes "/a \t-1 " ++ (sha_text ++ codes "\n"))
    ≡ some (codes "/a", 18446744073709551615, sha_text)
unfolding parse_line_backwards split_last strtoull magnitude digits_value
signed_size = refl

unescaped : unescape (codes "/a%20b%2") ≡ some (codes "/a b%2")
unfolding unescape unescape_bytes
unescaped = refl

-- The file of the two entries.
abbrev listed : Option Bytes
listed = (write_out_list true none (items_of 2 entries)).0

trust_file_load-write_out_list_example :
    trust_file_load (write_out_list true none (items_of 0 entries)).0 ≡ (0, items_of 2 entries)
unfolding are_distinct has_path bytes_eq
trust_file_load-write_out_list_example =
    trust_file_load-write_out_list none 0 entries (omega arith) entries-AreWritable refl

trust_file_delete_path-without_example :
    ((trust_file_delete_path true listed (codes "/opt/")).0 ≡ edited 1)
    × (trust_file_load (trust_file_delete_path true listed (codes "/opt/")).1
        ≡ (0, items_of 2 (my_ls ∷ [])))
unfolding are_distinct has_path without bytes_eq has_prefix
trust_file_delete_path-without_example =
    trust_file_delete_path-without true none 2 entries (codes "/opt/") (omega arith)
      entries-AreWritable refl

-- The count where the file cannot be written.
unwritten : trust_file_delete_path false listed (codes "/opt/") ≡ (edited 1, listed)
unfolding are_distinct has_path without bytes_eq has_prefix
unwritten =
    let (count, same) =
      trust_file_delete_path-without false none 2 entries (codes "/opt/") (omega arith)
        entries-AreWritable refl in
    λ i. (count i, same i)

my_ls_loaded :
    trust_file_load (write_out_list true none (items_of 2 (my_ls ∷ []))).0
    ≡ (0, items_of 2 (my_ls ∷ []))
unfolding are_distinct has_path bytes_eq AreWritable
my_ls_loaded =
    trust_file_load-write_out_list none 2 (my_ls ∷ []) (omega arith) (entries-AreWritable.0, tt)
      refl

-- The tool is measured, and added to a file of the other entry.
abbrev measures : Bytes → Option (ℕ × Bytes)
measures path = some (0, sha_text)

trust_file_append-Appends_example :
    let file = (write_out_list true none (items_of 2 (my_ls ∷ []))).0 in
    Appends true file entries (trust_file_append measures true file (paths_of (tool ∷ [])))
unfolding are_distinct has_path bytes_eq AreWritable no_space no_newline
trust_file_append-Appends_example =
    trust_file_append-Appends measures true (write_out_list true none (items_of 2 (my_ls ∷ []))).0
      (my_ls ∷ []) (tool ∷ []) (inl my_ls_loaded) (refl, tt) entries-AreWritable refl
