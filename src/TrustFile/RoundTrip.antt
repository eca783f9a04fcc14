-- ===== src/TrustFile/RoundTrip.antt =====
-- The loading of a file that `write_out_list` wrote.
use fapolicyd.Prelude.{
  Option, ℕ, suc, ◌-◌, ◌≡◌, ◌<◌, refl, sym, ap, ◌∙◌, true, false, none, some, List, [], ◌∷◌, ◌++◌,
  arith, if◌then◌else◌,
}
use mathlib.Core.List.{append_assoc, append-nil}
use fapolicyd.Prelude.Bytes.{Bytes, codes, has_prefix}
use fapolicyd.TrustFile.{
  digits, headers, item_lines, join_lines, write_out_list, file_text, buffer_size, fgets_all,
  parse_line_backwards, length_is_accepted, digest_is_accepted,
}
use fapolicyd.TrustFile.Load.{
  is_comment, is_listed, Loading, unescape, add_entry, add_parsed, load_entry, load_entries,
  trust_file_load,
}
use fapolicyd.TrustFile.Lines.{
  Entry, IsWritable, text_of, no_newline, starts_entry, parse-text_of, with_newlines, AllFit,
  fgets-join,
}
use fapolicyd.TrustFile.Entries.{
  item_of, items_of, texts_of, AreWritable, are_distinct, all_new, texts_of-AllFit,
  item_lines-items_of, all_new-append,
}

is_comment-path :
    (path a b : Bytes) → starts_entry path ≡ true → is_comment ((path ++ a) ++ b) ≡ false
is_comment-path [] a b h = cc
is_comment-path (c ∷ path) a b h = ground arith

load_entry_lem :
    (st : Loading) (line : Bytes)
    → is_comment line ≡ false
    → load_entry st line ≡ add_parsed (record st { line = suc st.line }) (parse_line_backwards line)
unfolding load_entry
load_entry_lem st line h = simp h refl

add_entry-new :
    (st : Loading) (e : Entry)
    → st.escaped ≡ false
    → is_listed e.path st.list ≡ false
    → add_entry st (if st.escaped then unescape e.path else some e.path) e.size e.sha
      ≡ record st { list = st.list ++ (item_of 2 e ∷ []) }
add_entry-new st e x l = rw x (simp l refl)

add_parsed-new :
    (st : Loading) (e : Entry)
    → IsWritable e
    → st.escaped ≡ false
    → is_listed e.path st.list ≡ false
    → add_parsed st (some (e.path, e.size, e.sha))
      ≡ some record st { list = st.list ++ (item_of 2 e ∷ []) }
add_parsed-new st e w x l =
    let a : digest_is_accepted e.sha ≡ true = ap length_is_accepted w.sha_length in
    ap
      (λ b.
        if b
        then some (add_entry st (if st.escaped then unescape e.path else some e.path) e.size e.sha)
        else none)
      a
    ∙ ap some (add_entry-new st e x l)

-- An entry that is not listed is added.
load_entry-text_of :
    (st : Loading) (e : Entry)
    → IsWritable e
    → st.escaped ≡ false
    → is_listed e.path st.list ≡ false
    → load_entry st (text_of e ++ (10 ∷ []))
      ≡ some record st { line = suc st.line; list = st.list ++ (item_of 2 e ∷ []) }
load_entry-text_of st e w x l =
    load_entry_lem st (text_of e ++ (10 ∷ []))
      (is_comment-path e.path (32 ∷ (digits 20 e.size [] ++ (32 ∷ e.sha))) (10 ∷ []) w.path_starts)
    ∙ ap (add_parsed (record st { line = suc st.line })) (parse-text_of e w)
    ∙ add_parsed-new (record st { line = suc st.line }) e w x l

load_entries-step :
    (line : Bytes) (lines : List Bytes) (st st' : Loading)
    → load_entry st line ≡ some st'
    → load_entries (line ∷ lines) st ≡ load_entries lines st'
unfolding load_entries
load_entries-step line lines st st' e = rw (load_entries, e) refl

load_entries-texts_of :
    (es : List Entry) (st : Loading)
    → AreWritable es
    → st.escaped ≡ false
    → all_new st.list es ≡ true
    → are_distinct es ≡ true
    → load_entries (with_newlines (texts_of es)) st ≡ (0, st.list ++ items_of 2 es)
unfolding load_entries with_newlines AreWritable all_new are_distinct
load_entries-texts_of [] st w x n d = ap (λ l. (0, l)) (sym (append-nil st.list))
load_entries-texts_of (e ∷ es) st (w, ws) x n d =
    let st' : Loading = record st { line = suc st.line; list = st.list ++ (item_of 2 e ∷ []) } in
    load_entries-step (text_of e ++ (10 ∷ [])) (with_newlines (texts_of es)) st st'
      (load_entry-text_of st e w x (ground arith))
    ∙ load_entries-texts_of es st' ws x
        (all_new-append st.list (item_of 2 e) es (ground arith) (ground arith)) (ground arith)
    ∙ ap (λ l. (0, l)) (append_assoc st.list (item_of 2 e ∷ []) (items_of 2 es))

-- The header with no newlines.
abbrev header_texts : List Bytes
header_texts =
    codes "# AUTOGENERATED FILE VERSION 3"
    ∷ codes "# This file contains a list of trusted files"
    ∷ codes "#"
    ∷ codes "#  FULL PATH        SIZE                             SHA256"
    ∷ codes
        "# /home/user/my-ls 157984 61a9960bf7d255a85811f4afcac51067b8f2e4c75e21cf4f2af95319d4ed1b87"
    ∷ []

headers_lem : (ls : List Bytes) → headers ++ with_newlines ls ≡ with_newlines (header_texts ++ ls)
unfolding with_newlines
headers_lem ls = refl

headers-AllFit : (ls : List Bytes) → AllFit ls → AllFit (header_texts ++ ls)
unfolding AllFit no_newline
headers-AllFit ls h = (
  (refl, omega arith),
  ((refl, omega arith), ((refl, omega arith), ((refl, omega arith), ((refl, omega arith), h)))),
)

load_entries-headers :
    (ls : List Bytes)
    → load_entries (headers ++ ls) record { escaped = false; line = 0; list = [] }
      ≡ load_entries ls record { escaped = false; line = 5; list = [] }
unfolding load_entries load_entry has_prefix
load_entries-headers ls = refl

all_new-none : (es : List Entry) → all_new [] es ≡ true
unfolding all_new is_listed
all_new-none [] = refl
all_new-none (e ∷ es) = all_new-none es

-- The entries that a file can hold, with paths that differ, are what `trust_file_load` gives from the
-- file that `write_out_list` makes of them where it can open it, whatever it held before, in their
-- order, with the files as their source.
pub trust_file_load-write_out_list :
    (before : Option Bytes) (source : ℕ) (es : List Entry)
    → source < 10
    → AreWritable es
    → are_distinct es ≡ true
    → trust_file_load (write_out_list true before (items_of source es)).0 ≡ (0, items_of 2 es)
unfolding trust_file_load write_out_list file_text with_newlines
trust_file_load-write_out_list before source es h w d =
    let start : Loading = record { escaped = false; line = 0; list = [] } in
    let lines : headers ++ item_lines (items_of source es)
        ≡ with_newlines (header_texts ++ texts_of es) =
      ap (λ ls. headers ++ ls) (item_lines-items_of source es h) ∙ headers_lem (texts_of es) in
    ap (λ ls. load_entries (fgets_all (buffer_size - 1) (join_lines ls)) start) lines
    ∙ ap (λ ls. load_entries ls start)
        (fgets-join (header_texts ++ texts_of es)
          (headers-AllFit (texts_of es) (texts_of-AllFit es w)))
    ∙ load_entries-headers (with_newlines (texts_of es))
    ∙ load_entries-texts_of es (record start { line = 5 }) w refl (all_new-none es) d
