-- ===== src/Filter/Lines.antt =====
-- The lines that a tree of filters is written as, and how the loader reads them.
use fapolicyd.Prelude.{
  ℕ, zero, suc, ◌+◌, ◌≡◌, ◌≤◌, ◌<◌, refl, sym, ap, subst, ◌∙◌, Bool, true, false, not, ◌&&◌, none,
  some, List, [], ◌∷◌, ◌++◌, arith, replicate, ◌==◌, ltb,
}
use mathlib.Core.List.{append_assoc}
use fapolicyd.Prelude.Bytes.{Bytes, bytes_eq, bytes_eq_iff}
use fapolicyd.StringUtil.{fapolicyd_strtrim}
use fapolicyd.Filter.{
  FilterType, unset, add_rule, sub_rule, comment, bad, Filter, Filters, filter_node, no_filters,
  next_filter,
}
use fapolicyd.Filter.Load.{
  split_lines, cut_newline, parse_line, prepend_at, Loading, add_line, load_line, is_blank,
  push_byte,
}

-- `+` or `-`
abbrev pub sign : FilterType → ℕ
sign add_rule = 43
sign _ = 45

-- A line, with one blank for each level above.
abbrev pub line_of : ℕ → FilterType → Bytes → Bytes
line_of depth t path = replicate depth 32 ++ (sign t ∷ 32 ∷ (path ++ (10 ∷ [])))

-- The lines of a filter and of those below it. The first of a list is the last in the file.
unfoldable mutual
  pub lines_of : ℕ → Filter → List Bytes
  lines_of depth (filter_node t none fs) = []
  lines_of depth (filter_node t (some path) fs) =
      line_of depth t path ∷ lines_of_list (suc depth) fs

  pub lines_of_list : ℕ → Filters → List Bytes
  lines_of_list depth no_filters = []
  lines_of_list depth (next_filter f fs) = lines_of_list depth fs ++ lines_of depth f

unfoldable pub join : List Bytes → Bytes
join [] = []
join (l ∷ ls) = l ++ join ls

-- A path that one line can hold: it has no newline, and no blanks around it.
unfoldable pub no_newline : Bytes → Bool
no_newline [] = true
no_newline (c ∷ s) = not (c == 10) && no_newline s

unfoldable pub path_is_writable : Bytes → Bool
unfolding no_newline fapolicyd_strtrim bytes_eq
path_is_writable path = no_newline path && bytes_eq (fapolicyd_strtrim path) path

abbrev pub is_rule : FilterType → Bool
is_rule add_rule = true
is_rule sub_rule = true
is_rule _ = false

-- The filters that a file can hold below a depth: rules with such paths, fewer than 64 levels deep.
unfoldable mutual
  unfolding path_is_writable

  pub is_writable : ℕ → Filter → Bool
  is_writable depth (filter_node t none fs) = false
  is_writable depth (filter_node t (some path) fs) =
      is_rule t && path_is_writable path && ltb (suc depth) 64 && are_writable (suc depth) fs

  pub are_writable : ℕ → Filters → Bool
  are_writable depth no_filters = true
  are_writable depth (next_filter f fs) = is_writable depth f && are_writable depth fs

cut_newline-append : (s : Bytes) → no_newline s ≡ true → cut_newline (s ++ (10 ∷ [])) ≡ s
unfolding cut_newline no_newline
cut_newline-append [] h = refl
cut_newline-append (c ∷ s) h = ground (arith, cut_newline-append s)

no_newline-blanks : (depth : ℕ) (s : Bytes) → no_newline (replicate depth 32 ++ s) ≡ no_newline s
unfolding no_newline
no_newline-blanks zero s = refl
no_newline-blanks (suc depth) s = no_newline-blanks depth s

parse_line-blanks :
    (depth level : ℕ) (s : Bytes)
    → parse_line level (replicate depth 32 ++ s) ≡ parse_line (level + depth) s
unfolding parse_line
parse_line-blanks zero level s = ap (λ n. parse_line n s) (omega arith)
parse_line-blanks (suc depth) level s =
    parse_line-blanks depth (suc level) s ∙ ap (λ n. parse_line n s) (omega arith)

no_newline-line :
    (depth : ℕ) (t : FilterType) (path : Bytes)
    → no_newline path ≡ true
    → cut_newline (line_of depth t path) ≡ replicate depth 32 ++ (sign t ∷ 32 ∷ path)
unfolding cut_newline no_newline
no_newline-line zero add_rule path h = rw (cut_newline-append path h)
no_newline-line zero _ path h = rw (cut_newline-append path h)
no_newline-line (suc depth) t path h = ap (λ s. 32 ∷ s) (no_newline-line depth t path h)

parse_line-line :
    (depth : ℕ) (t : FilterType) (path : Bytes)
    → is_rule t ≡ true
    → parse_line 1 (replicate depth 32 ++ (sign t ∷ 32 ∷ path))
      ≡ (suc depth, t, fapolicyd_strtrim path)
unfolding parse_line
parse_line-line depth add_rule path h =
    parse_line-blanks depth 1 (43 ∷ 32 ∷ path)
    ∙ ap (λ n. (n, add_rule, fapolicyd_strtrim path)) (omega arith)
parse_line-line depth sub_rule path h =
    parse_line-blanks depth 1 (45 ∷ 32 ∷ path)
    ∙ ap (λ n. (n, sub_rule, fapolicyd_strtrim path)) (omega arith)
parse_line-line depth unset path h = cc
parse_line-line depth comment path h = cc
parse_line-line depth bad path h = cc

not_blank : (depth : ℕ) (t : FilterType) (path : Bytes) → is_blank (line_of depth t path) ≡ false
not_blank zero add_rule path = refl
not_blank zero _ path = refl
not_blank (suc depth) t path = refl

add_line-rule :
    (st : Loading) (depth : ℕ) (t : FilterType) (path : Bytes)
    → is_rule t ≡ true
    → depth ≤ st.last_level
    → suc depth < 64
    → add_line st (suc depth) t path
      ≡ some record {
        root = prepend_at depth (filter_node t (some path) no_filters) st.root;
        last_level = suc depth;
      }
add_line-rule st depth add_rule path r h k = ground arith
add_line-rule st depth sub_rule path r h k = ground arith
add_line-rule st depth unset path r h k = cc
add_line-rule st depth comment path r h k = cc
add_line-rule st depth bad path r h k = cc

-- The loader reads a line as it was written.
pub load_line-line_of :
    (st : Loading) (depth : ℕ) (t : FilterType) (path : Bytes)
    → is_rule t ≡ true
    → path_is_writable path ≡ true
    → depth ≤ st.last_level
    → suc depth < 64
    → load_line st (line_of depth t path)
      ≡ some record {
        root = prepend_at depth (filter_node t (some path) no_filters) st.root;
        last_level = suc depth;
      }
unfolding load_line path_is_writable
load_line-line_of st depth t path r w h k =
    rw
      (
        load_line,
        not_blank depth t path,
        no_newline-line depth t path (ground arith),
        parse_line-line depth t path r,
        (bytes_eq_iff (fapolicyd_strtrim path) path).0 (ground arith),
      )
      (add_line-rule st depth t path r h k)

split-line :
    (s r : Bytes)
    → no_newline s ≡ true
    → split_lines ((s ++ (10 ∷ [])) ++ r) ≡ (s ++ (10 ∷ [])) ∷ split_lines r
unfolding split_lines no_newline
split-line [] r h = refl
split-line (c ∷ s) r h =
    let other : (c == 10) ≡ false = ground arith in
    let ih = split-line s r (ground arith) in rw (other, ih, push_byte) refl

no_newline-start :
    (depth : ℕ) (t : FilterType) (path : Bytes)
    → no_newline path ≡ true
    → no_newline (replicate depth 32 ++ (sign t ∷ 32 ∷ path)) ≡ true
unfolding no_newline
no_newline-start zero add_rule path h = h
no_newline-start zero _ path h = h
no_newline-start (suc depth) t path h = no_newline-start depth t path h

split-line_of :
    (depth : ℕ) (t : FilterType) (path r : Bytes)
    → path_is_writable path ≡ true
    → split_lines (line_of depth t path ++ r) ≡ line_of depth t path ∷ split_lines r
unfolding path_is_writable
split-line_of depth t path r h =
    subst (λ l. split_lines (l ++ r) ≡ l ∷ split_lines r)
      (append_assoc (replicate depth 32) (sign t ∷ 32 ∷ path) (10 ∷ []))
      (split-line (replicate depth 32 ++ (sign t ∷ 32 ∷ path)) r
        (no_newline-start depth t path (ground arith)))

join-append : (ls ms : List Bytes) → join (ls ++ ms) ≡ join ls ++ join ms
unfolding join
join-append [] ms = refl
join-append (l ∷ ls) ms = rw (join-append ls ms) (sym (append_assoc l (join ls) (join ms)))

mutual
  unfolding lines_of is_writable join

  split-lines_of :
      (depth : ℕ) (f : Filter) (r : Bytes)
      → is_writable depth f ≡ true
      → split_lines (join (lines_of depth f) ++ r) ≡ lines_of depth f ++ split_lines r
  split-lines_of depth (filter_node t none fs) r w = refl
  split-lines_of depth (filter_node t (some path) fs) r w =
      ap split_lines (append_assoc (line_of depth t path) (join (lines_of_list (suc depth) fs)) r)
      ∙ split-line_of depth t path (join (lines_of_list (suc depth) fs) ++ r) (ground arith)
      ∙ ap (λ ls. line_of depth t path ∷ ls) (split-lines_of_list (suc depth) fs r (ground arith))

  pub split-lines_of_list :
      (depth : ℕ) (fs : Filters) (r : Bytes)
      → are_writable depth fs ≡ true
      → split_lines (join (lines_of_list depth fs) ++ r) ≡ lines_of_list depth fs ++ split_lines r
  split-lines_of_list depth no_filters r w = refl
  split-lines_of_list depth (next_filter f fs) r w =
      ap (λ s. split_lines (s ++ r)) (join-append (lines_of_list depth fs) (lines_of depth f))
      ∙ ap split_lines (append_assoc (join (lines_of_list depth fs)) (join (lines_of depth f)) r)
      ∙ split-lines_of_list depth fs (join (lines_of depth f) ++ r) (ground arith)
      ∙ ap (λ ls. lines_of_list depth fs ++ ls) (split-lines_of depth f r (ground arith))
      ∙ sym (append_assoc (lines_of_list depth fs) (lines_of depth f) (split_lines r))
