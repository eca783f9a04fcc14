-- ===== src/Filter/RoundTrip.antt =====
-- The loading of a file that a tree of filters is written as.
use fapolicyd.Prelude.{
  ℕ, zero, suc, ◌≡◌, ◌≤◌, refl, sym, ap, ◌∙◌, true, Option, none, some, List, [], ◌∷◌, ◌++◌, arith,
}
use mathlib.Core.List.{append_assoc, append-nil}
use fapolicyd.Prelude.Bytes.{Bytes}
use fapolicyd.Filter.{
  FilterType, unset, Filter, Filters, filter_node, no_filters, next_filter, filter_create_obj,
}
use fapolicyd.Filter.Load.{
  split_lines, prepend_at, Loading, load_line, load_lines, filter_load_file, open_filter,
}
use fapolicyd.Filter.Lines.{
  lines_of, lines_of_list, is_writable, are_writable, split-lines_of_list, line_of, join,
  load_line-line_of,
}

-- All of a list put in front, at a depth.
append_filters : Filters → Filters → Filters
append_filters no_filters gs = gs
append_filters (next_filter f fs) gs = next_filter f (append_filters fs gs)

graft : ℕ → Filters → Filter → Filter
unfolding append_filters
graft zero fs (filter_node t p gs) = filter_node t p (append_filters fs gs)
graft (suc depth) fs (filter_node t p no_filters) = filter_node t p no_filters
graft (suc depth) fs (filter_node t p (next_filter g gs)) =
    filter_node t p (next_filter (graft depth fs g) gs)

graft-none : (depth : ℕ) (root : Filter) → graft depth no_filters root ≡ root
unfolding graft
graft-none zero (filter_node t p gs) = refl
graft-none (suc depth) (filter_node t p no_filters) = refl
graft-none (suc depth) (filter_node t p (next_filter g gs)) =
    ap (λ f. filter_node t p (next_filter f gs)) (graft-none depth g)

prepend_at-graft :
    (depth : ℕ) (f : Filter) (fs : Filters) (root : Filter)
    → prepend_at depth f (graft depth fs root) ≡ graft depth (next_filter f fs) root
unfolding graft prepend_at
prepend_at-graft zero f fs (filter_node t p gs) = refl
prepend_at-graft (suc depth) f fs (filter_node t p no_filters) = refl
prepend_at-graft (suc depth) f fs (filter_node t p (next_filter g gs)) =
    ap (λ f'. filter_node t p (next_filter f' gs)) (prepend_at-graft depth f fs g)

append_filters-none : (fs : Filters) → append_filters fs no_filters ≡ fs
unfolding append_filters
append_filters-none no_filters = refl
append_filters-none (next_filter f fs) = ap (next_filter f) (append_filters-none fs)

graft-prepend_at :
    (depth : ℕ) (t : FilterType) (p : Option Bytes) (fs : Filters) (root : Filter)
    → graft (suc depth) fs (prepend_at depth (filter_node t p no_filters) root)
      ≡ prepend_at depth (filter_node t p fs) root
unfolding graft prepend_at
graft-prepend_at zero t p fs (filter_node t' p' gs) =
    ap (λ hs. filter_node t' p' (next_filter (filter_node t p hs) gs)) (append_filters-none fs)
graft-prepend_at (suc depth) t p fs (filter_node t' p' no_filters) = refl
graft-prepend_at (suc depth) t p fs (filter_node t' p' (next_filter g gs)) =
    ap (λ f'. filter_node t' p' (next_filter f' gs)) (graft-prepend_at depth t p fs g)

-- The level of the last line of what is written.
unfoldable mutual
  last_of : ℕ → Filter → ℕ
  last_of depth (filter_node t p fs) = last_of_list (suc depth) fs (suc depth)

  last_of_list : ℕ → Filters → ℕ → ℕ
  last_of_list depth no_filters last_level = last_level
  last_of_list depth (next_filter f fs) last_level = last_of depth f

mutual
  unfolding last_of

  le-last_of : (depth : ℕ) (f : Filter) → depth ≤ last_of depth f
  le-last_of depth (filter_node t p fs) =
      omega (arith, le-last_of_list (suc depth) fs (suc depth) (omega arith))

  le-last_of_list : (depth : ℕ) (fs : Filters) (n : ℕ) → depth ≤ n → depth ≤ last_of_list depth fs n
  le-last_of_list depth no_filters n h = h
  le-last_of_list depth (next_filter f fs) n h = le-last_of depth f

abbrev loading : Filter → ℕ → Loading
loading root n = record { root = root; last_level = n }

load_lines-step :
    (line : Bytes) (lines : List Bytes) (st st' : Loading)
    → load_line st line ≡ some st'
    → load_lines (line ∷ lines) st ≡ load_lines lines st'
unfolding load_lines
load_lines-step line lines st st' e = rw (e, load_lines)

mutual
  unfolding last_of lines_of is_writable

  load-lines_of :
      (depth : ℕ) (f : Filter) (rest : List Bytes) (root : Filter) (n : ℕ)
      → is_writable depth f ≡ true
      → depth ≤ n
      → load_lines (lines_of depth f ++ rest) (loading root n)
        ≡ load_lines rest (loading (prepend_at depth f root) (last_of depth f))
  load-lines_of depth (filter_node t none fs) rest root n w h = absurd (ground arith)
  load-lines_of depth (filter_node t (some path) fs) rest root n w h =
      let new = prepend_at depth (filter_node t (some path) no_filters) root in
      load_lines-step (line_of depth t path) (lines_of_list (suc depth) fs ++ rest) (loading root n)
        (loading new (suc depth))
        (load_line-line_of (loading root n) depth t path (ground arith) (ground arith) h
          (ground arith))
      ∙ load-lines_of_list (suc depth) fs rest new (suc depth) (ground arith) (omega arith)
      ∙ ap (λ r. load_lines rest (loading r (last_of_list (suc depth) fs (suc depth))))
          (graft-prepend_at depth t (some path) fs root)

  load-lines_of_list :
      (depth : ℕ) (fs : Filters) (rest : List Bytes) (root : Filter) (n : ℕ)
      → are_writable depth fs ≡ true
      → depth ≤ n
      → load_lines (lines_of_list depth fs ++ rest) (loading root n)
        ≡ load_lines rest (loading (graft depth fs root) (last_of_list depth fs n))
  load-lines_of_list depth no_filters rest root n w h =
      ap (λ r. load_lines rest (loading r n)) (sym (graft-none depth root))
  load-lines_of_list depth (next_filter f fs) rest root n w h =
      rw (append_assoc (lines_of_list depth fs) (lines_of depth f) rest) (
        load-lines_of_list depth fs (lines_of depth f ++ rest) root n (ground arith) h
        ∙ load-lines_of depth f rest (graft depth fs root) (last_of_list depth fs n) (ground arith)
            (le-last_of_list depth fs n h)
        ∙ ap (λ r. load_lines rest (loading r (last_of depth f)))
            (prepend_at-graft depth f fs root))

-- A tree of filters that a file can hold is what `filter_load_file` builds from the file that the
-- tree is written as, one line for each filter.
pub filter_load_file-lines_of :
    (fopen : Bytes → Option Bytes) (path : Option Bytes) (fs : Filters)
    → are_writable 0 fs ≡ true
    → open_filter fopen path ≡ some (join (lines_of_list 0 fs))
    → filter_load_file fopen path filter_create_obj ≡ (true, filter_node unset none fs)
unfolding filter_load_file load_lines graft
filter_load_file-lines_of fopen path fs w e =
    let text = join (lines_of_list 0 fs) in
    let lines : split_lines text ≡ lines_of_list 0 fs ++ [] =
      ap split_lines (sym (append-nil text)) ∙ split-lines_of_list 0 fs [] w in
    rw (e, filter_load_file, lines)
      (load-lines_of_list 0 fs [] filter_create_obj 0 w (omega arith)
        ∙ ap (λ gs. (true, filter_node unset none gs)) (append_filters-none fs))
