-- ===== src/Filter/Tests.antt =====
-- A filter file, its tree, and the theorems at it.
use fapolicyd.Prelude.{Bool, ◌≡◌, ◌⊎◌, refl, true, ◌&&◌, ◌||◌, none, some, [], ◌∷◌}
use fapolicyd.Prelude.Bytes.{Bytes, bytes_eq, codes}
use fapolicyd.Filter.{
  Filters, filter_node, no_filters, next_filter, unset, add_rule, sub_rule, decided, allow, deny,
  fault, walk, walk_round, pop_processed, push_list, match_filter, normalize, has_parent,
  filter_count_nodes, filter_check, filter_create_obj, ends_in_slash,
}
use fapolicyd.Filter.Bounds.{are_sound, filter_check_sound}
use fapolicyd.Filter.Parents.{names_parent}
use fapolicyd.Filter.Load.{filter_load_file, filter_prune_list}
use fapolicyd.Filter.Lines.{are_writable, lines_of_list, join}
use fapolicyd.Filter.RoundTrip.{filter_load_file-lines_of}
use fapolicyd.Filter.Decide.{decide}
use fapolicyd.Filter.Rounds.{filter_check-decide}

-- `*.py` matches what ends in `.py`, and `lib*/` the first directory alone.
abbrev glob : Bytes → Bytes → Bool
glob rule s =
    bytes_eq rule (codes "*.py") && bytes_eq s (codes "a.py")
    || bytes_eq rule (codes "lib*/") && bytes_eq s (codes "lib64/")

-- + /
--  - usr/share/
--   + *.py
--  + usr/lib/
abbrev rules : Filters
rules =
    next_filter
      (filter_node add_rule (some (codes "/")) (
        next_filter (filter_node add_rule (some (codes "usr/lib/")) no_filters) (
          next_filter
            (filter_node sub_rule (some (codes "usr/share/"))
              (next_filter (filter_node add_rule (some (codes "*.py")) no_filters) no_filters))
            no_filters)))
      no_filters

abbrev text : Bytes
text = join (lines_of_list 0 rules)

text_written : text ≡ codes "+ /\n - usr/share/\n  + *.py\n + usr/lib/\n"
unfolding join lines_of_list
text_written = refl

filter_load_file-lines_of_example :
    filter_load_file (λ p. some text) none filter_create_obj ≡ (true, filter_node unset none rules)
unfolding are_writable
filter_load_file-lines_of_example = filter_load_file-lines_of (λ p. some text) none rules refl refl

-- The rules decide; without a `*.py` of their own, the directory of a file does.
shared_module :
    filter_check glob (some (filter_node unset none rules)) true (some (codes "//usr/share/a.py"))
    ≡ some (decided allow)
unfolding filter_check walk walk_round pop_processed push_list match_filter normalize has_parent
    filter_count_nodes ends_in_slash
shared_module = refl

shared_text :
    filter_check glob (some (filter_node unset none rules)) true (some (codes "/usr/share/a.txt"))
    ≡ some (decided deny)
unfolding filter_check walk walk_round pop_processed push_list match_filter normalize has_parent
    filter_count_nodes ends_in_slash
shared_text = refl

-- + /usr/
--  - lib*/
--   + foo
abbrev nested_glob : Filters
nested_glob =
    next_filter
      (filter_node add_rule (some (codes "/usr/")) (
        next_filter
          (filter_node sub_rule (some (codes "lib*/"))
            (next_filter (filter_node add_rule (some (codes "foo")) no_filters) no_filters))
          no_filters))
      no_filters

-- The offset after `lib*/` is counted twice, and the walk leaves the path.
nested_glob_overrun :
    filter_check glob
      (some (filter_node unset none nested_glob))
      true
      (some (codes "/usr/lib64/foo"))
    ≡ some fault
unfolding filter_check walk walk_round pop_processed push_list match_filter normalize has_parent
    filter_count_nodes ends_in_slash
nested_glob_overrun = refl

filter_check_sound_example :
    (filter_check glob (some (filter_node unset none rules)) true (some (codes "/usr/lib/x"))
      ≡ some (decided allow))
    ⊎ (filter_check glob (some (filter_node unset none rules)) true (some (codes "/usr/lib/x"))
        ≡ some (decided deny))
unfolding are_sound
filter_check_sound_example = filter_check_sound glob unset rules (codes "/usr/lib/x") refl

-- `filter_prune_list` with the file keeps what the rules allow.
pruned :
    filter_prune_list glob (λ p. some text) none (codes "/usr/share/b" ∷ codes "/bin/c" ∷ [])
    ≡ some (true, codes "/bin/c" ∷ [])
unfolding filter_prune_list filter_check walk walk_round pop_processed push_list match_filter
    normalize has_parent filter_count_nodes lines_of_list join ends_in_slash
pruned = refl

filter_check-decide_example :
    filter_check glob (some (filter_node unset none rules)) true (some (codes "/usr/share/a.txt"))
    ≡ some (decided deny)
unfolding names_parent normalize decide match_filter ends_in_slash
filter_check-decide_example =
    filter_check-decide glob (filter_node unset none rules) (codes "/usr/share/a.txt")
