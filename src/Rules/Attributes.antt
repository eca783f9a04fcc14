-- ===== src/Rules/Attributes.antt =====
-- src/library/rules.c: the tests of a single attribute, which `check_subject` and `check_object` make:
-- directories, path sets, id sets and the pattern of a process.
use fapolicyd.Prelude.{
  ℕ, Bool, true, false, not, ◌&&◌, ◌||◌, Option, none, some, List, [], ◌∷◌, ◌==◌, ltb,
  if◌then◌else◌, bit_at, drop,
}
use fapolicyd.Prelude.Int.{ℤ, pos, negsuc, cmp_ℕ}
use fapolicyd.Prelude.Bytes.{Bytes, bytes_eq, has_prefix}
use fapolicyd.Avl.{avl_items, avl_intersection, is_one}
use fapolicyd.AttrSets.{AttrSet, strings, signed, unsigned, glob_prefix, attr_set_check_str}
use fapolicyd.Subject.{
  SubjectAttr, ProcInfo, collecting, static_reopen, static_partial, full, normal, not_elf, ld_so,
  static, bad_elf, ld_preload, state_index, state_eq, clear_proc_info, uval_of,
}
use fapolicyd.Event.{World}

-- "/etc/", "/usr/", "/bin/", "/sbin/", "/lib/", "/lib64/" and "/usr/libexec/"
abbrev pub dirs : List Bytes
dirs =
    (47 ∷ 101 ∷ 116 ∷ 99 ∷ 47 ∷ [])
    ∷ (47 ∷ 117 ∷ 115 ∷ 114 ∷ 47 ∷ [])
    ∷ (47 ∷ 98 ∷ 105 ∷ 110 ∷ 47 ∷ [])
    ∷ (47 ∷ 115 ∷ 98 ∷ 105 ∷ 110 ∷ 47 ∷ [])
    ∷ (47 ∷ 108 ∷ 105 ∷ 98 ∷ 47 ∷ [])
    ∷ (47 ∷ 108 ∷ 105 ∷ 98 ∷ 54 ∷ 52 ∷ 47 ∷ [])
    ∷ (47 ∷ 117 ∷ 115 ∷ 114 ∷ 47 ∷ 108 ∷ 105 ∷ 98 ∷ 101 ∷ 120 ∷ 101 ∷ 99 ∷ 47 ∷ [])
    ∷ []

-- The loop of `check_dirs` over what is left of the table.
unfoldable pub check_dirs_from : List Bytes → Bytes → Bool
check_dirs_from [] p = false
check_dirs_from (d ∷ ds) p = if has_prefix d p then true else check_dirs_from ds p

unfoldable pub check_dirs : ℕ → Bytes → Bool
unfolding check_dirs_from
check_dirs i p = check_dirs_from (drop i dirs) p

-- The loop of `path_set_match` over the entries that the iterator gives.
unfoldable pub glob_match : World → List Bytes → Bytes → Bool
glob_match w [] p = false
glob_match w (entry ∷ entries) p =
    if has_prefix glob_prefix entry && w.fnmatch (drop 5 entry) p
    then true
    else glob_match w entries p

unfoldable pub path_set_match : World → Option AttrSet → Bytes → Bool
unfolding glob_match
path_set_match w none p = attr_set_check_str none (some p)
path_set_match w (some set) p = elim set.members [
  | strings t ↦
      if set.has_glob
      then if attr_set_check_str (some set) (some p) then true else glob_match w (avl_items t) p
      else attr_set_check_str (some set) (some p)
  | signed t ↦ attr_set_check_str (some set) (some p)
  | unsigned t ↦ attr_set_check_str (some set) (some p)
]

-- `avl_intersection` of the trees of two sets, both UNSIGNED as `rules_append` and
-- `read_proc_status` make the sets of UID and GID.
unfoldable pub sets_intersect : Option AttrSet → Option AttrSet → Bool
sets_intersect none t = false
sets_intersect (some s) none = false
sets_intersect (some s) (some t) = elim s.members [
  | strings a ↦ false
  | signed a ↦ false
  | unsigned a ↦ elim t.members [
    | strings b ↦ false
    | signed b ↦ false
    | unsigned b ↦ avl_intersection cmp_ℕ a b
  ]
]

-- `path && strcmp(path, SYSTEM_LD_SO) == 0`
abbrev pub is_ld_so : World → Option Bytes → Bool
is_ld_so w none = false
is_ld_so w (some p) = bytes_eq p w.system_ld_so

-- `strcmp(path, SYSTEM_LD_SO) == 0`, with no test for NULL
abbrev pub strcmp_ld_so : World → Option Bytes → Bool
strcmp_ld_so w none = w.null_is_ld_so
strcmp_ld_so w (some p) = bytes_eq p w.system_ld_so

-- From the label `make_decision` on: PATTERN_NORMAL_VAL is 0, LD_SO 1, STATIC 2, LD_PRELOAD 3.
unfoldable pub make_decision : World → ℕ → ProcInfo → ProcInfo × ℤ
make_decision w pattern info =
    if pattern == 0
    then (clear_proc_info info, if state_eq info.state normal then pos 1 else pos 0)
    else if pattern == 1
    then (clear_proc_info info, if state_eq info.state ld_so then pos 1 else pos 0)
    else if pattern == 2
    then (
      clear_proc_info info,
      if state_eq info.state static_reopen
            || state_eq info.state static_partial
            || state_eq info.state static
          then pos 1
          else pos 0,
    )
    else if pattern == 3
    then if is_one (w.check_environ_from_pid info.info_pid)
      then (clear_proc_info (record info { state = ld_preload }), pos 1)
      else (clear_proc_info info, pos 0)
    else (clear_proc_info info, pos 0)

-- IS_ELF is bit 0 of `elf_info`, HAS_ERROR bit 1, HAS_DYNAMIC bit 3. The result is 0 for no match,
-- 1 for a match, -1 for an error.
unfoldable pub subj_pattern_test : World → SubjectAttr → Bool → ProcInfo → ProcInfo × ℤ
unfolding make_decision
subj_pattern_test w s exec info =
    let pattern = uval_of s.value in
    if ltb (state_index info.state) (state_index full)
    then if info.elf_info == 0
      then (clear_proc_info (record info { state = not_elf }), pos 0)
      else if bit_at info.elf_info 0
          && state_eq info.state collecting
          && not (bit_at info.elf_info 3)
      then make_decision w pattern (record info { state = static_reopen })
      else if state_eq info.state static_partial
      then make_decision w pattern info
      else if exec && is_ld_so w info.path1
      then make_decision w pattern (record info { state = ld_so })
      else (info, pos 0)
    else if state_eq info.state full
    then if bit_at info.elf_info 1
      then (clear_proc_info (record info { state = bad_elf }), negsuc 0)
      else if strcmp_ld_so w info.path1
      then make_decision w pattern (record info { state = ld_so })
      else make_decision w pattern (record info { state = normal })
    else make_decision w pattern info
