-- ===== src/Subject.antt =====
-- src/library/subject.c, subject.h and subject-attr.h: the attributes of a subject that are known
-- so far, in an array with a place for each type. Allocations succeed, and the array is there.
pub mod Laws
mod Tests
use fapolicyd.Prelude.{
  ℕ, zero, suc, ◌+◌, ◌-◌, Bool, true, false, Option, none, some, List, [], ◌∷◌, leb, ◌==◌,
  if◌then◌else◌, get_or, set, replicate,
}
use fapolicyd.Prelude.Int.{ℤ, pos}
use fapolicyd.Prelude.Bytes.{Bytes}
use fapolicyd.AttrSets.{AttrSet}

-- `subject_type_t`
pub data SubjectType : Type 0 where
  all_subj auid uid sessionid pid ppid pattern_type subj_trust gid comm exe exe_dir exe_type :
      SubjectType

abbrev pub subject_index : SubjectType → ℕ
subject_index all_subj = 0
subject_index auid = 1
subject_index uid = 2
subject_index sessionid = 3
subject_index pid = 4
subject_index ppid = 5
subject_index pattern_type = 6
subject_index subj_trust = 7
subject_index gid = 8
subject_index comm = 9
subject_index exe = 10
subject_index exe_dir = 11
subject_index exe_type = 12

-- `SUBJ_COUNT`
abbrev pub subj_count : ℕ
subj_count = 13

-- The union of `subject_attr_t`.
pub data SubjectValue : Type 0 where
  uval : ℕ → SubjectValue
  pid_val : ℤ → SubjectValue
  str : Option Bytes → SubjectValue
  set_val : Option AttrSet → SubjectValue

-- A member of the union that was not the one stored last is never read: see `subject_add`.
abbrev pub uval_of : SubjectValue → ℕ
uval_of (uval n) = n
uval_of _ = 0

abbrev pub pid_of : SubjectValue → ℤ
pid_of (pid_val n) = n
pid_of _ = pos 0

abbrev pub str_of : SubjectValue → Option Bytes
str_of (str s) = s
str_of _ = none

abbrev pub set_of : SubjectValue → Option AttrSet
set_of (set_val s) = s
set_of _ = none

pub record SubjectAttr : Type 0 where
  pub type : SubjectType
  pub value : SubjectValue

pub data State : Type 0 where
  collecting reopen default_reopen static_reopen partial static_partial full : State
  normal not_elf ld_so static bad_elf ld_preload : State

abbrev pub state_index : State → ℕ
state_index collecting = 0
state_index reopen = 1
state_index default_reopen = 2
state_index static_reopen = 3
state_index partial = 4
state_index static_partial = 5
state_index full = 6
state_index normal = 7
state_index not_elf = 8
state_index ld_so = 9
state_index static = 10
state_index bad_elf = 11
state_index ld_preload = 12

abbrev pub state_eq : State → State → Bool
state_eq a b = state_index a == state_index b

-- What `stat` tells of the directory of a process.
pub record ProcStat : Type 0 where
  pub proc_device : ℕ
  pub proc_inode : ℕ
  pub proc_sec : ℕ
  pub proc_nsec : ℕ

-- `struct proc_info`
pub record ProcInfo : Type 0 where
  pub info_pid : ℤ
  pub stat : ProcStat
  pub state : State
  pub path1 : Option Bytes
  pub path2 : Option Bytes
  pub building_started_ns : ℕ
  pub building_event_count : ℕ
  pub elf_info : ℕ

unfoldable pub clear_proc_info : ProcInfo → ProcInfo
clear_proc_info info = record info { path1 = none; path2 = none }

-- `s_array`
pub record SArray : Type 0 where
  pub subj : List (Option SubjectAttr)
  pub cnt : ℕ
  pub info : ProcInfo

unfoldable pub subject_create : ProcInfo → SArray
subject_create info = record { subj = replicate subj_count none; cnt = 0; info = info }

-- EXE_DIR is stored as EXE.
abbrev pub stored_type : SubjectType → SubjectType
stored_type exe_dir = exe
stored_type t = t

abbrev pub slot_of : SubjectType → ℕ
slot_of t = subject_index (stored_type t)

unfoldable pub subject_access : SArray → SubjectType → Option SubjectAttr
subject_access a t = get_or a.subj (slot_of t) none

-- The member of the union that `subject_add` copies for a type.
unfoldable pub copied_value : SubjectType → SubjectValue → SubjectValue
copied_value t v = if leb (subject_index comm) (subject_index t) then str (str_of v) else elim t [
  | gid ↦ set_val (set_of v)
  | uid ↦ set_val (set_of v)
  | pid ↦ pid_val (pid_of v)
  | ppid ↦ pid_val (pid_of v)
  | _ ↦ uval (uval_of v)
]

unfoldable pub subject_add : SArray → SubjectAttr → SArray
unfolding copied_value
subject_add a s =
    let n = slot_of s.type in
    record a {
      subj =
          set a.subj n
            (some (record { type = stored_type s.type; value = copied_value s.type s.value }));
      cnt = elim (get_or a.subj n none) [ none ↦ a.cnt + 1 | some _ ↦ a.cnt ];
    }

unfoldable pub subject_find_exe : SArray → Option SubjectAttr
subject_find_exe a = get_or a.subj (subject_index exe) none

unfoldable pub subject_find_comm : SArray → Option SubjectAttr
subject_find_comm a = get_or a.subj (subject_index comm) none

unfoldable pub subject_reset : SArray → SubjectType → SArray
subject_reset a t = elim (get_or a.subj (subject_index t) none) [
  | none ↦ a
  | some _ ↦ record a { subj = set a.subj (subject_index t) none; cnt = a.cnt - 1 }
]
