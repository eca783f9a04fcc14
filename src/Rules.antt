-- ===== src/Rules.antt =====
-- src/library/rules.c and rules.h: the evaluation of one rule against an event. The rule's fields
-- are lists in place of the arrays with their counts; the log messages are left out.
mod Attributes
pub mod Pattern
pub mod Subjects
mod Tests
unfoldable pub use Attributes.*
use fapolicyd.Prelude.{
  ℕ, zero, suc, ◌+◌, ◌-◌, ◌%◌, Bool, true, false, not, ◌&&◌, ◌||◌, Option, none, some, List, [],
  ◌∷◌, ◌==◌, ltb, if◌then◌else◌, bit_at, drop, get_elem?,
}
use fapolicyd.Prelude.Words.{u64_mod}
use fapolicyd.Prelude.Int.{ℤ, pos, negsuc, cmp_ℕ}
use fapolicyd.Prelude.Bytes.{Bytes, bytes_eq, has_prefix}
use fapolicyd.Avl.{avl_items, avl_intersection, is_zero, is_one, is_minus_one}
use fapolicyd.AttrSets.{
  AttrSet, strings, signed, unsigned, glob_prefix, attr_set_check_int, attr_set_check_str,
  attr_set_check_pstr,
}
use fapolicyd.Subject.{
  SubjectType, SubjectAttr, SArray, ProcInfo, State, collecting, static_reopen, static_partial,
  full, normal, not_elf, ld_so, static, bad_elf, ld_preload, state_index, subject_index,
  clear_proc_info, uval_of, pid_of, str_of, set_of, auid, uid, sessionid, pid, ppid, subj_trust,
  gid, comm, exe, exe_dir, exe_type, all_subj, pattern_type,
}
use fapolicyd.Object.{
  ObjectType, ObjectAttr, path, odir, device, ftype, obj_trust, file_hash, all_obj,
}
use fapolicyd.Event.{Event, World, get_subj_attr, get_obj_attr}

-- `decision_t` by its bits: FAN_ALLOW is bit 0, FAN_DENY bit 1, AUDIT bit 4, SYSLOG bit 5.
abbrev pub Decision : Type 0
Decision = ℕ

abbrev pub no_opinion : Decision
no_opinion = 0

-- `access_t`
pub data Access : Type 0 where
  open_acc exec_acc any_acc : Access

-- The use that rules make of `object_attr_t`.
pub record RuleObject : Type 0 where
  pub type : ObjectType
  pub val : ℕ
  pub set : Option AttrSet

-- `lnode`, without its text.
pub record Rule : Type 0 where
  pub d : Decision
  pub a : Access
  pub num : ℕ
  pub hits : ℕ
  pub s : List SubjectAttr
  pub o : List RuleObject

-- FAN_OPEN_EXEC_PERM is bit 18 of the mask.
abbrev pub is_exec : Event → Bool
is_exec e = bit_at e.type 18

unfoldable pub is_subj_trusted : World → Event → Event × Bool
is_subj_trusted w e =
    let (e', trusted) = get_subj_attr w e subj_trust in
    (e', elim trusted [ none ↦ false | some t ↦ not (uval_of t.value == 0) ])

unfoldable pub is_obj_trusted : World → Event → Event × Bool
is_obj_trusted w e =
    let (e', trusted) = get_obj_attr w e obj_trust in
    (e', elim trusted [ none ↦ false | some t ↦ not (t.val == 0) ])

unfoldable pub check_access : Rule → Event → Bool
check_access r e = elim r.a [ any_acc ↦ true | exec_acc ↦ is_exec e | open_acc ↦ not (is_exec e) ]

-- How a case of the switch ends: with `break`, or with `return rc`.
pub data Outcome : Type 0 where
  continues : Outcome
  returns : ℤ → Outcome

abbrev pub unless : Bool → Outcome
unless ok = if ok then continues else returns (pos 0)

-- "untrusted", "execdirs", "systemdirs", "any" and PATH_LD_SO_STR, "ld_so"
abbrev pub untrusted : Bytes
untrusted = 117 ∷ 110 ∷ 116 ∷ 114 ∷ 117 ∷ 115 ∷ 116 ∷ 101 ∷ 100 ∷ []

abbrev pub execdirs : Bytes
execdirs = 101 ∷ 120 ∷ 101 ∷ 99 ∷ 100 ∷ 105 ∷ 114 ∷ 115 ∷ []

abbrev pub systemdirs : Bytes
systemdirs = 115 ∷ 121 ∷ 115 ∷ 116 ∷ 101 ∷ 109 ∷ 100 ∷ 105 ∷ 114 ∷ 115 ∷ []

abbrev pub any_word : Bytes
any_word = 97 ∷ 110 ∷ 121 ∷ []

abbrev pub ld_so_word : Bytes
ld_so_word = 108 ∷ 100 ∷ 95 ∷ 115 ∷ 111 ∷ []

-- The macros "execdirs" and "systemdirs" of the two dir attributes.
unfoldable pub dirs_macro : Option AttrSet → Bytes → Bool
dirs_macro set p =
    attr_set_check_str set (some execdirs) && check_dirs 1 p
    || attr_set_check_str set (some systemdirs) && check_dirs 0 p

-- A dir attribute: `trust` asks for the trust of the subject or of the object, if the set has
-- "untrusted".
unfoldable pub dir_match : (Event → Event × Bool) → Event → Option AttrSet → Bytes → Event × Outcome
unfolding dirs_macro
dir_match trust e set p =
    if attr_set_check_str set (some untrusted)
    then (let (e', trusted) = trust e in
        (e', unless (dirs_macro set p || not trusted || attr_set_check_pstr set (some p))))
    else (e, unless (dirs_macro set p || attr_set_check_pstr set (some p)))

-- The case EXE, for a string that is not NULL.
unfoldable pub exe_match : World → Event → Option AttrSet → Bytes → Event × Outcome
exe_match w e set p =
    if attr_set_check_str set (some untrusted)
    then (let (e', trusted) = is_subj_trusted w e in
        (e', unless (not trusted || path_set_match w set p)))
    else (e, unless (path_set_match w set p))

-- The case PATTERN; an error ends the check as a match.
unfoldable pub pattern_match : World → Event → SubjectAttr → Event × Outcome
pattern_match w e field =
    let (info', rc) = subj_pattern_test w field (is_exec e) e.s.info in
    (
      record e { s = record e.s { info = info' } },
      if is_zero rc
          then returns (pos 0)
          else if is_minus_one rc
          then returns (pos 1)
          else continues,
    )

-- The switch of `check_subject`, for an attribute that was found.
unfoldable pub subject_case : World → Event → SubjectAttr → SubjectAttr → Event × Outcome
unfolding dir_match exe_match
subject_case w e field subj =
    let set = set_of field.value in
    elim field.type [
      | auid ↦ (e, unless (attr_set_check_int set (pos (uval_of subj.value))))
      | sessionid ↦ (e, unless (attr_set_check_int set (pos (uval_of subj.value))))
      | uid ↦ (e, unless (sets_intersect set (set_of subj.value)))
      | pid ↦ (e, unless (attr_set_check_int set (pid_of subj.value)))
      | ppid ↦ (e, unless (attr_set_check_int set (pid_of subj.value)))
      | gid ↦ (e, unless (sets_intersect set (set_of subj.value)))
      | subj_trust ↦ (e, unless (uval_of subj.value == uval_of field.value))
      | exe ↦ elim (str_of subj.value) [ none ↦ (e, continues) | some p ↦ exe_match w e set p ]
      | comm ↦ elim (str_of subj.value) [
        | none ↦ (e, continues)
        | some p ↦ (e, unless (attr_set_check_str set (some p)))
      ]
      | exe_type ↦ elim (str_of subj.value) [
        | none ↦ (e, continues)
        | some p ↦ (e, unless (attr_set_check_str set (some p)))
      ]
      | exe_dir ↦ elim (str_of subj.value) [
        | none ↦ (e, continues)
        | some p ↦ dir_match (is_subj_trusted w) e set p
      ]
      | all_subj ↦ (e, continues)
      | pattern_type ↦ pattern_match w e field
    ]

-- One round of the loop of `check_subject`. An attribute that cannot be had does not count, but a
-- pattern needs none.
unfoldable pub subject_field : World → Event → SubjectAttr → Event × Outcome
unfolding subject_case pattern_match
subject_field w e field = elim field.type [
  | all_subj ↦ (e, continues)
  | pattern_type ↦ pattern_match w (get_subj_attr w e pattern_type).0 field
  | t ↦
      let (e', subj) = get_subj_attr w e t in
      elim subj [ none ↦ (e', continues) | some sn ↦ subject_case w e' field sn ]
]

unfoldable pub check_subject : World → List SubjectAttr → Event → Event × ℤ
unfolding subject_field
check_subject w [] e = (e, pos 1)
check_subject w (field ∷ fields) e =
    let (e', outcome) = subject_field w e field in
    let rest = check_subject w fields e' in
    elim outcome [ continues ↦ rest | returns rc ↦ (e', rc) ]

abbrev pub same_type : SubjectType → SubjectType → Bool
same_type a b = subject_index a == subject_index b

-- The subject's field at the index of the object's field.
unfoldable pub legacy_untrusted_subject_path_blocked :
    World → Option SubjectAttr → Event → Event × Bool
legacy_untrusted_subject_path_blocked w none e = (e, false)
legacy_untrusted_subject_path_blocked w (some field) e =
    if (same_type field.type exe || same_type field.type exe_dir)
      && attr_set_check_str (set_of field.value) (some untrusted)
    then is_obj_trusted w e
    else (e, false)

-- The case PATH.
unfoldable pub path_match :
    World → Event → Option SubjectAttr → RuleObject → Option Bytes → Event × Outcome
path_match w e at field p =
    let (e', blocked) = legacy_untrusted_subject_path_blocked w at e in
    if blocked then (e', returns (pos 0)) else elim p [
      | none ↦ (e', continues)
      | some name ↦ (
        e',
        unless (
            attr_set_check_str field.set (some ld_so_word) && w.is_known_elf_interpreter name
            || path_set_match w field.set name),
      )
    ]

-- The cases FTYPE, DEVICE and FILE_HASH after the test for "any"; a hash that could not be
-- computed does not match.
unfoldable pub string_match : Event → RuleObject → Option Bytes → Event × Outcome
string_match e field none = elim field.type [
  | file_hash ↦ (e, returns (pos 0))
  | _ ↦ (e, continues)
]
string_match e field (some p) = (e, unless (attr_set_check_str field.set (some p)))

-- The switch of `check_object`, for an attribute that was found.
unfoldable pub object_case :
    World → Event → Option SubjectAttr → RuleObject → ObjectAttr → Event × Outcome
unfolding path_match string_match dir_match
object_case w e at field obj = elim field.type [
  | obj_trust ↦ (e, unless (obj.val == field.val))
  | ftype ↦
      if attr_set_check_str field.set (some any_word)
      then (e, continues)
      else string_match e field obj.o
  | device ↦ string_match e field obj.o
  | file_hash ↦ string_match e field obj.o
  | path ↦ path_match w e at field obj.o
  | odir ↦ elim obj.o [
    | none ↦ (e, continues)
    | some p ↦ dir_match (is_obj_trusted w) e field.set p
  ]
  | all_obj ↦ (e, continues)
]

-- One round of the loop of `check_object`.
unfoldable pub object_field : World → Event → Option SubjectAttr → RuleObject → Event × Outcome
unfolding object_case
object_field w e at field = elim field.type [
  | all_obj ↦ (e, continues)
  | t ↦
      let (e', obj) = get_obj_attr w e t in
      elim obj [ none ↦ (e', continues) | some on ↦ object_case w e' at field on ]
]

-- `subjects` are the rule's subject fields from the current index on.
unfoldable pub check_object : World → List SubjectAttr → List RuleObject → Event → Event × ℤ
unfolding object_field
check_object w subjects [] e = (e, pos 1)
check_object w subjects (field ∷ fields) e =
    let (e', outcome) = object_field w e (get_elem? subjects 0) field in
    let rest = check_object w (drop 1 subjects) fields e' in
    elim outcome [ continues ↦ rest | returns rc ↦ (e', rc) ]

unfoldable pub rule_evaluate : World → Rule → Event → Event × Decision
unfolding check_access check_subject check_object
rule_evaluate w r e =
    if not (check_access r e)
    then (e, no_opinion)
    else let (e₁, ds) = check_subject w r.s e in
      if is_zero ds
      then (e₁, no_opinion)
      else let (e₂, d_object) = check_object w r.s r.o e₁ in
        (e₂, if is_zero d_object then no_opinion else r.d)

unfoldable pub rules_record_hit : Rule → Rule
rules_record_hit r = record r { hits = (r.hits + 1) % u64_mod }

-- Every rule's decision loses the AUDIT bit.
unfoldable pub rules_unsupport_audit : List Rule → List Rule
rules_unsupport_audit [] = []
rules_unsupport_audit (r ∷ rs) =
    record r { d = if bit_at r.d 4 then r.d - 16 else r.d } ∷ rules_unsupport_audit rs
