-- ===== src/Subject/Laws.antt =====
-- What the array of a subject gives back, and that `cnt` counts its entries.
use fapolicyd.Prelude.{
  ◌≡◌, ◌<◌, sym, ap, Option, none, some, arith, length, length-set, length-replicate, ◌==◌,
  if◌then◌else◌,
}
use fapolicyd.Prelude.Arrays.{get_or-set, used, used-set, used-replicate}
use fapolicyd.Subject.{
  SubjectType, SubjectValue, SubjectAttr, SArray, ProcInfo, all_subj, auid, uid, sessionid, pid,
  ppid, pattern_type, subj_trust, gid, comm, exe, exe_dir, exe_type, uval, pid_val, str, set_val,
  uval_of, pid_of, str_of, set_of, subj_count, subject_index, stored_type, slot_of, copied_value,
  subject_create, subject_access, subject_add, subject_reset,
}

pub record IsValid (a : SArray) : Type 0 where
  pub places : length a.subj ≡ subj_count
  pub counted : a.cnt ≡ used a.subj

slot-lt : (t : SubjectType) → slot_of t < subj_count
slot-lt t = ground arith

index-lt : (t : SubjectType) → subject_index t < subj_count
index-lt t = ground arith

pub subject_create-IsValid : (info : ProcInfo) → IsValid (subject_create info)
unfolding subject_create
subject_create-IsValid info = ground (
  arith,
  length-replicate {A = Option SubjectAttr} subj_count none,
  used-replicate SubjectAttr subj_count,
)

-- Where an attribute of a type is kept: that of a directory as the one of the program.
abbrev pub kept_type : SubjectType → SubjectType
kept_type all_subj = all_subj
kept_type auid = auid
kept_type uid = uid
kept_type sessionid = sessionid
kept_type pid = pid
kept_type ppid = ppid
kept_type pattern_type = pattern_type
kept_type subj_trust = subj_trust
kept_type gid = gid
kept_type comm = comm
kept_type exe = exe
kept_type exe_dir = exe
kept_type exe_type = exe_type

-- The value of the union's member that belongs to a type.
abbrev pub kept_value : SubjectType → SubjectValue → SubjectValue
kept_value all_subj v = uval (uval_of v)
kept_value auid v = uval (uval_of v)
kept_value uid v = set_val (set_of v)
kept_value sessionid v = uval (uval_of v)
kept_value pid v = pid_val (pid_of v)
kept_value ppid v = pid_val (pid_of v)
kept_value pattern_type v = uval (uval_of v)
kept_value subj_trust v = uval (uval_of v)
kept_value gid v = set_val (set_of v)
kept_value comm v = str (str_of v)
kept_value exe v = str (str_of v)
kept_value exe_dir v = str (str_of v)
kept_value exe_type v = str (str_of v)

stored-kept : (t : SubjectType) → stored_type t ≡ kept_type t
stored-kept t = ground arith

copied-kept : (t : SubjectType) (v : SubjectValue) → copied_value t v ≡ kept_value t v
unfolding copied_value
copied-kept t v = ground arith

slot-kept : (t : SubjectType) → slot_of t ≡ subject_index (kept_type t)
slot-kept t = ap subject_index (stored-kept t)

module _ {a : SArray} (v : IsValid a) where
  pub access-subject_add_slot :
      (s : SubjectAttr) (t : SubjectType)
      → IsValid (subject_add a s)
        × (subject_access (subject_add a s) t ≡ (
            if slot_of s.type == slot_of t
            then some (record { type = stored_type s.type; value = copied_value s.type s.value })
            else subject_access a t))
  unfolding subject_add subject_access
  access-subject_add_slot s t =
      let new : SubjectAttr = record {
        type = stored_type s.type;
        value = copied_value s.type s.value;
      } in
      ground (
        arith,
        slot-lt s.type,
        get_or-set a.subj (slot_of s.type) (slot_of t) (some new) none,
        used-set a.subj (slot_of s.type) (some new),
        length-set a.subj (slot_of s.type) (some new),
      )

  -- In a valid array an attribute that is added takes the place that its type has in a table, where
  -- the directory of a program has the place of the program, and keeps that member of its union
  -- which the table of the types gives; what the other places have and the process stay. The array
  -- stays valid, so `cnt` still counts its entries.
  pub access-subject_add :
      (s : SubjectAttr) (t : SubjectType)
      → IsValid (subject_add a s)
        × (subject_access (subject_add a s) t ≡ (
            if subject_index (kept_type s.type) == subject_index (kept_type t)
            then some (record { type = kept_type s.type; value = kept_value s.type s.value })
            else subject_access a t))
        × ((subject_add a s).info ≡ a.info)
  unfolding subject_add
  access-subject_add s t =
      let (valid, access) = access-subject_add_slot s t in
      (
        valid,
        rw
            (
              sym (slot-kept s.type),
              sym (slot-kept t),
              sym (stored-kept s.type),
              sym (copied-kept s.type s.value),
            )
            access,
        λ i. a.info,
      )

  -- In a valid array a reset empties the place of its type, and is all that changes; the array
  -- stays valid.
  pub access-subject_reset :
      (r t : SubjectType)
      → IsValid (subject_reset a r)
        × (subject_access (subject_reset a r) t
            ≡ (if subject_index r == slot_of t then none else subject_access a t))
  unfolding subject_reset subject_access
  access-subject_reset r t = ground (
    arith,
    index-lt r,
    get_or-set a.subj (subject_index r) (slot_of t) none none,
    used-set a.subj (subject_index r) none,
    length-set a.subj (subject_index r) none,
  )
