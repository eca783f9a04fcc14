-- ===== src/Event.antt =====
-- src/library/event.c and event.h: an event and the attributes of its subject and object, which are
-- looked up when a rule first asks for them and kept. What /proc, the files and the trust database
-- answer is a parameter, the record `World`.
pub mod Subjects
pub mod Example
mod Tests
use fapolicyd.Prelude.{
  ℕ, zero, suc, ◌+◌, Bool, true, false, Option, none, some, List, [], ◌∷◌, ◌==◌, if◌then◌else◌,
  bit_at, take,
}
use fapolicyd.Prelude.Int.{ℤ, pos, negsuc}
use fapolicyd.Prelude.Bytes.{Bytes}
use fapolicyd.Avl.{is_one}
use fapolicyd.AttrSets.{AttrSet}
use fapolicyd.Subject.{
  SubjectType, SubjectAttr, SubjectValue, SArray, uval, pid_val, str, set_val, str_of, auid, uid,
  sessionid, pid, ppid, subj_trust, gid, comm, exe, exe_dir, exe_type, all_subj, pattern_type,
  subject_access, subject_add,
}
use fapolicyd.Object.{
  ObjectType, ObjectAttr, OArray, path, odir, device, ftype, obj_trust, file_hash, all_obj,
  object_access, object_add, object_find_file,
}

-- `event_t`; `type` holds the bits of the fanotify mask.
pub record Event : Type 0 where
  pub event_pid : ℤ
  pub fd : ℤ
  pub type : ℕ
  pub num : ℕ
  pub s : SArray
  pub o : OArray

-- `struct proc_status_info`
pub record ProcStatusInfo : Type 0 where
  pub ppid_read : ℤ
  pub uid_read : Option AttrSet
  pub groups : Option AttrSet
  pub comm_read : Option Bytes

-- What `get_program_from_pid` leaves: errno is ENOENT, or a path, or neither.
pub data ExeLink : Type 0 where
  enoent : ExeLink
  program : Bytes → ExeLink
  unreadable : ExeLink

-- The calls that leave the decision code, named after the functions, and the fields of
-- `o->info` that do not change while the event is decided.
pub record World : Type 0 where
  pub get_program_auid_from_pid : ℤ → ℕ
  pub get_program_sessionid_from_pid : ℤ → ℕ
  pub policy_get_proc_status_mask : ℕ
  pub read_proc_status : ℤ → ℕ → Option ProcStatusInfo
  pub get_program_from_pid : ℤ → ExeLink
  pub get_type_from_pid : ℤ → Option Bytes
  pub check_trust_database : Bytes → ℤ
  pub check_trust_database_fd : Bytes → ℤ → ℤ
  pub get_file_from_fd : ℤ → ℤ → Option Bytes
  pub get_device_from_stat : Option Bytes
  pub get_file_type_from_fd : ℤ → Bytes → Option Bytes
  pub get_hash_from_fd2 : ℤ → Option Bytes
  pub check_environ_from_pid : ℤ → ℤ
  pub system_ld_so : Bytes
  -- Whether `strcmp` of NULL and `system_ld_so` gives 0: C leaves it undefined.
  pub null_is_ld_so : Bool
  pub fnmatch : Bytes → Bytes → Bool
  pub is_known_elf_interpreter : Bytes → Bool

-- "?"
abbrev pub question : Bytes
question = 63 ∷ []

-- `ptr ? strdup(buf) : strdup("?")`
abbrev pub or_question : Option Bytes → Option Bytes
or_question none = some question
or_question (some b) = some b

abbrev pub subject_attr : SubjectType → SubjectValue → SubjectAttr
subject_attr t v = record { type = t; value = v }

-- `subject_add` under a bit of the status mask.
abbrev pub add_if : Bool → SubjectAttr → SArray → SArray
add_if true sub a = subject_add a sub
add_if false sub a = a

unfoldable pub fetch_proc_status : World → Event → SubjectType → Event × Option SubjectAttr
fetch_proc_status w e t =
    let mask = w.policy_get_proc_status_mask in
    elim (w.read_proc_status e.event_pid mask) [
      | none ↦ (e, none)
      | some info ↦
          let s1 = add_if (bit_at mask 0) (subject_attr ppid (pid_val info.ppid_read)) e.s in
          let s2 = add_if (bit_at mask 1) (subject_attr uid (set_val info.uid_read)) s1 in
          let s3 = add_if (bit_at mask 2) (subject_attr gid (set_val info.groups)) s2 in
          let s4 = add_if (bit_at mask 3) (subject_attr comm (str info.comm_read)) s3 in
          (record e { s = s4 }, subject_access s4 t)
    ]

-- The end of `get_subj_attr`: the attribute is added, and read again.
unfoldable pub cache_subj : Event → SubjectAttr → Event × Option SubjectAttr
cache_subj e subj =
    let s' = subject_add e.s subj in (record e { s = s' }, subject_access s' subj.type)

-- `sn ? strdup(sn->str) : strdup("?")`; an entry of COMM has a string.
abbrev pub comm_or_question : Option SubjectAttr → SubjectValue
comm_or_question none = str (some question)
comm_or_question (some sn) = str (str_of sn.value)

-- The cases EXE and EXE_DIR of `get_subj_attr`; a thread of the kernel has no exe, but a comm.
unfoldable pub look_up_exe : World → Event → SubjectType → Event × Option SubjectAttr
unfolding cache_subj fetch_proc_status
look_up_exe w e t = elim (w.get_program_from_pid e.event_pid) [
  | enoent ↦ elim (subject_access e.s comm) [
    | some sn ↦ cache_subj e (subject_attr t (comm_or_question (some sn)))
    | none ↦
        let (e', sn) = fetch_proc_status w e comm in
        cache_subj e' (subject_attr t (comm_or_question sn))
  ]
  | program buf ↦ cache_subj e (subject_attr t (str (some buf)))
  | unreadable ↦ cache_subj e (subject_attr t (str (some question)))
]

-- `get_subj_attr(e, EXE)`, which the case SUBJ_TRUST calls.
unfoldable pub get_exe : World → Event → Event × Option SubjectAttr
unfolding look_up_exe
get_exe w e = elim (subject_access e.s exe) [ some sn ↦ (e, some sn) | none ↦ look_up_exe w e exe ]

abbrev pub bit_of : Bool → ℕ
bit_of b = if b then 1 else 0

-- Any answer of the trust database but 1 is no trust.
abbrev pub subj_trust_of : World → Option SubjectAttr → ℕ
subj_trust_of w none = 0
subj_trust_of w (some a) = elim (str_of a.value) [
  | none ↦ 0
  | some p ↦ bit_of (is_one (w.check_trust_database p))
]

-- The switch of `get_subj_attr`, for an attribute that is not there yet.
unfoldable pub look_up_subj : World → Event → SubjectType → Event × Option SubjectAttr
unfolding cache_subj fetch_proc_status look_up_exe get_exe
look_up_subj w e t = elim t [
  | auid ↦ cache_subj e (subject_attr auid (uval (w.get_program_auid_from_pid e.event_pid)))
  | ppid ↦ fetch_proc_status w e ppid
  | uid ↦ fetch_proc_status w e uid
  | gid ↦ fetch_proc_status w e gid
  | comm ↦ fetch_proc_status w e comm
  | sessionid ↦
      cache_subj e (subject_attr sessionid (uval (w.get_program_sessionid_from_pid e.event_pid)))
  | pid ↦ cache_subj e (subject_attr pid (pid_val e.event_pid))
  | exe ↦ look_up_exe w e exe
  | exe_dir ↦ look_up_exe w e exe_dir
  | exe_type ↦
      cache_subj e (subject_attr exe_type (str (or_question (w.get_type_from_pid e.event_pid))))
  | subj_trust ↦
      let (e', a) = get_exe w e in
      cache_subj e' (subject_attr subj_trust (uval (subj_trust_of w a)))
  | all_subj ↦ (e, none)
  | pattern_type ↦ (e, none)
]

unfoldable pub get_subj_attr : World → Event → SubjectType → Event × Option SubjectAttr
unfolding look_up_subj
get_subj_attr w e t = elim (subject_access e.s t) [
  | some sn ↦ (e, some sn)
  | none ↦ look_up_subj w e t
]

abbrev pub object_attr : ObjectType → ℕ → Option Bytes → ObjectAttr
object_attr t v str' = record { type = t; val = v; o = str' }

-- The end of `get_obj_attr`.
unfoldable pub cache_obj : Event → ObjectAttr → Event × Option ObjectAttr
cache_obj e obj = let o' = object_add e.o obj in (record e { o = o' }, object_access o' obj.type)

-- The cases PATH and ODIR of `get_obj_attr`.
unfoldable pub look_up_path : World → Event → ObjectType → Event × Option ObjectAttr
unfolding cache_obj
look_up_path w e t = elim (object_find_file e.o) [
  | some on ↦ cache_obj e (object_attr t 0 on.o)
  | none ↦ cache_obj e (object_attr t 0 (or_question (w.get_file_from_fd e.fd e.event_pid)))
]

-- `get_obj_attr(e, PATH)`, which the cases FTYPE and OBJ_TRUST call.
unfoldable pub get_path : World → Event → Event × Option ObjectAttr
unfolding look_up_path
get_path w e = elim (object_access e.o path) [
  | some on ↦ (e, some on)
  | none ↦ look_up_path w e path
]

-- `path ? path->o : "?"`; the string of an entry of PATH is not NULL.
abbrev pub path_string : Option ObjectAttr → Bytes
path_string none = question
path_string (some a) = elim a.o [ none ↦ question | some b ↦ b ]

abbrev pub obj_trust_of : World → ℤ → Option ObjectAttr → ℕ
obj_trust_of w fd none = 0
obj_trust_of w fd (some a) = elim a.o [
  | none ↦ 0
  | some p ↦ bit_of (is_one (w.check_trust_database_fd p fd))
]

-- `FILE_DIGEST_STRING_MAX - 1`
abbrev pub digest_max : ℕ
digest_max = 135

-- The case FILE_HASH: a digest that `o->info` has is used, else it is computed and kept there, cut
-- to the buffer.
unfoldable pub look_up_hash : World → Event → Event × Option ObjectAttr
unfolding cache_obj
look_up_hash w e = elim e.o.digest [
  | c ∷ cs ↦ cache_obj e (object_attr file_hash 0 (some (c ∷ cs)))
  | [] ↦ elim (w.get_hash_from_fd2 e.fd) [
    | some h ↦
        cache_obj (record e { o = record e.o { digest = take digest_max h } })
          (object_attr file_hash 0 (some h))
    | none ↦ cache_obj (record e { o = record e.o { digest = [] } }) (object_attr file_hash 0 none)
  ]
]

-- The switch of `get_obj_attr`.
unfoldable pub look_up_obj : World → Event → ObjectType → Event × Option ObjectAttr
unfolding cache_obj look_up_path get_path look_up_hash
look_up_obj w e t = elim t [
  | path ↦ look_up_path w e path
  | odir ↦ look_up_path w e odir
  | device ↦ cache_obj e (object_attr device 0 (or_question w.get_device_from_stat))
  | ftype ↦
      let (e', p) = get_path w e in
      cache_obj e'
        (object_attr ftype 0 (or_question (w.get_file_type_from_fd e.fd (path_string p))))
  | file_hash ↦ look_up_hash w e
  | obj_trust ↦
      let (e', p) = get_path w e in
      cache_obj e' (object_attr obj_trust (obj_trust_of w e.fd p) none)
  | all_obj ↦ (e, none)
]

unfoldable pub get_obj_attr : World → Event → ObjectType → Event × Option ObjectAttr
unfolding look_up_obj
get_obj_attr w e t = elim (object_access e.o t) [
  | some on ↦ (e, some on)
  | none ↦ look_up_obj w e t
]
