-- ===== src/Event/Example.antt =====
-- A system with one process, for the tests.
use fapolicyd.Prelude.{◌≡◌, refl, inl, false, none, some, [], ◌∷◌, if◌then◌else◌}
use fapolicyd.Prelude.Int.{ℤ, pos}
use fapolicyd.Prelude.Bytes.{Bytes, bytes_eq}
use fapolicyd.Avl.{leaf, node}
use fapolicyd.AttrSets.{AttrSet, unsigned}
use fapolicyd.Subject.Laws.{subject_create-IsValid}
use fapolicyd.Event.Subjects.{Keeps}
use fapolicyd.Subject.{SubjectType, all_subj, subject_access, ProcInfo, collecting, subject_create}
use fapolicyd.Object.{FileInfo, object_create}
use fapolicyd.Event.{Event, World, ProcStatusInfo, program}

-- "/usr/bin/ls" and "/bin/cat"
abbrev pub ls : Bytes
ls = 47 ∷ 117 ∷ 115 ∷ 114 ∷ 47 ∷ 98 ∷ 105 ∷ 110 ∷ 47 ∷ 108 ∷ 115 ∷ []

abbrev pub cat : Bytes
cat = 47 ∷ 98 ∷ 105 ∷ 110 ∷ 47 ∷ 99 ∷ 97 ∷ 116 ∷ []

abbrev pub root_ids : AttrSet
root_ids = record { name = none; has_glob = false; members = unsigned (node leaf 0 (pos 0) leaf) }

abbrev pub status : ProcStatusInfo
status = record {
  ppid_read = pos 1;
  uid_read = some root_ids;
  groups = some root_ids;
  comm_read = some (108 ∷ 115 ∷ []);
}

-- 1 for "/usr/bin/ls", else 0
abbrev pub if_trusted : Bytes → ℤ
if_trusted p = if bytes_eq p ls then pos 1 else pos 0

-- Its trust database holds "/usr/bin/ls" alone.
abbrev pub system : World
system = record {
  get_program_auid_from_pid = λ p. 1000;
  get_program_sessionid_from_pid = λ p. 3;
  policy_get_proc_status_mask = 15;
  read_proc_status = λ p m. some status;
  get_program_from_pid = λ p. program ls;
  get_type_from_pid = λ p. none;
  check_trust_database = λ p. if_trusted p;
  check_trust_database_fd = λ p fd. if_trusted p;
  get_file_from_fd = λ fd p. some cat;
  get_device_from_stat = none;
  get_file_type_from_fd = λ fd p. none;
  get_hash_from_fd2 = λ fd. none;
  check_environ_from_pid = λ p. pos 0;
  system_ld_so = 47 ∷ 108 ∷ [];
  null_is_ld_so = false;
  fnmatch = λ p s. bytes_eq p s;
  is_known_elf_interpreter = λ p. false;
}

abbrev pub info : ProcInfo
info = record {
  info_pid = pos 12;
  stat = record { proc_device = 1; proc_inode = 2; proc_sec = 3; proc_nsec = 4 };
  state = collecting;
  path1 = some ls;
  path2 = none;
  building_started_ns = 0;
  building_event_count = 0;
  elf_info = 9;
}

-- The file that it opens.
abbrev pub finfo : FileInfo
finfo = record {
  file_device = 1;
  file_inode = 2;
  file_mode = 33_261;
  file_size = 4;
  file_sec = 5;
  file_nsec = 6;
}

-- The process opens a file; nothing of it is known yet.
abbrev pub opens : Event
opens = record {
  event_pid = pos 12;
  fd = pos 5;
  type = 65_536;
  num = 0;
  s = subject_create info;
  o = object_create finfo [];
}

none-subject_create : (t : SubjectType) → subject_access (subject_create info) t ≡ none
unfolding subject_create subject_access
none-subject_create t = elim t as (λ k. subject_access (subject_create info) k ≡ none) [
  | all_subj ↦ refl
  | _ ↦ refl
]

pub opens-Keeps : Keeps system (pos 12) opens.s
opens-Keeps = record {
  valid = subject_create-IsValid info;
  kept = λ t. inl (none-subject_create t);
}
