-- ===== src/Subject/Tests.antt =====
-- An array with one attribute, and the theorems at this input.
use fapolicyd.Prelude.{◌≡◌, none, some, [], ◌∷◌, ◌==◌, if◌then◌else◌}
use fapolicyd.Prelude.Int.{pos}
use fapolicyd.Subject.{
  SubjectAttr, ProcInfo, collecting, str, exe, exe_dir, subject_create, subject_access, subject_add,
}
use fapolicyd.Subject.Laws.{IsValid, subject_create-IsValid, access-subject_add}

abbrev info : ProcInfo
info = record {
  info_pid = pos 12;
  stat = record { proc_device = 1; proc_inode = 2; proc_sec = 3; proc_nsec = 4 };
  state = collecting;
  path1 = none;
  path2 = none;
  building_started_ns = 0;
  building_event_count = 0;
  elf_info = 0;
}

-- "/a/" as EXE_DIR
abbrev directory : SubjectAttr
directory = record { type = exe_dir; value = str (some (47 ∷ 97 ∷ 47 ∷ [])) }

access-subject_add_example :
    let a = subject_create info in
    IsValid (subject_add a directory)
    × (subject_access (subject_add a directory) exe ≡ (
        if 10 == 10
        then some (record { type = exe; value = directory.value })
        else subject_access a exe))
    × ((subject_add a directory).info ≡ info)
unfolding subject_create
access-subject_add_example = access-subject_add (subject_create-IsValid info) directory exe
