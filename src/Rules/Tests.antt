-- ===== src/Rules/Tests.antt =====
-- The start of a static program, and the theorem at this input.
use fapolicyd.Prelude.{false, List, [], ◌∷◌, arith, if◌then◌else◌, ◌≡◌, refl, true, none, some, ◌⊎◌}
use fapolicyd.Prelude.Int.{pos}
use fapolicyd.Avl.{leaf, node, avl_search}
use fapolicyd.AttrSets.{unsigned, attr_set_check_int}
use fapolicyd.Event.Subjects.{subj_value}
use fapolicyd.Rules.Subjects.{
  Kept, fields_hold, field_holds, value_holds, trusts, check_subject-fields_hold,
}
use fapolicyd.Subject.{
  subj_trust, auid, set_val, SubjectAttr, pattern_type, uval, clear_proc_info, static_reopen,
  ProcInfo, collecting,
}
use fapolicyd.Event.Example.{opens, opens-Keeps, ls, system}
use fapolicyd.Rules.{check_subject, subj_pattern_test, make_decision}
use fapolicyd.Rules.Pattern.{subj_pattern_test_lem}

-- pattern=static
abbrev static_pattern : SubjectAttr
static_pattern = record { type = pattern_type; value = uval 2 }

-- An ELF file with no dynamic section.
abbrev started : ProcInfo
started = record {
  info_pid = pos 12;
  stat = record { proc_device = 1; proc_inode = 2; proc_sec = 3; proc_nsec = 4 };
  state = collecting;
  path1 = some ls;
  path2 = none;
  building_started_ns = 0;
  building_event_count = 0;
  elf_info = 1;
}

static_matches :
    subj_pattern_test system static_pattern true started
    ≡ (record started { state = static_reopen; path1 = none }, pos 1)
unfolding subj_pattern_test make_decision clear_proc_info
static_matches = refl

subj_pattern_test_lem_example :
    subj_pattern_test system static_pattern true started
    ≡ (record started { state = static_reopen; path1 = none }, pos 1)
subj_pattern_test_lem_example = subj_pattern_test_lem system static_pattern true started

-- trust=1 auid=1000, for a process of which nothing is known yet
abbrev trusted_fields : List SubjectAttr
trusted_fields =
    record { type = subj_trust; value = uval 1 }
    ∷ record {
      type = auid;
      value = set_val (
          some (record {
            name = none;
            has_glob = false;
            members = unsigned (node leaf 1000 (pos 0) leaf);
          }));
    }
    ∷ []

check_subject-fields_hold_example :
    Kept system opens (check_subject system trusted_fields opens).0
    × ((check_subject system trusted_fields opens).1
        ≡ (if fields_hold system (pos 12) trusted_fields then pos 1 else pos 0))
check_subject-fields_hold_example =
    check_subject-fields_hold system trusted_fields opens (ground arith) opens-Keeps

trusted_fields_match : fields_hold system (pos 12) trusted_fields ≡ true
unfolding fields_hold field_holds value_holds trusts subj_value attr_set_check_int avl_search
    fapolicyd.Prelude.Bytes.bytes_eq
trusted_fields_match = refl
