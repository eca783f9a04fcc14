-- ===== src/Rules/Pattern.antt =====
-- `subj_pattern_test`: the state machine that tells how a program was started, as a table of its
-- states.
use fapolicyd.Prelude.{
  ℕ, ◌≡◌, Bool, true, false, not, bit_at, ◌&&◌, none, arith, ◌==◌, if◌then◌else◌,
}
use fapolicyd.Prelude.Int.{ℤ, pos, negsuc}
use fapolicyd.Avl.{is_one}
use fapolicyd.Subject.{
  SubjectAttr, ProcInfo, State, collecting, reopen, default_reopen, static_reopen, partial,
  static_partial, full, normal, not_elf, ld_so, static, bad_elf, ld_preload, clear_proc_info,
  uval_of,
}
use fapolicyd.Event.{World}
use fapolicyd.Rules.{is_ld_so, strcmp_ld_so, make_decision, subj_pattern_test}

-- What a test comes to: it waits for more, it tells that the file is no ELF file or a bad one, or it
-- asks whether a state is the one that the pattern names.
pub data Verdict : Type 0 where
  waits no_elf bad : Verdict
  asks : State → Verdict

-- A permission event of a state that has seen no second path. `known` is whether anything is known
-- of the file, `is_static` whether it is an ELF file with no dynamic section, `by_ld_so` whether an
-- execution has the path of ld.so first.
abbrev pub early : (known is_static by_ld_so : Bool) → State → Verdict
early false is_static by_ld_so st = no_elf
early true true by_ld_so collecting = asks static_reopen
early true is_static by_ld_so static_partial = asks static_partial
early true is_static true st = asks ld_so
early true is_static false st = waits

-- With both paths; `starts_ld_so` is whether the first is that of ld.so.
abbrev pub complete : (has_error starts_ld_so : Bool) → Verdict
complete true starts_ld_so = bad
complete false true = asks ld_so
complete false false = asks normal

abbrev pub verdict : World → Bool → ProcInfo → State → Verdict
verdict w exec info full = complete (bit_at info.elf_info 1) (strcmp_ld_so w info.path1)
verdict w exec info normal = asks normal
verdict w exec info not_elf = asks not_elf
verdict w exec info ld_so = asks ld_so
verdict w exec info static = asks static
verdict w exec info bad_elf = asks bad_elf
verdict w exec info ld_preload = asks ld_preload
verdict w exec info st =
    early (not (info.elf_info == 0)) (bit_at info.elf_info 0 && not (bit_at info.elf_info 3))
      (exec && is_ld_so w info.path1) st

-- The states that a pattern's value names; the value 3, of LD_PRELOAD, names none.
abbrev pub names : State → ℕ → Bool
names normal pattern = pattern == 0
names ld_so pattern = pattern == 1
names static_reopen pattern = pattern == 2
names static_partial pattern = pattern == 2
names static pattern = pattern == 2
names _ pattern = false

abbrev pub told : ProcInfo → State → ℤ → ProcInfo × ℤ
told info st rc = (record info { state = st; path1 = none; path2 = none }, rc)

-- `preloads` is whether the pattern is LD_PRELOAD and the environment has it.
abbrev pub answer : (preloads : Bool) → ℕ → ProcInfo → Verdict → ProcInfo × ℤ
answer preloads pattern info waits = (info, pos 0)
answer preloads pattern info no_elf = told info not_elf (pos 0)
answer preloads pattern info bad = told info bad_elf (negsuc 0)
answer true pattern info (asks st) = told info ld_preload (pos 1)
answer false pattern info (asks st) = told info st (if names st pattern then pos 1 else pos 0)

abbrev pub preloads : World → ℕ → ProcInfo → Bool
preloads w pattern info = pattern == 3 && is_one (w.check_environ_from_pid info.info_pid)

make_decision-answer :
    (w : World) (pattern : ℕ) (info : ProcInfo) (st : State)
    → make_decision w pattern (record info { state = st })
      ≡ answer (preloads w pattern info) pattern info (asks st)
unfolding make_decision clear_proc_info
make_decision-answer w pattern info st = ground arith

verdict-answer :
    (w : World) (s : SubjectAttr) (exec : Bool) (info : ProcInfo) (st : State)
    → subj_pattern_test w s exec (record info { state = st })
      ≡ answer
          (preloads w (uval_of s.value) info)
          (uval_of s.value)
          (record info { state = st })
          (verdict w exec info st)
unfolding subj_pattern_test clear_proc_info
verdict-answer w s exec info st =
    let decide = make_decision-answer w (uval_of s.value) info in
    elim st
      as (λ st.
        subj_pattern_test w s exec (record info { state = st })
        ≡ answer (preloads w (uval_of s.value) info) (uval_of s.value) (record info { state = st })
            (verdict w exec info st)) [
              | collecting ↦ ground (arith, decide static_reopen, decide ld_so)
              | static_partial ↦ ground (arith, decide static_partial)
              | full ↦ ground (arith, decide ld_so, decide normal)
              | normal ↦ ground (arith, decide normal)
              | not_elf ↦ ground (arith, decide not_elf)
              | ld_so ↦ ground (arith, decide ld_so)
              | static ↦ ground (arith, decide static)
              | bad_elf ↦ ground (arith, decide bad_elf)
              | ld_preload ↦ ground (arith, decide ld_preload)
              | reopen ↦ ground (arith, decide ld_so)
              | default_reopen ↦ ground (arith, decide ld_so)
              | static_reopen ↦ ground (arith, decide ld_so)
              | partial ↦ ground (arith, decide ld_so)
            ]

-- The test, with its jumps, is a table: the state, what is known of the file and the paths give a
-- verdict. A test that waits changes nothing and does not match. Every other one drops the paths: it
-- marks a file that is no ELF file, without a match, or a bad one, as the error -1; or it moves to
-- the state that it asks about and matches exactly if the pattern names that state, or if the
-- pattern is LD_PRELOAD and the environment has it, which is then the state. What `strcmp` makes of
-- a NULL path of a complete process, which C leaves undefined, is arbitrary.
pub subj_pattern_test_lem :
    (w : World) (s : SubjectAttr) (exec : Bool) (info : ProcInfo)
    → subj_pattern_test w s exec info
      ≡ answer
          (preloads w (uval_of s.value) info)
          (uval_of s.value)
          info
          (verdict w exec info info.state)
subj_pattern_test_lem w s exec info = verdict-answer w s exec info info.state
