-- ===== src/EventCache/Visit.antt =====
-- src/library/event.c, `new_event`: what a new event of a process does to its cached subject. Each
-- `if` of the code is a function from one visit to the next.
pub mod Table
use fapolicyd.Prelude.{
  ℕ, Bool, true, false, not, ◌&&◌, ◌||◌, Option, none, some, if◌then◌else◌, bit_at,
}
use fapolicyd.Prelude.Bytes.{Bytes, bytes_eq}
use fapolicyd.Subject.{
  State, collecting, reopen, default_reopen, static_reopen, static_partial, static, state_eq,
  ProcInfo, SArray,
}
use fapolicyd.EventCache.Slots.{reset_subject_attributes}

pub record Visit : Type 0 where
  pub subject : SArray
  pub evict : Bool
  pub skip_path : Bool

-- FAN_OPEN_PERM and FAN_OPEN_EXEC_PERM
abbrev pub open_perm : ℕ → Bool
open_perm type = bit_at type 16

abbrev pub open_exec_perm : ℕ → Bool
open_exec_perm type = bit_at type 18

abbrev pub with_state : State → SArray → SArray
with_state st s = record s { info = record s.info { state = st } }

abbrev pub state_of : Visit → State
state_of v = v.subject.info.state

-- `s->info->path1 && strcmp(s->info->path1, SYSTEM_LD_SO) == 0`
abbrev pub is_path : Bytes → Option Bytes → Bool
is_path p none = false
is_path p (some q) = bytes_eq q p

module _ (ld_so_path : Bytes) (type : ℕ) (rc : Bool) where
  -- The open after the request to execute.
  unfoldable pub visit_collecting : Visit → Visit
  visit_collecting v =
      if state_eq (state_of v) collecting && open_perm type && not rc
      then if is_path ld_so_path v.subject.info.path1
        then record v { subject = with_state default_reopen v.subject }
        else record v { subject = with_state reopen v.subject; skip_path = true }
      else v

  unfoldable pub set_evict : Visit → Visit
  set_evict v = record v { evict = rc || open_exec_perm type }

  -- The execution has finished.
  unfoldable pub visit_static_partial : Visit → Visit
  visit_static_partial v =
      if state_eq (state_of v) static_partial && not rc
      then if open_exec_perm type
        then record v {
          subject = reset_subject_attributes (with_state collecting v.subject);
          evict = false;
        }
        else record v {
          subject = reset_subject_attributes (with_state static v.subject);
          evict = false;
          skip_path = true;
        }
      else v

  unfoldable pub visit_static_reopen : Visit → Visit
  visit_static_reopen v =
      if state_eq (state_of v) static_reopen && open_perm type && not rc
      then record v {
        subject = with_state static_partial v.subject;
        evict = false;
        skip_path = true;
      }
      else v

  -- HAS_INTERP is the bit 5.
  unfoldable pub visit_interpreter : Visit → Visit
  visit_interpreter v =
      if state_eq (state_of v) reopen
        && not v.skip_path
        && open_exec_perm type
        && bit_at v.subject.info.elf_info 5
        && not rc
      then record v {
        subject = with_state default_reopen v.subject;
        evict = false;
        skip_path = true;
      }
      else v

  unfoldable pub visit_reopen : Visit → Visit
  visit_reopen v =
      if state_eq (state_of v) reopen && not v.skip_path && open_perm type && not rc
      then record v { skip_path = true }
      else v

  -- All of them, on a cached subject.
  unfoldable pub visit : SArray → Visit
  unfolding visit_collecting set_evict visit_static_partial visit_static_reopen visit_interpreter
      visit_reopen
  visit s = visit_reopen (
      visit_interpreter (
        visit_static_reopen (
          visit_static_partial (
            set_evict
              (visit_collecting (record { subject = s; evict = true; skip_path = false }))))))
