-- ===== src/EventCache/Visit/Table.antt =====
-- The states of a subject as a table: where a permission event of the process moves it, whether the
-- subject is evicted, and whether the event's path is left out.
use fapolicyd.Prelude.{
  ℕ, ◌≡◌, refl, Bool, true, false, none, ◌&&◌, if◌then◌else◌, bit_at, Bool-cases, Option-cases,
  get_or, inl, inr,
}
use fapolicyd.Prelude.Bytes.{Bytes}
use fapolicyd.Subject.{
  State, state_eq, collecting, reopen, default_reopen, static_reopen, static_partial, static,
  SArray, SubjectType, subject_index, subject_reset, exe, comm, exe_type, subj_trust,
}
use fapolicyd.EventCache.Slots.{reset_subject_attributes}
use fapolicyd.EventCache.Visit.{
  Visit, open_perm, open_exec_perm, with_state, is_path, visit_collecting, set_evict,
  visit_static_partial, visit_static_reopen, visit_interpreter, visit_reopen, visit,
}

-- The two permission events that the daemon asks for.
pub data Access : Type 0 where
  opens executes : Access

abbrev pub IsAccess : Access → ℕ → Type 0
IsAccess opens type = (open_perm type ≡ true) × (open_exec_perm type ≡ false)
IsAccess executes type = (open_perm type ≡ false) × (open_exec_perm type ≡ true)

pub record Move : Type 0 where
  pub next : State
  pub evicts : Bool
  pub skips : Bool

abbrev pub move : State → Bool → Bool → Move
move st e s = record { next = st; evicts = e; skips = s }

-- For a process whose first path is that of ld.so, or whose file has an interpreter.
abbrev pub moves : Bool → Bool → Access → State → Move
moves by_ld_so interp opens collecting =
    if by_ld_so then move default_reopen false false else move reopen false true
moves by_ld_so interp opens reopen = move reopen false true
moves by_ld_so interp opens static_reopen = move static_partial false true
moves by_ld_so interp opens static_partial = move static false true
moves by_ld_so interp opens st = move st false false
moves by_ld_so interp executes reopen =
    if interp then move default_reopen false true else move reopen true false
moves by_ld_so interp executes static_partial = move collecting false false
moves by_ld_so interp executes st = move st true false

-- The attributes that an execution changes are forgotten when a static program has started.
abbrev pub refreshed : State → SArray → SArray
refreshed static_partial s = reset_subject_attributes s
refreshed _ s = s

abbrev pub moved : Move → State → SArray → Visit
moved m st s = record {
  subject = refreshed st (with_state m.next s);
  evict = m.evicts;
  skip_path = m.skips;
}

abbrev pub visited : Bytes → Access → SArray → Visit
visited ld_so_path a s =
    moved (moves (is_path ld_so_path s.info.path1) (bit_at s.info.elf_info 5) a s.info.state)
      s.info.state s

-- A reset touches the attributes alone.
pub subject_reset-info : (s : SArray) (t : SubjectType) → (subject_reset s t).info ≡ s.info
unfolding subject_reset
subject_reset-info s t = elim (Option-cases (get_or s.subj (subject_index t) none)) [
  | inl h ↦ rw (subject_reset, h) refl
  | inr (a, h) ↦ rw (subject_reset, h) refl
]

pub reset-info : (s : SArray) → (reset_subject_attributes s).info ≡ s.info
unfolding reset_subject_attributes
reset-info s =
    rw
      (
        subject_reset-info (subject_reset (subject_reset (subject_reset s exe) comm) exe_type)
            subj_trust,
        subject_reset-info (subject_reset (subject_reset s exe) comm) exe_type,
        subject_reset-info (subject_reset s exe) comm,
        subject_reset-info s exe,
      )
      refl

visit-with_state :
    (ld_so_path : Bytes) (type : ℕ) (a : Access) (s : SArray) (st : State)
    → IsAccess a type
    → visit ld_so_path type false (with_state st s) ≡ visited ld_so_path a (with_state st s)
unfolding visit visit_collecting set_evict visit_static_partial visit_static_reopen
    visit_interpreter visit_reopen
visit-with_state p type opens s st (o, x) =
    elim st as (λ st. visit p type false (with_state st s) ≡ visited p opens (with_state st s)) [
      | collecting ↦ elim (Bool-cases (is_path p s.info.path1)) [
        | inl h ↦ rw (o, x, h) refl
        | inr h ↦ rw (o, x, h) refl
      ]
      | reopen ↦ rw (o, x) refl
      | static_reopen ↦ rw (o) refl
      | static_partial ↦ rw (x, reset-info (with_state static s)) refl
      | _ ↦ rw (x) refl
    ]
visit-with_state p type executes s st (o, x) =
    elim st as (λ st. visit p type false (with_state st s) ≡ visited p executes (with_state st s)) [
      | reopen ↦ elim (Bool-cases (bit_at s.info.elf_info 5)) [
        | inl h ↦ rw (o, x, h) refl
        | inr h ↦ rw (o, x, h) refl
      ]
      | collecting ↦ rw (o, x) refl
      | static_reopen ↦ rw (o, x) refl
      | static_partial ↦ rw (x, reset-info (with_state collecting s)) refl
      | _ ↦ rw (x) refl
    ]

-- A condition that ends in `!rc`.
if-never : (b : Bool) (v v' : Visit) → (if b && false then v else v') ≡ v'
if-never true v v' = refl
if-never false v v' = refl

other_process :
    (ld_so_path : Bytes) (type : ℕ) (s : SArray)
    → visit ld_so_path type true s ≡ record { subject = s; evict = true; skip_path = false }
unfolding visit visit_collecting set_evict visit_static_partial visit_static_reopen
    visit_interpreter visit_reopen
other_process p type s =
    rw
      (
        if-never (state_eq s.info.state collecting && open_perm type),
        if-never (state_eq s.info.state static_partial),
        if-never (state_eq s.info.state static_reopen && open_perm type),
        if-never (
            state_eq s.info.state reopen
            && true
            && open_exec_perm type
            && bit_at s.info.elf_info 5),
        if-never (state_eq s.info.state reopen && true && open_perm type),
      )
      refl

-- An open or an execution by the process of a cached subject does to the subject what the table
-- says of its state: the next state, whether it is evicted, and whether its path is left out; the
-- attributes are reset exactly when it was in `STATE_STATIC_PARTIAL`. After an event of another
-- process the subject is evicted as it is.
pub visit_lem :
    (ld_so_path : Bytes) (type : ℕ) (a : Access) (s : SArray)
    → IsAccess a type
    → (visit ld_so_path type false s ≡ visited ld_so_path a s)
      × (visit ld_so_path type true s ≡ record { subject = s; evict = true; skip_path = false })
unfolding visit visit_collecting set_evict visit_static_partial visit_static_reopen
    visit_interpreter visit_reopen
visit_lem p type a s h = (visit-with_state p type a s s.info.state h, other_process p type s)
