-- ===== src/EventCache.antt =====
-- src/library/event.c, decision-context.h, process.c and file.c: the subjects and objects that a
-- decision worker keeps, each in a cache, the fingerprints that tell whether they are still the
-- same, and the states in which a subject blocks its slot. What the kernel answers is a parameter,
-- the record `Kernel`; logging is left out.
pub mod Slots
pub mod Visit
pub mod NewEvent
mod Tests
use fapolicyd.Prelude.{
  ℕ, zero, suc, ◌+◌, ◌-◌, ◌*◌, Bool, true, false, not, ◌&&◌, ◌||◌, Option, none, some, ltb, leb,
  ◌==◌, if◌then◌else◌, bit_at,
}
use fapolicyd.Prelude.Int.{ℤ, pos, negsuc, int_eq}
use fapolicyd.Prelude.Words.{add32}
use fapolicyd.Subject.{
  State, collecting, reopen, full, state_index, state_eq, ProcStat, ProcInfo, SArray, exe, comm,
  exe_type, subj_trust, subject_reset,
}
use fapolicyd.Object.{FileInfo, OArray}
use fapolicyd.Lru.{
  Lru, Eviction, nothing, aborts, evicted, item_of, init_lru, check_lru_cache, lru_evict,
  lru_record_collision, lru_peek_slot, compute_subject_key,
}

-- `struct stat` of an open file.
pub record FileStat : Type 0 where
  pub st_dev : ℕ
  pub st_ino : ℕ
  pub st_mode : ℕ
  pub st_size : ℕ
  pub mtim_sec : ℕ
  pub mtim_nsec : ℕ
  pub ctim_sec : ℕ
  pub ctim_nsec : ℕ

-- The answers of the system while one event is handled: `stat` of the directory of a process,
-- `fstat`, the tracer in the status of a process, the clock, the flags of an ELF file, the
-- published generation of the object caches, and whether the allocations succeed.
pub record Kernel : Type 0 where
  pub stat_proc : ℤ → Option ProcStat
  pub fstat : ℤ → Option FileStat
  pub read_tracer : ℤ → Option Bool
  pub now_ns : ℕ
  pub gather_elf : ℤ → ℕ → ℕ
  pub flush_generation : ℕ
  pub allocates_cache : Bool
  pub allocates_subject : Bool
  pub allocates_attribute : Bool
  pub allocates_object : Bool

-- `struct decision_context`, as far as events are concerned; `aborted` tells that `abort` was called
-- or a missing node was used, after which no step counts.
pub record DecisionContext : Type 0 where
  pub subject_cache : Lru SArray
  pub object_cache : Lru OArray
  pub object_cache_flush_generation : ℕ
  pub early_subject_cache_evictions : ℕ
  pub building_tracer_evict_count : ℕ
  pub building_stale_evict_count : ℕ
  pub aborted : Bool

unfoldable pub stat_proc_entry : Kernel → ℤ → Option ProcInfo
stat_proc_entry k pid = elim (k.stat_proc pid) [
  | none ↦ none
  | some sb ↦ some (record {
    info_pid = pid;
    stat = sb;
    state = collecting;
    path1 = none;
    path2 = none;
    building_started_ns = 0;
    building_event_count = 0;
    elf_info = 0;
  })
]

-- True if they differ.
unfoldable pub compare_proc_infos : ProcInfo → ProcInfo → Bool
compare_proc_infos p1 p2 =
    if not (p1.stat.proc_inode == p2.stat.proc_inode)
    then true
    else if not (int_eq p1.info_pid p2.info_pid)
    then true
    else if not (p1.stat.proc_nsec == p2.stat.proc_nsec)
    then true
    else if not (p1.stat.proc_sec == p2.stat.proc_sec)
    then true
    else not (p1.stat.proc_device == p2.stat.proc_device)

-- The time of the last change, or of the creation where that is 0.
unfoldable pub stat_file_entry : Kernel → ℤ → Option FileInfo
stat_file_entry k fd = elim (k.fstat fd) [
  | none ↦ none
  | some sb ↦ some (record {
    file_device = sb.st_dev;
    file_inode = sb.st_ino;
    file_mode = sb.st_mode;
    file_size = sb.st_size;
    file_sec = if sb.mtim_sec == 0 then sb.ctim_sec else sb.mtim_sec;
    file_nsec = if sb.mtim_nsec == 0 then sb.ctim_nsec else sb.mtim_nsec;
  })
]

unfoldable pub compare_file_infos : FileInfo → FileInfo → Bool
compare_file_infos p1 p2 =
    if not (p1.file_inode == p2.file_inode)
    then true
    else if not (p1.file_nsec == p2.file_nsec)
    then true
    else if not (p1.file_sec == p2.file_sec)
    then true
    else if not (p1.file_size == p2.file_size)
    then true
    else not (p1.file_device == p2.file_device)

-- `state < STATE_FULL`
abbrev pub is_building : State → Bool
is_building s = ltb (state_index s) (state_index full)

unfoldable pub subject_building_age_ns : Kernel → ProcInfo → ℕ
subject_building_age_ns k info =
    if info.building_started_ns == 0
    then 0
    else if leb k.now_ns info.building_started_ns
    then 0
    else k.now_ns - info.building_started_ns

-- `UINT_MAX`
abbrev pub uint_max : ℕ
uint_max = 4_294_967_295

unfoldable pub subject_mark_building_event : Kernel → ProcInfo → ProcInfo
subject_mark_building_event k info = if not (is_building info.state) then info else record info {
  building_started_ns =
      if info.building_started_ns == 0 then k.now_ns else info.building_started_ns;
  building_event_count =
      if info.building_event_count == uint_max
      then info.building_event_count
      else info.building_event_count + 1;
}

-- The condition under which an eviction of a subject is counted: HAS_SHEBANG and TEXT_SCRIPT are the
-- bits 16 and 17.
unfoldable pub evicted_early : SArray → Bool
evicted_early s =
    is_building s.info.state
    && not
        (state_eq s.info.state reopen && (bit_at s.info.elf_info 16 || bit_at s.info.elf_info 17))

unfoldable pub subject_evict_warn : Option SArray → DecisionContext → DecisionContext
unfolding evicted_early
subject_evict_warn none c = c
subject_evict_warn (some s) c =
    if evicted_early s
    then record c { early_subject_cache_evictions = add32 c.early_subject_cache_evictions 1 }
    else c

-- What follows from an eviction of a subject; nothing in the model depends on an object's.
unfoldable pub after_eviction : Eviction SArray → DecisionContext → DecisionContext
unfolding subject_evict_warn
after_eviction nothing c = c
after_eviction aborts c = record c { aborted = true }
after_eviction (evicted s) c = subject_evict_warn s c

unfoldable pub after_object_eviction : Eviction OArray → DecisionContext → DecisionContext
after_object_eviction nothing c = c
after_object_eviction aborts c = record c { aborted = true }
after_object_eviction (evicted o) c = c

-- `check_lru_cache` and `lru_evict` on the cache of subjects.
unfoldable pub look_up_subject : DecisionContext → ℕ → DecisionContext × Option ℕ
unfolding after_eviction
look_up_subject c key =
    let (q, node, eviction) = check_lru_cache c.subject_cache key in
    (after_eviction eviction (record c { subject_cache = q }), node)

unfoldable pub evict_subject : DecisionContext → ℕ → DecisionContext
unfolding after_eviction
evict_subject c key =
    let (q, eviction) = lru_evict c.subject_cache key in
    after_eviction eviction (record c { subject_cache = q })

unfoldable pub look_up_object : DecisionContext → ℕ → DecisionContext × Option ℕ
unfolding after_object_eviction
look_up_object c key =
    let (q, node, eviction) = check_lru_cache c.object_cache key in
    (after_object_eviction eviction (record c { object_cache = q }), node)

unfoldable pub evict_object : DecisionContext → ℕ → DecisionContext
unfolding after_object_eviction
evict_object c key =
    let (q, eviction) = lru_evict c.object_cache key in
    after_object_eviction eviction (record c { object_cache = q })
