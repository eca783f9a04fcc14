-- ===== src/EventCache/Slots.antt =====
-- src/library/event.c: whether a subject that is still building blocks its slot, and the eviction of
-- one that is traced or stale; and the flush of the cache of objects.
use fapolicyd.Prelude.{
  ℕ, ◌*◌, Bool, true, false, not, ◌||◌, Option, none, some, leb, ◌==◌, if◌then◌else◌,
}
use fapolicyd.Prelude.Int.{ℤ, int_eq}
use fapolicyd.Prelude.Words.{add32}
use fapolicyd.Subject.{
  State, ProcInfo, SArray, full, state_index, exe, comm, exe_type, subj_trust, subject_reset,
}
use fapolicyd.Lru.{item_of, init_lru, lru_peek_slot, lru_record_collision, compute_subject_key}
use fapolicyd.EventCache.{
  Kernel, DecisionContext, stat_proc_entry, compare_proc_infos, is_building,
  subject_building_age_ns, look_up_subject, evict_subject,
}

-- `flush_cache` frees the objects without counting them.
unfoldable pub flush_cache : Kernel → DecisionContext → DecisionContext × Bool
flush_cache k c =
    if c.object_cache.count == 0
    then (c, true)
    else if k.allocates_cache
    then (record c { object_cache = init_lru c.object_cache.total }, true)
    else (c, false)

unfoldable pub flush_cache_if_needed : Kernel → DecisionContext → DecisionContext × Bool
unfolding flush_cache
flush_cache_if_needed k c =
    if c.object_cache_flush_generation == k.flush_generation
    then (c, true)
    else let (c', flushed) = flush_cache k c in
      if flushed
      then (record c' { object_cache_flush_generation = k.flush_generation }, true)
      else (c', false)

unfoldable pub reset_subject_attributes : SArray → SArray
reset_subject_attributes s =
    subject_reset (subject_reset (subject_reset (subject_reset s exe) comm) exe_type) subj_trust

-- A `pid_t` that is not negative.
unfoldable pub event_subject_slot : DecisionContext → ℕ → ℕ
event_subject_slot c pid = compute_subject_key c.subject_cache pid

abbrev pub info_of : Option SArray → Option ProcInfo
info_of none = none
info_of (some s) = some s.info

unfoldable pub subject_slot_info : DecisionContext → ℕ → Option ProcInfo
subject_slot_info c slot = elim (lru_peek_slot c.subject_cache slot) [
  | none ↦ none
  | some n ↦ info_of (item_of c.subject_cache n)
]

unfoldable pub subject_slot_state : DecisionContext → ℕ → State
subject_slot_state c slot = elim (subject_slot_info c slot) [ none ↦ full | some info ↦ info.state ]

unfoldable pub subject_building_is_traced : Kernel → ProcInfo → Bool
subject_building_is_traced k info = elim (k.read_tracer info.info_pid) [
  | none ↦ false
  | some traced ↦ traced
]

-- SUBJECT_BUILDING_STALE_NS
abbrev pub building_stale_ns : ℕ
building_stale_ns = 10_000 * 1_000_000

unfoldable pub subject_building_is_stale : Kernel → ProcInfo → Bool
subject_building_is_stale k info = elim (stat_proc_entry k info.info_pid) [
  | none ↦ true
  | some current ↦
      if compare_proc_infos current info
      then true
      else leb building_stale_ns (subject_building_age_ns k info)
]

-- `enum building_evict_reason`
pub data BuildingEvictReason : Type 0 where
  tracer stale : BuildingEvictReason

unfoldable pub record_building_evict : BuildingEvictReason → DecisionContext → DecisionContext
record_building_evict tracer c = record c {
  building_tracer_evict_count = add32 c.building_tracer_evict_count 1;
}
record_building_evict stale c = record c {
  building_stale_evict_count = add32 c.building_stale_evict_count 1;
}

-- The test `s->info != info` compares the pointer that the caller read from the same slot.
unfoldable pub evict_building_subject : DecisionContext → ℕ → BuildingEvictReason → DecisionContext
evict_building_subject c slot reason =
    let (c', node) = look_up_subject c slot in
    elim node [
      | none ↦ c'
      | some n ↦ elim (item_of c'.subject_cache n) [
        | none ↦ c'
        | some s ↦
            let counted = record_building_evict reason c' in
            evict_subject
              (record counted { subject_cache = lru_record_collision counted.subject_cache }) slot
      ]
    ]

unfoldable pub event_subject_slot_is_blocked :
    Kernel → DecisionContext → ℕ → ℤ → DecisionContext × Bool
event_subject_slot_is_blocked k c slot pid = elim (subject_slot_info c slot) [
  | none ↦ (c, false)
  | some info ↦
      if int_eq info.info_pid pid || not (is_building info.state)
      then (c, false)
      else if subject_building_is_traced k info
      then (evict_building_subject c slot tracer, false)
      else if subject_building_is_stale k info
      then (evict_building_subject c slot stale, false)
      else (c, true)
]

unfoldable pub event_subject_slot_is_unblocked : DecisionContext → ℕ → Bool
event_subject_slot_is_unblocked c slot =
    leb (state_index full) (state_index (subject_slot_state c slot))
