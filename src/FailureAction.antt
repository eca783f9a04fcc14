-- ===== src/FailureAction.antt =====
-- src/library/failure-action.c: the reasons for a failure of the daemon, what each does, and how often
-- it was seen. A reason is its number; the reports are left out.
use fapolicyd.Prelude.{
  ℕ, ◌+◌, ◌%◌, Bool, true, false, Option, none, some, List, [], ◌∷◌, map, get_elem?, set, get_or,
  replicate, if◌then◌else◌,
}
use fapolicyd.Prelude.Words.{u64_mod}
use fapolicyd.Prelude.Bytes.{Bytes, codes}

-- `failure_action_t`
pub data Action : Type 0 where
  observe terminate : Action

-- `failure_definitions`: the name and the action of each reason.
abbrev pub failure_definitions : List (Bytes × Action)
failure_definitions =
    (codes "queue_full", observe)
    ∷ (codes "kernel_queue_overflow", observe)
    ∷ (codes "worker_stall", terminate)
    ∷ (codes "rule_reload_failure", observe)
    ∷ (codes "trust_reload_failure", observe)
    ∷ (codes "response_write_failure", observe)
    ∷ (codes "fanotify_filesystem_error", observe)
    ∷ []

-- FAILURE_REASON_WORKER_STALL
abbrev pub worker_stall : ℕ
worker_stall = 2

-- `failure_reason_valid`: a reason has a definition if it is below FAILURE_REASON_MAX.
abbrev pub definition_of : ℕ → Option (Bytes × Action)
definition_of reason = get_elem? failure_definitions reason

unfoldable pub failure_reason_name : ℕ → Bytes
failure_reason_name reason = elim (definition_of reason) [
  | none ↦ codes "unknown"
  | some (name, action) ↦ name
]

unfoldable pub failure_reason_action : ℕ → Action
failure_reason_action reason = elim (definition_of reason) [
  | none ↦ observe
  | some (name, action) ↦ action
]

abbrev pub raises : Action → Bool
raises observe = false
raises terminate = true

-- `failure_action_execute`: whether it raises SIGKILL.
unfoldable pub failure_action_execute : ℕ → Bool
unfolding failure_reason_action
failure_action_execute reason = raises (failure_reason_action reason)

-- `failure_counts` at the start.
abbrev pub no_failures : List ℕ
no_failures = replicate 7 0

-- `failure_action_record`: the counters, and what it returns.
unfoldable pub failure_action_record : List ℕ → ℕ → List ℕ × ℕ
failure_action_record counts reason = elim (definition_of reason) [
  | none ↦ (counts, 0)
  | some _ ↦ let count = (get_or counts reason 0 + 1) % u64_mod in (set counts reason count, count)
]

unfoldable pub failure_action_count : List ℕ → ℕ → ℕ
failure_action_count counts reason = elim (definition_of reason) [
  | none ↦ 0
  | some _ ↦ get_or counts reason 0
]

-- `failure_action_snapshot`: the counters, and the snapshot.
unfoldable pub failure_action_snapshot : List ℕ → Bool → List ℕ × List ℕ
failure_action_snapshot counts reset = (if reset then map (λ c. 0) counts else counts, counts)
