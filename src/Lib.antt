-- ===== src/Lib.antt =====
-- fapolicyd: a daemon that allows or denies the opening and execution of files. The kernel asks
-- through fanotify; the reader puts the event in the queue of a decision worker, which takes it out,
-- gathers the attributes of the subject (the process) and of the object (the file) as rules ask for
-- them, and evaluates the rules in their order. The first rule that has an opinion decides, and the
-- reply goes to the kernel.
--
-- Files, by the part of src/library that they model, or of src/daemon for `Worker` and
-- `WorkerHealth`:
--   DecisionEvent  decision-event.h: the envelope of an event
--   Queue          queue.c: `q_open`, `q_enqueue`, `q_dequeue` and the snapshots of its counters.
--                  Queue/Fifo is the bounded FIFO that it implements
--   Avl            avl.c: search, insertion with its rotations, the walks, the iterator
--   AttrSets       attr-sets.c: sets of strings or numbers over the trees, and their registry
--   Subject        subject.c, subject-attr.h, process.h: the attributes of a process kept so far
--   Object         object.c, object-attr.h: the attributes of a file kept so far
--   Event          event.c: `get_subj_attr` and `get_obj_attr`, which look an attribute up once.
--                  Event/Subjects describes the attributes with no cache, Event/Example is a system
--                  for the tests
--   Rules          rules.c: `rule_evaluate` with `check_access`, `check_subject`, `check_object` and
--                  the state machine `subj_pattern_test`. Rules/Subjects describes the match of a
--                  subject with no cache
--   Policy         policy.c and policy-metrics.c: `process_event_evaluate`, `make_policy_decision`
--                  and the counters
--   Defer          decision-defer.c: the array of deferred events; Defer/Refine describes it as a map
--                  from orders of arrival to events
--   Lru            lru.c: the cache of nodes behind subjects and objects. Lru/Slots describes it as a
--                  table of items
--   EventCache     event.c: `new_event` with the caches of a worker (EventCache/NewEvent), the states of
--                  a cached subject (EventCache/Visit, its table in Visit/Table), and when a subject
--                  blocks its slot (EventCache/Slots); process.c and file.c: the fingerprints
--   Escape         escape.c: the escaping of paths for the shell
--   StringUtil     string-util.c: `fapolicyd_strtrim`
--   Filter         filter.c: `filter_check`, which says what files of a package go to the trust
--                  database, and its stack; Filter/Load has `filter_load_file` and
--                  `filter_prune_list`. Filter/Decide describes the check by recursion on the tree,
--                  Filter/Lines writes a tree as a file
--   FdFgets        fd-fgets.c: the reader of lines from a descriptor
--   Worker         decision-worker.c: the routing of events to workers, their dispatch, deferral and
--                  release, and the shutdown, over any `Subjects`, which Worker/System fills from the
--                  models of event.c and of `make_policy_decision`. Worker/Turns has the steps of a
--                  worker, Worker/Lifetime its life from the start to the shutdown
--   TrustFile      trust-file.c: the format of a line and of a file of trusted paths, both ways.
--                  TrustFile/Load has `trust_file_load` and the edits of the command line, with
--                  `unescape` of escape.c. TrustFile/Entries says what a file of entries holds
--   TrustDb        database.c: `check_trust_database_with_read` with `read_trust_db` and the parsing of
--                  its records. TrustDb/Verdict says which records vouch for a file
--   FailureAction  failure-action.c: what a failure of the daemon leads to, and its count
--   WorkerHealth   worker-health.c: the monitor of stalled workers. WorkerHealth/History says what
--                  makes a worker stuck by what it has done
--   Prelude        shared names and lemmas: Boolean tests, bits, words, byte strings, integers,
--                  comparisons, arrays
--
-- A C structure is a record, a call that changes it returns the new one, and an array with a count
-- is a list. A NULL pointer is `none`. Strings are lists of bytes without their NUL. Unsigned
-- counters wrap where the code lets them. Allocations succeed but for `q_open`,
-- `decision_defer_init`, `new_event` and the stack of `filter_check`, where their outcome is an
-- argument or a field of `Kernel`; so is what `pthread_mutex_init` returns to `decision_defer_init`.
-- What /proc, the files, the clock, fnmatch, `fopen`, `read`, the trust database and, of a NULL
-- pointer, `strcmp` answer are arguments or the fields of `Event.World`. Each call is one step:
-- the order of producer and consumer calls of a queue is a list of operations, the arrivals and
-- turns of a worker a list of steps.
--
-- Loops are recursion on the tree, on the list or on the list of waits. Some run on fuel that is
-- enough: the iterator's loop has one more than the nodes, the walk of `filter_check` one more than
-- the nodes of the tree, the loop of `dispatch_decision_event` and that of the shutdown one more
-- than the deferred events. An access outside of the path or of a rule is the outcome `fault` of
-- `filter_check`.
--
-- Not modelled: the fixed arrays of avl.c, of AVL_MAX_HEIGHT entries, the parsing of rules, the
-- import and the storage of the trust database, the backends, the readers of /proc and of ELF
-- files, the configuration, `filter_validate`, which warns, logging, reports, timing, and the
-- threads of the daemon, each of whose steps is a call under a lock.
pub mod Prelude
pub mod DecisionEvent
pub mod Avl
pub mod AttrSets
pub mod Subject
pub mod Object
pub mod Event
pub mod Rules
pub mod Policy
pub mod Queue
pub mod Defer
pub mod Lru
pub mod EventCache
pub mod Escape
pub mod StringUtil
pub mod Filter
pub mod FdFgets
pub mod Worker
pub mod TrustFile
pub mod FailureAction
pub mod WorkerHealth
pub mod TrustDb
