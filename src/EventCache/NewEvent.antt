-- ===== src/EventCache/NewEvent.antt =====
-- src/library/event.c, `new_event`: from the metadata of fanotify to an event with its subject and
-- object, which are taken from the caches or made. The event points into the caches, so what happens
-- to its subject and object is written back to their nodes.
use fapolicyd.Prelude.{
  ℕ, ◌+◌, ◌^◌, ◌%◌, Bool, true, false, not, ◌&&◌, Option, none, some, List, [], ◌∷◌, if◌then◌else◌,
  bit_at,
}
use fapolicyd.Prelude.Int.{pos}
use fapolicyd.Prelude.Words.{u64_mod}
use fapolicyd.DecisionEvent.{Metadata}
use fapolicyd.Subject.{
  normal, partial, full, ProcInfo, SArray, pid, pid_val, subject_create, subject_add,
}
use fapolicyd.Object.{FileInfo, OArray, ObjectAttr, path, object_create}
use fapolicyd.Event.{Event, World, subject_attr, get_obj_attr}
use fapolicyd.Lru.{item_of, set_item, lru_record_collision, compute_subject_key, compute_object_key}
use fapolicyd.EventCache.{
  Kernel, DecisionContext, stat_proc_entry, compare_proc_infos, stat_file_entry, compare_file_infos,
  is_building, subject_mark_building_event, look_up_subject, evict_subject, look_up_object,
  evict_object,
}
use fapolicyd.EventCache.Slots.{flush_cache_if_needed, reset_subject_attributes}
use fapolicyd.EventCache.Visit.{open_perm, visit, with_state}

-- `mask & ALL_EVENTS`: access, modify, close, open, and the three permission events.
abbrev pub masked : ℕ → List ℕ → ℕ
masked mask [] = 0
masked mask (k ∷ ks) = (if bit_at mask k then 2 ^ k else 0) + masked mask ks

abbrev pub all_events : List ℕ
all_events = 0 ∷ 1 ∷ 3 ∷ 4 ∷ 5 ∷ 16 ∷ 17 ∷ 18 ∷ []

-- The use of a node that is NULL.
abbrev pub crashed : DecisionContext → DecisionContext
crashed c = record c { aborted = true }

abbrev pub put_subject : DecisionContext → ℕ → Option SArray → DecisionContext
put_subject c n s = record c { subject_cache = set_item c.subject_cache n s }

abbrev pub put_object : DecisionContext → ℕ → Option OArray → DecisionContext
put_object c n o = record c { object_cache = set_item c.object_cache n o }

abbrev pub collide_subject : DecisionContext → DecisionContext
collide_subject c = record c { subject_cache = lru_record_collision c.subject_cache }

abbrev pub collide_object : DecisionContext → DecisionContext
collide_object c = record c { object_cache = lru_record_collision c.object_cache }

-- A subject or object and its node; `made` tells that it was not in the cache, `skips` that no path
-- is collected.
pub record HeldSubject : Type 0 where
  pub node : ℕ
  pub array : SArray
  pub made : Bool
  pub skips : Bool

pub record HeldObject : Type 0 where
  pub object_node : ℕ
  pub object_array : OArray

abbrev pub is_null : Option SArray → Bool
is_null none = true
is_null (some s) = false

-- The part under `if (evict)`; `absent` is the test `!s`.
unfoldable pub make_subject :
    Kernel
    → DecisionContext
    → ℕ
    → ℕ
    → Metadata
    → ℕ
    → ProcInfo
    → Bool
    → Bool
    → DecisionContext × Option HeldSubject
make_subject k c key n m type pinfo absent skips =
    if k.allocates_subject && k.allocates_attribute
    then (let info = if absent && open_perm type then record pinfo { state = normal } else pinfo in
        let a = subject_add (subject_create info) (subject_attr pid (pid_val (pos m.pid))) in
        (
          put_subject c n (some a),
          some (record { node = n; array = a; made = true; skips = skips }),
        ))
    else (evict_subject c key, none)

-- A cached subject is used, or evicted and made anew.
unfoldable pub revisit_subject :
    World
    → Kernel
    → DecisionContext
    → ℕ
    → ℕ
    → Metadata
    → ℕ
    → ProcInfo
    → SArray
    → DecisionContext × Option HeldSubject
unfolding make_subject
revisit_subject w k c key n m type pinfo s =
    let rc = compare_proc_infos pinfo s.info in
    let v = visit w.system_ld_so type rc s in
    let seen = put_subject (if rc then collide_subject c else c) n (some v.subject) in
    if v.evict
    then (let (c', node) = look_up_subject (evict_subject seen key) key in
        elim node [
          | none ↦ (crashed c', none)
          | some n' ↦
              make_subject k c' key n' m type pinfo (is_null (item_of c'.subject_cache n'))
                v.skip_path
        ])
    else (seen, some (record { node = n; array = v.subject; made = false; skips = v.skip_path }))

unfoldable pub new_subject :
    World → Kernel → DecisionContext → ℕ → Metadata → ℕ → DecisionContext × Option HeldSubject
unfolding make_subject revisit_subject
new_subject w k c key m type =
    let (c', node) = look_up_subject c key in
    elim node [
      | none ↦ (crashed c', none)
      | some n ↦ elim (stat_proc_entry k (pos m.pid)) [
        | none ↦ (c', none)
        | some pinfo ↦ elim (item_of c'.subject_cache n) [
          | none ↦ make_subject k c' key n m type pinfo true false
          | some s ↦ revisit_subject w k c' key n m type pinfo s
        ]
      ]
    ]

unfoldable pub object_magic : FileInfo → ℕ
object_magic f = (f.file_inode + f.file_nsec + f.file_size) % u64_mod

-- The part under `if (rc)`; a subject made for this event goes with an object that cannot be made.
unfoldable pub make_object :
    Kernel
    → DecisionContext
    → ℕ
    → ℕ
    → ℕ
    → FileInfo
    → HeldSubject
    → DecisionContext × Option HeldObject
make_object k c key n subject_key finfo s =
    if k.allocates_object
    then (let a = object_create finfo [] in
        (put_object c n (some a), some (record { object_node = n; object_array = a })))
    else (let c' = evict_object c key in
        (if s.made then evict_subject c' subject_key else c', none))

unfoldable pub new_object :
    Kernel → DecisionContext → ℕ → Metadata → HeldSubject → DecisionContext × Option HeldObject
unfolding make_object
new_object k c subject_key m s = elim (stat_file_entry k (pos m.fd)) [
  | none ↦ (if s.made then evict_subject c subject_key else c, none)
  | some finfo ↦
      let key = compute_object_key c.object_cache (object_magic finfo) in
      let (c', node) = look_up_object c key in
      elim node [
        | none ↦ (crashed c', none)
        | some n ↦ elim (item_of c'.object_cache n) [
          | none ↦ make_object k c' key n subject_key finfo s
          | some o ↦
              if compare_file_infos finfo o.finfo
              then (let (c'', node') = look_up_object (evict_object (collide_object c') key) key in
                  elim node' [
                    | none ↦ (crashed c'', none)
                    | some n' ↦ make_object k c'' key n' subject_key finfo s
                  ])
              else (c', some (record { object_node = n; object_array = o }))
        ]
      ]
]

-- One more path of the pattern.
unfoldable pub collect : Kernel → Bool → Event → Option ObjectAttr → Event
collect k made e none = e
collect k made e (some on) = elim e.s.info.path1 [
  | none ↦ record e {
    s = record e.s {
      info = record e.s.info { path1 = on.o; elf_info = k.gather_elf e.fd e.o.finfo.file_size };
    };
  }
  | some p1 ↦ elim e.s.info.path2 [
    | none ↦ record e {
      s = record e.s { info = record e.s.info { path2 = on.o; state = partial } };
    }
    | some p2 ↦ record e {
      s = if made then with_state full e.s else reset_subject_attributes (with_state full e.s);
    }
  ]
]

unfoldable pub setup_pattern : World → Kernel → HeldSubject → Event → Event
unfolding collect
setup_pattern w k s e =
    if not s.skips && is_building e.s.info.state
    then (let (e', on) = get_obj_attr w e path in collect k s.made e' on)
    else e

unfoldable pub mark_building : Kernel → Event → Event
mark_building k e = record e { s = record e.s { info = subject_mark_building_event k e.s.info } }

-- What `new_event` returns as 1 is `none`.
unfoldable pub new_event :
    World → Kernel → DecisionContext → Metadata → DecisionContext × Option Event
unfolding new_subject new_object setup_pattern mark_building
new_event w k c m =
    let (c0, flushed) = flush_cache_if_needed k c in
    if not flushed
    then (c0, none)
    else (let type = masked m.mask all_events in
        let key = compute_subject_key c0.subject_cache m.pid in
        let (c1, subject) = new_subject w k c0 key m type in
        elim subject [
          | none ↦ (c1, none)
          | some s ↦
              let (c2, object) = new_object k c1 key m s in
              elim object [
                | none ↦ (c2, none)
                | some o ↦
                    let e = mark_building k (
                      setup_pattern w k s (record {
                        event_pid = pos m.pid;
                        fd = pos m.fd;
                        type = type;
                        num = 0;
                        s = s.array;
                        o = o.object_array;
                      })) in
                    (put_object (put_subject c2 s.node (some e.s)) o.object_node (some e.o), some e)
              ]
        ])
