-- ===== src/Worker/System.antt =====
-- src/library/policy.c, `make_policy_decision` with `new_event` of event.c: what a worker asks of
-- these files, from their models. The answers of the system stay as they are; the event points into
-- the caches of subjects and objects, so the attributes that the rules look up are written there.
use fapolicyd.Prelude.{ℕ, Bool, not, ◌&&◌, Option, none, some, List, ◌∷◌, ◌==◌, if◌then◌else◌}
use fapolicyd.Prelude.Int.{pos}
use fapolicyd.DecisionEvent.{Metadata, DecisionEvent, no_slot}
use fapolicyd.Rules.{Decision, Rule}
use fapolicyd.Event.{Event, World}
use fapolicyd.Policy.{Counters, process_event_evaluate, make_policy_decision}
use fapolicyd.Lru.{lru_peek_slot, compute_object_key}
use fapolicyd.EventCache.{Kernel, DecisionContext}
use fapolicyd.EventCache.Slots.{
  event_subject_slot, event_subject_slot_is_blocked, event_subject_slot_is_unblocked,
}
use fapolicyd.EventCache.NewEvent.{new_event, put_subject, put_object, object_magic}
use fapolicyd.Worker.{Subjects}

-- The context of a worker, the policy, the counters, and the replies, the newest first.
pub record SystemContext : Type 0 where
  pub events : DecisionContext
  pub policy : Option (List Rule)
  pub counters : Counters
  pub replies : List (Metadata × Decision)

-- The subject of a slot and the object of an event, as the rules have left them.
abbrev pub put_back_subject : DecisionContext → Event → Option ℕ → DecisionContext
put_back_subject c e none = c
put_back_subject c e (some n) = put_subject c n (some e.s)

abbrev pub put_back_object : DecisionContext → Event → Option ℕ → DecisionContext
put_back_object c e none = c
put_back_object c e (some n) = put_object c n (some e.o)

unfoldable pub write_back : DecisionContext → ℕ → Event → DecisionContext
write_back c slot e =
    let c' = put_back_subject c e (lru_peek_slot c.subject_cache slot) in
    put_back_object c' e
      (lru_peek_slot c'.object_cache (compute_object_key c'.object_cache (object_magic e.o.finfo)))

-- What the rules leave in the caches, if the event was built.
abbrev pub evaluated :
    World → Option (List Rule) → ℕ → DecisionContext → Option Event → DecisionContext
evaluated w policy slot c none = c
evaluated w policy slot c (some e) = write_back c slot (process_event_evaluate w policy e).event

abbrev pub add_reply :
    Metadata → Option Decision → List (Metadata × Decision) → List (Metadata × Decision)
add_reply m none replies = replies
add_reply m (some d) replies = (m, d) ∷ replies

-- The system, the modes, and which masks ask for a reply.
module _ (w : World) (k : Kernel) (debug_mode permissive : Bool) (asks : ℕ → Bool) where
  -- `make_policy_decision`, with the slot that it leaves in `completed_subject_slot`.
  unfoldable pub decide_event : SystemContext → DecisionEvent → SystemContext × ℕ
  unfolding write_back
  decide_event c event =
      let m = event.metadata in
      let slot =
        if event.subject_slot == no_slot
        then event_subject_slot c.events m.pid
        else event.subject_slot in
      let (events, built) = new_event w k c.events m in
      let d =
        make_policy_decision w debug_mode permissive (asks m.mask) c.policy c.counters built in
      let events' = evaluated w c.policy slot events built in
      (
        record {
          events = events';
          policy = d.rules;
          counters = d.counters;
          replies = add_reply m d.reply c.replies;
        },
        if not (slot == no_slot) && event_subject_slot_is_unblocked events' slot
            then slot
            else no_slot,
      )

  unfoldable pub subjects_of_system : Subjects SystemContext
  subjects_of_system = record {
    slot_of = λ c p. event_subject_slot c.events p;
    is_blocked = λ c slot p.
        let (events, held) = event_subject_slot_is_blocked k c.events slot (pos p) in
        (record c { events = events }, held);
    is_unblocked = λ c slot. event_subject_slot_is_unblocked c.events slot;
    decide = decide_event;
  }
