-- ===== src/Policy/Reply.antt =====
-- `make_policy_decision`: what is replied to the kernel, and what is counted.
use fapolicyd.Prelude.{
  ℕ, ◌+◌, ◌≡◌, ◌<◌, inl, inr, Bool, Option, none, some, List, arith, if◌then◌else◌, bit_at,
  Bool-cases, Option-cases,
}
use fapolicyd.Prelude.Words.{u64_mod}
use fapolicyd.Object.{obj_trust, object_access}
use fapolicyd.Event.{Event, World}
use fapolicyd.Rules.{Decision, Rule}
use fapolicyd.Policy.{
  allow, deny, audit_bit, Counters, by_rule, by_fallthrough, process_event_evaluate,
  count_fallthrough_trust, count_fallthrough_details, count_allow_source,
  policy_metrics_record_decision, reply_of, make_policy_decision, DecisionSource,
}

-- The decision that stands behind a reply: DENY if the event could not be built.
abbrev pub decision_on : World → Option (List Rule) → Option Event → Decision
decision_on w policy none = deny
decision_on w policy (some e) = (process_event_evaluate w policy e).decision

-- A bit of a decision, at the place of a value.
abbrev pub bit_value : Decision → ℕ → ℕ → ℕ
bit_value d k v = if bit_at d k then v else 0

module _ (w : World) (debug_mode permissive : Bool) (policy : Option (List Rule))
    (c : Counters) where
  -- An event is answered exactly if its mask asks for it. In permissive mode the reply allows, else it
  -- has the allow and deny bits of the decision, a deny if the event could not be built; it carries
  -- the audit bit of the decision but for debug mode, and no other bit.
  pub reply_lem :
      (perm : Bool) (built : Option Event)
      → let d = decision_on w policy built in
        (make_policy_decision w debug_mode permissive perm policy c built).reply ≡ (
          if perm
          then some (
              (if permissive then allow else bit_value d 0 1 + bit_value d 1 2)
              + (if debug_mode then 0 else bit_value d 4 audit_bit))
          else none)
  unfolding make_policy_decision reply_of
  reply_lem perm none = ground arith
  reply_lem perm (some e) = ground arith

-- The parts of a counter add up to it.
pub record AddsUp (c : Counters) : Type 0 where
  pub sources : c.allowed ≡ c.allowed_by_rule + c.allowed_by_fallthrough
  pub modes : c.allowed_by_fallthrough ≡ c.fallthrough_open + c.fallthrough_execute
  pub trusts :
      c.allowed_by_fallthrough
      ≡ c.fallthrough_trusted + c.fallthrough_untrusted + c.fallthrough_trust_unknown

details-AddsUp :
    (c : Counters) (e : Event)
    → c.allowed ≡ c.allowed_by_rule + c.allowed_by_fallthrough
    → c.allowed < u64_mod
    → c.allowed_by_fallthrough ≡ c.fallthrough_open + c.fallthrough_execute + 1
    → c.allowed_by_fallthrough
      ≡ c.fallthrough_trusted + c.fallthrough_untrusted + c.fallthrough_trust_unknown + 1
    → AddsUp (count_fallthrough_details c e)
      × ((count_fallthrough_details c e).allowed ≡ c.allowed)
      × ((count_fallthrough_details c e).denied ≡ c.denied)
unfolding count_fallthrough_details count_fallthrough_trust
details-AddsUp c e h b m t = elim (Option-cases (object_access e.o obj_trust)) [
  | inl k ↦ ground (arith, k)
  | inr (a, k) ↦ ground (arith, k)
]

-- While neither counter has come to its end, a decision on an event is counted once, as denied if it
-- has the deny bit, else as allowed; and counters whose parts add up go on doing so.
pub record_decision_lem :
    (c : Counters) (d : Decision) (e : Event) (source : DecisionSource)
    → AddsUp c
    → c.allowed + 1 < u64_mod
    → c.denied + 1 < u64_mod
    → let c' = policy_metrics_record_decision c d (some e) source in
      AddsUp c'
      × (c'.denied ≡ c.denied + (if bit_at d 1 then 1 else 0))
      × (c'.allowed ≡ c.allowed + (if bit_at d 1 then 0 else 1))
unfolding policy_metrics_record_decision count_allow_source
record_decision_lem c d e by_rule v ha hd = ground arith
record_decision_lem c d e by_fallthrough v ha hd = elim (Bool-cases (bit_at d 1)) [
  | inl h ↦ ground (arith, h)
  | inr h ↦ ground (
    arith,
    h,
    details-AddsUp
        (record c {
          allowed = c.allowed + 1;
          allowed_by_fallthrough = c.allowed_by_fallthrough + 1;
        })
        e,
  )
]
