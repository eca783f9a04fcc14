-- ===== src/Policy.antt =====
-- src/library/policy.c, policy.h and policy-metrics.c: the decision on an event from the rules of
-- the policy, the reply to the kernel and the counters. The policy is the list of rules of the
-- pinned snapshot; logging, timing and the release of the snapshot are left out.
pub mod FirstMatch
pub mod Reply
mod Tests
use fapolicyd.Prelude.{
  ℕ, ◌+◌, ◌-◌, ◌%◌, Bool, true, false, not, ◌&&◌, Option, none, some, List, [], ◌∷◌, ◌==◌,
  if◌then◌else◌, bit_at,
}
use fapolicyd.Prelude.Words.{u32_mod, u64_mod}
use fapolicyd.Object.{ObjectType, ObjectAttr, obj_trust, ftype, object_access}
use fapolicyd.Event.{Event, World}
use fapolicyd.Rules.{Decision, no_opinion, Rule, is_exec, rule_evaluate, rules_record_hit}

-- FAN_ALLOW, FAN_DENY and AUDIT
abbrev pub allow : Decision
allow = 1

abbrev pub deny : Decision
deny = 2

abbrev pub audit_bit : Decision
audit_bit = 16

-- `decision_source_t`
pub data DecisionSource : Type 0 where
  by_rule by_fallthrough : DecisionSource

-- The loop over the rules: the event and the rules afterwards, the rule that ended the loop, and
-- `results`. The hit of that rule is counted.
unfoldable pub walk_rules : World → List Rule → Event → Event × List Rule × Option Rule × Decision
unfolding rules_record_hit
walk_rules w [] e = (e, [], none, no_opinion)
walk_rules w (r ∷ rules) e =
    let (e₁, results) = rule_evaluate w r e in
    let (e₂, rules', found, last) = walk_rules w rules e₁ in
    if results == no_opinion
    then (e₂, r ∷ rules', found, last)
    else (e₁, rules_record_hit r ∷ rules, some r, results)

pub record Evaluated : Type 0 where
  pub event : Event
  pub rules : List Rule
  pub decision : Decision
  pub source : DecisionSource

-- With no policy there is nothing to evaluate. Rules are numbered from 1 in `e->num`.
unfoldable pub process_event_evaluate : World → Option (List Rule) → Event → Evaluated
unfolding walk_rules
process_event_evaluate w none e = record {
  event = e;
  rules = [];
  decision = allow;
  source = by_fallthrough;
}
process_event_evaluate w (some rules) e =
    let (e', rules', r, results) = walk_rules w rules e in
    elim r [
      | some found ↦ record {
        event = record e' { num = (found.num + 1) % u32_mod };
        rules = rules';
        decision = if results == no_opinion then allow else results;
        source = by_rule;
      }
      | none ↦ record {
        event = e';
        rules = rules';
        decision = if results == no_opinion then allow else results;
        source = by_fallthrough;
      }
    ]

-- `struct decision_policy_counters`, but for the file types of the default allow.
pub record Counters : Type 0 where
  pub allowed : ℕ
  pub denied : ℕ
  pub allowed_by_rule : ℕ
  pub allowed_by_fallthrough : ℕ
  pub fallthrough_open : ℕ
  pub fallthrough_execute : ℕ
  pub fallthrough_trusted : ℕ
  pub fallthrough_untrusted : ℕ
  pub fallthrough_trust_unknown : ℕ

abbrev pub bump : ℕ → ℕ
bump n = (n + 1) % u64_mod

-- The trust that is already kept, never looked up here.
unfoldable pub count_fallthrough_trust : Counters → Option ObjectAttr → Counters
count_fallthrough_trust c none = record c {
  fallthrough_trust_unknown = bump c.fallthrough_trust_unknown;
}
count_fallthrough_trust c (some trust) =
    if trust.val == 0
    then record c { fallthrough_untrusted = bump c.fallthrough_untrusted }
    else record c { fallthrough_trusted = bump c.fallthrough_trusted }

unfoldable pub count_fallthrough_details : Counters → Event → Counters
unfolding count_fallthrough_trust
count_fallthrough_details c e =
    count_fallthrough_trust
      (if is_exec e
        then record c { fallthrough_execute = bump c.fallthrough_execute }
        else record c { fallthrough_open = bump c.fallthrough_open })
      (object_access e.o obj_trust)

unfoldable pub count_allow_source : Counters → Option Event → DecisionSource → Counters
unfolding count_fallthrough_details
count_allow_source c e source = elim source [
  | by_rule ↦ record c { allowed_by_rule = bump c.allowed_by_rule }
  | by_fallthrough ↦
      let c' = record c { allowed_by_fallthrough = bump c.allowed_by_fallthrough } in
      elim e [ none ↦ c' | some ev ↦ count_fallthrough_details c' ev ]
]

unfoldable pub policy_metrics_record_decision :
    Counters → Decision → Option Event → DecisionSource → Counters
unfolding count_allow_source
policy_metrics_record_decision c decision e source =
    if bit_at decision 1
    then record c { denied = bump c.denied }
    else count_allow_source (record c { allowed = bump c.allowed }) e source

-- `decision & FAN_RESPONSE_MASK`: the bits 0, 1 and 4.
abbrev pub and_response_mask : Decision → Decision
and_response_mask decision = decision % 4 + (if bit_at decision 4 then audit_bit else 0)

-- `decision & ~AUDIT` and `decision & AUDIT`
abbrev pub without_audit : Decision → Decision
without_audit decision = if bit_at decision 4 then decision - audit_bit else decision

abbrev pub and_audit : Decision → Decision
and_audit decision = if bit_at decision 4 then audit_bit else 0

-- What `make_policy_decision` does with a decision, if the event is a permission event.
unfoldable pub reply_of : Bool → Bool → Decision → Decision
reply_of debug_mode permissive decision =
    let shown = if debug_mode then without_audit decision else decision in
    if permissive then allow + and_audit shown else and_response_mask shown

pub record Decided : Type 0 where
  pub rules : Option (List Rule)
  pub counters : Counters
  pub reply : Option Decision

-- `built` is the event that `new_event` makes, or `none` if it fails; `perm` whether the event's
-- mask asks for a reply.
unfoldable pub make_policy_decision :
    World → Bool → Bool → Bool → Option (List Rule) → Counters → Option Event → Decided
unfolding process_event_evaluate policy_metrics_record_decision reply_of
make_policy_decision w debug_mode permissive perm policy c none = record {
  rules = policy;
  counters = policy_metrics_record_decision c deny none by_fallthrough;
  reply = if perm then some (reply_of debug_mode permissive deny) else none;
}
make_policy_decision w debug_mode permissive perm policy c (some e) =
    let v = process_event_evaluate w policy e in
    record {
      rules = elim policy [ none ↦ none | some _ ↦ some v.rules ];
      counters = policy_metrics_record_decision c v.decision (some v.event) v.source;
      reply = if perm then some (reply_of debug_mode permissive v.decision) else none;
    }
