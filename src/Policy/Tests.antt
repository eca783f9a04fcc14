-- ===== src/Policy/Tests.antt =====
-- Two rules on an open of the example's process, and the theorems at this input.
use fapolicyd.Prelude.{
  ℕ, ◌+◌, ◌%◌, ◌≡◌, ◌≢◌, refl, Bool, true, false, Option, none, some, List, [], ◌∷◌, ◌++◌, arith,
  ◌<◌, ◌⊎◌, if◌then◌else◌, bit_at,
}
use fapolicyd.Subject.{subj_trust, uval, subject_create, subject_access, subject_add, copied_value}
use fapolicyd.Event.{
  Event, get_subj_attr, look_up_subj, get_exe, look_up_exe, cache_subj, subject_attr,
}
use fapolicyd.Event.Example.{system, opens}
use fapolicyd.Rules.{
  Rule, exec_acc, any_acc, no_opinion, rule_evaluate, rules_record_hit, check_access, check_subject,
  check_object, subject_field, subject_case,
}
use fapolicyd.Policy.{
  allow, deny, Counters, by_rule, by_fallthrough, process_event_evaluate,
  policy_metrics_record_decision, make_policy_decision, audit_bit,
}
use fapolicyd.Policy.FirstMatch.{passed, evaluate-first, process_event_evaluate_lem}
use fapolicyd.Policy.Reply.{bit_value, reply_lem, AddsUp, record_decision_lem}

-- deny perm=execute all : all
abbrev deny_execute : Rule
deny_execute = record { d = deny; a = exec_acc; num = 0; hits = 0; s = []; o = [] }

-- allow perm=any trust=1 : all
abbrev allow_trusted : Rule
allow_trusted = record {
  d = allow;
  a = any_acc;
  num = 1;
  hits = 4;
  s = subject_attr subj_trust (uval 1) ∷ [];
  o = [];
}

denies-passed : passed system (deny_execute ∷ []) opens ≡ some opens
unfolding passed rule_evaluate check_access
denies-passed = refl

allows : (rule_evaluate system allow_trusted opens).1 ≡ allow
unfolding rule_evaluate check_access check_subject check_object subject_field subject_case
    get_subj_attr look_up_subj get_exe look_up_exe cache_subj subject_create subject_access
    subject_add copied_value fapolicyd.Prelude.Bytes.bytes_eq
allows = refl

evaluate-first_example :
    process_event_evaluate system
      (some ((deny_execute ∷ []) ++ allow_trusted ∷ deny_execute ∷ []))
      opens
    ≡ record {
      event = record (rule_evaluate system allow_trusted opens).0 { num = 2 };
      rules = (deny_execute ∷ []) ++ rules_record_hit allow_trusted ∷ deny_execute ∷ [];
      decision = (rule_evaluate system allow_trusted opens).1;
      source = by_rule;
    }
evaluate-first_example =
    evaluate-first system (deny_execute ∷ []) allow_trusted (deny_execute ∷ []) opens opens
      denies-passed (ground (arith, allows))

process_event_evaluate_lem_example :
    let v = process_event_evaluate system (some (deny_execute ∷ [])) opens in
    ((e₁ : Event) × (passed system (deny_execute ∷ []) opens ≡ some e₁)
      × (v ≡ record {
        event = e₁;
        rules = deny_execute ∷ [];
        decision = allow;
        source = by_fallthrough;
      }))
    ⊎ ((before : List Rule) × (r : Rule) × (after : List Rule) × (e₁ : Event) × ((deny_execute ∷ [])
          ≡ before ++ r ∷ after)
        × (passed system before opens ≡ some e₁)
        × (v.decision ≡ (rule_evaluate system r e₁).1)
        × (v.decision ≢ no_opinion)
        × (v.rules ≡ before ++ rules_record_hit r ∷ after)
        × (v.source ≡ by_rule))
process_event_evaluate_lem_example = process_event_evaluate_lem system (deny_execute ∷ []) opens

abbrev counters : Counters
counters = record {
  allowed = 3;
  denied = 1;
  allowed_by_rule = 1;
  allowed_by_fallthrough = 2;
  fallthrough_open = 1;
  fallthrough_execute = 1;
  fallthrough_trusted = 0;
  fallthrough_untrusted = 0;
  fallthrough_trust_unknown = 2;
}

-- An event that could not be built, in enforcing mode.
reply_lem_example :
    (make_policy_decision system false false true (some (allow_trusted ∷ [])) counters none).reply
    ≡ some (bit_value deny 0 1 + bit_value deny 1 2 + bit_value deny 4 audit_bit)
reply_lem_example = reply_lem system false false (some (allow_trusted ∷ [])) counters true none

counters-AddsUp : AddsUp counters
counters-AddsUp = omega arith

record_decision_lem_example :
    let c' = policy_metrics_record_decision counters allow (some opens) by_fallthrough in
    AddsUp c'
    × (c'.denied ≡ 1 + (if bit_at allow 1 then 1 else 0))
    × (c'.allowed ≡ 3 + (if bit_at allow 1 then 0 else 1))
record_decision_lem_example =
    record_decision_lem counters allow opens by_fallthrough counters-AddsUp (omega arith)
      (omega arith)
