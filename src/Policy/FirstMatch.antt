-- ===== src/Policy/FirstMatch.antt =====
-- `process_event_evaluate`: the first rule that has an opinion decides.
use fapolicyd.Prelude.{
  ◌+◌, ◌%◌, ◌≡◌, ◌≢◌, refl, sym, ap, ◌∙◌, Option, none, some, List, [], ◌∷◌, ◌++◌, arith, ◌==◌,
  if◌then◌else◌, Bool-cases, ◌⊎◌, inl, inr,
}
use fapolicyd.Prelude.Words.{u32_mod}
use fapolicyd.Event.{Event, World}
use fapolicyd.Rules.{no_opinion, Rule, rule_evaluate, rules_record_hit}
use fapolicyd.Policy.{allow, by_rule, by_fallthrough, walk_rules, process_event_evaluate}

-- The event after rules that all have no opinion on it.
unfoldable pub passed : World → List Rule → Event → Option Event
passed w [] e = some e
passed w (r ∷ rules) e =
    let (e', d) = rule_evaluate w r e in
    let rest = passed w rules e' in if d == no_opinion then rest else none

module _ (w : World) where
  walk_passed :
      (rules : List Rule) (e e₁ : Event)
      → passed w rules e ≡ some e₁
      → walk_rules w rules e ≡ (e₁, rules, none, no_opinion)
  unfolding walk_rules passed
  walk_passed [] e e₁ h = ground arith
  walk_passed (r ∷ rules) e e₁ h = ground (arith, walk_passed rules (rule_evaluate w r e).0 e₁)

  walk_decided :
      (before : List Rule) (r : Rule) (after : List Rule) (e e₁ : Event)
      → passed w before e ≡ some e₁
      → (rule_evaluate w r e₁).1 ≢ no_opinion
      → walk_rules w (before ++ r ∷ after) e ≡ (
        (rule_evaluate w r e₁).0,
        before ++ rules_record_hit r ∷ after,
        some r,
        (rule_evaluate w r e₁).1,
      )
  unfolding walk_rules passed
  walk_decided [] r after e e₁ h d = ground arith
  walk_decided (b ∷ before) r after e e₁ h d =
      ground (arith, walk_decided before r after (rule_evaluate w b e).0 e₁)

  evaluate-passed :
      (rules : List Rule) (e e₁ : Event)
      → passed w rules e ≡ some e₁
      → process_event_evaluate w (some rules) e
        ≡ record { event = e₁; rules = rules; decision = allow; source = by_fallthrough }
  unfolding process_event_evaluate
  evaluate-passed rules e e₁ h = ground (arith, walk_passed rules e e₁ h)

  -- The first rule that has an opinion on an event decides: its decision is the result, whatever the
  -- rules after it; its number, from 1, is noted in the event, and its hits alone are counted.
  pub evaluate-first :
      (before : List Rule) (r : Rule) (after : List Rule) (e e₁ : Event)
      → passed w before e ≡ some e₁
      → (rule_evaluate w r e₁).1 ≢ no_opinion
      → process_event_evaluate w (some (before ++ r ∷ after)) e ≡ record {
        event = record (rule_evaluate w r e₁).0 { num = (r.num + 1) % u32_mod };
        rules = before ++ rules_record_hit r ∷ after;
        decision = (rule_evaluate w r e₁).1;
        source = by_rule;
      }
  unfolding process_event_evaluate
  evaluate-first before r after e e₁ h d = ground (arith, walk_decided before r after e e₁ h d)

  passed-or-first :
      (rules : List Rule) (e : Event)
      → ((e₁ : Event) × (passed w rules e ≡ some e₁))
        ⊎ ((before : List Rule) × (r : Rule) × (after : List Rule) × (e₁ : Event) × (rules
              ≡ before ++ r ∷ after)
            × (passed w before e ≡ some e₁)
            × ((rule_evaluate w r e₁).1 ≢ no_opinion))
  unfolding passed
  passed-or-first [] e = inl (e, refl)
  passed-or-first (r ∷ rules) e = elim (Bool-cases ((rule_evaluate w r e).1 == no_opinion)) [
    | inr h ↦ inr ([], r, rules, e, refl, refl, ground (arith, h))
    | inl h ↦ elim (passed-or-first rules (rule_evaluate w r e).0) [
      | inl (e₁, p) ↦ inl (e₁, ground (arith, h, p))
      | inr (before, x, after, e₁, q, p, d) ↦
          inr (r ∷ before, x, after, e₁, ap (◌∷◌ r) q, ground (arith, h, p), d)
    ]
  ]

  -- Every list of rules decides an event: either none of them has an opinion, and the event is
  -- allowed by fallthrough with no hit counted; or the list splits at the first rule that has one,
  -- and its decision is the result, with its hit counted.
  pub process_event_evaluate_lem :
      (rules : List Rule) (e : Event)
      → let v = process_event_evaluate w (some rules) e in
        ((e₁ : Event) × (passed w rules e ≡ some e₁)
          × (v ≡ record { event = e₁; rules = rules; decision = allow; source = by_fallthrough }))
        ⊎ ((before : List Rule) × (r : Rule) × (after : List Rule) × (e₁ : Event) × (rules
              ≡ before ++ r ∷ after)
            × (passed w before e ≡ some e₁)
            × (v.decision ≡ (rule_evaluate w r e₁).1)
            × (v.decision ≢ no_opinion)
            × (v.rules ≡ before ++ rules_record_hit r ∷ after)
            × (v.source ≡ by_rule))
  process_event_evaluate_lem rules e = elim (passed-or-first rules e) [
    | inl (e₁, p) ↦ inl (e₁, p, evaluate-passed rules e e₁ p)
    | inr (before, r, after, e₁, q, p, d) ↦
        let h : process_event_evaluate w (some rules) e ≡ record {
          event = record (rule_evaluate w r e₁).0 { num = (r.num + 1) % u32_mod };
          rules = before ++ rules_record_hit r ∷ after;
          decision = (rule_evaluate w r e₁).1;
          source = by_rule;
        } =
          rw (q) (evaluate-first before r after e e₁ p d) in
        inr (
          before,
          r,
          after,
          e₁,
          q,
          p,
          ap (λ v. v.decision) h,
          λ z. d (sym (ap (λ v. v.decision) h) ∙ z),
          ap (λ v. v.rules) h,
          ap (λ v. v.source) h,
        )
  ]
