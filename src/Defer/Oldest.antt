-- ===== src/Defer/Oldest.antt =====
-- The loops over the entries find one of the least order among those that are asked for.
use fapolicyd.Prelude.{
  ℕ, suc, ◌+◌, ◌≡◌, ◌≤◌, ◌<◌, refl, sym, ap, subst, ◌∙◌, Bool, true, false, ◌&&◌, Option, none,
  some, List, [], ◌∷◌, arith, length, get_or, ltb, ◌==◌, if◌then◌else◌, Bool-cases, inl, inr,
}
use fapolicyd.DecisionEvent.{DecisionEvent}
use fapolicyd.Defer.{DeferEntry, empty_entry, older, is_wanted, oldest_from, pop_if_from}
use fapolicyd.Defer.View.{used_count}

-- The loop for any test of an entry.
unfoldable pub best_from :
    (DeferEntry → Bool) → ℕ → List DeferEntry → Option (ℕ × DeferEntry) → Option (ℕ × DeferEntry)
best_from p i [] oldest = oldest
best_from p i (x ∷ xs) oldest = best_from p (i + 1) xs (if p x then older oldest i x else oldest)

pub oldest_from-best :
    (slot i : ℕ) (xs : List DeferEntry) (oldest : Option (ℕ × DeferEntry))
    → oldest_from slot i xs oldest ≡ best_from (is_wanted slot) i xs oldest
unfolding oldest_from best_from
oldest_from-best slot i [] oldest = refl
oldest_from-best slot i (x ∷ xs) oldest = oldest_from-best slot (i + 1) xs _

abbrev pub is_match : (DecisionEvent → Bool) → DeferEntry → Bool
is_match match x = x.used && match x.event

best_from-unused :
    (match : DecisionEvent → Bool) (i : ℕ) (xs : List DeferEntry) (oldest : Option (ℕ × DeferEntry))
    → used_count xs ≡ 0
    → best_from (is_match match) i xs oldest ≡ oldest
unfolding best_from used_count
best_from-unused match i [] oldest h = refl
best_from-unused match i (x ∷ xs) oldest h =
    ground (arith, best_from-unused match (i + 1) xs oldest)

-- To stop at the last used entry changes nothing.
pub pop_if_from-best :
    (match : DecisionEvent → Bool) (current seen i : ℕ) (xs : List DeferEntry)
    (oldest : Option (ℕ × DeferEntry))
    → seen + used_count xs ≡ current
    → pop_if_from match current seen i xs oldest ≡ best_from (is_match match) i xs oldest
unfolding pop_if_from best_from used_count
pop_if_from-best match current seen i [] oldest h = refl
pop_if_from-best match current seen i (x ∷ xs) oldest h =
    let oldest' = if match x.event then older oldest i x else oldest in
    ground (
      arith,
      pop_if_from-best match current seen (i + 1) xs oldest,
      pop_if_from-best match current (seen + 1) (i + 1) xs oldest',
      best_from-unused match (i + 1) xs oldest',
    )

module _ (p : DeferEntry → Bool) (whole : List DeferEntry) where
  abbrev pub at : ℕ → DeferEntry
  at q = get_or whole q empty_entry

  -- The oldest of the first `n` entries that meet the test.
  abbrev pub Picks : ℕ → Option (ℕ × DeferEntry) → Type 0
  Picks n none = (q : ℕ) → q < n → p (at q) ≡ false
  Picks n (some (j, x)) =
      (j < n)
      × (at j ≡ x)
      × (p x ≡ true)
      × ((q : ℕ) → q < n → p (at q) ≡ true → x.order ≤ (at q).order)

  upto : {P : ℕ → Type 0} (n : ℕ) → ((q : ℕ) → q < n → P q) → P n → (q : ℕ) → q < n + 1 → P q
  upto {P} n h hn q l = elim (Bool-cases (q == n)) [
    | inl e ↦ subst P (ground (arith, e)) hn
    | inr e ↦ h q (ground (arith, e))
  ]

  Picks-next :
      (n : ℕ) (acc : Option (ℕ × DeferEntry))
      → Picks n acc
      → Picks (n + 1) (if p (at n) then older acc n (at n) else acc)
  Picks-next n none h = elim (Bool-cases (p (at n))) [
    | inl b ↦ rw b (
      omega arith,
      refl,
      b,
      upto {P = λ q. p (at q) ≡ true → (at n).order ≤ (at q).order} n
          (λ q l hq. absurd (ground (arith, h q l))) (λ hq. omega arith),
    )
    | inr b ↦ rw b (upto {P = λ q. p (at q) ≡ false} n h b)
  ]
  Picks-next n (some (j, x)) (l, e, hp, least) = elim (Bool-cases (p (at n))) [
    | inl b ↦ elim (Bool-cases (ltb (at n).order x.order)) [
      | inl c ↦
          rw (b, c)
            (
              omega arith,
              refl,
              b,
              upto {P = λ q. p (at q) ≡ true → (at n).order ≤ (at q).order} n
                  (λ q k hq. ground (arith, least q k hq, c)) (λ hq. omega arith),
            )
      | inr c ↦
          rw (b, c)
            (
              omega arith,
              e,
              hp,
              upto {P = λ q. p (at q) ≡ true → x.order ≤ (at q).order} n least
                  (λ hq. ground (arith, c)),
            )
    ]
    | inr b ↦ rw b (
      omega arith,
      e,
      hp,
      upto {P = λ q. p (at q) ≡ true → x.order ≤ (at q).order} n least
          (λ hq. absurd (ground (arith, b))),
    )
  ]

  pub best_from-Picks :
      (xs : List DeferEntry) (n : ℕ) (acc : Option (ℕ × DeferEntry))
      → n + length xs ≡ length whole
      → ((q : ℕ) → get_or xs q empty_entry ≡ at (n + q))
      → Picks n acc
      → Picks (length whole) (best_from p n xs acc)
  unfolding best_from
  best_from-Picks [] n acc l h k = subst (λ m. Picks m acc) (omega arith) k
  best_from-Picks (x ∷ xs) n acc l h k =
      let e : x ≡ at n = h 0 ∙ ap at (omega arith) in
      best_from-Picks xs (n + 1) (if p x then older acc n x else acc) (omega arith)
        (λ q. h (suc q) ∙ ap at (omega arith))
        (subst (λ y. Picks (n + 1) (if p y then older acc n y else acc)) (sym e)
          (Picks-next n acc k))
