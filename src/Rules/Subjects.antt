-- ===== src/Rules/Subjects.antt =====
-- `check_subject` on fields other than a pattern: the conjunction of the fields over the values that
-- the system gives the attributes, whatever is kept of them.
use fapolicyd.Prelude.{
  ◌≡◌, ◌≢◌, refl, sym, ap, subst, ◌∙◌, Bool, true, false, not, ◌&&◌, ◌||◌, Option, none, some, List,
  [], ◌∷◌, arith, ◌==◌, if◌then◌else◌, Bool-cases, Option-cases, inl, inr,
}
use fapolicyd.Prelude.Int.{ℤ, pos}
use fapolicyd.Prelude.Bytes.{Bytes}
use fapolicyd.AttrSets.{AttrSet, attr_set_check_int, attr_set_check_str, attr_set_check_pstr}
use fapolicyd.Subject.{
  SubjectType, SubjectAttr, SubjectValue, uval_of, pid_of, str_of, set_of, auid, uid, sessionid,
  pid, ppid, subj_trust, gid, comm, exe, exe_dir, exe_type, all_subj, pattern_type,
}
use fapolicyd.Event.{Event, World, get_subj_attr}
use fapolicyd.Event.Subjects.{Keeps, subj_value, get_subj_attr-Looked}
use fapolicyd.Rules.{
  Outcome, continues, returns, unless, untrusted, dirs_macro, dir_match, exe_match, path_set_match,
  sets_intersect, is_subj_trusted, subject_case, subject_field, check_subject,
}

abbrev trust_bit : Option SubjectAttr → Bool
trust_bit none = false
trust_bit (some t) = not (uval_of t.value == 0)

-- Whether the system trusts the program of a process.
unfoldable pub trusts : World → ℤ → Bool
trusts w p = trust_bit (subj_value w p subj_trust)

-- What a field asks of the value of its attribute. `trusted` is the trust of the subject.
unfoldable pub value_holds : World → Bool → SubjectAttr → SubjectAttr → Bool
value_holds w trusted field subj =
    let set = set_of field.value in
    elim field.type [
      | auid ↦ attr_set_check_int set (pos (uval_of subj.value))
      | sessionid ↦ attr_set_check_int set (pos (uval_of subj.value))
      | uid ↦ sets_intersect set (set_of subj.value)
      | gid ↦ sets_intersect set (set_of subj.value)
      | pid ↦ attr_set_check_int set (pid_of subj.value)
      | ppid ↦ attr_set_check_int set (pid_of subj.value)
      | subj_trust ↦ uval_of subj.value == uval_of field.value
      | exe ↦ elim (str_of subj.value) [
        | none ↦ true
        | some p ↦ attr_set_check_str set (some untrusted) && not trusted || path_set_match w set p
      ]
      | comm ↦ elim (str_of subj.value) [ none ↦ true | some p ↦ attr_set_check_str set (some p) ]
      | exe_type ↦ elim (str_of subj.value) [
        | none ↦ true
        | some p ↦ attr_set_check_str set (some p)
      ]
      | exe_dir ↦ elim (str_of subj.value) [
        | none ↦ true
        | some p ↦
            dirs_macro set p
            || attr_set_check_str set (some untrusted) && not trusted
            || attr_set_check_pstr set (some p)
      ]
      | all_subj ↦ true
      | pattern_type ↦ true
    ]

-- A field holds of a process if its attribute cannot be had, or has a value that the field asks for.
unfoldable pub field_holds : World → ℤ → SubjectAttr → Bool
field_holds w p field = elim (subj_value w p field.type) [
  | none ↦ true
  | some subj ↦ value_holds w (trusts w p) field subj
]

unfoldable pub fields_hold : World → ℤ → List SubjectAttr → Bool
fields_hold w p [] = true
fields_hold w p (field ∷ fields) = field_holds w p field && fields_hold w p fields

abbrev pub NoPattern : List SubjectAttr → Type 0
NoPattern [] = Unit
NoPattern (field ∷ fields) = (field.type ≢ pattern_type) × NoPattern fields

-- An event whose cache alone has changed, and keeps what the system gives.
pub record Kept (w : World) (e e' : Event) : Type 0 where
  pub keeps : Keeps w e.event_pid e'.s
  pub rest : e' ≡ record e { s = e'.s }

same_pid : {w : World} {e e' : Event} → Kept w e e' → e'.event_pid ≡ e.event_pid
same_pid {w} {e} {e'} k = ap {A = Event} {B = ℤ} (λ z. z.event_pid) k.rest

Kept-Keeps : {w : World} {e e' : Event} → Kept w e e' → Keeps w e'.event_pid e'.s
Kept-Keeps {w} {e} {e'} k = subst (λ p. Keeps w p e'.s) (sym (same_pid k)) k.keeps

Kept-trans : {w : World} {e e₁ e₂ : Event} → Kept w e e₁ → Kept w e₁ e₂ → Kept w e e₂
Kept-trans {w} {e} {e₁} {e₂} k l = record {
  keeps = subst (λ p. Keeps w p e₂.s) (same_pid k) l.keeps;
  rest = l.rest ∙ ap {A = Event} {B = Event} (λ z. record z { s = e₂.s }) k.rest;
}

-- A step that keeps the cache, and ends as a test of the process says.
abbrev Ends : World → Event → Event × Outcome → Bool → Type 0
Ends w e r b = Kept w e r.0 × (r.1 ≡ unless b)

module _ (w : World) (e : Event) (k : Keeps w e.event_pid e.s) where
  is_subj_trusted_lem :
      Kept w e (is_subj_trusted w e).0 × ((is_subj_trusted w e).1 ≡ trusts w e.event_pid)
  unfolding is_subj_trusted trusts
  is_subj_trusted_lem =
      let l = get_subj_attr-Looked w e k subj_trust in
      (record { keeps = l.keeps; rest = l.rest }, ap trust_bit l.value)

  exe_match-Ends :
      (set : Option AttrSet) (p : Bytes)
      → Ends w e (exe_match w e set p) (
          attr_set_check_str set (some untrusted) && not (trusts w e.event_pid)
          || path_set_match w set p)
  unfolding exe_match
  exe_match-Ends set p =
      let (t, e_t) = is_subj_trusted_lem in
      elim (Bool-cases (attr_set_check_str set (some untrusted))) [
        | inl h ↦ rw (exe_match, h) (t, ap (λ b. unless (not b || path_set_match w set p)) e_t)
        | inr h ↦ rw (exe_match, h) (record { keeps = k; rest = refl }, refl)
      ]

  dir_match-Ends :
      (set : Option AttrSet) (p : Bytes)
      → Ends w e (dir_match (is_subj_trusted w) e set p) (
          dirs_macro set p
          || attr_set_check_str set (some untrusted) && not (trusts w e.event_pid)
          || attr_set_check_pstr set (some p))
  unfolding dir_match
  dir_match-Ends set p =
      let (t, e_t) = is_subj_trusted_lem in
      elim (Bool-cases (attr_set_check_str set (some untrusted))) [
        | inl h ↦
            rw (dir_match, h)
              (
                t,
                ap (λ b. unless (dirs_macro set p || not b || attr_set_check_pstr set (some p)))
                    e_t,
              )
        | inr h ↦ rw (dir_match, h) (record { keeps = k; rest = refl }, ground arith)
      ]

  -- The switch, for any value of the attribute.
  subject_case-Ends :
      (t : SubjectType) (v : SubjectValue) (subj : SubjectAttr)
      → t ≢ pattern_type
      → let field : SubjectAttr = record { type = t; value = v } in
        Ends w e (subject_case w e field subj) (value_holds w (trusts w e.event_pid) field subj)
  unfolding subject_case value_holds
  subject_case-Ends auid v subj h = (record { keeps = k; rest = refl }, refl)
  subject_case-Ends sessionid v subj h = (record { keeps = k; rest = refl }, refl)
  subject_case-Ends uid v subj h = (record { keeps = k; rest = refl }, refl)
  subject_case-Ends gid v subj h = (record { keeps = k; rest = refl }, refl)
  subject_case-Ends pid v subj h = (record { keeps = k; rest = refl }, refl)
  subject_case-Ends ppid v subj h = (record { keeps = k; rest = refl }, refl)
  subject_case-Ends subj_trust v subj h = (record { keeps = k; rest = refl }, refl)
  subject_case-Ends all_subj v subj h = (record { keeps = k; rest = refl }, refl)
  subject_case-Ends pattern_type v subj h = absurd (h refl)
  subject_case-Ends exe v subj h = elim (Option-cases (str_of subj.value)) [
    | inl n ↦ rw (subject_case, value_holds, n) (record { keeps = k; rest = refl }, refl)
    | inr (p, n) ↦ rw (subject_case, value_holds, n) (exe_match-Ends (set_of v) p)
  ]
  subject_case-Ends comm v subj h = elim (Option-cases (str_of subj.value)) [
    | inl n ↦ rw (subject_case, value_holds, n) (record { keeps = k; rest = refl }, refl)
    | inr (p, n) ↦ rw (subject_case, value_holds, n) (record { keeps = k; rest = refl }, refl)
  ]
  subject_case-Ends exe_type v subj h = elim (Option-cases (str_of subj.value)) [
    | inl n ↦ rw (subject_case, value_holds, n) (record { keeps = k; rest = refl }, refl)
    | inr (p, n) ↦ rw (subject_case, value_holds, n) (record { keeps = k; rest = refl }, refl)
  ]
  subject_case-Ends exe_dir v subj h = elim (Option-cases (str_of subj.value)) [
    | inl n ↦ rw (subject_case, value_holds, n) (record { keeps = k; rest = refl }, refl)
    | inr (p, n) ↦ rw (subject_case, value_holds, n) (dir_match-Ends (set_of v) p)
  ]

module _ (w : World) (e : Event) (k : Keeps w e.event_pid e.s) where
  found-Ends :
      (t : SubjectType) (v : SubjectValue)
      → t ≢ pattern_type
      → let field : SubjectAttr = record { type = t; value = v } in
        let (e', subj) = get_subj_attr w e t in
        Ends w e
          (elim subj [ none ↦ (e', continues) | some sn ↦ subject_case w e' field sn ])
          (field_holds w e.event_pid field)
  unfolding field_holds
  found-Ends t v h =
      let field : SubjectAttr = record { type = t; value = v } in
      let l = get_subj_attr-Looked w e k t in
      let e' = (get_subj_attr w e t).0 in
      let kept : Kept w e e' = record { keeps = l.keeps; rest = l.rest } in
      elim (Option-cases (get_subj_attr w e t).1) [
        | inl n ↦ rw (field_holds, ← l.value, n) (kept, refl)
        | inr (sn, n) ↦
            let (kc, ec) = subject_case-Ends w e' (Kept-Keeps kept) t v sn h in
            rw (field_holds, ← l.value, n)
              (
                Kept-trans kept kc,
                ec ∙ ap (λ p. unless (value_holds w (trusts w p) field sn)) (same_pid kept),
              )
      ]

  subject_field-Ends :
      (t : SubjectType) (v : SubjectValue)
      → t ≢ pattern_type
      → let field : SubjectAttr = record { type = t; value = v } in
        Ends w e (subject_field w e field) (field_holds w e.event_pid field)
  unfolding subject_field
  subject_field-Ends all_subj v h =
      (record { keeps = k; rest = refl }, unfold field_holds subj_value in refl)
  subject_field-Ends pattern_type v h = absurd (h refl)
  subject_field-Ends auid v h = found-Ends auid v h
  subject_field-Ends uid v h = found-Ends uid v h
  subject_field-Ends sessionid v h = found-Ends sessionid v h
  subject_field-Ends pid v h = found-Ends pid v h
  subject_field-Ends ppid v h = found-Ends ppid v h
  subject_field-Ends subj_trust v h = found-Ends subj_trust v h
  subject_field-Ends gid v h = found-Ends gid v h
  subject_field-Ends comm v h = found-Ends comm v h
  subject_field-Ends exe v h = found-Ends exe v h
  subject_field-Ends exe_dir v h = found-Ends exe_dir v h
  subject_field-Ends exe_type v h = found-Ends exe_type v h

-- One round of the loop, and the rest of it.
loop-Kept :
    (w : World) {e e' : Event} (o : Outcome) (b bs : Bool)
    → Kept w e e'
    → (rest : Event × ℤ) → Kept w e rest.0
    → o ≡ unless b
    → rest.1 ≡ (if bs then pos 1 else pos 0)
    → let r : Event × ℤ = elim o [ continues ↦ rest | returns rc ↦ (e', rc) ] in
      Kept w e r.0 × (r.1 ≡ (if b && bs then pos 1 else pos 0))
loop-Kept w o true bs k rest kr h hr = rw (h) (kr, hr)
loop-Kept w o false bs k rest kr h hr = rw (h) (k, refl)

-- While the attributes that are kept of a subject are those the system gives, fields other than a
-- pattern match exactly if each holds of the process: its attribute cannot be had, or the system's
-- value of it is one that the field asks for. The check changes the subject's cache alone, which
-- goes on keeping what the system gives.
pub check_subject-fields_hold :
    (w : World) (fields : List SubjectAttr) (e : Event)
    → NoPattern fields
    → Keeps w e.event_pid e.s
    → Kept w e (check_subject w fields e).0
      × ((check_subject w fields e).1 ≡ (if fields_hold w e.event_pid fields then pos 1 else pos 0))
unfolding check_subject fields_hold
check_subject-fields_hold w [] e h k = (record { keeps = k; rest = refl }, refl)
check_subject-fields_hold w (field ∷ fields) e (hf, hs) k =
    let (kept, ends) = subject_field-Ends w e k field.type field.value hf in
    let e' = (subject_field w e field).0 in
    let (kr, er) = check_subject-fields_hold w fields e' hs (Kept-Keeps kept) in
    loop-Kept w (subject_field w e field).1 (field_holds w e.event_pid field)
      (fields_hold w e.event_pid fields) kept (check_subject w fields e') (Kept-trans kept kr) ends
      (er ∙ ap (λ p. if fields_hold w p fields then pos 1 else pos 0) (same_pid kept))
