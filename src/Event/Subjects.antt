-- ===== src/Event/Subjects.antt =====
-- What `get_subj_attr` returns while the attributes are looked up and kept: the value that the
-- system gives the attribute, whatever was asked before.
use fapolicyd.Prelude.{
  ℕ, ◌≡◌, refl, sym, ap, subst, ◌∙◌, Bool, true, false, Option, none, some, arith, [], ◌∷◌, get_or,
  ◌==◌, if◌then◌else◌, Option-cases, ◌⊎◌, inl, inr, bit_at,
}
use fapolicyd.Prelude.Int.{ℤ}
use fapolicyd.Prelude.Bytes.{Bytes}
use fapolicyd.Subject.{
  SubjectType, SubjectAttr, SubjectValue, str_of, SArray, uval, pid_val, str, set_val, auid, uid,
  sessionid, pid, ppid, subj_trust, gid, comm, exe, exe_dir, exe_type, all_subj, pattern_type,
  subject_access, subject_add, slot_of, stored_type, copied_value,
}
use fapolicyd.Subject.Laws.{IsValid, access-subject_add_slot}
use fapolicyd.Event.{
  Event, World, ProcStatusInfo, ExeLink, enoent, program, unreadable, question, or_question,
  subject_attr, add_if, fetch_proc_status, cache_subj, comm_or_question, look_up_exe, get_exe,
  subj_trust_of, look_up_subj, get_subj_attr,
}

-- What the process has of the status fields that the mask asks for.
abbrev pub comm_value : World → ℤ → Option SubjectAttr
comm_value w p = elim (w.read_proc_status p w.policy_get_proc_status_mask) [
  | none ↦ none
  | some info ↦
      if bit_at w.policy_get_proc_status_mask 3
      then some (subject_attr comm (str info.comm_read))
      else none
]

abbrev pub exe_value : World → ℤ → SubjectAttr
exe_value w p = subject_attr exe (elim (w.get_program_from_pid p) [
  | enoent ↦ comm_or_question (comm_value w p)
  | program buf ↦ str (some buf)
  | unreadable ↦ str (some question)
])

abbrev pub status_value : World → ℤ → ℕ → (ProcStatusInfo → SubjectAttr) → Option SubjectAttr
status_value w p k f = elim (w.read_proc_status p w.policy_get_proc_status_mask) [
  | none ↦ none
  | some info ↦ if bit_at w.policy_get_proc_status_mask k then some (f info) else none
]

-- The attribute of a process as the system gives it, with no cache.
unfoldable pub subj_value : World → ℤ → SubjectType → Option SubjectAttr
subj_value w p t = elim t [
  | auid ↦ some (subject_attr auid (uval (w.get_program_auid_from_pid p)))
  | ppid ↦ status_value w p 0 (λ info. subject_attr ppid (pid_val info.ppid_read))
  | uid ↦ status_value w p 1 (λ info. subject_attr uid (set_val info.uid_read))
  | gid ↦ status_value w p 2 (λ info. subject_attr gid (set_val info.groups))
  | comm ↦ comm_value w p
  | sessionid ↦ some (subject_attr sessionid (uval (w.get_program_sessionid_from_pid p)))
  | pid ↦ some (subject_attr pid (pid_val p))
  | exe ↦ some (exe_value w p)
  | exe_dir ↦ some (exe_value w p)
  | exe_type ↦ some (subject_attr exe_type (str (or_question (w.get_type_from_pid p))))
  | subj_trust ↦ some (subject_attr subj_trust (uval (subj_trust_of w (some (exe_value w p)))))
  | all_subj ↦ none
  | pattern_type ↦ none
]

-- Every attribute that is kept is the one the system gives.
pub record Keeps (w : World) (p : ℤ) (a : SArray) : Type 0 where
  pub valid : IsValid a
  pub kept :
      (t : SubjectType) → (subject_access a t ≡ none) ⊎ (subject_access a t ≡ subj_value w p t)

type_at : ℕ → SubjectType
type_at n =
    get_or
      (all_subj ∷ auid ∷ uid ∷ sessionid ∷ pid ∷ ppid ∷ pattern_type ∷ subj_trust ∷ gid ∷ comm ∷ exe
        ∷ exe_dir ∷ exe_type ∷ [])
      n all_subj

type_at_lem : (t : SubjectType) → type_at (slot_of t) ≡ stored_type t
unfolding type_at
type_at_lem t = elim t as (λ k. type_at (slot_of k) ≡ stored_type k) [ all_subj ↦ refl | _ ↦ refl ]

value-stored :
    (w : World) (p : ℤ) (t : SubjectType) → subj_value w p (stored_type t) ≡ subj_value w p t
unfolding subj_value
value-stored w p t = elim t as (λ k. subj_value w p (stored_type k) ≡ subj_value w p k) [
  | all_subj ↦ refl
  | _ ↦ refl
]

value-slot :
    (w : World) (p : ℤ) (t u : SubjectType)
    → slot_of t ≡ slot_of u
    → subj_value w p t ≡ subj_value w p u
value-slot w p t u h =
    sym (value-stored w p t)
    ∙ ap (subj_value w p) (sym (type_at_lem t) ∙ ap type_at h ∙ type_at_lem u)
    ∙ value-stored w p u

module _ (w : World) (p : ℤ) where
  abbrev Stores : SubjectAttr → Type 0
  Stores sub =
      some (record { type = stored_type sub.type; value = copied_value sub.type sub.value })
      ≡ subj_value w p sub.type

  access-add :
      {a : SArray}
      → Keeps w p a
      → (sub : SubjectAttr) (u : SubjectType) → Stores sub
      → subject_access (subject_add a sub) u
        ≡ (if slot_of sub.type == slot_of u then subj_value w p u else subject_access a u)
  access-add {a} k sub u h =
      ground (arith, (access-subject_add_slot k.valid sub u).1, value-slot w p sub.type u)

  add-Keeps :
      {a : SArray} → Keeps w p a → (sub : SubjectAttr) → Stores sub → Keeps w p (subject_add a sub)
  add-Keeps {a} k sub h = record {
    valid = (access-subject_add_slot k.valid sub sub.type).0;
    kept = λ u. ground (arith, access-add k sub u h, k.kept u);
  }

  -- The status attributes: each is added under its bit of the mask.
  abbrev over : Bool → SubjectType → SubjectType → Option SubjectAttr → Option SubjectAttr
  over b i t r = if b then if slot_of i == slot_of t then subj_value w p t else r else r

  access-add_if :
      {a : SArray}
      → Keeps w p a
      → (b : Bool) (sub : SubjectAttr) (u : SubjectType) → (b ≡ true → Stores sub)
      → Keeps w p (add_if b sub a)
        × (subject_access (add_if b sub a) u ≡ over b sub.type u (subject_access a u))
  access-add_if k true sub u h = (add-Keeps k sub (h refl), access-add k sub u (h refl))
  access-add_if k false sub u h = (k, refl)

-- A lookup keeps what the system gives, changes the cache alone, and returns the attribute's value.
pub record Looked (w : World) (e : Event) (t : SubjectType) (r : Event × Option SubjectAttr)
    : Type 0 where
  pub keeps : Keeps w e.event_pid r.0.s
  pub rest : r.0 ≡ record e { s = r.0.s }
  pub value : r.1 ≡ subj_value w e.event_pid t

data IsStatus : SubjectType → Type 0 where
  is_ppid : IsStatus ppid
  is_uid : IsStatus uid
  is_gid : IsStatus gid
  is_comm : IsStatus comm

module _ (w : World) (e : Event) (k : Keeps w e.event_pid e.s) where
  cache_subj-Looked :
      (t : SubjectType) (v : SubjectAttr)
      → stored_type v.type ≡ stored_type t
      → Stores w e.event_pid v
      → Looked w e t (cache_subj e v)
  unfolding cache_subj
  cache_subj-Looked t v h sv = record {
    keeps = add-Keeps w e.event_pid k v sv;
    rest = refl;
    value = ground (
      arith,
      access-add w e.event_pid k v v.type sv,
      value-stored w e.event_pid v.type,
      value-stored w e.event_pid t,
    );
  }

  module _ (info : ProcStatusInfo)
      (hr : w.read_proc_status e.event_pid w.policy_get_proc_status_mask ≡ some info) where
    status_adds :
        (t : SubjectType)
        → let mask = w.policy_get_proc_status_mask in
          let p = e.event_pid in
          let r = fetch_proc_status w e t in
          Keeps w p r.0.s
          × (r.0 ≡ record e { s = r.0.s })
          × (r.1
              ≡ over w p (bit_at mask 3) comm t (
                  over w p (bit_at mask 2) gid t (
                    over w p
                      (bit_at mask 1)
                      uid
                      t
                      (over w p (bit_at mask 0) ppid t (subject_access e.s t)))))
    unfolding fetch_proc_status subj_value copied_value
    status_adds t =
        let mask = w.policy_get_proc_status_mask in
        let p = e.event_pid in
        let a1 =
          access-add_if w p k (bit_at mask 0) (subject_attr ppid (pid_val info.ppid_read)) t
            (λ b. ground (arith, hr, b)) in
        let a2 =
          access-add_if w p a1.0 (bit_at mask 1) (subject_attr uid (set_val info.uid_read)) t
            (λ b. ground (arith, hr, b)) in
        let a3 =
          access-add_if w p a2.0 (bit_at mask 2) (subject_attr gid (set_val info.groups)) t
            (λ b. ground (arith, hr, b)) in
        let a4 =
          access-add_if w p a3.0 (bit_at mask 3) (subject_attr comm (str info.comm_read)) t
            (λ b. ground (arith, hr, b)) in
        rw (fetch_proc_status, hr) (a4.0, refl, rw (a4.1, a3.1, a2.1, a1.1) refl)

    fetch_some :
        {t : SubjectType}
        → IsStatus t
        → subject_access e.s t ≡ none
        → Looked w e t (fetch_proc_status w e t)
    unfolding subj_value
    fetch_some is_ppid h =
        let (a, b, c) = status_adds ppid in
        record { keeps = a; rest = b; value = ground (arith, c, hr, h) }
    fetch_some is_uid h =
        let (a, b, c) = status_adds uid in
        record { keeps = a; rest = b; value = ground (arith, c, hr, h) }
    fetch_some is_gid h =
        let (a, b, c) = status_adds gid in
        record { keeps = a; rest = b; value = ground (arith, c, hr, h) }
    fetch_some is_comm h =
        let (a, b, c) = status_adds comm in
        record { keeps = a; rest = b; value = ground (arith, c, hr, h) }

  missing :
      {t : SubjectType}
      → w.read_proc_status e.event_pid w.policy_get_proc_status_mask ≡ none
      → IsStatus t
      → none ≡ subj_value w e.event_pid t
  unfolding subj_value
  missing hr is_ppid = ground (arith, hr)
  missing hr is_uid = ground (arith, hr)
  missing hr is_gid = ground (arith, hr)
  missing hr is_comm = ground (arith, hr)

  fetch_none :
      (t : SubjectType)
      → IsStatus t
      → w.read_proc_status e.event_pid w.policy_get_proc_status_mask ≡ none
      → Looked w e t (fetch_proc_status w e t)
  unfolding fetch_proc_status subj_value
  fetch_none t st hr =
      rw (fetch_proc_status, hr) (record { keeps = k; rest = refl; value = missing hr st })

  fetch_proc_status-Looked :
      (t : SubjectType)
      → IsStatus t
      → subject_access e.s t ≡ none
      → Looked w e t (fetch_proc_status w e t)
  fetch_proc_status-Looked t st h =
      elim (Option-cases (w.read_proc_status e.event_pid w.policy_get_proc_status_mask)) [
        | inl hr ↦ fetch_none t st hr
        | inr (info, hr) ↦ fetch_some info hr st h
      ]

-- A second lookup after a first.
Looked-trans :
    {w : World} {e e' : Event} {t : SubjectType} {r : Event × Option SubjectAttr}
    → e' ≡ record e { s = e'.s }
    → Looked w e' t r
    → Looked w e t r
Looked-trans {w} {e} {e'} {t} {r} h l =
    let hp : e'.event_pid ≡ e.event_pid = ap (λ z. z.event_pid) h in
    record {
      keeps = subst (λ p. Keeps w p r.0.s) hp l.keeps;
      rest = l.rest ∙ ap {A = Event} {B = Event} (λ z. record z { s = r.0.s }) h;
      value = l.value ∙ ap (λ p. subj_value w p t) hp;
    }

Keeps-rest :
    {w : World} {e : Event} {t : SubjectType} {r : Event × Option SubjectAttr}
    → Looked w e t r
    → Keeps w r.0.event_pid r.0.s
Keeps-rest {w} {e} {t} {r} l =
    subst (λ p. Keeps w p r.0.s) (sym (ap (λ z. z.event_pid) l.rest)) l.keeps

data IsExe : SubjectType → Type 0 where
  is_exe : IsExe exe
  is_exe_dir : IsExe exe_dir

ExeLink-cases :
    (x : ExeLink) → (x ≡ enoent) ⊎ ((buf : Bytes) × (x ≡ program buf)) ⊎ (x ≡ unreadable)
ExeLink-cases enoent = inl refl
ExeLink-cases (program buf) = inr (inl (buf, refl))
ExeLink-cases unreadable = inr (inr refl)

exe_value-str : (w : World) (p : ℤ) → str (str_of (exe_value w p).value) ≡ (exe_value w p).value
exe_value-str w p = ground arith

exe-Stores :
    (w : World) (p : ℤ) {t : SubjectType} (v : SubjectValue)
    → IsExe t
    → v ≡ (exe_value w p).value
    → Stores w p (subject_attr t v)
unfolding subj_value copied_value
exe-Stores w p v is_exe h = rw (h, exe_value-str w p) refl
exe-Stores w p v is_exe_dir h = rw (h, exe_value-str w p) refl

-- A thread of the kernel: no exe, so the comm.
exe_comm :
    (w : World) (p : ℤ) {sn : Option SubjectAttr}
    → w.get_program_from_pid p ≡ enoent
    → sn ≡ subj_value w p comm
    → comm_or_question sn ≡ (exe_value w p).value
unfolding subj_value
exe_comm w p h hs = rw (hs, h) refl

module _ (w : World) (e : Event) (k : Keeps w e.event_pid e.s) where
  cache_exe :
      {t : SubjectType} (v : SubjectValue)
      → IsExe t
      → v ≡ (exe_value w e.event_pid).value
      → Looked w e t (cache_subj e (subject_attr t v))
  cache_exe {t} v x h =
      cache_subj-Looked w e k t (subject_attr t v) refl (exe-Stores w e.event_pid v x h)

trust-Stores :
    (w : World) (p : ℤ) {a : Option SubjectAttr}
    → a ≡ subj_value w p exe
    → Stores w p (subject_attr subj_trust (uval (subj_trust_of w a)))
unfolding subj_value copied_value
trust-Stores w p h = rw (h) refl

module _ (w : World) (e : Event) (k : Keeps w e.event_pid e.s) where
  look_up_exe-Looked : {t : SubjectType} → IsExe t → Looked w e t (look_up_exe w e t)
  unfolding look_up_exe
  look_up_exe-Looked {t} x = elim (ExeLink-cases (w.get_program_from_pid e.event_pid)) [
    | inl h ↦ elim (Option-cases (subject_access e.s comm)) [
      | inl hn ↦
          let f = fetch_proc_status-Looked w e k comm is_comm hn in
          let (e', sn) = fetch_proc_status w e comm in
          rw (look_up_exe, h, hn)
            (Looked-trans f.rest (
              cache_exe w e' (Keeps-rest f) (comm_or_question sn) x (
                subst (λ p. comm_or_question sn ≡ (exe_value w p).value)
                  (sym (ap (λ z. z.event_pid) f.rest)) (exe_comm w e.event_pid h f.value))))
      | inr (sn, hs) ↦
          rw (look_up_exe, h, hs)
            (cache_exe w e k (comm_or_question (some sn)) x
              (exe_comm w e.event_pid {sn = some sn} h (ground (arith, hs, k.kept comm))))
    ]
    | inr (inl (buf, h)) ↦
        rw (look_up_exe, h) (cache_exe w e k (str (some buf)) x (ground (arith, h)))
    | inr (inr h) ↦
        rw (look_up_exe, h) (cache_exe w e k (str (some question)) x (ground (arith, h)))
  ]

  get_exe-Looked : Looked w e exe (get_exe w e)
  unfolding get_exe
  get_exe-Looked = elim (Option-cases (subject_access e.s exe)) [
    | inl hn ↦ rw (get_exe, hn) (look_up_exe-Looked is_exe)
    | inr (sn, hs) ↦
        rw (get_exe, hs) (record { keeps = k; rest = refl; value = ground (arith, hs, k.kept exe) })
  ]

  look_up_subj-Looked :
      (t : SubjectType) → subject_access e.s t ≡ none → Looked w e t (look_up_subj w e t)
  unfolding look_up_subj subj_value copied_value
  look_up_subj-Looked auid h =
      cache_subj-Looked w e k auid
        (subject_attr auid (uval (w.get_program_auid_from_pid e.event_pid))) refl refl
  look_up_subj-Looked ppid h = fetch_proc_status-Looked w e k ppid is_ppid h
  look_up_subj-Looked uid h = fetch_proc_status-Looked w e k uid is_uid h
  look_up_subj-Looked gid h = fetch_proc_status-Looked w e k gid is_gid h
  look_up_subj-Looked comm h = fetch_proc_status-Looked w e k comm is_comm h
  look_up_subj-Looked sessionid h =
      cache_subj-Looked w e k sessionid
        (subject_attr sessionid (uval (w.get_program_sessionid_from_pid e.event_pid))) refl refl
  look_up_subj-Looked pid h =
      cache_subj-Looked w e k pid (subject_attr pid (pid_val e.event_pid)) refl refl
  look_up_subj-Looked exe h = look_up_exe-Looked is_exe
  look_up_subj-Looked exe_dir h = look_up_exe-Looked is_exe_dir
  look_up_subj-Looked exe_type h =
      cache_subj-Looked w e k exe_type
        (subject_attr exe_type (str (or_question (w.get_type_from_pid e.event_pid)))) refl refl
  look_up_subj-Looked subj_trust h =
      let g = get_exe-Looked in
      let (e', a) = get_exe w e in
      Looked-trans g.rest (
        cache_subj-Looked w e' (Keeps-rest g) subj_trust
          (subject_attr subj_trust (uval (subj_trust_of w a))) refl
          (subst (λ p. Stores w p (subject_attr subj_trust (uval (subj_trust_of w a))))
            (sym (ap (λ z. z.event_pid) g.rest)) (trust-Stores w e.event_pid g.value)))
  look_up_subj-Looked all_subj h = record { keeps = k; rest = refl; value = refl }
  look_up_subj-Looked pattern_type h = record { keeps = k; rest = refl; value = refl }

  -- While the attributes that are kept are those the system gives, `get_subj_attr` returns the
  -- system's value of every attribute, keeps no other, and changes the subject's cache alone.
  pub get_subj_attr-Looked : (t : SubjectType) → Looked w e t (get_subj_attr w e t)
  unfolding get_subj_attr
  get_subj_attr-Looked t = elim (Option-cases (subject_access e.s t)) [
    | inl hn ↦ rw (get_subj_attr, hn) (look_up_subj-Looked t hn)
    | inr (sn, hs) ↦
        rw (get_subj_attr, hs)
          (record { keeps = k; rest = refl; value = ground (arith, hs, k.kept t) })
  ]
