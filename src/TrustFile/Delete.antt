-- ===== src/TrustFile/Delete.antt =====
-- `trust_file_delete_path` on a file that `write_out_list` wrote, whether it can be written again or
-- not.
use fapolicyd.Prelude.{
  ℕ, suc, ◌+◌, ◌-◌, ◌≡◌, ◌<◌, refl, sym, ap, subst, ◌∙◌, Bool, true, false, Option, List, [], ◌∷◌,
  arith, ◌==◌, length, if◌then◌else◌, Bool-cases, if-cases, inl, inr,
}
use fapolicyd.Prelude.Bytes.{Bytes, has_prefix}
use fapolicyd.TrustFile.{TrustItem, write_out_list}
use fapolicyd.TrustFile.Load.{
  trust_file_load, delete_items, Edited, edited, rewritten, trust_file_delete_path,
}
use fapolicyd.TrustFile.Lines.{Entry}
use fapolicyd.TrustFile.Entries.{items_of, AreWritable, has_path, are_distinct}
use fapolicyd.TrustFile.RoundTrip.{trust_file_load-write_out_list}

-- The entries whose path does not begin with a string.
unfoldable pub without : Bytes → List Entry → List Entry
unfolding has_prefix
without path [] = []
without path (e ∷ es) =
    let rest = without path es in if has_prefix path e.path then rest else e ∷ rest

-- How many entries it leaves out.
unfoldable pub left_out : Bytes → List Entry → ℕ
unfolding has_prefix
left_out path [] = 0
left_out path (e ∷ es) = let n = left_out path es in if has_prefix path e.path then suc n else n

delete_items-items_of :
    (path : Bytes) (source : ℕ) (es : List Entry)
    → delete_items path (items_of source es) ≡ (left_out path es, items_of source (without path es))
unfolding delete_items without left_out
delete_items-items_of path source [] = refl
delete_items-items_of path source (e ∷ es) =
    rw (delete_items-items_of path source es)
      (elim (Bool-cases (has_prefix path e.path)) [ inl h ↦ simp h refl | inr h ↦ simp h refl ])

left_out-length :
    (path : Bytes) (es : List Entry) → left_out path es + length (without path es) ≡ length es
unfolding without left_out
left_out-length path [] = refl
left_out-length path (e ∷ es) = elim (Bool-cases (has_prefix path e.path)) [
  | inl h ↦ simp h (omega (arith, left_out-length path es))
  | inr h ↦ simp h (omega (arith, left_out-length path es))
]

without_none : (path : Bytes) (es : List Entry) → left_out path es ≡ 0 → without path es ≡ es
unfolding without left_out
without_none path [] h = refl
without_none path (e ∷ es) h = elim (Bool-cases (has_prefix path e.path)) [
  | inl p ↦ ground arith
  | inr p ↦ simp p (ap (λ l. e ∷ l) (without_none path es (ground arith)))
]

without-AreWritable :
    (path : Bytes) (es : List Entry) → AreWritable es → AreWritable (without path es)
unfolding without AreWritable
without-AreWritable path [] w = w
without-AreWritable path (e ∷ es) (w, ws) =
    let ih = without-AreWritable path es ws in
    if-cases AreWritable (has_prefix path e.path) (without path es) (e ∷ without path es) (λ h. ih)
      (λ h. (w, ih))

has_path-without :
    (path p : Bytes) (es : List Entry)
    → has_path p es ≡ false
    → has_path p (without path es) ≡ false
unfolding without has_path
has_path-without path p [] h = refl
has_path-without path p (e ∷ es) h =
    let ih = has_path-without path p es (ground arith) in
    if-cases (λ l. has_path p l ≡ false) (has_prefix path e.path) (without path es)
      (e ∷ without path es) (λ k. ih) (λ k. ground (arith, ih))

without-distinct :
    (path : Bytes) (es : List Entry)
    → are_distinct es ≡ true
    → are_distinct (without path es) ≡ true
unfolding without are_distinct
without-distinct path [] d = refl
without-distinct path (e ∷ es) d =
    let ih = without-distinct path es (ground arith) in
    let n = has_path-without path e.path es (ground arith) in
    if-cases (λ l. are_distinct l ≡ true) (has_prefix path e.path) (without path es)
      (e ∷ without path es) (λ k. ih) (λ k. ground (arith, ih, n))

-- Where the file loads, an edit is that of its items.
delete_path-loaded :
    (opens : Bool) (file : Option Bytes) (path : Bytes) (items : List TrustItem)
    → trust_file_load file ≡ (0, items)
    → trust_file_delete_path opens file path
      ≡ rewritten opens file (delete_items path items).0 (delete_items path items).1
unfolding trust_file_delete_path
delete_path-loaded opens file path items e = rw (trust_file_delete_path, e) refl

-- What a call on a file of entries returns and leaves, by whether the file can be opened again.
abbrev Deletes : Bool → Option Bytes → Bytes → List Entry → Edited × Option Bytes → Type 0
Deletes opens file path es r = (r.0 ≡ edited (length es - length (without path es))) × elim opens [
  | true ↦ trust_file_load r.1 ≡ (0, items_of 2 (without path es))
  | false ↦ r.1 ≡ file
]

-- The rest is written, whether the file can be opened or not.
rewritten-Deletes :
    (opens : Bool) (file : Option Bytes) (path : Bytes) (es : List Entry)
    → trust_file_load file ≡ (0, items_of 2 es)
    → AreWritable es
    → are_distinct es ≡ true
    → Deletes opens file path es
        (rewritten opens file (left_out path es) (items_of 2 (without path es)))
unfolding write_out_list
rewritten-Deletes false file path es loaded w d =
    let n = left_out-length path es in
    (
      ap edited (omega arith),
      if-cases (λ f. f ≡ file) (left_out path es == 0) file file (λ z. refl) (λ z. refl),
    )
rewritten-Deletes true file path es loaded w d =
    let n = left_out-length path es in
    let rest = without path es in
    (
      ap edited (omega arith),
      if-cases (λ f. trust_file_load f ≡ (0, items_of 2 rest)) (left_out path es == 0) file
          (write_out_list true file (items_of 2 rest)).0
          (λ z. loaded ∙ ap (λ l. (0, items_of 2 l)) (sym (without_none path es (ground arith))))
          (λ z.
            trust_file_load-write_out_list file 2 rest (omega arith) (without-AreWritable path es w)
              (without-distinct path es d)),
    )

-- In a file that `write_out_list` made of entries that it can hold, with paths that differ,
-- `trust_file_delete_path` counts the entries whose path begins with the string. Where it can open the
-- file for writing, it leaves a file that loads as the other entries, in their order; where it cannot,
-- it returns the same count and the file is what it was.
pub trust_file_delete_path-without :
    (opens : Bool) (before : Option Bytes) (source : ℕ) (es : List Entry) (path : Bytes)
    → source < 10
    → AreWritable es
    → are_distinct es ≡ true
    → let file = (write_out_list true before (items_of source es)).0 in
      Deletes opens file path es (trust_file_delete_path opens file path)
trust_file_delete_path-without opens before source es path h w d =
    let file = (write_out_list true before (items_of source es)).0 in
    let loaded = trust_file_load-write_out_list before source es h w d in
    let parts = delete_items-items_of path 2 es in
    let e =
      delete_path-loaded opens file path (items_of 2 es) loaded
      ∙ ap (λ p. rewritten opens file p.0 p.1) parts in
    subst (Deletes opens file path es) (sym e) (rewritten-Deletes opens file path es loaded w d)
