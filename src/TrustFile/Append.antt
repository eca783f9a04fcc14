-- ===== src/TrustFile/Append.antt =====
-- `trust_file_append` on a file that loads, or that is not there yet.
use fapolicyd.Prelude.{
  ℕ, ◌≡◌, refl, sym, ap, subst, ◌∙◌, Bool, true, false, Option, none, some, List, [], ◌∷◌, ◌++◌,
  arith, ◌⊎◌, inl, inr,
}
use fapolicyd.Prelude.Bytes.{Bytes}
use fapolicyd.TrustFile.{headers, item_lines, join_lines, file_text, data_format, write_out_list}
use fapolicyd.TrustFile.Load.{make_data_string, measure_items, trust_file_load, trust_file_append}
use fapolicyd.TrustFile.Lines.{Entry}
use fapolicyd.TrustFile.Entries.{items_of, AreWritable, are_distinct, item_lines-items_of}
use fapolicyd.TrustFile.RoundTrip.{trust_file_load-write_out_list}

abbrev pub paths_of : List Entry → List Bytes
paths_of [] = []
paths_of (e ∷ es) = e.path ∷ paths_of es

-- The system measures the files of entries as these say.
abbrev pub AreMeasured : (Bytes → Option (ℕ × Bytes)) → List Entry → Type 0
AreMeasured measure [] = Unit
AreMeasured measure (e ∷ es) = (measure e.path ≡ some (e.size, e.sha)) × AreMeasured measure es

-- A file that loads as entries; one that is not there has none.
abbrev pub Loads : Option Bytes → List Entry → Type 0
Loads file es = (trust_file_load file ≡ (0, items_of 2 es)) ⊎ (file ≡ none) × (es ≡ [])

pub make_data_string_lem :
    (measure : Bytes → Option (ℕ × Bytes)) (path : Bytes) (size : ℕ) (sha : Bytes)
    → measure path ≡ some (size, sha)
    → make_data_string measure path ≡ some (data_format 0 size sha)
unfolding make_data_string
make_data_string_lem measure path size sha m = rw (make_data_string, m) refl

measure_items-items_of :
    (measure : Bytes → Option (ℕ × Bytes)) (es : List Entry)
    → AreMeasured measure es
    → measure_items measure (paths_of es) ≡ some (items_of 0 es)
unfolding measure_items
measure_items-items_of measure [] m = refl
measure_items-items_of measure (e ∷ es) (m, ms) =
    rw
      (
        measure_items,
        make_data_string_lem measure e.path e.size e.sha m,
        measure_items-items_of measure es ms,
      )
      refl

-- The source of an item is not written.
item_lines-sources :
    (es added : List Entry)
    → item_lines (items_of 2 es ++ items_of 0 added) ≡ item_lines (items_of 2 (es ++ added))
unfolding item_lines
item_lines-sources [] added =
    item_lines-items_of 0 added (omega arith) ∙ sym (item_lines-items_of 2 added (omega arith))
item_lines-sources (e ∷ es) added = rw (item_lines-sources es added) refl

write_out_list-sources :
    (file : Option Bytes) (es added : List Entry)
    → write_out_list true file (items_of 2 es ++ items_of 0 added)
      ≡ write_out_list true file (items_of 2 (es ++ added))
unfolding write_out_list file_text
write_out_list-sources file es added =
    ap (λ ls. (some (join_lines (headers ++ ls)), 0)) (item_lines-sources es added)

load_none : trust_file_load none ≡ (1, [])
unfolding trust_file_load
load_none = refl

append-loaded :
    (measure : Bytes → Option (ℕ × Bytes)) (opens : Bool) (file : Option Bytes)
    (es added : List Entry)
    → Loads file es
    → AreMeasured measure added
    → trust_file_append measure opens file (paths_of added)
      ≡ some (true, (write_out_list opens file (items_of 2 es ++ items_of 0 added)).0)
unfolding trust_file_append
append-loaded measure opens file es added (inl l) m =
    rw (trust_file_append, measure_items-items_of measure added m, l) refl
append-loaded measure opens file es added (inr (f, n)) m =
    let l : trust_file_load file ≡ (1, []) = ap trust_file_load f ∙ load_none in
    rw (trust_file_append, measure_items-items_of measure added m, l, n) refl

-- What an addition returns and leaves, by whether the file can be opened for writing.
abbrev pub Appends : Bool → Option Bytes → List Entry → Option (Bool × Option Bytes) → Type 0
Appends true file es r =
    (file' : Option Bytes) × (r ≡ some (true, file')) × (trust_file_load file' ≡ (0, items_of 2 es))
Appends false file es r = r ≡ some (true, file)

-- Let a file load as entries, or not be there, and let a file be able to hold these and new ones,
-- whose files the system measures, with paths that differ. Then `trust_file_append` of the new
-- paths returns 0; where it can open the file for writing, the file loads afterwards as the
-- entries and then the new ones with their sizes and digests, and where it cannot, the file is
-- what it was.
pub trust_file_append-Appends :
    (measure : Bytes → Option (ℕ × Bytes)) (opens : Bool) (file : Option Bytes)
    (es added : List Entry)
    → Loads file es
    → AreMeasured measure added
    → AreWritable (es ++ added)
    → are_distinct (es ++ added) ≡ true
    → Appends opens file (es ++ added) (trust_file_append measure opens file (paths_of added))
unfolding write_out_list
trust_file_append-Appends measure false file es added l m w d =
    append-loaded measure false file es added l m
trust_file_append-Appends measure true file es added l m w d = (
  (write_out_list true file (items_of 2 es ++ items_of 0 added)).0,
  append-loaded measure true file es added l m,
  subst (λ p. trust_file_load p.0 ≡ (0, items_of 2 (es ++ added)))
      (sym (write_out_list-sources file es added))
      (trust_file_load-write_out_list file 2 (es ++ added) (omega arith) w d),
)
