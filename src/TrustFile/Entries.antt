-- ===== src/TrustFile/Entries.antt =====
-- Entries as items, and the lines that `write_out_list` writes for them.
use fapolicyd.Prelude.{
  ℕ, ◌≡◌, ◌<◌, refl, sym, ap, ap₂, ◌∙◌, Bool, true, false, not, ◌&&◌, ◌||◌, List, [], ◌∷◌, ◌++◌,
  arith, length-append, drop,
}
use mathlib.Core.List.{append_assoc}
use fapolicyd.Prelude.Bytes.{Bytes, bytes_eq}
use fapolicyd.StringUtil.{isspace}
use fapolicyd.TrustFile.{TrustItem, digits, data_format, item_lines}
use fapolicyd.TrustFile.Load.{is_listed}
use fapolicyd.TrustFile.Digits.{
  all_digits, digits-all_digits, digits-append, one_digit, length-digits,
}
use fapolicyd.TrustFile.Lines.{
  Entry, IsWritable, text_of, no_space, no_newline, digits_no_space, with_newlines, AllFit,
  FitsBuffer,
}

-- The item of an entry, from a source.
abbrev pub item_of : ℕ → Entry → TrustItem
item_of source e = record { index = e.path; payload = data_format source e.size e.sha }

abbrev pub items_of : ℕ → List Entry → List TrustItem
items_of source [] = []
items_of source (e ∷ es) = item_of source e ∷ items_of source es

abbrev pub texts_of : List Entry → List Bytes
texts_of [] = []
texts_of (e ∷ es) = text_of e ∷ texts_of es

unfoldable pub AreWritable : List Entry → Type 0
AreWritable [] = Unit
AreWritable (e ∷ es) = IsWritable e × AreWritable es

-- Whether an entry has a path.
unfoldable pub has_path : Bytes → List Entry → Bool
has_path path [] = false
has_path path (e ∷ es) = bytes_eq e.path path || has_path path es

unfoldable pub are_distinct : List Entry → Bool
unfolding has_path
are_distinct [] = true
are_distinct (e ∷ es) = not (has_path e.path es) && are_distinct es

-- No entry is listed yet.
unfoldable pub all_new : List TrustItem → List Entry → Bool
all_new items [] = true
all_new items (e ∷ es) = not (is_listed e.path items) && all_new items es

no_newline-append :
    (a b : Bytes) → no_newline a ≡ true → no_newline b ≡ true → no_newline (a ++ b) ≡ true
unfolding no_newline
no_newline-append [] b h k = k
no_newline-append (c ∷ a) b h k = ground (arith, no_newline-append a b)

no_space-no_newline : (s : Bytes) → no_space s ≡ true → no_newline s ≡ true
unfolding no_space no_newline isspace
no_space-no_newline [] h = refl
no_space-no_newline (c ∷ s) h = ground (arith, no_space-no_newline s)

text_of-FitsBuffer : (e : Entry) → IsWritable e → FitsBuffer (text_of e)
unfolding no_newline all_digits
text_of-FitsBuffer e w =
    let size = digits 20 e.size [] in
    let tail = size ++ (32 ∷ e.sha) in
    let d = digits_no_space size (digits-all_digits 20 e.size [] refl) in
    (
      no_newline-append e.path (32 ∷ tail) w.path_line (
          no_newline-append size (32 ∷ e.sha) (no_space-no_newline size d)
            (no_space-no_newline e.sha w.sha_text)),
      omega (
        arith,
        length-append e.path (32 ∷ tail),
        length-append size (32 ∷ e.sha),
        length-digits 20 e.size [],
        w.path_fits,
        w.sha_length,
      ),
    )

pub texts_of-AllFit : (es : List Entry) → AreWritable es → AllFit (texts_of es)
unfolding AreWritable AllFit
texts_of-AllFit [] w = tt
texts_of-AllFit (e ∷ es) (w, ws) = (text_of-FitsBuffer e w, texts_of-AllFit es ws)

-- The text of an item of a source of one digit, without it.
pub drop-payload :
    (source : ℕ) (e : Entry)
    → source < 10
    → drop 2 (data_format source e.size e.sha) ≡ digits 20 e.size [] ++ (32 ∷ e.sha)
unfolding data_format
drop-payload source e h =
    ap (drop 2) (one_digit 19 source (32 ∷ digits 20 e.size (32 ∷ e.sha)) h)
    ∙ digits-append 20 e.size [] (32 ∷ e.sha)

pub item_lines-items_of :
    (source : ℕ) (es : List Entry)
    → source < 10
    → item_lines (items_of source es) ≡ with_newlines (texts_of es)
unfolding item_lines with_newlines
item_lines-items_of source [] h = refl
item_lines-items_of source (e ∷ es) h =
    let rest = digits 20 e.size [] ++ (32 ∷ e.sha) in
    ap₂ (λ l ls. l ∷ ls)
      (ap (λ d. e.path ++ (32 ∷ (d ++ (10 ∷ [])))) (drop-payload source e h)
        ∙ sym (append_assoc e.path (32 ∷ rest) (10 ∷ [])))
      (item_lines-items_of source es h)

is_listed-append :
    (path : Bytes) (items : List TrustItem) (item : TrustItem)
    → is_listed path (items ++ (item ∷ [])) ≡ is_listed path items || bytes_eq path item.index
unfolding is_listed
is_listed-append path [] item = ground arith
is_listed-append path (i ∷ items) item = rw (is_listed-append path items item) (ground arith)

pub all_new-append :
    (items : List TrustItem) (item : TrustItem) (es : List Entry)
    → all_new items es ≡ true
    → has_path item.index es ≡ false
    → all_new (items ++ (item ∷ [])) es ≡ true
unfolding all_new has_path
all_new-append items item [] h k = refl
all_new-append items item (e ∷ es) h k =
    ground (arith, is_listed-append e.path items item, all_new-append items item es)
