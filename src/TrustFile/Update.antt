-- ===== src/TrustFile/Update.antt =====
-- `trust_file_update_path` on a file that loads.
use fapolicyd.Prelude.{ℕ, suc, ◌≡◌, Bool, true, false, ◌&&◌, Option, none, some, List, [], ◌∷◌}
use fapolicyd.Prelude.Bytes.{Bytes, has_prefix}
use fapolicyd.Filter.{Walk}
use fapolicyd.TrustFile.{TrustItem}
use fapolicyd.TrustFile.Load.{Edited, edited, passes, trust_file_load}
use fapolicyd.TrustFile.Lines.{Entry}
use fapolicyd.TrustFile.Entries.{item_of, items_of}

module _ (measure : Bytes → Option (ℕ × Bytes)) (path : Bytes)
    (filter : Option (Bytes → Option Walk)) where
  -- Whether an entry is measured again.
  abbrev pub is_due : Entry → Bool
  is_due e = has_prefix path e.path && passes measure filter e.path

  -- The entry as the system measures it now, if it is due and can be measured.
  abbrev pub remeasured : Bool → Option (ℕ × Bytes) → Entry → Option Entry
  remeasured true (some (size, sha)) e = some record e { size = size; sha = sha }
  remeasured due m e = none

  abbrev pub or_same : Option Entry → Entry → Entry
  or_same (some e') e = e'
  or_same none e = e

  abbrev pub refresh : Entry → Option Entry
  refresh e = remeasured (is_due e) (measure e.path) e

  unfoldable pub refreshed : List Entry → List Entry
  refreshed [] = []
  refreshed (e ∷ es) = or_same (refresh e) e ∷ refreshed es

  abbrev pub one_if : Option Entry → ℕ → ℕ
  one_if (some e) n = suc n
  one_if none n = n

  -- How many are measured again.
  unfoldable pub refreshes : List Entry → ℕ
  refreshes [] = 0
  refreshes (e ∷ es) = one_if (refresh e) (refreshes es)

  abbrev item_after : Option Entry → Entry → TrustItem
  item_after (some e') e = item_of 0 e'
  item_after none e = item_of 2 e

  -- What a call on a file of entries returns and leaves, by whether the file can be opened again.
  abbrev pub Updates : Bool → Option Bytes → List Entry → Edited × Option Bytes → Type 0
  Updates true file es r =
      (r.0 ≡ edited (refreshes es)) × (trust_file_load r.1 ≡ (0, items_of 2 (refreshed es)))
  Updates false file es r = (r.0 ≡ edited (refreshes es)) × (r.1 ≡ file)
