-- ===== src/AttrSets/Lookup.antt =====
-- What is in a set after values are added to it.
use fapolicyd.Prelude.{
  ◌≡◌, refl, Bool, true, false, not, ◌||◌, Option, some, List, [], ◌∷◌, arith, Option-cases,
  if◌then◌else◌, inl, inr,
}
use fapolicyd.Prelude.Int.{ℤ, pos, negsuc, Cmp, equal, cmp_ℕ, cmp_ℤ}
use fapolicyd.Prelude.Bytes.{Bytes, bytes_eq, has_prefix}
use fapolicyd.Prelude.Compare.{strcmp, strcmp-equal, IsOrder, strcmp-IsOrder, cmp_ℤ-IsOrder}
use fapolicyd.Avl.{Tree, avl_search, avl_insert}
use fapolicyd.Avl.Order.{to_list, Sorted, insert_sorted}
use fapolicyd.Avl.Search.{avl_insert_lem, insert_at-to_list}
use fapolicyd.Avl.Balance.{IsBalanced, avl_insert-IsBalanced}
use fapolicyd.Avl.Walk.{is_some, any, traverse_list, avl_traverse_lem}
use fapolicyd.AttrSets.{
  Members, strings, signed, unsigned, AttrSet, glob_prefix, attr_set_append_int,
  attr_set_append_str, attr_set_check_int, attr_set_check_str, attr_set_check_pstr, strncmp_cb,
}

abbrev pub IsSearchable : Members → Type 0
IsSearchable (strings t) = Sorted strcmp (to_list t) × IsBalanced t
IsSearchable (signed t) = Sorted cmp_ℤ (to_list t) × IsBalanced t
IsSearchable (unsigned t) = Sorted cmp_ℕ (to_list t) × IsBalanced t

-- `has_glob` is set exactly if some entry begins with "glob:".
abbrev pub KnowsGlob : Bool → Members → Type 0
KnowsGlob g (strings t) = g ≡ any (has_prefix glob_prefix) (to_list t)
KnowsGlob g (signed t) = g ≡ false
KnowsGlob g (unsigned t) = g ≡ false

pub record IsValid (s : AttrSet) : Type 0 where
  pub searchable : IsSearchable s.members
  pub glob : KnowsGlob s.has_glob s.members

any-insert_sorted :
    {A : Type 0} (cmp : A → A → Cmp) (f : A → Bool) (item : A) (xs : List A)
    → any f (insert_sorted cmp item xs) ≡ (f item || any f xs)
unfolding any insert_sorted
any-insert_sorted cmp f item [] = refl
any-insert_sorted cmp f item (x ∷ xs) = ground (arith, any-insert_sorted cmp f item xs)

any-avl_insert :
    {A : Type 0} {cmp : A → A → Cmp} (o : IsOrder cmp) (f : A → Bool) (item : A) (t : Tree A)
    → Sorted cmp (to_list t)
    → any f (to_list (avl_insert cmp item t).0)
      ≡ (if (avl_insert cmp item t).1 then f item || any f (to_list t) else any f (to_list t))
unfolding avl_insert
any-avl_insert {cmp = cmp} o f item t s = elim (Option-cases (avl_search cmp item t)) [
  | inl h ↦
      rw (h, avl_insert, insert_at-to_list o item t s h) (any-insert_sorted cmp f item (to_list t))
  | inr (p, h) ↦ rw (h, avl_insert)
]

module _ {A : Type 0} {cmp : A → A → Cmp} (o : IsOrder cmp) (item k : A) (t : Tree A) where
  new-avl_insert : (avl_insert cmp item t).1 ≡ not (is_some (avl_search cmp item t))
  unfolding avl_insert
  new-avl_insert = ground arith

  search-avl_insert :
      Sorted cmp (to_list t)
      → IsBalanced t
      → let t' = (avl_insert cmp item t).0 in
        (Sorted cmp (to_list t') × IsBalanced t')
        × (is_some (avl_search cmp k t')
            ≡ elim (cmp k item) [ equal ↦ true | _ ↦ is_some (avl_search cmp k t) ])
  search-avl_insert s b =
      let (s', found, _) = avl_insert_lem o item k t s in
      ((s', (avl_insert-IsBalanced cmp item t b).0), ground (arith, found))

-- The walk of `attr_set_check_pstr` ends with -1 exactly at an entry that begins the string.
stops :
    (str : Bytes) (xs : List Bytes)
    → traverse_list (strncmp_cb str) xs
      ≡ (if any (λ e. has_prefix e str) xs then negsuc 0 else pos 0)
unfolding traverse_list any strncmp_cb
stops str [] = refl
stops str (x ∷ xs) = ground (arith, stops str xs)

module _ (name : Option Bytes) (g : Bool) (t : Tree Bytes) where
  abbrev pub string_set : AttrSet
  string_set = record { name = name; has_glob = g; members = strings t }

  -- To append a string to a valid string set succeeds exactly if it was not in the set; afterwards
  -- the set holds the string and all that it held before, no more, and is valid still.
  pub append_str-check_str :
      (str k : Bytes)
      → IsValid string_set
      → (s' : AttrSet) × (attr_set_append_str (some string_set) (some str)
          ≡ (some s', not (attr_set_check_str (some string_set) (some str))))
        × IsValid s'
        × (attr_set_check_str (some s') (some k)
            ≡ (bytes_eq k str || attr_set_check_str (some string_set) (some k)))
  unfolding attr_set_append_str attr_set_check_str
  append_str-check_str str k v = (
    record {
      name = name;
      has_glob =
          if (avl_insert strcmp str t).1 then if has_prefix glob_prefix str then true else g else g;
      members = strings (avl_insert strcmp str t).0;
    },
    ground (arith, new-avl_insert strcmp-IsOrder str k t),
    record {
      searchable = (search-avl_insert strcmp-IsOrder str k t v.searchable.0 v.searchable.1).0;
      glob = ground (
        arith,
        any-avl_insert strcmp-IsOrder (has_prefix glob_prefix) str t v.searchable.0,
        v.glob,
      );
    },
    ground (
      arith,
      strcmp-equal k str,
      (search-avl_insert strcmp-IsOrder str k t v.searchable.0 v.searchable.1).1,
    ),
  )

  -- A string is matched by `attr_set_check_pstr` exactly if some entry of the string set begins it.
  pub check_pstr-any :
      (str : Bytes)
      → attr_set_check_pstr (some string_set) (some str) ≡ any (λ e. has_prefix e str) (to_list t)
  unfolding attr_set_check_pstr
  check_pstr-any str = ground (arith, avl_traverse_lem (strncmp_cb str) t, stops str (to_list t))

module _ (name : Option Bytes) (g : Bool) (num k : ℤ) where
  abbrev pub signed_set : Tree ℤ → AttrSet
  signed_set t = record { name = name; has_glob = g; members = signed t }

  -- To append a number to a valid SIGNED set succeeds exactly if it was not in the set; afterwards
  -- the set holds the number and all that it held before, no more, and is valid still.
  pub append_int-check_int :
      (t : Tree ℤ)
      → IsValid (signed_set t)
      → (s' : AttrSet) × (attr_set_append_int (some (signed_set t)) num
          ≡ (some s', not (attr_set_check_int (some (signed_set t)) num)))
        × IsValid s'
        × (attr_set_check_int (some s') k
            ≡ elim (cmp_ℤ k num) [ equal ↦ true | _ ↦ attr_set_check_int (some (signed_set t)) k ])
  unfolding attr_set_append_int attr_set_check_int
  append_int-check_int t v = (
    signed_set (avl_insert cmp_ℤ num t).0,
    ground (arith, new-avl_insert cmp_ℤ-IsOrder num k t),
    record {
      searchable = (search-avl_insert cmp_ℤ-IsOrder num k t v.searchable.0 v.searchable.1).0;
      glob = v.glob;
    },
    ground (arith, (search-avl_insert cmp_ℤ-IsOrder num k t v.searchable.0 v.searchable.1).1),
  )
