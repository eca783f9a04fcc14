-- ===== src/AttrSets/Registry.antt =====
-- Finding named sets in the registry while it grows.
use native.Mathlib.Numerals.{add-one}
use fapolicyd.Prelude.{
  ℕ, zero, suc, ◌-◌, ◌*◌, ◌%◌, ◌/◌, take, ap, ◌≡◌, ◌≤◌, ◌<◌, ◌^◌, refl, true, Option, none, some,
  List, [], ◌∷◌, ◌++◌, arith, length, length-append, length-replicate, length-set, set, replicate,
  if◌then◌else◌,
}
use fapolicyd.Prelude.Bytes.{Bytes}
use fapolicyd.AttrSets.{
  AttrSet, AttrSets, attr_sets_create, make_room, attr_sets_add, attr_sets_resize, is_named,
  find_from, attr_sets_find, default_capacity,
}

-- The array has an entry for each place, and room is doubled.
pub record IsValid (sets : AttrSets) : Type 0 where
  pub storage : length sets.array ≡ sets.capacity
  pub within : sets.size ≤ sets.capacity
  pub positive : 0 < sets.capacity
  pub doubles : sets.resize_factor ≡ 2

pub attr_sets_create-IsValid : IsValid attr_sets_create
unfolding attr_sets_create
attr_sets_create-IsValid =
    ground (arith, length-replicate {A = Option AttrSet} default_capacity none)

find_from-set :
    (name : Bytes) (n : ℕ) (entries : List (Option AttrSet)) (e : AttrSet)
    → n < length entries
    → find_from name (suc n) (set entries n (some e)) ≡ elim (find_from name n entries) [
      | some found ↦ some found
      | none ↦ if is_named name (some e) then some e else none
    ]
unfolding find_from
find_from-set name n [] e h = absurd (omega arith)
find_from-set name zero (x ∷ entries) e h = refl
find_from-set name (suc n) (none ∷ entries) e h =
    unfold is_named in find_from-set name n entries e (omega arith)
find_from-set name (suc n) (some x ∷ entries) e h = ground (arith, find_from-set name n entries e)

find_from-append :
    (name : Bytes) (n : ℕ) (entries more : List (Option AttrSet))
    → n ≤ length entries
    → find_from name n (entries ++ more) ≡ find_from name n entries
unfolding find_from
find_from-append name zero entries more h = refl
find_from-append name (suc n) [] more h = absurd (omega arith)
find_from-append name (suc n) (x ∷ entries) more h =
    ground (arith, find_from-append name n entries more)

take-all {ℓ} : {A : Type ℓ} (xs : List A) (n : ℕ) → length xs ≡ n → take n xs ≡ xs
take-all [] zero h = refl
take-all [] (suc n) h = refl
take-all (x ∷ xs) zero h = absurd (omega arith)
take-all (x ∷ xs) (suc n) h = ap (◌∷◌ x) (take-all xs n (omega arith))

-- What a resize makes where no product wraps.
doubled : AttrSets → AttrSets
doubled sets = record sets {
  capacity = sets.capacity * 2;
  array = sets.array ++ replicate sets.capacity none;
}

module _ {sets : AttrSets} (v : IsValid sets) (small : 16 * sets.capacity < 2 ^ 64) where
  attr_sets_resize-doubled : attr_sets_resize sets ≡ doubled sets
  unfolding attr_sets_resize doubled
  attr_sets_resize-doubled =
      let c : sets.capacity * sets.resize_factor % 2 ^ 64 ≡ sets.capacity * 2 =
        rw (v.doubles) (omega (arith, small)) in
      let p : 8 * (sets.capacity * 2) % 2 ^ 64 / 8 ≡ sets.capacity * 2 = omega (arith, small) in
      let n : sets.capacity * 2 - length sets.array ≡ sets.capacity = omega (arith, v.storage) in
      rw (c, p, n)
        (ap (λ xs. record sets { capacity = sets.capacity * 2; array = xs })
          (take-all (sets.array ++ replicate sets.capacity none) (sets.capacity * 2) (
            omega (
              arith,
              v.storage,
              length-append sets.array (replicate sets.capacity none),
              length-replicate {A = Option AttrSet} sets.capacity none,
            ))))

  make_room-IsValid :
      (name : Bytes)
      → let room = make_room sets in
        IsValid room
        × (room.size < room.capacity)
        × (room.size ≡ sets.size)
        × (find_from name sets.size room.array ≡ find_from name sets.size sets.array)
  unfolding make_room doubled
  make_room-IsValid name =
      rw (make_room, attr_sets_resize-doubled)
        (ground (
          arith,
          length-append sets.array (replicate sets.capacity none),
          length-replicate {A = Option AttrSet} sets.capacity none,
          find_from-append name sets.size sets.array (replicate sets.capacity none),
        ))

  -- A set that is added to a valid registry leaves it valid, where the bytes of twice the capacity
  -- in pointers of eight bytes fit a `size_t`; every name is found as before, and the name of the new set is found if no earlier set
  -- has it.
  pub attr_sets_add_lem :
      (e : AttrSet) (name : Bytes)
      → let (sets', added) = attr_sets_add sets (some e) in
        (added ≡ true)
        × IsValid sets'
        × (attr_sets_find sets' (some name) ≡ elim (attr_sets_find sets (some name)) [
          | some found ↦ some found
          | none ↦ if is_named name (some e) then some e else none
        ])
  unfolding attr_sets_add attr_sets_find
  attr_sets_add_lem e name =
      let room = make_room sets in
      ground (
        arith,
        make_room-IsValid name,
        length-set room.array room.size (some e),
        find_from-set name room.size room.array e,
        add-one room.size,
      )
